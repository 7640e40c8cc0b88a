-- ===== src/Reconcile/Delivery.antt =====
-- src/reconcile/delivery/mod.rs: whether the pending mentions of a session go into its terminal now.
pub mod Policy
use tenex_edge.Base.{
  ℕ, ◌-◌, String, Bool, ◌&&◌, not, Option, none, some, List, [], ◌∷◌, ltb, max, is_empty,
  if◌then◌else◌,
}

pub record DeliveryScanFact : Type 0 where
  pub pubkey : String
  pub pending_event_ids : List String
  pub endpoint_id : Option String
  pub endpoint_live : Bool
  pub last_injected_at : Option ℕ
  pub debounce_secs : ℕ
  pub force : Bool
  pub at : ℕ

pub data DeliveryAction : Type 0 where
  inject defer_debounced defer_no_endpoint clear_dead_endpoint : DeliveryAction

unfoldable pub as_str : DeliveryAction → String
as_str inject = "inject"
as_str defer_debounced = "defer_debounced"
as_str defer_no_endpoint = "defer_no_endpoint"
as_str clear_dead_endpoint = "clear_dead_endpoint"

pub record DeliveryDecision : Type 0 where
  pub pubkey : String
  pub action : DeliveryAction
  pub event_ids : List String
  pub endpoint_id : Option String
  pub retry_after_secs : Option ℕ

pub data DeliveryEffect : Type 0 where
  inject : String → String → List String → DeliveryEffect
  retry_after : String → ℕ → DeliveryEffect
  clear_dead_endpoint : String → DeliveryEffect

-- `unwrap_or(0)`
abbrev pub last_of : Option ℕ → ℕ
last_of none = 0
last_of (some at) = at

abbrev pub decision :
    DeliveryScanFact → DeliveryAction → Option String → Option ℕ → DeliveryDecision
decision fact action endpoint_id retry_after_secs = record {
  pubkey = fact.pubkey;
  action = action;
  event_ids = fact.pending_event_ids;
  endpoint_id = endpoint_id;
  retry_after_secs = retry_after_secs;
}

-- The part of `decide` that follows `let Some(endpoint_id) = … else`.
unfoldable pub decide_endpoint : DeliveryScanFact → String → DeliveryDecision
decide_endpoint fact endpoint_id =
    let last = last_of fact.last_injected_at in
    let elapsed = fact.at - last in
    if not fact.endpoint_live
    then decision fact DeliveryAction.clear_dead_endpoint (some endpoint_id) none
    else if not fact.force && ltb 0 last && ltb elapsed fact.debounce_secs
    then decision fact defer_debounced (some endpoint_id)
        (some (max (fact.debounce_secs - elapsed) 1))
    else decision fact DeliveryAction.inject (some endpoint_id) none

unfoldable pub decide : DeliveryScanFact → Option DeliveryDecision
unfolding decide_endpoint
decide fact = if is_empty fact.pending_event_ids then none else elim fact.endpoint_id [
  | none ↦ some (decision fact defer_no_endpoint none none)
  | some endpoint_id ↦ some (decide_endpoint fact endpoint_id)
]

-- The arms of the `match` on the action.
unfoldable pub effects_of :
    DeliveryAction → String → List String → Option String → Option ℕ → List DeliveryEffect
effects_of DeliveryAction.inject pubkey event_ids none retry_after_secs = []
effects_of DeliveryAction.inject pubkey event_ids (some endpoint_id) retry_after_secs =
    DeliveryEffect.inject pubkey endpoint_id event_ids ∷ []
effects_of defer_debounced pubkey event_ids endpoint_id none = []
effects_of defer_debounced pubkey event_ids endpoint_id (some delay_secs) =
    retry_after pubkey delay_secs ∷ []
effects_of DeliveryAction.clear_dead_endpoint pubkey event_ids endpoint_id retry_after_secs =
    DeliveryEffect.clear_dead_endpoint pubkey ∷ []
effects_of defer_no_endpoint pubkey event_ids endpoint_id retry_after_secs = []

unfoldable pub effects : Option DeliveryDecision → List DeliveryEffect
unfolding effects_of
effects none = []
effects (some d) = effects_of d.action d.pubkey d.event_ids d.endpoint_id d.retry_after_secs
