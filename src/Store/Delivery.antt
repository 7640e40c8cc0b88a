-- ===== src/Store/Delivery.antt =====
-- src/state/inbox/delivery.rs: claiming pending messages, and their way to the agent's turn.
pub mod Handout
use tenex_edge.Base.{ℕ, String, Bool, ◌&&◌, ◌||◌, not, List, [], ◌∷◌, ◌++◌, ◌==◌, ◌=?◌, ltb, leb}
use tenex_edge.Table.{select, update, returning}
use tenex_edge.Table.Order.{sort_by}
use tenex_edge.Store.{
  Store, InboxRow, InboxState, delivered, injected, echo_consumed, inbox_is, is_pending,
  is_delivered, is_injected,
}
use tenex_edge.Store.Inbox.{created_order, is_pending_for}
use tenex_edge.Store.WorkStart.{stage_from_inbox}

abbrev pub deliver_row : ℕ → InboxRow → InboxRow
deliver_row now r = record r { state = delivered; delivered_at = now }

-- `claim_pending_for_pubkey`
unfoldable pub claim_pending_for_pubkey : String → ℕ → Store → Store × List InboxRow
unfolding is_pending_for created_order stage_from_inbox
claim_pending_for_pubkey target_pubkey now s =
    let out =
      sort_by created_order (returning (is_pending_for target_pubkey) (deliver_row now) s.inbox) in
    (
      record s {
        inbox = update (is_pending_for target_pubkey) (deliver_row now) s.inbox;
        event_claims = stage_from_inbox out now s.event_claims;
      },
      out,
    )

-- `event_id=?1 AND target_pubkey=?2 AND state='pending'`
unfoldable pub is_pending_event : String → String → InboxRow → Bool
unfolding is_pending
is_pending_event event_id target_pubkey r = inbox_is event_id target_pubkey r && is_pending r.state

-- The loop of `claim_pending_event_ids_for_pubkey`: the table, and the rows in the order of the ids.
unfoldable pub claim_each : List String → String → ℕ → List InboxRow → List InboxRow × List InboxRow
unfolding is_pending_event
claim_each [] target_pubkey now t = (t, [])
claim_each (event_id ∷ ids) target_pubkey now t =
    let (t', out) =
      claim_each ids target_pubkey now
        (update (is_pending_event event_id target_pubkey) (deliver_row now) t) in
    (t', returning (is_pending_event event_id target_pubkey) (deliver_row now) t ++ out)

unfoldable pub claim_pending_event_ids_for_pubkey :
    List String → String → ℕ → Store → Store × List InboxRow
unfolding claim_each created_order
claim_pending_event_ids_for_pubkey event_ids target_pubkey now s =
    let (t, out) = claim_each event_ids target_pubkey now s.inbox in
    (record s { inbox = t }, sort_by created_order out)

-- `reenqueue_pending`, one id and then all
abbrev pub reenqueue_row : InboxRow → InboxRow
reenqueue_row r = record r { state = InboxState.pending; delivered_at = 0 }

unfoldable pub reenqueue_each : List String → String → List InboxRow → List InboxRow
reenqueue_each [] target_pubkey t = t
reenqueue_each (event_id ∷ ids) target_pubkey t =
    reenqueue_each ids target_pubkey (update (inbox_is event_id target_pubkey) reenqueue_row t)

unfoldable pub reenqueue_pending : List String → String → Store → Store
unfolding reenqueue_each
reenqueue_pending event_ids target_pubkey s = record s {
  inbox = reenqueue_each event_ids target_pubkey s.inbox;
}

-- `state IN ('delivered', 'injected', 'echo_consumed') AND delivered_at>=?2`
unfoldable pub is_recently_delivered : String → ℕ → InboxRow → Bool
unfolding is_pending
is_recently_delivered target_pubkey since r =
    r.target_pubkey == target_pubkey && not (is_pending r.state) && leb since r.delivered_at

unfoldable pub recently_delivered_for_pubkey : String → ℕ → Store → List InboxRow
unfolding is_recently_delivered created_order
recently_delivered_for_pubkey target_pubkey since s =
    sort_by created_order (select (is_recently_delivered target_pubkey since) s.inbox)

unfoldable pub is_delivered_event : String → String → InboxRow → Bool
unfolding is_delivered
is_delivered_event event_id target_pubkey r =
    inbox_is event_id target_pubkey r && is_delivered r.state

unfoldable pub is_injected_event : String → String → InboxRow → Bool
unfolding is_injected
is_injected_event event_id target_pubkey r =
    inbox_is event_id target_pubkey r && is_injected r.state

-- The two loops of `mark_injected_for_echo`.
unfoldable pub inject_each : List String → String → List InboxRow → List InboxRow
unfolding is_delivered_event
inject_each [] target_pubkey t = t
inject_each (event_id ∷ ids) target_pubkey t =
    inject_each ids target_pubkey
      (update (is_delivered_event event_id target_pubkey) (λ r. record r { state = injected }) t)

unfoldable pub injected_each : List String → String → List InboxRow → List InboxRow
unfolding is_injected_event
injected_each [] target_pubkey t = []
injected_each (event_id ∷ ids) target_pubkey t =
    select (is_injected_event event_id target_pubkey) t ++ injected_each ids target_pubkey t

unfoldable pub mark_injected_for_echo : List String → String → ℕ → Store → Store
unfolding inject_each injected_each stage_from_inbox
mark_injected_for_echo event_ids target_pubkey now s =
    let t = inject_each event_ids target_pubkey s.inbox in
    record s {
      inbox = t;
      event_claims = stage_from_inbox (injected_each event_ids target_pubkey t) now s.event_claims;
    }

-- `ORDER BY delivered_at ASC, created_at ASC`
unfoldable pub delivered_order : InboxRow → InboxRow → Bool
delivered_order a b =
    ltb a.delivered_at b.delivered_at
    || (a.delivered_at =? b.delivered_at && leb a.created_at b.created_at)

unfoldable pub injected_for_pubkey : String → Store → List InboxRow
unfolding delivered_order is_injected
injected_for_pubkey target_pubkey s =
    sort_by delivered_order
      (select (λ r. r.target_pubkey == target_pubkey && is_injected r.state) s.inbox)

unfoldable pub consume_each : List String → String → List InboxRow → List InboxRow
unfolding is_injected_event
consume_each [] target_pubkey t = t
consume_each (event_id ∷ ids) target_pubkey t =
    consume_each ids target_pubkey (
      update (is_injected_event event_id target_pubkey) (λ r. record r { state = echo_consumed }) t)

unfoldable pub consume_injected_echo : List String → String → Store → Store
unfolding consume_each
consume_injected_echo event_ids target_pubkey s = record s {
  inbox = consume_each event_ids target_pubkey s.inbox;
}
