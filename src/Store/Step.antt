-- ===== src/Store/Step.antt =====
-- The operations that Store models, as one step relation: the daemon may run any of them, with any
-- arguments, in any order, each in a transaction of its own. No step allocates or releases a handle
-- (src/state/handle_leases.rs).
pub mod Follows
pub mod Change
pub mod Sessions
pub mod Invariant
pub mod Revoked
pub mod Admission
pub mod Handled
pub mod Keeps
pub mod Actors
pub mod Callers
pub mod Locators
use tenex_edge.Base.{ℕ, String, Bool, Option, List, ◌≡◌}
use tenex_edge.Session.{PresentationState, StopReason}
use tenex_edge.Store.{Store, StandingState}
use tenex_edge.Store.Result.{ok}
use tenex_edge.Store.Sessions.{RegisterSession, AdmittedRuntimeFacts, reserve_session_with_facts}
use tenex_edge.Store.Stopping.{
  record_claimed_harness, touch_session, bind_runtime_process, mark_runtime_stopped_if_generation,
  mark_runtime_stopped,
}
use tenex_edge.Store.Standing.{
  mark_session_standing_member_if_running, retain_stopped_session_routes,
  mark_session_standing_absent_if_epoch,
}
use tenex_edge.Store.Routes.{
  ConfirmedAdmissionCommit, commit_confirmed_session_admission,
  schedule_confirmed_admission_cleanup, revoke_route_and_mark_absent, grant_session_route,
  revoke_session_route,
}
use tenex_edge.Store.Lifecycle.{
  apply_session_presentation_edge, mark_session_presentation_unavailable,
  apply_session_turn_started, apply_session_turn_ended, cancel_session_idle_deadline_for_delivery,
}
use tenex_edge.Store.Eviction.{
  reserve_due_idle_eviction, cancel_idle_eviction_on_presentation_change,
  finalize_runtime_stopped_if_epoch,
}
use tenex_edge.Store.Recovery.{
  revoke_session_recovery_if_generation, finalize_session_recovery_revocation,
}
use tenex_edge.Store.Inbox.{enqueue_inbox, mark_delivered}
use tenex_edge.Store.Delivery.{
  claim_pending_for_pubkey, claim_pending_event_ids_for_pubkey, reenqueue_pending,
  mark_injected_for_echo, consume_injected_echo,
}
use tenex_edge.Store.WorkStart.{take_work_start_claims_for_events}
use tenex_edge.Store.Claims.{
  claim_orchestration_target, complete_orchestration_target, retry_orchestration_target,
  complete_offline_mention, retry_offline_mention,
}
use tenex_edge.Store.Context.{
  set_session_channel, set_session_context, set_session_title, advance_cursor_if_current,
}
use tenex_edge.Store.Locators.{
  put_session_locator, set_native_resume_locator, claim_native_resume_locator, clear_locator_kind,
  clear_runtime_locator_if_generation, clear_session_locator_kind,
}
use tenex_edge.Store.Retention.{Retained, prune_retained_state}
use tenex_edge.Relay.{RelayEvent}
use tenex_edge.Relay.Attempts.{Attempts}
use tenex_edge.Store.McpActors.{bind_mcp_actor, reserve_mcp_actor_session, activate_mcp_actor}

pub data Step (s : Store) : Store → Type 0 where
  reserve :
      (r : RegisterSession) (facts : AdmittedRuntimeFacts) (t : Store) (generation : ℕ)
      → reserve_session_with_facts r facts s ≡ ok (t, generation)
      → Step s t
  claim_harness : (pk harness : String) → Step s (record_claimed_harness pk harness s)
  touch : (pk : String) (at : ℕ) → Step s (touch_session pk at s)
  bind_process :
      (pk : String) (generation : ℕ) (pid : Option ℕ) (now : ℕ)
      → Step s (bind_runtime_process pk generation pid now s).0
  stop :
      (pk : String) (generation : ℕ) (reason : StopReason) (at : ℕ)
      → Step s (mark_runtime_stopped_if_generation pk generation reason at s).0
  present :
      (pk : String) (generation epoch : ℕ) (p : PresentationState) (at : ℕ)
      → Step s (apply_session_presentation_edge pk generation epoch p at s).0
  lose_presentation :
      (pk : String) (generation epoch at : ℕ)
      → Step s (mark_session_presentation_unavailable pk generation epoch at s).0
  start_turn :
      (pk : String) (generation at : ℕ) → Step s (apply_session_turn_started pk generation at s).0
  end_turn :
      (pk : String) (generation at : ℕ) → Step s (apply_session_turn_ended pk generation at s).0
  cancel_deadline :
      (pk : String) (generation : ℕ)
      → Step s (cancel_session_idle_deadline_for_delivery pk generation s).0
  reserve_eviction :
      (pk : String) (generation lifecycle attachment now : ℕ)
      → Step s (reserve_due_idle_eviction pk generation lifecycle attachment now s).0
  cancel_eviction :
      (pk : String) (generation lifecycle epoch : ℕ) (p : PresentationState) (at : ℕ)
      → Step s (cancel_idle_eviction_on_presentation_change pk generation lifecycle epoch p at s).0
  finalize_stop :
      (pk : String) (generation lifecycle : ℕ) (reason : StopReason) (at : ℕ)
      → Step s (finalize_runtime_stopped_if_epoch pk generation lifecycle reason at s).0
  revoke :
      (pk : String) (generation : ℕ)
      → Step s (revoke_session_recovery_if_generation pk generation s).0
  finalize_revocation :
      (pk : String) (generation now : ℕ)
      → Step s (finalize_session_recovery_revocation pk generation now s).0
  join :
      (pk channel : String) (epoch now : ℕ)
      → Step s (mark_session_standing_member_if_running pk channel epoch now s).0
  retain_routes :
      (pk : String) (epoch until now : ℕ)
      → Step s (retain_stopped_session_routes pk epoch until now s).0
  expire_standing :
      (pk channel : String) (expected : StandingState) (epoch lifecycle now : ℕ)
      → Step s (mark_session_standing_absent_if_epoch pk channel expected epoch lifecycle now s).0
  admit :
      (pk channel : String) (generation epoch now : ℕ) (t : Store) (c : ConfirmedAdmissionCommit)
      → commit_confirmed_session_admission pk channel generation epoch now s ≡ ok (t, c)
      → Step s t
  clean_admission :
      (pk channel : String) (generation epoch now : ℕ) (t : Store) (c : ConfirmedAdmissionCommit)
      → schedule_confirmed_admission_cleanup pk channel generation epoch now s ≡ ok (t, c)
      → Step s t
  leave : (pk channel : String) (now : ℕ) → Step s (revoke_route_and_mark_absent pk channel now s).0
  grant : (pk channel : String) (at : ℕ) → Step s (grant_session_route pk channel at s)
  drop_route : (pk channel : String) → Step s (revoke_session_route pk channel s).0
  enqueue :
      (event target from_pubkey channel body : String) (at : ℕ)
      → Step s (enqueue_inbox event target from_pubkey channel body at s).0
  deliver : (event target : String) (at : ℕ) → Step s (mark_delivered event target at s)
  claim_all : (target : String) (now : ℕ) → Step s (claim_pending_for_pubkey target now s).0
  claim_exact :
      (events : List String) (target : String) (now : ℕ)
      → Step s (claim_pending_event_ids_for_pubkey events target now s).0
  reenqueue : (events : List String) (target : String) → Step s (reenqueue_pending events target s)
  inject :
      (events : List String) (target : String) (now : ℕ)
      → Step s (mark_injected_for_echo events target now s)
  consume :
      (events : List String) (target : String) → Step s (consume_injected_echo events target s)
  take_work :
      (target : String) (events : List String) (now : ℕ)
      → Step s (take_work_start_claims_for_events target events now s).0
  claim_target :
      (event key from_pubkey channel body : String) (now : ℕ)
      → Step s (claim_orchestration_target event key from_pubkey channel body now s).0
  complete_target :
      (event key : String) (now : ℕ) → Step s (complete_orchestration_target event key now s)
  retry_target : (event key : String) → Step s (retry_orchestration_target event key s)
  complete_mention :
      (event pk : String) (now : ℕ) → Step s (complete_offline_mention event pk now s)
  retry_mention : (event pk : String) (now : ℕ) → Step s (retry_offline_mention event pk now s)
  set_channel : (pk channel : String) (now : ℕ) → Step s (set_session_channel pk channel now s)
  set_context :
      (pk channel root parent : String) (now : ℕ)
      → Step s (set_session_context pk channel root parent now s)
  set_title : (pk title : String) → Step s (set_session_title pk title s)
  advance_cursor :
      (pk : String) (expected seen : ℕ) → Step s (advance_cursor_if_current pk expected seen s).0
  put_locator :
      (harness kind value pk : String) (at : ℕ) (t : Store)
      → put_session_locator harness kind value pk at s ≡ ok t
      → Step s t
  set_native :
      (pk harness native_resume : String) (now : ℕ) (t : Store)
      → set_native_resume_locator pk harness native_resume now s ≡ ok t
      → Step s t
  claim_native :
      (pk harness native_resume : String) (now : ℕ) (t : Store) (owner : String)
      → claim_native_resume_locator pk harness native_resume now s ≡ ok (t, owner)
      → Step s t
  clear_kind : (pk kind : String) (t : Store) → clear_locator_kind pk kind s ≡ ok t → Step s t
  clear_runtime :
      (pk kind : String) (generation now : ℕ) (t : Store) (removed : Bool)
      → clear_runtime_locator_if_generation pk kind generation now s ≡ ok (t, removed)
      → Step s t
  clear_session_kind :
      (pk harness kind : String) (t : Store)
      → clear_session_locator_kind pk harness kind s ≡ ok t
      → Step s t
  bind_actor :
      (actor_key actor_kind pk : String) (now : ℕ)
      → Step s (bind_mcp_actor actor_key actor_kind pk now s).0
  reserve_actor :
      (pk agent_slug channel : String) (now : ℕ) (t : Store)
      → reserve_mcp_actor_session pk agent_slug channel now s ≡ ok t
      → Step s t
  activate_actor :
      (actor_key pk : String) (now : ℕ) (t : Store)
      → activate_mcp_actor actor_key pk now s ≡ ok t
      → Step s t
  prune :
      (like : String → String → Bool) (now : ℕ) (events : List RelayEvent) (attempts : Attempts)
      → Step s
          (prune_retained_state like now
            (record { store = s; relay_events = events; attempts = attempts })).0.store

-- Any number of steps.
pub data Reach (s : Store) : Store → Type 0 where
  here : Reach s s
  next : {t u : Store} → Reach s t → Step t u → Reach s u
