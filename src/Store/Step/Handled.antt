-- ===== src/Store/Step/Handled.antt =====
-- The inbox is a ledger: what was recorded in it stays recorded, until it is pruned a week after it
-- was delivered.
use mathlib.Core.Path.{subst}
use tenex_edge.Base.{
  ◌≤◌, ◌+◌, ◌-◌, arith, [], ◌∷◌, ℕ, String, ◌≡◌, refl, sym, ◌∙◌, ap, inl, inr, Bool, true, false,
  Option-cases, List, trim, ◌==◌, if◌then◌else◌,
}
use tenex_edge.Table.{find, exists}
use tenex_edge.Store.Retention.{
  prune_retained_state, prune_retained_state_before, completed_ledger_retention_secs, is_old_inbox,
}
use tenex_edge.Store.{Store, InboxRow, inbox_is}
use tenex_edge.Store.Result.{ok}
use tenex_edge.Store.Sessions.{
  RegisterSession, AdmittedRuntimeFacts, write_reservation, grant_route_and_initialize_standing,
  revive_handle,
}
use tenex_edge.Store.Sessions.Incarnation.{reserve_inversion}
use tenex_edge.Store.Stopping.{
  record_claimed_harness, touch_session, bind_runtime_process, mark_runtime_stopped_if_generation,
}
use tenex_edge.Store.Standing.{
  mark_session_standing_member_if_running, owns_lifecycle, retain_stopped_session_routes,
  mark_session_standing_absent_if_epoch,
}
use tenex_edge.Store.Routes.{
  ConfirmedAdmissionCommit, committed, owns_runtime, commit_admission, admission_is_committed,
  commit_confirmed_session_admission, schedule_confirmed_admission_cleanup,
  schedule_cleanup_in_transaction, finish_admission_outcome, revoke_route_and_mark_absent,
  grant_session_route, revoke_session_route,
}
use tenex_edge.Store.Lifecycle.{
  apply_session_presentation_edge, mark_session_presentation_unavailable,
  apply_session_turn_started, apply_session_turn_ended, cancel_session_idle_deadline_for_delivery,
}
use tenex_edge.Store.Eviction.{
  reserve_due_idle_eviction, cancel_idle_eviction_on_presentation_change,
  finalize_runtime_stopped_if_epoch,
}
use tenex_edge.Store.Recovery.{
  revoke_session_recovery_if_generation, finalize_session_recovery_revocation,
}
use tenex_edge.Store.Inbox.{enqueue_inbox, mark_delivered, is_event_handled}
use tenex_edge.Store.Inbox.Once.{handled_refused}
use tenex_edge.Store.Delivery.{
  claim_pending_for_pubkey, claim_pending_event_ids_for_pubkey, reenqueue_pending,
  mark_injected_for_echo, consume_injected_echo,
}
use tenex_edge.Store.WorkStart.{take_work_start_claims_for_events}
use tenex_edge.Store.Claims.{
  claim_orchestration_target, complete_orchestration_target, retry_orchestration_target,
  complete_offline_mention, retry_offline_mention,
}
use tenex_edge.Store.Context.{
  set_session_channel, set_session_context, set_session_title, advance_cursor_if_current,
}
use tenex_edge.Store.Step.{Step}
use tenex_edge.Store.Step.Admission.{finish_keeps}
use tenex_edge.Store.Step.Keeps.{
  is_recent, Keeps, Keeps-deliver, Keeps-prune, Keeps-refl, Keeps-trans, Keeps-update, Keeps-insert,
  Keeps-claim_each, Keeps-reenqueue_each, Keeps-inject_each, Keeps-consume_each, if-Keeps,
  if-Keeps_pair,
}
use tenex_edge.Store.Locators.{locator_native_resume}
use tenex_edge.Store.Locators.Inversion.{set_inversion}
use tenex_edge.Store.Step.Actors.{put_inbox, claim_inbox}
use tenex_edge.Store.Step.Callers.{
  clear_kind-Change, clear_runtime-Change, clear_session_kind-Change, reserve_actor_inbox,
  activate_inbox, bind_actor_keeps,
}

-- Deliveries at `from` or later, and pruning at most a week after `from`.
abbrev pub IsWithin : ℕ → {s t : Store} → Step s t → Type 0
IsWithin from (Step.deliver event target at) = from ≤ at
IsWithin from (Step.claim_all target now) = from ≤ now
IsWithin from (Step.claim_exact events target now) = from ≤ now
IsWithin from (Step.prune like now events attempts) = now ≤ from + completed_ledger_retention_secs
IsWithin from _ = Unit

written-Keeps :
    (from : ℕ) (r : RegisterSession) (facts : AdmittedRuntimeFacts) (g : ℕ) (s : Store)
    → Keeps from s.inbox (write_reservation r facts g s).inbox
unfolding write_reservation grant_route_and_initialize_standing revive_handle
written-Keeps from r facts g s =
    if-Keeps from s.inbox (trim r.channel_h == "") _ _ (Keeps-refl from s.inbox)
      (Keeps-refl from s.inbox)

admit-Keeps :
    (from : ℕ) (pk channel : String) (epoch now : ℕ) (s t : Store) (c : ConfirmedAdmissionCommit)
    (b : Bool) (x : Store)
    → (if b
        then ok (x, committed)
        else finish_admission_outcome pk channel
            (schedule_cleanup_in_transaction pk channel epoch now s))
      ≡ ok (t, c)
    → x.inbox ≡ s.inbox
    → Keeps from s.inbox t.inbox
unfolding schedule_cleanup_in_transaction
admit-Keeps from pk channel epoch now s t c true x h e =
    let written : x ≡ t = cc h in
    subst (Keeps from s.inbox) (sym e ∙ ap (λ (w : Store). w.inbox) written)
      (Keeps-refl from s.inbox)
admit-Keeps from pk channel epoch now s t c false x h e =
    subst (λ (w : Store). Keeps from s.inbox w.inbox)
      (finish_keeps pk channel (schedule_cleanup_in_transaction pk channel epoch now s) t c h)
      (if-Keeps_pair from s.inbox _ _ _ (Keeps-refl from s.inbox) (Keeps-refl from s.inbox))

join-Keeps :
    (from : ℕ) (pk channel : String) (epoch now : ℕ) (s : Store)
    → Keeps from s.inbox (mark_session_standing_member_if_running pk channel epoch now s).0.inbox
unfolding mark_session_standing_member_if_running exists
join-Keeps from pk channel epoch now s =
    elim (Option-cases (find (owns_lifecycle pk epoch) s.sessions)) [
      | inl stale ↦ rw (mark_session_standing_member_if_running, stale) (Keeps-refl from s.inbox)
      | inr (owner, found) ↦
          rw (mark_session_standing_member_if_running, found) (Keeps-refl from s.inbox)
    ]

Keeps-same : (from : ℕ) {t u : List InboxRow} → u ≡ t → Keeps from t u
Keeps-same from {t} e = rw e (Keeps-refl from t)

Step-Keeps :
    (from : ℕ) {s t : Store} (st : Step s t) → IsWithin from st → Keeps from s.inbox t.inbox
unfolding record_claimed_harness touch_session bind_runtime_process
    mark_runtime_stopped_if_generation apply_session_presentation_edge
    mark_session_presentation_unavailable apply_session_turn_started apply_session_turn_ended
    cancel_session_idle_deadline_for_delivery reserve_due_idle_eviction
    cancel_idle_eviction_on_presentation_change finalize_runtime_stopped_if_epoch
    revoke_session_recovery_if_generation finalize_session_recovery_revocation
    retain_stopped_session_routes mark_session_standing_absent_if_epoch revoke_route_and_mark_absent
    grant_session_route revoke_session_route enqueue_inbox mark_delivered claim_pending_for_pubkey
    claim_pending_event_ids_for_pubkey reenqueue_pending mark_injected_for_echo
    consume_injected_echo take_work_start_claims_for_events claim_orchestration_target
    complete_orchestration_target retry_orchestration_target complete_offline_mention
    retry_offline_mention set_session_channel set_session_context set_session_title
    advance_cursor_if_current commit_confirmed_session_admission
    schedule_confirmed_admission_cleanup prune_retained_state prune_retained_state_before
    is_old_inbox
Step-Keeps from {s} (Step.reserve r facts t g h) within =
    let (allowed, written) = reserve_inversion r facts s t g h in
    rw (← written) (written-Keeps from r facts g s)
Step-Keeps from {s} (Step.claim_harness pk harness) within =
    if-Keeps from s.inbox _ _ _ (Keeps-refl from s.inbox) (Keeps-refl from s.inbox)
Step-Keeps from {s} (Step.stop pk g reason at) within =
    if-Keeps from s.inbox _ _ _ (Keeps-refl from s.inbox) (Keeps-refl from s.inbox)
Step-Keeps from {s} (Step.end_turn pk g at) within =
    if-Keeps from s.inbox _ _ _ (Keeps-update from _ _ s.inbox (λ ev tgt r hit h. h))
      (Keeps-refl from s.inbox)
Step-Keeps from {s} (Step.reserve_eviction pk g l a now) within =
    if-Keeps_pair from s.inbox _ _ _ (Keeps-refl from s.inbox) (Keeps-refl from s.inbox)
Step-Keeps from {s} (Step.finalize_stop pk g l reason at) within =
    if-Keeps_pair from s.inbox _ _ _ (Keeps-refl from s.inbox) (Keeps-refl from s.inbox)
Step-Keeps from {s} (Step.finalize_revocation pk g now) within =
    if-Keeps_pair from s.inbox _ _ _ (Keeps-refl from s.inbox) (Keeps-refl from s.inbox)
Step-Keeps from {s} (Step.join pk channel epoch now) within = join-Keeps from pk channel epoch now s
Step-Keeps from {s} (Step.retain_routes pk epoch until now) within =
    if-Keeps_pair from s.inbox _ _ _ (Keeps-refl from s.inbox) (Keeps-refl from s.inbox)
Step-Keeps from {s} (Step.admit pk channel g epoch now t c h) within =
    admit-Keeps from pk channel epoch now s t c (exists (owns_runtime pk g epoch) s.sessions)
      (commit_admission pk channel epoch now s) h refl
Step-Keeps from {s} (Step.clean_admission pk channel g epoch now t c h) within =
    admit-Keeps from pk channel epoch now s t c (admission_is_committed pk channel g epoch s) s h
      refl
Step-Keeps from {s} (Step.grant pk channel at) within =
    if-Keeps from s.inbox _ _ _ (Keeps-refl from s.inbox) (Keeps-refl from s.inbox)
Step-Keeps from {s} (Step.enqueue event target from_pubkey channel body at) within =
    if-Keeps_pair from s.inbox _ _ _ (Keeps-insert from _ _ s.inbox) (Keeps-insert from _ _ s.inbox)
Step-Keeps from {s} (Step.deliver event target at) within = Keeps-deliver from _ at s.inbox within
Step-Keeps from {s} (Step.claim_all target now) within = Keeps-deliver from _ now s.inbox within
Step-Keeps from {s} (Step.claim_exact events target now) within =
    Keeps-claim_each from events target now s.inbox within
Step-Keeps from {s} (Step.reenqueue events target) within =
    Keeps-reenqueue_each from events target s.inbox
Step-Keeps from {s} (Step.inject events target now) within =
    Keeps-inject_each from events target s.inbox
Step-Keeps from {s} (Step.consume events target) within =
    Keeps-consume_each from events target s.inbox
Step-Keeps from {s} (Step.set_channel pk channel now) within =
    if-Keeps from s.inbox (trim channel == "") _ _ (Keeps-refl from s.inbox) (
      if-Keeps from s.inbox (trim channel == "") _ _ (Keeps-refl from s.inbox)
        (Keeps-refl from s.inbox))
Step-Keeps from {s} (Step.set_context pk channel root parent now) within =
    if-Keeps from s.inbox (trim channel == "") _ _ (Keeps-refl from s.inbox) (
      if-Keeps from s.inbox (trim channel == "") _ _ (Keeps-refl from s.inbox)
        (Keeps-refl from s.inbox))
Step-Keeps from {s} (Step.put_locator harness kind value pk at t h) within =
    Keeps-same from (put_inbox harness kind value pk at s t h)
Step-Keeps from {s} (Step.set_native pk harness native_resume now t h) within = Keeps-same from (
    put_inbox harness locator_native_resume native_resume pk now s t
      (set_inversion pk harness native_resume now s t h))
Step-Keeps from {s} (Step.claim_native pk harness native_resume now t owner h) within =
    Keeps-same from (claim_inbox pk harness native_resume now s t owner h)
Step-Keeps from {s} (Step.clear_kind pk kind t h) within =
    Keeps-same from (clear_kind-Change pk kind s t h).1
Step-Keeps from {s} (Step.clear_runtime pk kind g now t removed h) within =
    Keeps-same from (clear_runtime-Change pk kind g now s t removed h).1
Step-Keeps from {s} (Step.clear_session_kind pk harness kind t h) within =
    Keeps-same from (clear_session_kind-Change pk harness kind s t h).1
Step-Keeps from {s} (Step.bind_actor actor_key actor_kind pk now) within =
    Keeps-same from (bind_actor_keeps actor_key actor_kind pk now s).1
Step-Keeps from {s} (Step.reserve_actor pk agent_slug channel now t h) within =
    Keeps-same from (reserve_actor_inbox pk agent_slug channel now s t h)
Step-Keeps from {s} (Step.activate_actor actor_key pk now t h) within =
    Keeps-same from (activate_inbox actor_key pk now s t h)
Step-Keeps from {s} (Step.prune like now events attempts) within =
    Keeps-prune from (now - completed_ledger_retention_secs) s.inbox (omega (arith, within))
Step-Keeps from {s} _ within = Keeps-refl from s.inbox

-- Steps from a time on, of which every one that prunes runs at most a week after it.
pub data WithinAWeek (from : ℕ) (s : Store) : Store → Type 0 where
  begun : WithinAWeek from s s
  continued :
      {t u : Store}
      → WithinAWeek from s t
      → (st : Step t u) → IsWithin from st
      → WithinAWeek from s u

WithinAWeek-Keeps : (from : ℕ) {s t : Store} → WithinAWeek from s t → Keeps from s.inbox t.inbox
WithinAWeek-Keeps from {s} begun = Keeps-refl from s.inbox
WithinAWeek-Keeps from {s} {t} (continued {t = m} r st within) =
    Keeps-trans from s.inbox m.inbox t.inbox (WithinAWeek-Keeps from r) (Step-Keeps from st within)

recent_handled :
    (from : ℕ) (ev tgt : String) (t : List InboxRow)
    → exists (is_recent from ev tgt) t ≡ true
    → exists (inbox_is ev tgt) t ≡ true
unfolding exists
recent_handled from ev tgt [] h = h
recent_handled from ev tgt (x ∷ t) h = ground (arith, h, recent_handled from ev tgt t)

-- An event that was handled for a recipient, and is not delivered to it or was at a time or later,
-- stays handled for a week from that time, whatever steps run: those that deliver run no earlier than
-- that time, and the pruner runs among them, at most a week after it. It is not accepted again then:
-- enqueueing it, whatever it says and whatever its own time, is refused and writes nothing.
pub handled_for_a_week :
    (ev tgt from_pubkey channel body : String) (at from : ℕ) {s t : Store}
    → exists (is_recent from ev tgt) s.inbox ≡ true
    → WithinAWeek from s t
    → (is_event_handled ev tgt t ≡ true)
      × (enqueue_inbox ev tgt from_pubkey channel body at t ≡ (t, false))
unfolding is_event_handled
handled_for_a_week ev tgt from_pubkey channel body at from {s} {t} handled steps =
    let still = recent_handled from ev tgt t.inbox (WithinAWeek-Keeps from steps ev tgt handled) in
    (still, handled_refused ev tgt from_pubkey channel body at t still)
