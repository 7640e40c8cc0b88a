-- ===== src/Store/Step/Locators.antt =====
-- Every step keeps the unique indexes of `session_locators`: no statement that the store runs is
-- refused by them.
use tenex_edge.Base.{
  ℕ, String, ◌≡◌, refl, sym, ◌∙◌, ap, inl, inr, Bool, true, false, Option-cases, trim, ◌==◌,
  if◌then◌else◌,
}
use mathlib.Core.Path.{subst}
use tenex_edge.Table.{find, exists}
use tenex_edge.Table.Keys.{delete-HasKeys}
use tenex_edge.Store.Retention.{prune_retained_state}
use tenex_edge.Store.{Store}
use tenex_edge.Store.Result.{behind_check, ok}
use tenex_edge.Store.Locators.Unique.{
  HasLocatorKeys, same_locator, write_locator-HasLocatorKeys, append_native-HasLocatorKeys,
}
use tenex_edge.Store.Locators.{
  write_session_locator, put_session_locator, clear_locator_kind,
  clear_runtime_locator_if_generation, clear_session_locator_kind, validate_locator_kind,
  claim_native_resume_locator,
}
use tenex_edge.Store.Locators.Inversion.{put_inversion, claim_inversion, claim_unowned_inversion}
use tenex_edge.Store.McpActors.{write_activation}
use tenex_edge.Store.McpActors.Inversion.{reserve_actor_inversion, activate_inversion}
use tenex_edge.Store.Sessions.{
  RegisterSession, AdmittedRuntimeFacts, write_reservation, grant_route_and_initialize_standing,
  revive_handle,
}
use tenex_edge.Store.Sessions.Incarnation.{reserve_inversion}
use tenex_edge.Store.Stopping.{
  record_claimed_harness, touch_session, bind_runtime_process, mark_runtime_stopped_if_generation,
}
use tenex_edge.Store.Standing.{
  mark_session_standing_member_if_running, owns_lifecycle, retain_stopped_session_routes,
  mark_session_standing_absent_if_epoch,
}
use tenex_edge.Store.Routes.{
  ConfirmedAdmissionCommit, committed, owns_runtime, commit_admission, admission_is_committed,
  commit_confirmed_session_admission, schedule_confirmed_admission_cleanup,
  schedule_cleanup_in_transaction, finish_admission_outcome, revoke_route_and_mark_absent,
  grant_session_route, revoke_session_route,
}
use tenex_edge.Store.Lifecycle.{
  apply_session_presentation_edge, mark_session_presentation_unavailable,
  apply_session_turn_started, apply_session_turn_ended, cancel_session_idle_deadline_for_delivery,
}
use tenex_edge.Store.Eviction.{
  reserve_due_idle_eviction, cancel_idle_eviction_on_presentation_change,
  finalize_runtime_stopped_if_epoch,
}
use tenex_edge.Store.Recovery.{
  revoke_session_recovery_if_generation, finalize_session_recovery_revocation,
}
use tenex_edge.Store.Inbox.{enqueue_inbox, mark_delivered}
use tenex_edge.Store.Delivery.{
  claim_pending_for_pubkey, claim_pending_event_ids_for_pubkey, reenqueue_pending,
  mark_injected_for_echo, consume_injected_echo,
}
use tenex_edge.Store.WorkStart.{take_work_start_claims_for_events}
use tenex_edge.Store.Claims.{
  claim_orchestration_target, complete_orchestration_target, retry_orchestration_target,
  complete_offline_mention, retry_offline_mention,
}
use tenex_edge.Store.Context.{
  set_session_channel, set_session_context, set_session_title, advance_cursor_if_current,
}
use tenex_edge.Store.Step.{Step, Reach, here, next}
use tenex_edge.Store.Step.Admission.{finish_keeps}
use tenex_edge.Store.Locators.{locator_native_resume}
use tenex_edge.Store.Locators.Inversion.{set_inversion}
use tenex_edge.Store.Step.Callers.{bind_actor_keeps}

-- Either branch.
if-Locators :
    (b : Bool) (x y : Store)
    → HasLocatorKeys x.session_locators
    → HasLocatorKeys y.session_locators
    → HasLocatorKeys (if b then x else y).session_locators
if-Locators true x y h k = h
if-Locators false x y h k = k

if-Locators_pair {ℓ} :
    {A : Type ℓ} (b : Bool) (x y : Store × A)
    → HasLocatorKeys x.0.session_locators
    → HasLocatorKeys y.0.session_locators
    → HasLocatorKeys (if b then x else y).0.session_locators
if-Locators_pair true x y h k = h
if-Locators_pair false x y h k = k

put-HasLocatorKeys :
    (harness kind value pk : String) (at : ℕ) (s t : Store)
    → put_session_locator harness kind value pk at s ≡ ok t
    → HasLocatorKeys s.session_locators
    → HasLocatorKeys t.session_locators
unfolding write_session_locator
put-HasLocatorKeys harness kind value pk at s t h k =
    let (r, stored, allowed, written) = put_inversion harness kind value pk at s t h in
    rw (← written) (write_locator-HasLocatorKeys harness kind value pk _ at s.session_locators k)

claim-HasLocatorKeys :
    (pk harness native_resume : String) (now : ℕ) (s t : Store) (owner : String)
    → claim_native_resume_locator pk harness native_resume now s ≡ ok (t, owner)
    → HasLocatorKeys s.session_locators
    → HasLocatorKeys t.session_locators
claim-HasLocatorKeys pk harness native_resume now s t owner h k =
    let (r, stored, allowed, how) = claim_inversion pk harness native_resume now s t owner h in
    elim how [
      | inl (l, owned, names, kept) ↦ rw kept k
      | inr (free, claimed) ↦
          let w = claim_unowned_inversion pk harness native_resume now s t owner claimed in
          subst HasLocatorKeys (sym w.4) (
            append_native-HasLocatorKeys harness native_resume pk now s.session_locators k free w.0)
    ]

written-Locators :
    (r : RegisterSession) (facts : AdmittedRuntimeFacts) (g : ℕ) (s : Store)
    → HasLocatorKeys s.session_locators
    → HasLocatorKeys (write_reservation r facts g s).session_locators
unfolding write_reservation grant_route_and_initialize_standing revive_handle
written-Locators r facts g s k = if-Locators (trim r.channel_h == "") _ _ k k

admit-Locators :
    (pk channel : String) (epoch now : ℕ) (s t : Store) (c : ConfirmedAdmissionCommit) (b : Bool)
    (x : Store)
    → (if b
        then ok (x, committed)
        else finish_admission_outcome pk channel
            (schedule_cleanup_in_transaction pk channel epoch now s))
      ≡ ok (t, c)
    → x.session_locators ≡ s.session_locators
    → HasLocatorKeys s.session_locators
    → HasLocatorKeys t.session_locators
unfolding schedule_cleanup_in_transaction
admit-Locators pk channel epoch now s t c true x h e k =
    let written : x ≡ t = cc h in
    subst HasLocatorKeys (sym e ∙ ap (λ (w : Store). w.session_locators) written) k
admit-Locators pk channel epoch now s t c false x h e k =
    subst (λ (w : Store). HasLocatorKeys w.session_locators)
      (finish_keeps pk channel (schedule_cleanup_in_transaction pk channel epoch now s) t c h)
      (if-Locators_pair _ _ _ k k)

join-Locators :
    (pk channel : String) (epoch now : ℕ) (s : Store)
    → HasLocatorKeys s.session_locators
    → HasLocatorKeys
        (mark_session_standing_member_if_running pk channel epoch now s).0.session_locators
unfolding mark_session_standing_member_if_running exists
join-Locators pk channel epoch now s k =
    elim (Option-cases (find (owns_lifecycle pk epoch) s.sessions)) [
      | inl stale ↦ rw (mark_session_standing_member_if_running, stale) k
      | inr (owner, found) ↦ rw (mark_session_standing_member_if_running, found) k
    ]

Step-HasLocatorKeys :
    {s t : Store} → Step s t → HasLocatorKeys s.session_locators → HasLocatorKeys t.session_locators
unfolding clear_locator_kind clear_runtime_locator_if_generation clear_session_locator_kind
    write_activation record_claimed_harness touch_session bind_runtime_process
    mark_runtime_stopped_if_generation apply_session_presentation_edge
    mark_session_presentation_unavailable apply_session_turn_started apply_session_turn_ended
    cancel_session_idle_deadline_for_delivery reserve_due_idle_eviction
    cancel_idle_eviction_on_presentation_change finalize_runtime_stopped_if_epoch
    revoke_session_recovery_if_generation finalize_session_recovery_revocation
    retain_stopped_session_routes mark_session_standing_absent_if_epoch revoke_route_and_mark_absent
    grant_session_route revoke_session_route enqueue_inbox mark_delivered claim_pending_for_pubkey
    claim_pending_event_ids_for_pubkey reenqueue_pending mark_injected_for_echo
    consume_injected_echo take_work_start_claims_for_events claim_orchestration_target
    complete_orchestration_target retry_orchestration_target complete_offline_mention
    retry_offline_mention set_session_channel set_session_context set_session_title
    advance_cursor_if_current commit_confirmed_session_admission
    schedule_confirmed_admission_cleanup prune_retained_state
Step-HasLocatorKeys {s} (Step.reserve r facts t g h) k =
    let (allowed, written) = reserve_inversion r facts s t g h in
    rw (← written) (written-Locators r facts g s k)
Step-HasLocatorKeys {s} (Step.claim_harness pk harness) k = if-Locators _ _ _ k k
Step-HasLocatorKeys {s} (Step.stop pk g reason at) k = if-Locators _ _ _ k k
Step-HasLocatorKeys {s} (Step.end_turn pk g at) k = if-Locators _ _ _ k k
Step-HasLocatorKeys {s} (Step.reserve_eviction pk g l a now) k = if-Locators_pair _ _ _ k k
Step-HasLocatorKeys {s} (Step.finalize_stop pk g l reason at) k = if-Locators_pair _ _ _ k k
Step-HasLocatorKeys {s} (Step.finalize_revocation pk g now) k =
    if-Locators_pair _ _ _ k
      (delete-HasKeys same_locator (λ l. l.pubkey == pk) s.session_locators k)
Step-HasLocatorKeys {s} (Step.join pk channel epoch now) k = join-Locators pk channel epoch now s k
Step-HasLocatorKeys {s} (Step.retain_routes pk epoch until now) k = if-Locators_pair _ _ _ k k
Step-HasLocatorKeys {s} (Step.admit pk channel g epoch now t c h) k =
    admit-Locators pk channel epoch now s t c (exists (owns_runtime pk g epoch) s.sessions)
      (commit_admission pk channel epoch now s) h refl k
Step-HasLocatorKeys {s} (Step.clean_admission pk channel g epoch now t c h) k =
    admit-Locators pk channel epoch now s t c (admission_is_committed pk channel g epoch s) s h refl
      k
Step-HasLocatorKeys {s} (Step.grant pk channel at) k = if-Locators _ _ _ k k
Step-HasLocatorKeys {s} (Step.enqueue event target from_pubkey channel body at) k =
    if-Locators_pair _ _ _ k k
Step-HasLocatorKeys {s} (Step.set_channel pk channel now) k =
    if-Locators (trim channel == "") _ _ k (if-Locators (trim channel == "") _ _ k k)
Step-HasLocatorKeys {s} (Step.set_context pk channel root parent now) k =
    if-Locators (trim channel == "") _ _ k (if-Locators (trim channel == "") _ _ k k)
Step-HasLocatorKeys {s} (Step.put_locator harness kind value pk at t h) k =
    put-HasLocatorKeys harness kind value pk at s t h k
Step-HasLocatorKeys {s} (Step.set_native pk harness native_resume now t h) k =
    put-HasLocatorKeys harness locator_native_resume native_resume pk now s t
      (set_inversion pk harness native_resume now s t h) k
Step-HasLocatorKeys {s} (Step.claim_native pk harness native_resume now t owner h) k =
    claim-HasLocatorKeys pk harness native_resume now s t owner h k
Step-HasLocatorKeys {s} (Step.clear_kind pk kind t h) k =
    subst (λ (w : Store). HasLocatorKeys w.session_locators)
      (behind_check (validate_locator_kind kind) _ t h)
      (delete-HasKeys same_locator _ s.session_locators k)
Step-HasLocatorKeys {s} (Step.clear_runtime pk kind g now t removed h) k =
    subst (λ (w : Store × Bool). HasLocatorKeys w.0.session_locators)
      (behind_check (validate_locator_kind kind) _ (t, removed) h)
      (delete-HasKeys same_locator _ s.session_locators k)
Step-HasLocatorKeys {s} (Step.clear_session_kind pk harness kind t h) k =
    subst (λ (w : Store). HasLocatorKeys w.session_locators)
      (behind_check (validate_locator_kind kind) _ t h)
      (delete-HasKeys same_locator _ s.session_locators k)
Step-HasLocatorKeys {s} (Step.bind_actor actor_key actor_kind pk now) k =
    rw ((bind_actor_keeps actor_key actor_kind pk now s).2) k
Step-HasLocatorKeys {s} (Step.reserve_actor pk agent_slug channel now t h) k =
    let (fresh, written) = reserve_actor_inversion pk agent_slug channel now s t h in
    rw (← written) (if-Locators (trim channel == "") _ _ k k)
Step-HasLocatorKeys {s} (Step.activate_actor actor_key pk now t h) k =
    let (r, stored, moving, allowed, written) = activate_inversion actor_key pk now s t h in
    rw (← written) k
Step-HasLocatorKeys {s} _ k = k

-- From a store in which they hold, the unique indexes of `session_locators` hold in every store that
-- any steps lead to: a locator's value names one row, a session has at most one native resume
-- locator, and at most one locator of each kind for each harness.
pub Reach-HasLocatorKeys :
    {s t : Store}
    → HasLocatorKeys s.session_locators
    → Reach s t
    → HasLocatorKeys t.session_locators
Reach-HasLocatorKeys k here = k
Reach-HasLocatorKeys k (next r st) = Step-HasLocatorKeys st (Reach-HasLocatorKeys k r)
