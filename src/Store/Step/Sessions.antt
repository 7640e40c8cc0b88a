-- ===== src/Store/Step/Sessions.antt =====
-- Every step changes the table of sessions in one of the ways of Change.
use tenex_edge.Base.{◌≡◌, refl, true, ◌&&◌, arith, ◌==◌, trim}
use tenex_edge.Session.{Session, StopReason, is_working}
use tenex_edge.Table.{update, exists}
use tenex_edge.Store.Retention.{prune_retained_state}
use tenex_edge.Store.{Store, session_is}
use tenex_edge.Store.Sessions.Incarnation.{reserve_inversion}
use tenex_edge.Store.Stopping.{
  record_claimed_harness, touch_session, bind_runtime_process, is_running_generation,
  mark_runtime_stopped_if_generation,
}
use tenex_edge.Store.Standing.{
  mark_session_standing_member_if_running, retain_stopped_session_routes,
  mark_session_standing_absent_if_epoch,
}
use tenex_edge.Store.Routes.{
  commit_admission, commit_confirmed_session_admission, schedule_confirmed_admission_cleanup,
  admission_is_committed, owns_runtime, revoke_route_and_mark_absent, grant_session_route,
  revoke_session_route,
}
use tenex_edge.Store.Lifecycle.{
  apply_session_presentation_edge, mark_session_presentation_unavailable,
  apply_session_turn_started, apply_session_turn_ended, cancel_session_idle_deadline_for_delivery,
  turn_ended_row,
}
use tenex_edge.Store.Eviction.{
  reserve_due_idle_eviction, cancel_idle_eviction_on_presentation_change,
  finalize_runtime_stopped_if_epoch, is_reservable, reserve_row,
}
use tenex_edge.Store.Recovery.{
  revoke_session_recovery_if_generation, finalize_session_recovery_revocation,
}
use tenex_edge.Store.Inbox.{enqueue_inbox, mark_delivered}
use tenex_edge.Store.Delivery.{
  claim_pending_for_pubkey, claim_pending_event_ids_for_pubkey, reenqueue_pending,
  mark_injected_for_echo, consume_injected_echo,
}
use tenex_edge.Store.WorkStart.{take_work_start_claims_for_events}
use tenex_edge.Store.Claims.{
  claim_orchestration_target, complete_orchestration_target, retry_orchestration_target,
  complete_offline_mention, retry_offline_mention,
}
use tenex_edge.Store.Context.{
  set_session_channel, set_session_context, set_session_title, advance_cursor_if_current,
}
use tenex_edge.Store.Coherence.{
  edge_row-IsCoherent, unavailable_row-IsCoherent, turn_started_row-IsCoherent,
  turn_ended_row-IsCoherent, reserve_row-IsCoherent, cancel_row-IsCoherent,
}
use tenex_edge.Store.Step.{Step}
use tenex_edge.Store.Step.Follows.{
  edge_row-Follows, unavailable_row-Follows, turn_started_row-Follows, turn_ended_row-Follows,
  reserve_row-Follows, cancel_row-Follows,
}
use tenex_edge.Store.Step.Change.{RowChange, Change, same, rows}
use tenex_edge.Store.Step.Admission.{
  if-Change, if-Change_pair, written-Change, stopped_change, disarmed_change, admit-Change,
  join-Change,
}
use tenex_edge.Store.Locators.{locator_native_resume}
use tenex_edge.Store.Locators.Inversion.{set_inversion}
use tenex_edge.Store.Step.Actors.{put-Change, claim-Change}
use tenex_edge.Store.Step.Callers.{
  clear_kind-Change, clear_runtime-Change, clear_session_kind-Change, reserve_actor-Change,
  activate-Change, bind_actor_keeps,
}

pub Step-Change : {s t : Store} → Step s t → Change s.sessions t.sessions
unfolding record_claimed_harness touch_session bind_runtime_process
    mark_runtime_stopped_if_generation apply_session_presentation_edge
    mark_session_presentation_unavailable apply_session_turn_started apply_session_turn_ended
    cancel_session_idle_deadline_for_delivery reserve_due_idle_eviction
    cancel_idle_eviction_on_presentation_change finalize_runtime_stopped_if_epoch
    revoke_session_recovery_if_generation finalize_session_recovery_revocation
    mark_session_standing_member_if_running retain_stopped_session_routes
    mark_session_standing_absent_if_epoch revoke_route_and_mark_absent grant_session_route
    revoke_session_route enqueue_inbox mark_delivered claim_pending_for_pubkey
    claim_pending_event_ids_for_pubkey reenqueue_pending mark_injected_for_echo
    consume_injected_echo take_work_start_claims_for_events claim_orchestration_target
    complete_orchestration_target retry_orchestration_target complete_offline_mention
    retry_offline_mention set_session_channel set_session_context set_session_title
    advance_cursor_if_current commit_confirmed_session_admission
    schedule_confirmed_admission_cleanup prune_retained_state
Step-Change {s} (Step.reserve r facts t g h) =
    let (next, written) = reserve_inversion r facts s t g h in
    rw (← written) (written-Change r facts s g next)
Step-Change {s} (Step.claim_harness pk harness) =
    if-Change _ _ _ same
      (rows _ _ (λ r hit. record { follows = ground arith; coherent = λ c. ground arith }))
Step-Change {s} (Step.touch pk at) =
    rows _ _ (λ r hit. record { follows = ground arith; coherent = λ c. ground arith })
Step-Change {s} (Step.bind_process pk g pid now) =
    rows _ _ (λ r hit. record { follows = ground arith; coherent = λ c. ground arith })
Step-Change {s} (Step.stop pk g reason at) =
    if-Change _ _ _ (rows _ _ (λ r hit. stopped_change reason at r))
      (rows _ _ (λ r hit. stopped_change reason at r))
Step-Change {s} (Step.present pk g epoch p at) = rows _ _ (λ r hit. record {
  follows = edge_row-Follows epoch p at r (ground arith);
  coherent = edge_row-IsCoherent epoch p at r (ground arith);
})
Step-Change {s} (Step.lose_presentation pk g epoch at) = rows _ _ (λ r hit. record {
  follows = unavailable_row-Follows at r;
  coherent = unavailable_row-IsCoherent at r;
})
Step-Change {s} (Step.start_turn pk g at) = rows _ _ (λ r hit. record {
  follows = turn_started_row-Follows at r;
  coherent = turn_started_row-IsCoherent at r (ground arith);
})
Step-Change {s} (Step.end_turn pk g at) = if-Change _ _ _ (rows _ _ ended) (rows _ _ ended)
  where
    ended :
        (r : Session)
        → (is_running_generation pk g r && is_working r.work_state) ≡ true
        → RowChange r (turn_ended_row at r)
    ended r hit = record {
      follows = turn_ended_row-Follows at r;
      coherent = turn_ended_row-IsCoherent at r (ground arith);
    }
Step-Change {s} (Step.cancel_deadline pk g) = rows _ _ (λ r hit. disarmed_change r)
Step-Change {s} (Step.reserve_eviction pk g l a now) =
    if-Change_pair _ _ _ (rows _ _ reserved_change) (rows _ _ reserved_change)
  where
    reserved_change :
        (r : Session)
        → is_reservable s.inbox pk g l a now r ≡ true
        → RowChange r (reserve_row now r)
    reserved_change r hit = record {
      follows = reserve_row-Follows now r;
      coherent = reserve_row-IsCoherent now r (ground arith);
    }
Step-Change {s} (Step.cancel_eviction pk g l epoch p at) = rows _ _ (λ r hit. record {
  follows = cancel_row-Follows epoch p at r (ground arith);
  coherent = cancel_row-IsCoherent epoch p at r (ground arith);
})
Step-Change {s} (Step.finalize_stop pk g l reason at) =
    if-Change_pair _ _ _ same (rows _ _ (λ r hit. stopped_change reason at r))
Step-Change {s} (Step.revoke pk g) =
    rows _ _ (λ r hit. record { follows = ground arith; coherent = λ c. ground arith })
Step-Change {s} (Step.finalize_revocation pk g now) =
    if-Change_pair _ _ _ same (rows _ _ (λ r hit. stopped_change StopReason.revoked now r))
Step-Change {s} (Step.join pk channel epoch now) = join-Change pk channel epoch now s
Step-Change {s} (Step.retain_routes pk epoch until now) = if-Change_pair _ _ _ same same
Step-Change {s} (Step.admit pk channel g epoch now t c h) =
    admit-Change pk channel epoch now s t c (exists (owns_runtime pk g epoch) s.sessions)
      (commit_admission pk channel epoch now s) h refl
Step-Change {s} (Step.clean_admission pk channel g epoch now t c h) =
    admit-Change pk channel epoch now s t c (admission_is_committed pk channel g epoch s) s h refl
Step-Change {s} (Step.grant pk channel at) = if-Change _ _ _ same same
Step-Change {s} (Step.enqueue event target from_pubkey channel body at) =
    if-Change_pair _ _ _ same (rows _ _ (λ r hit. disarmed_change r))
Step-Change {s} (Step.set_channel pk channel now) =
    if-Change (trim channel == "") _ _ moved (if-Change (trim channel == "") _ _ moved moved)
  where
    moved :
        Change s.sessions
          (update (session_is pk) (λ r. record r { channel_h = channel }) s.sessions)
    moved = rows _ _ (λ r hit. record { follows = ground arith; coherent = λ c. ground arith })
Step-Change {s} (Step.set_context pk channel root parent now) =
    if-Change (trim channel == "") _ _ moved (if-Change (trim channel == "") _ _ moved moved)
  where
    moved : Change s.sessions (
        update
          (session_is pk)
          (λ r. record r { channel_h = channel; work_root = root; readiness_parent = parent })
          s.sessions)
    moved = rows _ _ (λ r hit. record { follows = ground arith; coherent = λ c. ground arith })
Step-Change {s} (Step.set_title pk title) =
    rows _ _ (λ r hit. record { follows = ground arith; coherent = λ c. ground arith })
Step-Change {s} (Step.advance_cursor pk expected seen) =
    rows _ _ (λ r hit. record { follows = ground arith; coherent = λ c. ground arith })
Step-Change {s} (Step.put_locator harness kind value pk at t h) =
    put-Change harness kind value pk at s t h
Step-Change {s} (Step.set_native pk harness native_resume now t h) =
    put-Change harness locator_native_resume native_resume pk now s t
      (set_inversion pk harness native_resume now s t h)
Step-Change {s} (Step.claim_native pk harness native_resume now t owner h) =
    claim-Change pk harness native_resume now s t owner h
Step-Change {s} (Step.clear_kind pk kind t h) = (clear_kind-Change pk kind s t h).0
Step-Change {s} (Step.clear_runtime pk kind g now t removed h) =
    (clear_runtime-Change pk kind g now s t removed h).0
Step-Change {s} (Step.clear_session_kind pk harness kind t h) =
    rw ((clear_session_kind-Change pk harness kind s t h).0) same
Step-Change {s} (Step.bind_actor actor_key actor_kind pk now) =
    rw ((bind_actor_keeps actor_key actor_kind pk now s).0) same
Step-Change {s} (Step.reserve_actor pk agent_slug channel now t h) =
    reserve_actor-Change pk agent_slug channel now s t h
Step-Change {s} (Step.activate_actor actor_key pk now t h) = activate-Change actor_key pk now s t h
Step-Change {s} _ = same
