-- ===== src/Tests/Lifecycle.antt =====
-- Presentation edges, turns and evictions.
use tenex_edge.Base.{none, ◌≡◌, refl, ◌+◌, ◌-◌, true, false, some, arith}
use tenex_edge.Table.{exists, count, update, find}
use tenex_edge.Session.{
  Session, headless, headed, idle_evicted, is_running, is_stopping, is_stopped, is_idle,
  is_headless, is_unavailable,
}
use tenex_edge.Store.Sessions.{get_session}
use tenex_edge.Store.Lifecycle.{
  apply_session_presentation_edge, apply_session_turn_started, apply_session_turn_ended,
}
use tenex_edge.Store.Lifecycle.Edges.{late_edge_ignored}
use tenex_edge.Store.Lifecycle.Turns.{turn_counts_once}
use tenex_edge.Store.{Store}
use tenex_edge.Store.Eviction.{
  reserve_row, is_due, has_open_inbox, reserve_due_idle_eviction,
  cancel_idle_eviction_on_presentation_change, finalize_runtime_stopped_if_epoch,
}
use tenex_edge.Store.Eviction.Epochs.{
  reserved_then_finalized, left_epoch_never_finalized, cancelled_never_finalized,
}
use tenex_edge.Store.Step.{Step, here, next}
use tenex_edge.Store.Step.Invariant.{IsSound}
use tenex_edge.Store.Coherence.{IsCoherent}
use tenex_edge.Tests.Data.{resting, evicting, with_session}

late_edge_ignored_example :
    apply_session_presentation_edge "alice" 1 4 headless 120
      (apply_session_presentation_edge "alice" 1 5 headed 110 (with_session resting)).0
    ≡ ((apply_session_presentation_edge "alice" 1 5 headed 110 (with_session resting)).0, false)
unfolding is_unavailable
late_edge_ignored_example =
    late_edge_ignored "alice" 1 5 4 headed headless 110 120 (with_session resting) (omega arith)
      refl

turn_counts_once_example :
    (b : Session) × (get_session "alice"
        (apply_session_turn_ended "alice" 1 160
          (apply_session_turn_started "alice" 1 130
            (apply_session_turn_started "alice" 1 120 (with_session resting)).0).0).0
      ≡ some b)
    × (b.turn_count ≡ resting.turn_count + 1)
    × (b.busy_seconds ≡ resting.busy_seconds + (160 - 120))
    × (is_idle b.work_state ≡ true)
    × (b.turn_started_at ≡ 0)
unfolding get_session find is_idle is_running
turn_counts_once_example =
    turn_counts_once "alice" 1 120 130 160 (with_session resting) resting refl refl refl
      (omega arith)

reserved_then_finalized_example :
    (b : Session) × ((finalize_runtime_stopped_if_epoch "alice" 1
        (1 + 1)
        idle_evicted
        810
        (reserve_due_idle_eviction "alice" 1 1 3 800 (with_session resting)).0).1
      ≡ some b)
    × (is_stopped b.runtime_state ≡ true)
    × (b.stop_reason ≡ some idle_evicted)
    × (b.runtime_generation ≡ 1)
    × (b.lifecycle_epoch ≡ 1 + 2)
unfolding reserve_due_idle_eviction reserve_row is_due has_open_inbox exists count update find
    get_session is_running is_headless is_idle
reserved_then_finalized_example =
    reserved_then_finalized "alice" 1 1 3 800 idle_evicted 810 (with_session resting) evicting
      (tt, tt) refl

evicting-IsSound : IsSound (with_session evicting)
unfolding is_running is_stopping
evicting-IsSound = record { keys = (tt, tt); coherent = (coherent, tt) }
  where
    coherent : IsCoherent evicting
    coherent = ground arith

left_epoch_never_finalized_example :
    finalize_runtime_stopped_if_epoch "alice" 1 1 idle_evicted 810 (with_session evicting)
    ≡ (with_session evicting, none)
unfolding get_session find
left_epoch_never_finalized_example =
    left_epoch_never_finalized "alice" 1 1 idle_evicted 810 evicting evicting-IsSound refl
      (omega arith) here

-- The agent is shown again before the second phase.
abbrev shown_again : Store
shown_again =
    (cancel_idle_eviction_on_presentation_change "alice" 1 2 4 headed 805 (with_session evicting)).0

cancelled_never_finalized_example :
    ((b : Session) × (get_session "alice" shown_again ≡ some b)
      × (is_running b.runtime_state ≡ true))
    × (finalize_runtime_stopped_if_epoch "alice" 1 2 idle_evicted 810
          (apply_session_turn_started "alice" 1 806 shown_again).0
        ≡ ((apply_session_turn_started "alice" 1 806 shown_again).0, none))
unfolding cancel_idle_eviction_on_presentation_change is_stopping count
cancelled_never_finalized_example =
    cancelled_never_finalized "alice" 1 2 4 headed 805 810 idle_evicted evicting-IsSound refl
      (next here (Step.start_turn "alice" 1 806))
