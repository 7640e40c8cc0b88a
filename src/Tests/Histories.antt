-- ===== src/Tests/Histories.antt =====
-- Sequences of operations.
use tenex_edge.Base.{true, false, ◌≡◌, ◌≢◌, refl, some, arith, []}
use tenex_edge.Session.{Session, is_running, is_revoked, operator_kill}
use tenex_edge.Table.{insert_or_ignore, find, exists}
use tenex_edge.Store.{Store}
use tenex_edge.Store.Result.{ok}
use tenex_edge.Store.Sessions.{get_session, reserve_session_with_facts}
use tenex_edge.Store.Stopping.{mark_runtime_stopped_if_generation}
use tenex_edge.Store.Lifecycle.{apply_session_turn_started}
use tenex_edge.Store.Inbox.{enqueue_inbox, is_event_handled}
use tenex_edge.Store.Delivery.{claim_pending_for_pubkey}
use tenex_edge.Store.Retention.{prune_retained_state}
use tenex_edge.Store.Step.Handled.{WithinAWeek, begun, continued, handled_for_a_week}
use tenex_edge.Store.Coherence.{IsCoherent}
use tenex_edge.Store.Step.{Step, Reach, here, next}
use tenex_edge.Store.Step.Follows.{Follows}
use tenex_edge.Store.Step.Invariant.{IsSound, Reach-IsSound, session_history}
use tenex_edge.Store.Step.Revoked.{revoked_never_reserved}
use tenex_edge.Tests.Data.{registration, launch, resting, revoked, with_session}

resting-IsSound : IsSound (with_session resting)
unfolding is_running
resting-IsSound = record { keys = (tt, tt); coherent = (coherent, tt) }
  where
    coherent : IsCoherent resting
    coherent = ground arith

revoked-IsSound : IsSound (with_session revoked)
unfolding is_running
revoked-IsSound = record { keys = (tt, tt); coherent = (coherent, tt) }
  where
    coherent : IsCoherent revoked
    coherent = ground arith

-- A message arrives, its turn begins, and the operator kills the session.
abbrev mentioned : Store
mentioned = (enqueue_inbox "e1" "alice" "bob" "room" "hello" 650 (with_session resting)).0

abbrev turned : Store
turned = (apply_session_turn_started "alice" 1 660 mentioned).0

abbrev killed : Store
killed = (mark_runtime_stopped_if_generation "alice" 1 operator_kill 690 turned).0

history : Reach (with_session resting) killed
history =
    next
      (next (next here (Step.enqueue "e1" "alice" "bob" "room" "hello" 650))
        (Step.start_turn "alice" 1 660))
      (Step.stop "alice" 1 operator_kill 690)

Reach-IsSound_example : IsSound killed
Reach-IsSound_example = Reach-IsSound resting-IsSound history

session_history_example : (b : Session) × (get_session "alice" killed ≡ some b) × Follows resting b
unfolding get_session find
session_history_example = session_history "alice" resting resting-IsSound history refl

revoked_never_reserved_example :
    reserve_session_with_facts registration launch
      (enqueue_inbox "e1" "alice" "bob" "room" "hello" 650 (with_session revoked)).0
    ≢ ok (with_session resting, 2)
unfolding get_session find is_revoked
revoked_never_reserved_example =
    revoked_never_reserved registration launch revoked (with_session resting) 2 revoked-IsSound refl
      refl (next here (Step.enqueue "e1" "alice" "bob" "room" "hello" 650))

-- The message is claimed at 650, and the pruner runs just before a week is over.
abbrev claimed : Store
claimed = (claim_pending_for_pubkey "alice" 650 mentioned).0

abbrev pruned : Store
pruned =
    (prune_retained_state (λ key pattern. false) 605400
      (record {
        store = claimed;
        relay_events = [];
        attempts = record { rows = []; last_id = 0 };
      })).0.store

claimed_and_pruned : WithinAWeek 600 mentioned pruned
claimed_and_pruned =
    continued (continued begun (Step.claim_all "alice" 650) (omega arith))
      (Step.prune (λ key pattern. false) 605400 [] (record { rows = []; last_id = 0 }))
      (omega arith)

handled_for_a_week_example :
    (is_event_handled "e1" "alice" pruned ≡ true)
    × (enqueue_inbox "e1" "alice" "carol" "room" "again" 605500 pruned ≡ (pruned, false))
unfolding exists enqueue_inbox insert_or_ignore
handled_for_a_week_example =
    handled_for_a_week "e1" "alice" "carol" "room" "again" 605500 600 {s = mentioned} refl
      claimed_and_pruned
