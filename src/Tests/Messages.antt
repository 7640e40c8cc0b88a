-- ===== src/Tests/Messages.antt =====
-- Messages and claims of side effects.
use mathlib.Core.List.{map}
use tenex_edge.Base.{◌∷◌, ◌≡◌, refl, true, false, not, none, [], arith}
use tenex_edge.Table.{exists, count_upsert_where}
use tenex_edge.Table.Order.{IsSorted}
use tenex_edge.Store.{Store, empty}
use tenex_edge.Store.Inbox.{enqueue_inbox, is_event_handled, peek_pending_for_pubkey, created_order}
use tenex_edge.Store.Inbox.Once.{enqueue_once}
use tenex_edge.Store.Delivery.{claim_pending_for_pubkey, deliver_row}
use tenex_edge.Store.Delivery.Handout.{claim_hands_out_once}
use tenex_edge.Store.Eviction.{reserve_due_idle_eviction}
use tenex_edge.Store.Eviction.Fences.{message_fences_eviction}
use tenex_edge.Store.Claims.{claim_orchestration_target, complete_orchestration_target}
use tenex_edge.Store.Claims.Exclusion.{completed_never_claimed, lease_excludes}
use tenex_edge.Store.WorkStart.{take_work_start_claims_for_events}
use tenex_edge.Store.WorkStart.OneShot.{work_taken_once}
use tenex_edge.Tests.Data.{resting, with_session}

-- A message to an idle session.
abbrev mentioned : Store
mentioned = (enqueue_inbox "e1" "alice" "bob" "room" "hello" 650 (with_session resting)).0

enqueue_once_example :
    ((enqueue_inbox "e1" "alice" "bob" "room" "hello" 650 (with_session resting)).1
      ≡ not (is_event_handled "e1" "alice" (with_session resting)))
    × (is_event_handled "e1" "alice" mentioned ≡ true)
    × (enqueue_inbox "e1" "alice" "carol" "room" "again" 660 mentioned ≡ (mentioned, false))
enqueue_once_example =
    enqueue_once "e1" "alice" "bob" "room" "hello" "carol" "room" "again" 650 660
      (with_session resting)

claim_hands_out_once_example :
    ((claim_pending_for_pubkey "alice" 670 mentioned).1
      ≡ map (deliver_row 670) (peek_pending_for_pubkey "alice" mentioned))
    × IsSorted created_order (peek_pending_for_pubkey "alice" mentioned)
    × (peek_pending_for_pubkey "alice" (claim_pending_for_pubkey "alice" 670 mentioned).0 ≡ [])
    × ((claim_pending_for_pubkey "alice" 680 (claim_pending_for_pubkey "alice" 670 mentioned).0).1
        ≡ [])
    × (peek_pending_for_pubkey "bob" (claim_pending_for_pubkey "alice" 670 mentioned).0
        ≡ peek_pending_for_pubkey "bob" mentioned)
claim_hands_out_once_example = claim_hands_out_once "alice" "bob" 670 680 mentioned refl

message_fences_eviction_example :
    reserve_due_idle_eviction "alice" 1 1 3 800 mentioned ≡ (mentioned, none)
unfolding is_event_handled exists
message_fences_eviction_example =
    message_fences_eviction "e1" "alice" "bob" "room" "hello" 650 1 1 3 800 (with_session resting)
      refl

-- A side effect that a backend claims.
abbrev claimed : Store
claimed = (claim_orchestration_target "e1" "spawn" "bob" "room" "go" 1000 empty).0

completed_never_claimed_example :
    claim_orchestration_target "e1" "spawn" "bob" "room" "go" 9000
      (complete_orchestration_target "e1" "spawn" 1010 claimed)
    ≡ (complete_orchestration_target "e1" "spawn" 1010 claimed, false)
completed_never_claimed_example =
    completed_never_claimed "e1" "spawn" "bob" "room" "go" 1000 1010 9000 empty

lease_excludes_example :
    claim_orchestration_target "e1" "spawn" "carol" "room" "go" 1600 claimed ≡ (claimed, false)
unfolding claim_orchestration_target count_upsert_where exists
lease_excludes_example =
    lease_excludes "e1" "spawn" "bob" "room" "go" "carol" "room" "go" 1000 1600 empty tt refl
      (omega arith)

-- The message is handed to the agent, which begins its turn.
work_taken_once_example :
    (take_work_start_claims_for_events "alice"
      ("e1" ∷ [])
      690
      (take_work_start_claims_for_events "alice" [] 680
        (claim_pending_for_pubkey "alice" 670 mentioned).0).0).1
    ≡ []
work_taken_once_example =
    work_taken_once "alice" ("e1" ∷ []) 680 690 (claim_pending_for_pubkey "alice" 670 mentioned).0
