-- ===== src/Tests/Ledgers.antt =====
-- Rosters of channels and turn attempts at concrete inputs.
use tenex_edge.Base.{String, ◌≡◌, refl, true, false, some, [], ◌∷◌, arith}
use tenex_edge.Table.{find, exists}
use tenex_edge.Store.Result.{ok}
use tenex_edge.Relay.Members.{
  Rosters, new_member, is_channel_admin, is_channel_member, replace_channel_admins,
  replace_channel_members,
}
use tenex_edge.Relay.Members.Snapshots.{roster_taken}
use tenex_edge.Relay.Attempts.{
  NativeTurnAttempt, NewNativeTurnAttempt, FinishNativeTurnAttempt, Attempts, inbox_event, failed,
  completed, is_started, id_is, new_attempt, finish_native_turn_attempt, start_native_turn_attempt,
}
use tenex_edge.Relay.Attempts.Ledger.{
  IsNumbered, AttemptSteps, at_rest, then_step, start, outcome_final,
}

abbrev rosters : Rosters
rosters = record {
  members = new_member "room" "alice" "admin" 10 ∷ new_member "room" "bob" "member" 10 ∷ [];
  sets = record { channel_h = "room"; role = "admin"; updated_at = 10 } ∷ [];
}

roster_taken_example :
    (is_channel_admin "room" "bob" (replace_channel_admins "room" ("bob" ∷ []) 20 rosters) ≡ true)
    × (is_channel_member "room" "bob" (replace_channel_members "room" ("bob" ∷ []) 20 rosters)
        ≡ true)
    × (is_channel_admin "room" "bob" (replace_channel_members "room" ("bob" ∷ []) 20 rosters)
        ≡ false)
unfolding exists is_channel_admin is_channel_member
roster_taken_example = roster_taken "room" "bob" ("bob" ∷ []) 20 rosters (refl, (refl, tt))

-- A turn of an event failed, and another event's turn starts.
abbrev turn_of : String → NewNativeTurnAttempt
turn_of event = record {
  pubkey = "alice";
  runtime_generation = 1;
  delivery_kind = inbox_event;
  delivery_event_id = event;
  native_thread_id = "thread";
  started_at = 10;
}

abbrev failed_turn : NativeTurnAttempt
failed_turn = record (new_attempt 1 (turn_of "e1")) { outcome = failed; finished_at = 20 }

abbrev ledger : Attempts
ledger = record { rows = failed_turn ∷ []; last_id = 1 }

abbrev grown_ledger : Attempts
grown_ledger = record { rows = failed_turn ∷ new_attempt 2 (turn_of "e2") ∷ []; last_id = 2 }

abbrev completion : FinishNativeTurnAttempt
completion = record {
  id = 1;
  pubkey = "alice";
  runtime_generation = 1;
  native_turn_id = "turn";
  outcome = completed;
  error_message = "";
  error_details = "";
  finished_at = 30;
}

ledger-IsNumbered : IsNumbered ledger
ledger-IsNumbered = record { keys = (tt, tt); given = (omega arith, tt) }

grown : AttemptSteps (λ text. text) ledger grown_ledger
unfolding start_native_turn_attempt
grown = then_step at_rest (start (turn_of "e2") grown_ledger 2 refl)

outcome_final_example :
    (find (id_is 1) grown_ledger.rows ≡ some failed_turn)
    × (finish_native_turn_attempt (λ text. text) completion grown_ledger ≡ ok (grown_ledger, false))
unfolding find is_started
outcome_final_example =
    outcome_final (λ text. text) ledger grown_ledger completion failed_turn ledger-IsNumbered refl
      refl refl grown
