-- ===== src/Relay/Attempts.antt =====
-- src/state/native_turn_attempts.rs: the ledger of the turns that the daemon starts itself. The
-- scrubbing of secrets (src/secret_scrub.rs, over the regex crate) is a parameter.
pub mod Ledger
use Prim.Native.String
use tenex_edge.Base.{
  ℕ, suc, ◌+◌, String, Bool, true, false, ◌&&◌, ◌||◌, not, Option, none, some, List, [], ◌∷◌, ◌++◌,
  ◌==◌, ◌=?◌, ltb, leb, if◌then◌else◌, take_chars, is_whitespace, concat, max,
}
use tenex_edge.Table.{find, update, select, count}
use tenex_edge.Table.Order.{sort_by}
use tenex_edge.Store.Result.{Result, ok, err, fail_if, ◌>>◌, finish_as_started, constraint_failed}

abbrev pub max_diagnostic_chars : ℕ
max_diagnostic_chars = 500

pub data NativeTurnDeliveryKind : Type 0 where
  inbox_event spawn_prompt : NativeTurnDeliveryKind

unfoldable pub kind_as_str : NativeTurnDeliveryKind → String
kind_as_str inbox_event = "inbox_event"
kind_as_str spawn_prompt = "spawn_prompt"

unfoldable pub parse_kind : String → Option NativeTurnDeliveryKind
parse_kind value =
    if value == "inbox_event"
    then some inbox_event
    else if value == "spawn_prompt"
    then some spawn_prompt
    else none

pub data NativeTurnOutcome : Type 0 where
  started completed failed interrupted : NativeTurnOutcome
  rejected_before_start child_exited unknown_reconciled : NativeTurnOutcome

unfoldable pub outcome_as_str : NativeTurnOutcome → String
outcome_as_str started = "started"
outcome_as_str completed = "completed"
outcome_as_str failed = "failed"
outcome_as_str interrupted = "interrupted"
outcome_as_str rejected_before_start = "rejected_before_start"
outcome_as_str child_exited = "child_exited"
outcome_as_str unknown_reconciled = "unknown_reconciled"

unfoldable pub parse_outcome : String → Option NativeTurnOutcome
parse_outcome value =
    if value == "started"
    then some started
    else if value == "completed"
    then some completed
    else if value == "failed"
    then some failed
    else if value == "interrupted"
    then some interrupted
    else if value == "rejected_before_start"
    then some rejected_before_start
    else if value == "child_exited"
    then some child_exited
    else if value == "unknown_reconciled"
    then some unknown_reconciled
    else none

unfoldable pub is_started : NativeTurnOutcome → Bool
is_started started = true
is_started _ = false

unfoldable pub is_failure : NativeTurnOutcome → Bool
is_failure started = false
is_failure completed = false
is_failure _ = true

pub record NativeTurnAttempt : Type 0 where
  pub id : ℕ
  pub pubkey : String
  pub runtime_generation : ℕ
  pub delivery_kind : NativeTurnDeliveryKind
  pub delivery_event_id : String
  pub native_thread_id : String
  pub native_turn_id : String
  pub outcome : NativeTurnOutcome
  pub error_message : String
  pub error_details : String
  pub started_at : ℕ
  pub finished_at : ℕ

pub record NewNativeTurnAttempt : Type 0 where
  pub pubkey : String
  pub runtime_generation : ℕ
  pub delivery_kind : NativeTurnDeliveryKind
  pub delivery_event_id : String
  pub native_thread_id : String
  pub started_at : ℕ

pub record FinishNativeTurnAttempt : Type 0 where
  pub id : ℕ
  pub pubkey : String
  pub runtime_generation : ℕ
  pub native_turn_id : String
  pub outcome : NativeTurnOutcome
  pub error_message : String
  pub error_details : String
  pub finished_at : ℕ

-- The rows, and the greatest id that AUTOINCREMENT has given.
pub record Attempts : Type 0 where
  pub rows : List NativeTurnAttempt
  pub last_id : ℕ

-- `split_whitespace` and `join(" ")`: the blanks at the ends go, and those between two words become one
-- space. `seen` tells whether a word stands in front of the text that is left, `gap` whether a blank
-- follows it.
unfoldable pub join_words : Bool → Bool → String → String
join_words seen gap String.[] = String.[]
join_words seen gap (String.◌∷◌ c s) =
    let skipped = join_words seen true s in
    let kept = String.◌∷◌ c (join_words true false s) in
    if is_whitespace c then skipped else if seen && gap then concat " " kept else kept

unfoldable pub diagnostic : (String → String) → String → String
unfolding join_words
diagnostic scrub value = take_chars max_diagnostic_chars (join_words false false (scrub value))

abbrev pub id_is : ℕ → NativeTurnAttempt → Bool
id_is id a = a.id =? id

abbrev pub new_attempt : ℕ → NewNativeTurnAttempt → NativeTurnAttempt
new_attempt id row = record {
  id = id;
  pubkey = row.pubkey;
  runtime_generation = row.runtime_generation;
  delivery_kind = row.delivery_kind;
  delivery_event_id = row.delivery_event_id;
  native_thread_id = row.native_thread_id;
  native_turn_id = "";
  outcome = started;
  error_message = "";
  error_details = "";
  started_at = row.started_at;
  finished_at = 0;
}

-- The CHECK on the delivery: an event of the inbox has an id, and a spawn prompt has none.
abbrev pub fits_delivery : NativeTurnDeliveryKind → String → Bool
fits_delivery inbox_event event = not (event == "")
fits_delivery spawn_prompt event = event == ""

-- The CHECK constraints of the table on a new row.
abbrev pub is_valid : NewNativeTurnAttempt → Bool
is_valid row =
    ltb 0 row.runtime_generation
    && fits_delivery row.delivery_kind row.delivery_event_id
    && not (row.native_thread_id == "")
    && ltb 0 row.started_at

unfoldable pub start_native_turn_attempt : NewNativeTurnAttempt → Attempts → Result (Attempts × ℕ)
start_native_turn_attempt row a = do
  fail_if (not (is_valid row)) constraint_failed
  ok (
      (
        record { rows = a.rows ++ new_attempt (suc a.last_id) row ∷ []; last_id = suc a.last_id },
        suc a.last_id,
      ))

abbrev pub is_open : NativeTurnAttempt → Bool
is_open a = is_started a.outcome && a.finished_at =? 0

abbrev pub is_finished_by : FinishNativeTurnAttempt → NativeTurnAttempt → Bool
is_finished_by row a =
    id_is row.id a
    && a.pubkey == row.pubkey
    && a.runtime_generation =? row.runtime_generation
    && is_open a

unfoldable pub finish_row :
    (String → String) → FinishNativeTurnAttempt → NativeTurnAttempt → NativeTurnAttempt
unfolding diagnostic
finish_row scrub row r = record r {
  native_turn_id = row.native_turn_id;
  outcome = row.outcome;
  error_message = diagnostic scrub row.error_message;
  error_details = diagnostic scrub row.error_details;
  finished_at = row.finished_at;
}

-- A row that is finished at 0 would break the CHECK on the outcome.
unfoldable pub finish_native_turn_attempt :
    (String → String) → FinishNativeTurnAttempt → Attempts → Result (Attempts × Bool)
unfolding is_started finish_row
finish_native_turn_attempt scrub row a = do
  fail_if (is_started row.outcome) finish_as_started
  fail_if (ltb 0 (count (is_finished_by row) a.rows) && row.finished_at =? 0) constraint_failed
  ok (
      (
        record a { rows = update (is_finished_by row) (finish_row scrub row) a.rows },
        count (is_finished_by row) a.rows =? 1,
      ))

-- `ORDER BY id DESC`
abbrev pub newest_id : NativeTurnAttempt → NativeTurnAttempt → Bool
newest_id a b = leb b.id a.id

unfoldable pub latest_native_turn_attempt : String → ℕ → Attempts → Option NativeTurnAttempt
unfolding is_started
latest_native_turn_attempt pubkey generation a =
    find (λ r. true)
      (sort_by newest_id (
        select
          (λ r.
            r.pubkey == pubkey && r.runtime_generation =? generation && not (is_started r.outcome))
          a.rows))

abbrev pub reconcile_row : ℕ → NativeTurnAttempt → NativeTurnAttempt
reconcile_row now r = record r {
  outcome = unknown_reconciled;
  error_message = "daemon restarted before native terminal evidence";
  finished_at = now;
}

unfoldable pub reconcile_open_native_turn_attempts : ℕ → Attempts → Result (Attempts × ℕ)
unfolding is_started
reconcile_open_native_turn_attempts now a = do
  fail_if (ltb 0 (count is_open a.rows) && now =? 0) constraint_failed
  ok ((record a { rows = update is_open (reconcile_row now) a.rows }, count is_open a.rows))
