-- ===== src/Relay/Attempts/Ledger.antt =====
-- An attempt has one outcome.
use mathlib.Core.Path.{subst}
use tenex_edge.Base.{
  ltb, not, ◌&&◌, ℕ, suc, ◌≤◌, String, Bool, true, false, ◌≡◌, ◌=?◌, refl, ap, some, List, [], ◌∷◌,
  ◌++◌, arith, All, All-append,
}
use tenex_edge.Table.{update, count, find}
use tenex_edge.Table.Keys.{HasKeys, append-HasKeys, update-HasKeys, All-fail_by_key}
use tenex_edge.Table.Rows.{All-update}
use tenex_edge.Table.Reads.{find-append, find-update}
use tenex_edge.Table.Idle.{update_none, count_none}
use tenex_edge.Store.Result.{
  fail_if, ◌>>◌, finish_as_started, constraint_failed, behind_check, past_check, ok,
}
use tenex_edge.Relay.Attempts.{
  finish_row, reconcile_row, is_valid, is_open, NativeTurnAttempt, NewNativeTurnAttempt,
  FinishNativeTurnAttempt, Attempts, is_started, is_finished_by, id_is, new_attempt,
  start_native_turn_attempt, finish_native_turn_attempt, reconcile_open_native_turn_attempts,
}

abbrev pub same_id : NativeTurnAttempt → NativeTurnAttempt → Bool
same_id a b = a.id =? b.id

-- Ids are given once, in order.
pub record IsNumbered (a : Attempts) : Type 0 where
  pub keys : HasKeys same_id a.rows
  pub given : All (λ r. r.id ≤ a.last_id) a.rows

pub data AttemptStep (scrub : String → String) (a : Attempts) : Attempts → Type 0 where
  start :
      (row : NewNativeTurnAttempt) (b : Attempts) (id : ℕ)
      → start_native_turn_attempt row a ≡ ok (b, id)
      → AttemptStep scrub a b
  finish :
      (row : FinishNativeTurnAttempt) (b : Attempts) (done : Bool)
      → finish_native_turn_attempt scrub row a ≡ ok (b, done)
      → AttemptStep scrub a b
  reconcile :
      (now : ℕ) (b : Attempts) (n : ℕ)
      → reconcile_open_native_turn_attempts now a ≡ ok (b, n)
      → AttemptStep scrub a b

pub data AttemptSteps (scrub : String → String) (a : Attempts) : Attempts → Type 0 where
  at_rest : AttemptSteps scrub a a
  then_step :
      {b c : Attempts} → AttemptSteps scrub a b → AttemptStep scrub b c → AttemptSteps scrub a c

-- What a step does to the rows.
data Turned (a : Attempts) : Attempts → Type 0 where
  grown :
      (row : NewNativeTurnAttempt)
      → Turned a (record {
        rows = a.rows ++ new_attempt (suc a.last_id) row ∷ [];
        last_id = suc a.last_id;
      })
  closed :
      (p : NativeTurnAttempt → Bool) (f : NativeTurnAttempt → NativeTurnAttempt)
      → ((r : NativeTurnAttempt) → p r ≡ true → is_started r.outcome ≡ true)
      → ((r : NativeTurnAttempt) → (f r).id ≡ r.id)
      → Turned a (record a { rows = update p f a.rows })

turned : (scrub : String → String) (a b : Attempts) → AttemptStep scrub a b → Turned a b
unfolding start_native_turn_attempt finish_native_turn_attempt reconcile_open_native_turn_attempts
    finish_row
turned scrub a b (start row _ id h) =
    subst (λ (w : Attempts × ℕ). Turned a w.0)
      (behind_check (fail_if (not (is_valid row)) constraint_failed) _ (b, id) h) (grown row)
turned scrub a b (finish row _ done h) =
    let first =
      past_check (fail_if (is_started row.outcome) finish_as_started)
        (fail_if (ltb 0 (count (is_finished_by row) a.rows) && row.finished_at =? 0)
            constraint_failed
          >> ok (
              (
                record a { rows = update (is_finished_by row) (finish_row scrub row) a.rows },
                count (is_finished_by row) a.rows =? 1,
              )))
        (b, done) h in
    let written =
      behind_check
        (fail_if (ltb 0 (count (is_finished_by row) a.rows) && row.finished_at =? 0)
          constraint_failed)
        (
          record a { rows = update (is_finished_by row) (finish_row scrub row) a.rows },
          count (is_finished_by row) a.rows =? 1,
        )
        (b, done) first in
    subst (λ (w : Attempts × Bool). Turned a w.0) written
      (closed (is_finished_by row) (finish_row scrub row) (λ r hit. ground (arith, hit))
        (λ r. refl))
turned scrub a b (reconcile now _ n h) =
    subst (λ (w : Attempts × ℕ). Turned a w.0)
      (behind_check (fail_if (ltb 0 (count is_open a.rows) && now =? 0) constraint_failed) _ (b, n)
        h)
      (closed is_open (reconcile_row now) (λ r hit. ground (arith, hit)) (λ r. refl))

below_new :
    (row : NewNativeTurnAttempt) (last : ℕ) (t : List NativeTurnAttempt)
    → All (λ r. r.id ≤ last) t
    → All (λ r. same_id r (new_attempt (suc last) row) ≡ false) t
below_new row last [] h = tt
below_new row last (r ∷ t) h = (ground (arith, h.0), below_new row last t h.1)

still_below :
    (last : ℕ) (t : List NativeTurnAttempt)
    → All (λ r. r.id ≤ last) t
    → All (λ r. r.id ≤ suc last) t
still_below last [] h = tt
still_below last (r ∷ t) h = (omega (arith, h.0), still_below last t h.1)

Turned-IsNumbered : (a b : Attempts) → Turned a b → IsNumbered a → IsNumbered b
Turned-IsNumbered a b (grown row) h = record {
  keys =
      append-HasKeys same_id (new_attempt (suc a.last_id) row) a.rows h.keys
        (below_new row a.last_id a.rows h.given);
  given =
      All-append (λ r. r.id ≤ suc a.last_id) a.rows (new_attempt (suc a.last_id) row ∷ [])
        (still_below a.last_id a.rows h.given) (omega arith, tt);
}
Turned-IsNumbered a b (closed p f open_only keeps) h = record {
  keys =
      update-HasKeys same_id p f a.rows (λ x y hit. ap (λ k. k =? y.id) (keeps x))
        (λ x y hit. ap (λ k. x.id =? k) (keeps y)) h.keys;
  given = All-update (λ r. r.id ≤ a.last_id) p f a.rows (λ r hit low. rw (keeps r) low) h.given;
}

Turned-keeps :
    (a b : Attempts) (id : ℕ) (r : NativeTurnAttempt)
    → Turned a b
    → is_started r.outcome ≡ false
    → find (id_is id) a.rows ≡ some r
    → find (id_is id) b.rows ≡ some r
Turned-keeps a b id r (grown row) ended found =
    ground (arith, found, find-append (id_is id) a.rows (new_attempt (suc a.last_id) row ∷ []))
Turned-keeps a b id r (closed p f open_only keeps) ended found = ground (
  arith,
  found,
  ended,
  open_only r,
  find-update (id_is id) p f a.rows (λ x. ap (λ k. k =? id) (keeps x)),
)

all_keep :
    (scrub : String → String) (a b : Attempts) (id : ℕ) (r : NativeTurnAttempt)
    → AttemptSteps scrub a b
    → IsNumbered a
    → is_started r.outcome ≡ false
    → find (id_is id) a.rows ≡ some r
    → IsNumbered b × (find (id_is id) b.rows ≡ some r)
all_keep scrub a b id r at_rest h ended found = (h, found)
all_keep scrub a b id r (then_step {b = m} steps last) h ended found =
    let (kept, still) = all_keep scrub a m id r steps h ended found in
    let how = turned scrub m b last in
    (Turned-IsNumbered m b how kept, Turned-keeps m b id r how ended still)

-- In a ledger whose ids were given once and in order, an attempt that has an outcome keeps it, and all
-- else that its row says, whatever attempts are started, finished and reconciled: and finishing it
-- again is refused and writes nothing.
pub outcome_final :
    (scrub : String → String) (a b : Attempts) (row : FinishNativeTurnAttempt)
    (r : NativeTurnAttempt)
    → IsNumbered a
    → find (id_is row.id) a.rows ≡ some r
    → is_started r.outcome ≡ false
    → is_started row.outcome ≡ false
    → AttemptSteps scrub a b
    → (find (id_is row.id) b.rows ≡ some r)
      × (finish_native_turn_attempt scrub row b ≡ ok (b, false))
unfolding finish_native_turn_attempt
outcome_final scrub a b row r h found ended outcome steps =
    let (numbered, still) = all_keep scrub a b row.id r steps h ended found in
    let none_open =
      All-fail_by_key same_id (id_is row.id) (is_finished_by row) b.rows r
        (λ x y hx hy. ground (arith, hx, hy)) (λ x miss. ground (arith, miss)) numbered.keys still
        (ground (arith, ended)) in
    (
      still,
      rw
          (
            outcome,
            count_none (is_finished_by row) b.rows none_open,
            update_none (is_finished_by row) (finish_row scrub row) b.rows none_open,
          )
          refl,
    )
