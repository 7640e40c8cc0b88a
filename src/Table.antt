-- ===== src/Table.antt =====
-- The tables of the SQLite store (src/state.rs and src/state/): a table is the list of its rows in
-- insertion order, and a statement is an operation on that list. SQLite itself is not modelled:
-- these are the meanings of the statement forms that the store's SQL text uses.
pub mod Reads
pub mod Keys
pub mod Order
pub mod Rows
pub mod Idle
pub mod Upserts
pub mod Written
use tenex_edge.Base.{
  ℕ, suc, ◌≡◌, Bool, true, false, ◌&&◌, ◌||◌, Option, none, some, List, [], ◌∷◌, ◌++◌,
  if◌then◌else◌,
}

module _ {ℓ} {R : Type ℓ} where
  -- `SELECT … WHERE p`, of at most one row: `query_row(…).optional()`
  unfoldable pub find : (R → Bool) → List R → Option R
  find p [] = none
  find p (r ∷ t) = if p r then some r else find p t

  -- `SELECT EXISTS(SELECT 1 … WHERE p)`
  unfoldable pub exists : (R → Bool) → List R → Bool
  exists p [] = false
  exists p (r ∷ t) = p r || exists p t

  -- `SELECT … WHERE p`
  unfoldable pub select : (R → Bool) → List R → List R
  select p [] = []
  select p (r ∷ t) = let rest = select p t in if p r then r ∷ rest else rest

  -- `UPDATE … SET f WHERE p`
  unfoldable pub update : (R → Bool) → (R → R) → List R → List R
  update p f [] = []
  update p f (r ∷ t) = (if p r then f r else r) ∷ update p f t

  -- the number of rows that `execute` reports for such an `UPDATE`
  unfoldable pub count : (R → Bool) → List R → ℕ
  count p [] = 0
  count p (r ∷ t) = let n = count p t in if p r then suc n else n

  -- `DELETE … WHERE p`
  unfoldable pub delete : (R → Bool) → List R → List R
  delete p [] = []
  delete p (r ∷ t) = let rest = delete p t in if p r then rest else r ∷ rest

  -- `INSERT OR IGNORE`, and `ON CONFLICT(…) DO NOTHING`; `same` finds the row with the same key
  unfoldable pub insert_or_ignore : (R → Bool) → R → List R → List R
  insert_or_ignore same r t = if exists same t then t else t ++ r ∷ []

  -- `INSERT … ON CONFLICT(…) DO UPDATE SET f`
  unfoldable pub upsert : (R → Bool) → R → (R → R) → List R → List R
  upsert same r f t = if exists same t then update same f t else t ++ r ∷ []

  -- `INSERT … ON CONFLICT(…) DO UPDATE SET f WHERE g`, and the number of rows that it reports
  unfoldable pub upsert_where : (R → Bool) → (R → Bool) → R → (R → R) → List R → List R
  upsert_where same g r f t = if exists same t then update (λ x. same x && g x) f t else t ++ r ∷ []

  unfoldable pub count_upsert_where : (R → Bool) → (R → Bool) → List R → ℕ
  count_upsert_where same g t = if exists same t then count (λ x. same x && g x) t else 1

  -- `UPDATE … SET f WHERE p RETURNING …`: the rows as they were written
  unfoldable pub returning : (R → Bool) → (R → R) → List R → List R
  returning p f [] = []
  returning p f (r ∷ t) = let rest = returning p f t in if p r then f r ∷ rest else rest
