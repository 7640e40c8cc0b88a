-- ===== src/Table/Upserts.antt =====
-- What an upsert leaves under its own key.
use tenex_edge.Base.{◌≡◌, ◌∙◌, refl, ap, inl, inr, Bool, true, Option-cases, some, List, is_some}
use tenex_edge.Table.{find, exists, upsert}
use tenex_edge.Table.Reads.{find-upsert_self, exists-find}

pub exists-upsert_self {ℓ} :
    {R : Type ℓ} (q : R → Bool) (r : R) (f : R → R) (t : List R)
    → q r ≡ true
    → ((x : R) → q (f x) ≡ q x)
    → exists q (upsert q r f t) ≡ true
exists-upsert_self q r f t here keeps =
    exists-find q (upsert q r f t) ∙ ap is_some (find-upsert_self q r f t here keeps)

-- The row that an upsert leaves, by a predicate that both forms satisfy.
pub upserted {ℓ} :
    {R : Type ℓ} (P : R → Type 0) (q : R → Bool) (r : R) (f : R → R) (t : List R)
    → q r ≡ true
    → ((x : R) → q (f x) ≡ q x)
    → P r
    → ((x : R) → P (f x))
    → (row : R) × (find q (upsert q r f t) ≡ some row) × P row
upserted P q r f t here keeps new old = elim (Option-cases (find q t)) [
  | inl missing ↦ (r, find-upsert_self q r f t here keeps ∙ rw missing refl, new)
  | inr (x, held) ↦ (f x, find-upsert_self q r f t here keeps ∙ rw held refl, old x)
]
