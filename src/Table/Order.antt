-- ===== src/Table/Order.antt =====
-- `ORDER BY`, and `Vec::sort_by_key`: a stable insertion sort by a test `le`.
use mathlib.Core.List.Perm
use mathlib.Core.List.{Perm}
use tenex_edge.Base.{
  ◌≡◌, inl, inr, Bool, true, false, Bool-cases, List, [], ◌∷◌, All, if◌then◌else◌,
}

module _ {ℓ} {R : Type ℓ} (le : R → R → Bool) where
  -- In front of the first row that is not smaller: rows that tie keep their order.
  unfoldable pub place : R → List R → List R
  place r [] = r ∷ []
  place r (x ∷ t) = if le r x then r ∷ x ∷ t else x ∷ place r t

  unfoldable pub sort_by : List R → List R
  unfolding place
  sort_by [] = []
  sort_by (r ∷ t) = place r (sort_by t)

  abbrev pub IsSorted : List R → Type 0
  IsSorted [] = Unit
  IsSorted (r ∷ t) = All (λ x. le r x ≡ true) t × IsSorted t

  All-place {κ} : (P : R → Type κ) (r : R) (t : List R) → P r → All P t → All P (place r t)
  unfolding place
  All-place P r [] h ht = (h, tt)
  All-place P r (x ∷ t) h ht = elim (Bool-cases (le r x)) [
    | inl first ↦ rw first (h, ht)
    | inr later ↦ rw later (ht.0, All-place P r t h ht.1)
  ]

  pub All-sort_by {κ} : (P : R → Type κ) (t : List R) → All P t → All P (sort_by t)
  unfolding sort_by
  All-sort_by P [] h = tt
  All-sort_by P (r ∷ t) h = All-place P r (sort_by t) h.0 (All-sort_by P t h.1)

  perm-place : (r : R) (t : List R) → Perm (place r t) (r ∷ t)
  unfolding place
  perm-place r [] = Perm.refl (r ∷ [])
  perm-place r (x ∷ t) = elim (Bool-cases (le r x)) [
    | inl first ↦ rw first (Perm.refl (r ∷ x ∷ t))
    | inr later ↦ rw later (Perm.trans (Perm.cons x (perm-place r t)) (Perm.swap r x t))
  ]

  -- Sorting loses and repeats nothing.
  pub sort_by-perm : (t : List R) → Perm (sort_by t) t
  unfolding sort_by
  sort_by-perm [] = Perm.refl []
  sort_by-perm (r ∷ t) = Perm.trans (perm-place r (sort_by t)) (Perm.cons r (sort_by-perm t))

  module _ (total : (a b : R) → le a b ≡ false → le b a ≡ true)
      (trans : (a b c : R) → le a b ≡ true → le b c ≡ true → le a c ≡ true) where
    All-le :
        (r x : R) (t : List R)
        → le r x ≡ true
        → All (λ y. le x y ≡ true) t
        → All (λ y. le r y ≡ true) t
    All-le r x [] h a = tt
    All-le r x (y ∷ t) h a = (trans r x y h a.0, All-le r x t h a.1)

    place-IsSorted : (r : R) (t : List R) → IsSorted t → IsSorted (place r t)
    unfolding place
    place-IsSorted r [] h = (tt, tt)
    place-IsSorted r (x ∷ t) h = elim (Bool-cases (le r x)) [
      | inl first ↦ rw first ((first, All-le r x t first h.0), h)
      | inr later ↦
          rw later
            (All-place (λ y. le x y ≡ true) r t (total r x later) h.0, place-IsSorted r t h.1)
    ]

    pub sort_by-IsSorted : (t : List R) → IsSorted (sort_by t)
    unfolding sort_by
    sort_by-IsSorted [] = tt
    sort_by-IsSorted (r ∷ t) = place-IsSorted r (sort_by t) (sort_by-IsSorted t)
