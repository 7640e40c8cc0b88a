-- ===== src/Table/Rows.antt =====
-- Predicates on every row, and relations between the rows of a table before and after a statement.
use mathlib.Core.Path.{subst}
use tenex_edge.Base.{
  ◌≡◌, refl, inl, inr, Bool, true, false, Bool-cases, some, List, [], ◌∷◌, ◌++◌, All, All-append,
}
use tenex_edge.Table.{find, exists, update, upsert}
use tenex_edge.Table.Keys.{IsFresh, HasKeys}

module _ {ℓ} {R : Type ℓ} (P : R → Type 0) where
  pub All-update :
      (p : R → Bool) (f : R → R) (t : List R)
      → ((r : R) → p r ≡ true → P r → P (f r))
      → All P t
      → All P (update p f t)
  unfolding update
  All-update p f [] keeps h = tt
  All-update p f (x ∷ t) keeps h = elim (Bool-cases (p x)) [
    | inl hit ↦ rw hit (keeps x hit h.0, All-update p f t keeps h.1)
    | inr miss ↦ rw miss (h.0, All-update p f t keeps h.1)
  ]

  pub All-upsert :
      (q : R → Bool) (r : R) (f : R → R) (t : List R)
      → P r
      → ((x : R) → q x ≡ true → P x → P (f x))
      → All P t
      → All P (upsert q r f t)
  unfolding upsert
  All-upsert q r f t new keeps h = elim (Bool-cases (exists q t)) [
    | inl old ↦ rw old (All-update q f t keeps h)
    | inr absent ↦ rw absent (All-append P t (r ∷ []) h (new, tt))
  ]

  pub All-find : (q : R → Bool) (t : List R) (r : R) → All P t → find q t ≡ some r → P r
  unfolding find
  All-find q [] r h e = cc
  All-find q (x ∷ t) r h e = elim (Bool-cases (q x)) [
    | inl hit ↦ let same : some x ≡ some r = rw hit at e in subst P (cc same) h.0
    | inr miss ↦ All-find q t r h.1 (rw miss at e)
  ]

-- A predicate that a write takes the place of another with.
pub All-update_to {ℓ} :
    {R : Type ℓ} (P Q : R → Type 0) (p : R → Bool) (f : R → R) (t : List R)
    → ((r : R) → p r ≡ true → P r → Q (f r))
    → ((r : R) → p r ≡ false → P r → Q r)
    → All P t
    → All Q (update p f t)
unfolding update
All-update_to P Q p f [] written kept h = tt
All-update_to P Q p f (x ∷ t) written kept h = elim (Bool-cases (p x)) [
  | inl hit ↦ rw hit (written x hit h.0, All-update_to P Q p f t written kept h.1)
  | inr miss ↦ rw miss (kept x miss h.0, All-update_to P Q p f t written kept h.1)
]

-- `t` became `u`: its rows are the first rows of `u`, in order, each related to what it became.
module _ {ℓ} {R : Type ℓ} (F : R → R → Type 0) where
  abbrev pub Evolves : List R → List R → Type 0
  Evolves [] u = Unit
  Evolves (a ∷ t) [] = ⊥
  Evolves (a ∷ t) (b ∷ u) = F a b × Evolves t u

  module _ (F_refl : (a : R) → F a a) where
    pub Evolves-refl : (t : List R) → Evolves t t
    Evolves-refl [] = tt
    Evolves-refl (a ∷ t) = (F_refl a, Evolves-refl t)

    pub Evolves-append : (t u : List R) → Evolves t (t ++ u)
    Evolves-append [] u = tt
    Evolves-append (a ∷ t) u = (F_refl a, Evolves-append t u)

    pub Evolves-update :
        (p : R → Bool) (f : R → R) (t : List R)
        → ((r : R) → p r ≡ true → F r (f r))
        → Evolves t (update p f t)
    unfolding update
    Evolves-update p f [] step = tt
    Evolves-update p f (x ∷ t) step = elim (Bool-cases (p x)) [
      | inl hit ↦ rw hit (step x hit, Evolves-update p f t step)
      | inr miss ↦ rw miss (F_refl x, Evolves-update p f t step)
    ]

    Evolves-update_fresh :
        (same : R → R → Bool) (q : R → Bool) (f : R → R) (x : R) (t : List R)
        → ((a b : R) → q a ≡ true → q b ≡ true → same a b ≡ true)
        → q x ≡ true
        → IsFresh same x t
        → Evolves t (update q f t)
    unfolding update
    Evolves-update_fresh same q f x [] keyed hit fr = tt
    Evolves-update_fresh same q f x (y ∷ t) keyed hit fr = elim (Bool-cases (q y)) [
      | inl both ↦ cc (fr.0, keyed x y hit both)
      | inr miss ↦ rw miss (F_refl y, Evolves-update_fresh same q f x t keyed hit fr.1)
    ]

    -- Over a primary key, an update changes at most the row that is found.
    pub Evolves-update_found :
        (same : R → R → Bool) (q : R → Bool) (f : R → R) (t : List R)
        → ((a b : R) → q a ≡ true → q b ≡ true → same a b ≡ true)
        → HasKeys same t
        → ((a : R) → find q t ≡ some a → F a (f a))
        → Evolves t (update q f t)
    unfolding update find
    Evolves-update_found same q f [] keyed h step = tt
    Evolves-update_found same q f (y ∷ t) keyed h step = elim (Bool-cases (q y)) [
      | inl hit ↦ rw hit (step y (rw hit refl), Evolves-update_fresh same q f y t keyed hit h.0)
      | inr miss ↦
          rw miss (F_refl y, Evolves-update_found same q f t keyed h.1 (λ a e. step a (rw miss e)))
    ]

    pub Evolves-upsert_found :
        (same : R → R → Bool) (q : R → Bool) (r : R) (f : R → R) (t : List R)
        → ((a b : R) → q a ≡ true → q b ≡ true → same a b ≡ true)
        → HasKeys same t
        → ((a : R) → find q t ≡ some a → F a (f a))
        → Evolves t (upsert q r f t)
    unfolding upsert
    Evolves-upsert_found same q r f t keyed h step = elim (Bool-cases (exists q t)) [
      | inl old ↦ rw old (Evolves-update_found same q f t keyed h step)
      | inr new ↦ rw new (Evolves-append t (r ∷ []))
    ]

  pub Evolves-trans :
      ((a b c : R) → F a b → F b c → F a c)
      → (t u v : List R) → Evolves t u
      → Evolves u v
      → Evolves t v
  Evolves-trans tr [] u v h k = tt
  Evolves-trans tr (a ∷ t) [] v h k = absurd h
  Evolves-trans tr (a ∷ t) (b ∷ u) [] h k = absurd k
  Evolves-trans tr (a ∷ t) (b ∷ u) (c ∷ v) h k = (tr a b c h.0 k.0, Evolves-trans tr t u v h.1 k.1)

  -- A row that is found before is found after, as what it became.
  pub find-Evolves :
      (q : R → Bool) (t u : List R) (a : R)
      → ((x y : R) → F x y → q y ≡ q x)
      → Evolves t u
      → find q t ≡ some a
      → (b : R) × (find q u ≡ some b) × F a b
  unfolding find
  find-Evolves q [] u a keeps h e = cc
  find-Evolves q (x ∷ t) [] a keeps h e = absurd h
  find-Evolves q (x ∷ t) (y ∷ u) a keeps h e = elim (Bool-cases (q x)) [
    | inl hit ↦
        let same : some x ≡ some a = rw hit at e in
        (y, rw (keeps x y h.0, hit) refl, subst (λ z. F z y) (cc same) h.0)
    | inr miss ↦
        let (b, found, step) = find-Evolves q t u a keeps h.1 (rw miss at e) in
        (b, rw (keeps x y h.0, miss) found, step)
  ]
