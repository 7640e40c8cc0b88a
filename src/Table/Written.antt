-- ===== src/Table/Written.antt =====
-- Writing a row over a key, under further unique indexes.
use tenex_edge.Base.{◌≡◌, inl, inr, Bool, true, false, Bool-cases, List, [], ◌∷◌, arith, All}
use tenex_edge.Table.{exists, update, upsert}
use tenex_edge.Table.Keys.{HasKeys, IsFresh, append-HasKeys}

module _ {ℓ} {R : Type ℓ} (same : R → R → Bool) (q : R → Bool) (r : R) where
  -- Nothing but the row of the written key stands against the written row.
  abbrev pub IsClear : List R → Type 0
  IsClear = All (λ x. q x ≡ false → (same x r ≡ false) × (same r x ≡ false))

  module _ (f : R → R) (keyed : (a b : R) → q a ≡ true → q b ≡ true → same a b ≡ true)
      (left : (a b : R) → q a ≡ true → same (f a) b ≡ same r b)
      (right : (a b : R) → q b ≡ true → same a (f b) ≡ same a r) where
    update-IsFresh_besides :
        (x : R) (t : List R)
        → q x ≡ false
        → IsFresh same x t
        → (same x r ≡ false)
        → IsFresh same x (update q f t)
    unfolding update
    update-IsFresh_besides x [] miss fr clear = tt
    update-IsFresh_besides x (y ∷ t) miss fr clear = elim (Bool-cases (q y)) [
      | inl hit ↦
          rw hit (ground (arith, right x y hit, clear), update-IsFresh_besides x t miss fr.1 clear)
      | inr other ↦ rw other (fr.0, update-IsFresh_besides x t miss fr.1 clear)
    ]

    written-IsFresh :
        (x : R) (t : List R)
        → q x ≡ true
        → IsFresh same x t
        → IsClear t
        → IsFresh same (f x) (update q f t)
    unfolding update
    written-IsFresh x [] hit fr clear = tt
    written-IsFresh x (y ∷ t) hit fr clear = elim (Bool-cases (q y)) [
      | inl both ↦ ground (arith, keyed x y hit both, fr.0)
      | inr other ↦
          rw other
            (ground (arith, left x y hit, (clear.0 other).1), written-IsFresh x t hit fr.1 clear.1)
    ]

    pub taken-HasKeys : (t : List R) → HasKeys same t → IsClear t → HasKeys same (update q f t)
    unfolding update
    taken-HasKeys [] h clear = tt
    taken-HasKeys (x ∷ t) h clear = elim (Bool-cases (q x)) [
      | inl hit ↦ rw hit (written-IsFresh x t hit h.0 clear.1, taken-HasKeys t h.1 clear.1)
      | inr miss ↦
          rw miss
            (update-IsFresh_besides x t miss h.0 (clear.0 miss).0, taken-HasKeys t h.1 clear.1)
    ]

    clear_new : (t : List R) → exists q t ≡ false → IsClear t → All (λ x. same x r ≡ false) t
    unfolding exists
    clear_new [] none_there clear = tt
    clear_new (x ∷ t) none_there clear =
        ((clear.0 (ground (arith, none_there))).0, clear_new t (ground (arith, none_there)) clear.1)

    -- Writing over the row of a key, where nothing else stands against the written row.
    pub written-HasKeys : (t : List R) → HasKeys same t → IsClear t → HasKeys same (upsert q r f t)
    unfolding upsert
    written-HasKeys t h clear = elim (Bool-cases (exists q t)) [
      | inl old ↦ rw old (taken-HasKeys t h clear)
      | inr new ↦ rw new (append-HasKeys same r t h (clear_new t new clear))
    ]
