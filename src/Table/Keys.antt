-- ===== src/Table/Keys.antt =====
-- Primary keys: no two rows of a table are `same`. Every statement form keeps this.
use tenex_edge.Base.{
  ◌<◌, not, ◌≡◌, refl, inl, inr, Bool, true, false, ◌&&◌, Bool-cases, none, some, List, [], ◌∷◌,
  ◌++◌, arith, All, All-append, if◌then◌else◌,
}
use tenex_edge.Table.{find, exists, update, count, delete, insert_or_ignore, upsert}

module _ {ℓ} {R : Type ℓ} (same : R → R → Bool) where
  -- No row of `t` has the key of `r`.
  abbrev pub IsFresh : R → List R → Type 0
  IsFresh r t = All (λ x. same r x ≡ false) t

  abbrev pub HasKeys : List R → Type 0
  HasKeys [] = Unit
  HasKeys (r ∷ t) = IsFresh r t × HasKeys t

  pub update-IsFresh :
      (r : R) (p : R → Bool) (f : R → R) (t : List R)
      → ((a b : R) → p b ≡ true → same a (f b) ≡ same a b)
      → IsFresh r t
      → IsFresh r (update p f t)
  unfolding update
  update-IsFresh r p f [] keeps h = tt
  update-IsFresh r p f (x ∷ t) keeps h =
      (ground (arith, keeps r x, h.0), update-IsFresh r p f t keeps h.1)

  IsFresh-of_same :
      (a c : R) (t : List R) → ((d : R) → same a d ≡ same c d) → IsFresh a t → IsFresh c t
  IsFresh-of_same a c [] agree h = tt
  IsFresh-of_same a c (y ∷ t) agree h =
      (ground (arith, agree y, h.0), IsFresh-of_same a c t agree h.1)

  pub update-HasKeys :
      (p : R → Bool) (f : R → R) (t : List R)
      → ((a b : R) → p a ≡ true → same (f a) b ≡ same a b)
      → ((a b : R) → p b ≡ true → same a (f b) ≡ same a b)
      → HasKeys t
      → HasKeys (update p f t)
  unfolding update
  update-HasKeys p f [] left right h = tt
  update-HasKeys p f (x ∷ t) left right h = elim (Bool-cases (p x)) [
    | inl hit ↦ rw hit (
      IsFresh-of_same x (f x) (update p f t) (λ d. ground (arith, left x d))
          (update-IsFresh x p f t right h.0),
      update-HasKeys p f t left right h.1,
    )
    | inr miss ↦ rw miss (update-IsFresh x p f t right h.0, update-HasKeys p f t left right h.1)
  ]

  delete-IsFresh : (r : R) (p : R → Bool) (t : List R) → IsFresh r t → IsFresh r (delete p t)
  unfolding delete
  delete-IsFresh r p [] h = tt
  delete-IsFresh r p (x ∷ t) h = elim (Bool-cases (p x)) [
    | inl hit ↦ rw hit (delete-IsFresh r p t h.1)
    | inr miss ↦ rw miss (h.0, delete-IsFresh r p t h.1)
  ]

  pub delete-HasKeys : (p : R → Bool) (t : List R) → HasKeys t → HasKeys (delete p t)
  unfolding delete
  delete-HasKeys p [] h = tt
  delete-HasKeys p (x ∷ t) h = elim (Bool-cases (p x)) [
    | inl hit ↦ rw hit (delete-HasKeys p t h.1)
    | inr miss ↦ rw miss (delete-IsFresh x p t h.0, delete-HasKeys p t h.1)
  ]

  pub append-HasKeys :
      (r : R) (t : List R) → HasKeys t → All (λ x. same x r ≡ false) t → HasKeys (t ++ r ∷ [])
  append-HasKeys r [] h new = (tt, tt)
  append-HasKeys r (x ∷ t) h new =
      (All-append (λ y. same x y ≡ false) t (r ∷ []) h.0 (new.0, tt), append-HasKeys r t h.1 new.1)

  -- A key that no row has.
  pub All-of_exists :
      (q : R → Bool) (r : R) (t : List R)
      → ((x : R) → q x ≡ same x r)
      → exists q t ≡ false
      → All (λ x. same x r ≡ false) t
  unfolding exists
  All-of_exists q r [] fits h = tt
  All-of_exists q r (x ∷ t) fits h =
      (ground (arith, fits x), All-of_exists q r t fits (ground arith))

  pub insert_or_ignore-HasKeys :
      (q : R → Bool) (r : R) (t : List R)
      → ((x : R) → q x ≡ same x r)
      → HasKeys t
      → HasKeys (insert_or_ignore q r t)
  unfolding insert_or_ignore
  insert_or_ignore-HasKeys q r t fits h = elim (Bool-cases (exists q t)) [
    | inl old ↦ rw old h
    | inr new ↦ rw new (append-HasKeys r t h (All-of_exists q r t fits new))
  ]

  pub upsert-HasKeys :
      (q : R → Bool) (r : R) (f : R → R) (t : List R)
      → ((x : R) → q x ≡ same x r)
      → ((a b : R) → q a ≡ true → same (f a) b ≡ same a b)
      → ((a b : R) → q b ≡ true → same a (f b) ≡ same a b)
      → HasKeys t
      → HasKeys (upsert q r f t)
  unfolding upsert
  upsert-HasKeys q r f t fits left right h = elim (Bool-cases (exists q t)) [
    | inl old ↦ rw old (update-HasKeys q f t left right h)
    | inr new ↦ rw new (append-HasKeys r t h (All-of_exists q r t fits new))
  ]

  -- Over a key, an `UPDATE` guarded by `g` reports one row exactly where the row of the key passes.
  pub count_by_key :
      (q g : R → Bool) (t : List R)
      → ((a b : R) → q a ≡ true → q b ≡ true → same a b ≡ true)
      → HasKeys t
      → count (λ r. q r && g r) t ≡ (elim (find q t) [ none ↦ 0 | some r ↦ if g r then 1 else 0 ])
  unfolding count find
  count_by_key q g [] keyed h = refl
  count_by_key q g (x ∷ t) keyed h = elim (Bool-cases (q x)) [
    | inl here ↦ rw (here, none_after x t here h.0) refl
    | inr other ↦ rw other (count_by_key q g t keyed h.1)
  ]
    where
      none_after : (a : R) (u : List R) → q a ≡ true → IsFresh a u → count (λ r. q r && g r) u ≡ 0
      none_after a [] hit fr = refl
      none_after a (y ∷ u) hit fr = ground (arith, keyed a y hit, fr.0, none_after a u hit fr.1)

  -- Over a key, where a guarded `UPDATE` hits a row, every row of the key passes the guard.
  pub All-pass_by_key :
      (q g : R → Bool) (t : List R)
      → ((a b : R) → q a ≡ true → q b ≡ true → same a b ≡ true)
      → HasKeys t
      → 0 < count (λ r. q r && g r) t
      → All (λ r. (q r && not (g r)) ≡ false) t
  unfolding count
  All-pass_by_key q g [] keyed h some_hit = tt
  All-pass_by_key q g (x ∷ t) keyed h some_hit = elim (Bool-cases (q x)) [
    | inl here ↦
        let others = others_fail x t here h.0 in (ground (arith, no_hit x t here h.0), others)
    | inr other ↦ (rw other refl, All-pass_by_key q g t keyed h.1 (rw other at some_hit))
  ]
    where
      no_hit : (a : R) (u : List R) → q a ≡ true → IsFresh a u → count (λ r. q r && g r) u ≡ 0
      no_hit a [] hit fr = refl
      no_hit a (y ∷ u) hit fr = ground (arith, keyed a y hit, fr.0, no_hit a u hit fr.1)

      others_fail :
          (a : R) (u : List R) → q a ≡ true → IsFresh a u → All (λ r. (q r && not (g r)) ≡ false) u
      others_fail a [] hit fr = tt
      others_fail a (y ∷ u) hit fr = (ground (arith, keyed a y hit, fr.0), others_fail a u hit fr.1)

  -- A test that only rows of one key can pass, and that the row of the key fails.
  pub All-fail_by_key :
      (q p : R → Bool) (t : List R) (b : R)
      → ((x y : R) → q x ≡ true → q y ≡ true → same x y ≡ true)
      → ((x : R) → q x ≡ false → p x ≡ false)
      → HasKeys t
      → find q t ≡ some b
      → p b ≡ false
      → All (λ r. p r ≡ false) t
  unfolding find
  All-fail_by_key q p [] b keyed within h found fails = tt
  All-fail_by_key q p (x ∷ t) b keyed within h found fails = elim (Bool-cases (q x)) [
    | inl here ↦
        let same_row : some x ≡ some b = rw here at found in
        let same_as : x ≡ b = cc same_row in (rw (← same_as) at fails, after x t here h.0)
    | inr other ↦
        (within x other, All-fail_by_key q p t b keyed within h.1 (rw other at found) fails)
  ]
    where
      after : (a : R) (u : List R) → q a ≡ true → IsFresh a u → All (λ r. p r ≡ false) u
      after a [] hit fr = tt
      after a (y ∷ u) hit fr = (within y (ground (arith, keyed a y hit, fr.0)), after a u hit fr.1)

  -- Where a write that only rows of one key can pass hits a row, it is the row that is found.
  pub found_by_key :
      (q p : R → Bool) (t : List R)
      → ((x y : R) → q x ≡ true → q y ≡ true → same x y ≡ true)
      → ((x : R) → q x ≡ false → p x ≡ false)
      → HasKeys t
      → 0 < count p t
      → (b : R) × (find q t ≡ some b) × (p b ≡ true)
  unfolding find count
  found_by_key q p [] keyed within h hit = absurd (omega (arith, hit))
  found_by_key q p (x ∷ t) keyed within h hit = elim (Bool-cases (q x)) [
    | inl here ↦ elim (Bool-cases (p x)) [
      | inl passes ↦ (x, rw here refl, passes)
      | inr fails ↦ absurd (none_after x t here h.0 (rw fails at hit))
    ]
    | inr other ↦
        let (b, found, passes) = found_by_key q p t keyed within h.1 (rw (within x other) at hit) in
        (b, rw other found, passes)
  ]
    where
      none_hit : (a : R) (u : List R) → q a ≡ true → IsFresh a u → count p u ≡ 0
      none_hit a [] here fr = refl
      none_hit a (y ∷ u) here fr =
          rw (within y (ground (arith, keyed a y here, fr.0))) (none_hit a u here fr.1)

      none_after : (a : R) (u : List R) → q a ≡ true → IsFresh a u → 0 < count p u → ⊥
      none_after a u here fr h = omega (arith, none_hit a u here fr)

  -- Over a key, the row that is found decides whether a row of the key passes a guard.
  pub exists_by_key :
      (q g : R → Bool) (t : List R) (r : R)
      → ((a b : R) → q a ≡ true → q b ≡ true → same a b ≡ true)
      → HasKeys t
      → find q t ≡ some r
      → exists (λ x. q x && g x) t ≡ g r
  unfolding exists find
  exists_by_key q g [] r keyed h found = cc found
  exists_by_key q g (x ∷ t) r keyed h found = elim (Bool-cases (q x)) [
    | inl hit ↦ ground (arith, hit, found, none_passes x t hit h.0)
    | inr miss ↦ rw miss (exists_by_key q g t r keyed h.1 (rw miss at found))
  ]
    where
      none_passes :
          (a : R) (u : List R) → q a ≡ true → IsFresh a u → exists (λ x. q x && g x) u ≡ false
      none_passes a [] hit fr = refl
      none_passes a (y ∷ u) hit fr = ground (arith, keyed a y hit, fr.0, none_passes a u hit fr.1)
