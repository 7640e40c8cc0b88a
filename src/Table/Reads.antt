-- ===== src/Table/Reads.antt =====
-- What a read finds after a write.
use tenex_edge.Base.{
  ◌=?◌, ◌<◌, ◌≡◌, refl, ◌⊎◌, inl, inr, Bool, true, false, Bool-cases, none, some, List, [], ◌∷◌,
  ◌++◌, arith, is_some, map_option, or_else, All, if◌then◌else◌,
}
use tenex_edge.Table.{count, find, exists, select, update, delete, insert_or_ignore, upsert}

module _ {ℓ} {R : Type ℓ} (q : R → Bool) where
  -- What is found satisfies the test.
  pub find_holds : (t : List R) (r : R) → find q t ≡ some r → q r ≡ true
  unfolding find
  find_holds [] r h = cc
  find_holds (x ∷ t) r h = ground (arith, find_holds t r)

  pub exists-find : (t : List R) → exists q t ≡ is_some (find q t)
  unfolding find exists
  exists-find [] = refl
  exists-find (x ∷ t) = ground (arith, exists-find t)

  pub find-append : (t u : List R) → find q (t ++ u) ≡ or_else (find q t) (find q u)
  unfolding find
  find-append [] u = refl
  find-append (x ∷ t) u = ground (arith, find-append t u)

  pub find_one : (r : R) → find q (r ∷ []) ≡ (if q r then some r else none)
  unfolding find
  find_one r = refl

  -- A write that keeps the tested columns changes the row where it stands.
  pub find-update :
      (p : R → Bool) (f : R → R) (t : List R)
      → ((r : R) → q (f r) ≡ q r)
      → find q (update p f t) ≡ map_option (λ r. if p r then f r else r) (find q t)
  unfolding find update
  find-update p f [] same = refl
  find-update p f (x ∷ t) same = ground (arith, same x, find-update p f t same)

  -- A write to rows that the test does not pass, before and after, is not seen.
  pub find-update_other :
      (p : R → Bool) (f : R → R) (t : List R)
      → ((r : R) → p r ≡ true → q r ≡ false)
      → ((r : R) → p r ≡ true → q (f r) ≡ false)
      → find q (update p f t) ≡ find q t
  unfolding find update
  find-update_other p f [] before after = refl
  find-update_other p f (x ∷ t) before after =
      ground (arith, before x, after x, find-update_other p f t before after)

  pub find-delete_self :
      (p : R → Bool) (t : List R) → ((r : R) → q r ≡ true → p r ≡ true) → find q (delete p t) ≡ none
  unfolding find delete
  find-delete_self p [] all = refl
  find-delete_self p (x ∷ t) all = ground (arith, all x, find-delete_self p t all)

  pub find-delete_other :
      (p : R → Bool) (t : List R)
      → ((r : R) → q r ≡ true → p r ≡ false)
      → find q (delete p t) ≡ find q t
  unfolding find delete
  find-delete_other p [] none_hit = refl
  find-delete_other p (x ∷ t) none_hit = ground (arith, none_hit x, find-delete_other p t none_hit)

  pub find-insert_or_ignore :
      (same : R → Bool) (r : R) (t : List R)
      → find q (insert_or_ignore same r t)
        ≡ (if exists same t then find q t else or_else (find q t) (if q r then some r else none))
  unfolding insert_or_ignore
  find-insert_or_ignore same r t = ground (arith, find-append t (r ∷ []), find_one r)

  pub find-upsert :
      (same : R → Bool) (r : R) (f : R → R) (t : List R)
      → ((x : R) → q (f x) ≡ q x)
      → find q (upsert same r f t) ≡ (
          if exists same t
          then map_option (λ x. if same x then f x else x) (find q t)
          else or_else (find q t) (if q r then some r else none))
  unfolding upsert
  find-upsert same r f t keeps =
      ground (arith, find-update same f t keeps, find-append t (r ∷ []), find_one r)

  -- The row that an upsert leaves under its own key.
  pub find-upsert_self :
      (r : R) (f : R → R) (t : List R)
      → q r ≡ true
      → ((x : R) → q (f x) ≡ q x)
      → find q (upsert q r f t) ≡ some (elim (find q t) [ none ↦ r | some x ↦ f x ])
  find-upsert_self r f t here keeps = elim (find_cases t) [
    | inl missing ↦ rw (find-upsert q r f t keeps, exists-find t, missing, here) refl
    | inr (x, found) ↦
        rw (find-upsert q r f t keeps, exists-find t, found, find_holds t x found) refl
  ]
    where
      find_cases : (u : List R) → (find q u ≡ none) ⊎ ((x : R) × (find q u ≡ some x))
      find_cases u = elim (find q u) as (λ o. (o ≡ none) ⊎ ((x : R) × (o ≡ some x))) [
        | none ↦ inl refl
        | some x ↦ inr (x, refl)
      ]

  -- A statement that the found row passes hits some row.
  pub count_found :
      (p : R → Bool) (t : List R) (r : R)
      → find q t ≡ some r
      → p r ≡ true
      → (count p t =? 0) ≡ false
  unfolding find count
  count_found p [] r found passes = cc found
  count_found p (x ∷ t) r found passes = elim (Bool-cases (q x)) [
    | inl here ↦
        let same_row : some x ≡ some r = rw here at found in
        let same_as : x ≡ r = cc same_row in rw (same_as, passes) (ground arith)
    | inr other ↦ ground (arith, count_found p t r (rw other at found) passes)
  ]

  -- Every selected row satisfies the test.
  pub All-select : (t : List R) → All (λ r. q r ≡ true) (select q t)
  unfolding select
  All-select [] = tt
  All-select (x ∷ t) = elim (Bool-cases (q x)) [
    | inl h ↦ rw h (h, All-select t)
    | inr h ↦ rw h (All-select t)
  ]

  -- Nothing is left to select once every row that passed has been rewritten to fail.
  pub select-update_none :
      (f : R → R) (t : List R) → ((r : R) → q (f r) ≡ false) → select q (update q f t) ≡ []
  unfolding select update
  select-update_none f [] gone = refl
  select-update_none f (x ∷ t) gone = ground (arith, gone x, select-update_none f t gone)

module _ {ℓ} {R : Type ℓ} (p : R → Bool) where
  pub count_positive : (t : List R) → exists p t ≡ true → 0 < count p t
  unfolding exists count
  count_positive [] h = cc h
  count_positive (x ∷ t) h = elim (Bool-cases (p x)) [
    | inl hit ↦ rw hit (omega arith)
    | inr miss ↦ rw miss (count_positive t (rw miss at h))
  ]

module _ {ℓ} {R : Type ℓ} (q p : R → Bool) where
  -- Where no row passes a test, the row that another test finds does not.
  pub find_fails : (t : List R) (r : R) → find q t ≡ some r → exists p t ≡ false → p r ≡ false
  unfolding find exists
  find_fails [] r h none_pass = cc h
  find_fails (x ∷ t) r h none_pass = elim (Bool-cases (q x)) [
    | inl hit ↦ ground (arith, h, hit, none_pass)
    | inr miss ↦ find_fails t r (rw miss at h) (ground (arith, none_pass))
  ]
