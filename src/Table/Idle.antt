-- ===== src/Table/Idle.antt =====
-- Statements that change nothing: no row passes their test.
use tenex_edge.Base.{
  ◌≡◌, refl, inl, inr, Bool, true, false, Bool-cases, List, [], ◌∷◌, ◌++◌, ◌||◌, arith, All,
}
use tenex_edge.Table.{delete, upsert, exists, select, update, count}

module _ {ℓ} {R : Type ℓ} (q : R → Bool) where
  pub update_none : (g : R → R) (t : List R) → All (λ r. q r ≡ false) t → update q g t ≡ t
  unfolding update
  update_none g [] h = refl
  update_none g (x ∷ t) h = rw (h.0, update_none g t h.1) refl

  pub count_none : (t : List R) → All (λ r. q r ≡ false) t → count q t ≡ 0
  unfolding count
  count_none [] h = refl
  count_none (x ∷ t) h = rw (h.0, count_none t h.1) refl

  pub All-none : (t : List R) → ((r : R) → q r ≡ false) → All (λ r. q r ≡ false) t
  All-none [] none_hit = tt
  All-none (x ∷ t) none_hit = (none_hit x, All-none t none_hit)

  -- After a write to the rows of `p`, no row passes `q`.
  pub All-none_after :
      (p : R → Bool) (f : R → R) (t : List R)
      → ((r : R) → p r ≡ true → q (f r) ≡ false)
      → ((r : R) → p r ≡ false → q r ≡ false)
      → All (λ r. q r ≡ false) (update p f t)
  unfolding update
  All-none_after p f [] written kept = tt
  All-none_after p f (x ∷ t) written kept = elim (Bool-cases (p x)) [
    | inl hit ↦ rw hit (written x hit, All-none_after p f t written kept)
    | inr miss ↦ rw miss (kept x miss, All-none_after p f t written kept)
  ]

  pub All-of_not_exists :
      (p : R → Bool) (t : List R)
      → ((r : R) → q r ≡ false → p r ≡ false)
      → exists q t ≡ false
      → All (λ r. p r ≡ false) t
  unfolding exists
  All-of_not_exists p [] fails h = tt
  All-of_not_exists p (x ∷ t) fails h =
      (ground (arith, fails x), All-of_not_exists p t fails (ground arith))

  -- A write that the selection sees neither before nor after.
  pub select-update_other :
      (p : R → Bool) (f : R → R) (t : List R)
      → ((r : R) → p r ≡ true → q r ≡ false)
      → ((r : R) → p r ≡ true → q (f r) ≡ false)
      → select q (update p f t) ≡ select q t
  unfolding select update
  select-update_other p f [] before after = refl
  select-update_other p f (x ∷ t) before after =
      ground (arith, before x, after x, select-update_other p f t before after)

  pub exists-append : (t u : List R) → exists q (t ++ u) ≡ (exists q t || exists q u)
  unfolding exists
  exists-append [] u = refl
  exists-append (x ∷ t) u = ground (arith, exists-append t u)

  pub exists-update :
      (p : R → Bool) (f : R → R) (t : List R)
      → ((r : R) → q (f r) ≡ q r)
      → exists q (update p f t) ≡ exists q t
  unfolding exists update
  exists-update p f [] keeps = refl
  exists-update p f (x ∷ t) keeps = ground (arith, keeps x, exists-update p f t keeps)

  pub exists-delete :
      (p : R → Bool) (t : List R) → exists q t ≡ false → exists q (delete p t) ≡ false
  unfolding exists delete
  exists-delete p [] h = refl
  exists-delete p (x ∷ t) h = ground (arith, h, exists-delete p t (ground (arith, h)))

  pub exists_one : (r : R) → exists q (r ∷ []) ≡ q r
  unfolding exists
  exists_one r = ground arith

module _ {ℓ} {R : Type ℓ} (p q : R → Bool) where
  -- A write to a row that is there, of what the test passes.
  pub exists-update_written :
      (f : R → R) (t : List R)
      → ((r : R) → q r ≡ true → p (f r) ≡ true)
      → exists q t ≡ true
      → exists p (update q f t) ≡ true
  unfolding exists update
  exists-update_written f [] written h = cc h
  exists-update_written f (x ∷ t) written h = elim (Bool-cases (q x)) [
    | inl hit ↦ ground (arith, hit, written x hit)
    | inr miss ↦ ground (arith, miss, exists-update_written f t written (rw miss at h))
  ]

  -- A write to rows that the test does not pass, before and after.
  pub exists-update_other :
      (f : R → R) (t : List R)
      → ((r : R) → q r ≡ true → p r ≡ false)
      → ((r : R) → q r ≡ true → p (f r) ≡ false)
      → exists p (update q f t) ≡ exists p t
  unfolding exists update
  exists-update_other f [] before after = refl
  exists-update_other f (x ∷ t) before after =
      ground (arith, before x, after x, exists-update_other f t before after)

  -- Deleting every row that the test passes.
  pub exists-delete_all :
      (t : List R) → ((r : R) → p r ≡ true → q r ≡ true) → exists p (delete q t) ≡ false
  unfolding exists delete
  exists-delete_all [] all = refl
  exists-delete_all (x ∷ t) all = ground (arith, all x, exists-delete_all t all)

  -- Deleting rows that the test does not pass.
  pub exists-delete_other :
      (t : List R) → ((r : R) → p r ≡ true → q r ≡ false) → exists p (delete q t) ≡ exists p t
  unfolding exists delete
  exists-delete_other [] apart = refl
  exists-delete_other (x ∷ t) apart = ground (arith, apart x, exists-delete_other t apart)

  pub exists-upsert_hit :
      (r : R) (f : R → R) (t : List R)
      → p r ≡ true
      → ((x : R) → q x ≡ true → p (f x) ≡ true)
      → exists p (upsert q r f t) ≡ true
  unfolding upsert
  exists-upsert_hit r f t new written = elim (Bool-cases (exists q t)) [
    | inl old ↦ rw old (exists-update_written f t written old)
    | inr absent ↦ ground (arith, absent, new, exists-append p t (r ∷ []), exists_one p r)
  ]

  pub exists-upsert_other :
      (r : R) (f : R → R) (t : List R)
      → p r ≡ false
      → ((x : R) → q x ≡ true → p x ≡ false)
      → ((x : R) → q x ≡ true → p (f x) ≡ false)
      → exists p (upsert q r f t) ≡ exists p t
  unfolding upsert
  exists-upsert_other r f t new before after = elim (Bool-cases (exists q t)) [
    | inl old ↦ rw old (exists-update_other f t before after)
    | inr absent ↦ ground (arith, absent, new, exists-append p t (r ∷ []), exists_one p r)
  ]

-- A write that keeps what a test finds.
pub exists-update_grows {ℓ} :
    {R : Type ℓ} (q p : R → Bool) (f : R → R) (t : List R)
    → ((r : R) → p r ≡ true → q r ≡ true → q (f r) ≡ true)
    → exists q t ≡ true
    → exists q (update p f t) ≡ true
unfolding exists update
exists-update_grows q p f [] keeps h = h
exists-update_grows q p f (x ∷ t) keeps h =
    ground (arith, h, keeps x, exists-update_grows q p f t keeps)
