-- ===== src/Reconcile/Presence/Held.antt =====
-- The generation of a session that the reconciler holds only grows, until it is revoked.
use tenex_edge.Base.{
  ℕ, ◌≤◌, ◌<◌, String, ◌≡◌, refl, inl, inr, Bool, true, false, Bool-cases, Option-cases, Option,
  none, some, arith, eq_refl, eq_iff, eq_comm, leb, ◌==◌, ◌=?◌, if◌then◌else◌,
}
use tenex_edge.Reconcile.Presence.{
  PresenceSnapshot, PresenceProjection, PublishedPresence, StatusReconciler, StatusOutcome,
}
use tenex_edge.Reconcile.Presence.Ownership.{
  empty_outcome, filter_generation, owned, is_taken, open_presence, reconcile, renew, close, revoke,
  put, renewal_arm_at,
}

-- A generation that the map holds or has gone beyond.
abbrev pub HoldsAtLeast : ℕ → Option PublishedPresence → Type 0
HoldsAtLeast g none = ⊥
HoldsAtLeast g (some p) = g ≤ p.generation

pub open_presence-HoldsAtLeast :
    (pk : String) (g : ℕ) (snapshot : PresenceSnapshot) (now : ℕ) (r : StatusReconciler)
    → HoldsAtLeast g ((open_presence pk g snapshot now r).0.sessions pk)
unfolding open_presence is_taken
open_presence-HoldsAtLeast pk g snapshot now r = elim (Option-cases (r.sessions pk)) [
  | inl free ↦ rw (free, eq_refl pk) (omega arith)
  | inr (p, held) ↦ elim (Bool-cases (leb g p.generation)) [
    | inl taken ↦ rw (held, taken, held) (ground arith)
    | inr newer ↦ rw (held, newer, eq_refl pk) (omega arith)
  ]
]

pub not_owned :
    (g g' : ℕ) (o : Option PublishedPresence)
    → g < g'
    → HoldsAtLeast g' o
    → filter_generation g o ≡ none
not_owned g g' none newer h = refl
not_owned g g' (some p) newer h = ground arith

pub taken_below :
    (g g' : ℕ) (o : Option PublishedPresence) → g ≤ g' → HoldsAtLeast g' o → is_taken g o ≡ true
unfolding is_taken
taken_below g g' none le h = absurd h
taken_below g g' (some p) le h = ground arith

module _ (pk : String) (g : ℕ) (now : ℕ) (r : StatusReconciler) (stale : owned pk g r ≡ none) where
  pub stale-reconcile :
      (projection : PresenceProjection) → reconcile pk g projection now r ≡ (r, empty_outcome pk r)
  unfolding reconcile
  stale-reconcile projection = rw (stale, reconcile) refl

  pub stale-renew : renew pk g now r ≡ (r, empty_outcome pk r)
  unfolding renew
  stale-renew = rw (stale, renew) refl

  pub stale-close : close pk g now r ≡ (r, empty_outcome pk r)
  unfolding close
  stale-close = rw (stale, close) refl

  pub stale-revoke : revoke pk g now r ≡ (r, empty_outcome pk r)
  unfolding revoke
  stale-revoke = rw (stale, revoke) refl

-- What the reconciler does, for any session and generation, but that it revokes `g` or a newer
-- generation of `pk`.
pub data PresenceStep (pk : String) (g : ℕ) (r : StatusReconciler) : StatusReconciler → Type 0 where
  opens :
      (k : String) (generation : ℕ) (snapshot : PresenceSnapshot) (now : ℕ)
      → PresenceStep pk g r (open_presence k generation snapshot now r).0
  reconciles :
      (k : String) (generation : ℕ) (projection : PresenceProjection) (now : ℕ)
      → PresenceStep pk g r (reconcile k generation projection now r).0
  renews : (k : String) (generation now : ℕ) → PresenceStep pk g r (renew k generation now r).0
  closes : (k : String) (generation now : ℕ) → PresenceStep pk g r (close k generation now r).0
  revokes_other :
      (k : String) (generation now : ℕ)
      → (k == pk) ≡ false
      → PresenceStep pk g r (revoke k generation now r).0
  revokes_older :
      (generation now : ℕ) → generation < g → PresenceStep pk g r (revoke pk generation now r).0

pub data PresenceSteps (pk : String) (g : ℕ) (r : StatusReconciler)
    : StatusReconciler → Type 0 where
  unchanged : PresenceSteps pk g r r
  then_step :
      {t u : StatusReconciler}
      → PresenceSteps pk g r t
      → PresenceStep pk g t u
      → PresenceSteps pk g r u

-- A generation that is free is beyond the one that the map holds.
beyond :
    {g : ℕ} (generation : ℕ) (o : Option PublishedPresence)
    → HoldsAtLeast g o
    → is_taken generation o ≡ false
    → g ≤ generation
unfolding is_taken
beyond generation none held free = absurd held
beyond generation (some p) held free = ground (arith, held, free)

-- Either branch.
if_held :
    (g : ℕ) (pk : String) (b : Bool) (x y : StatusReconciler × StatusOutcome)
    → HoldsAtLeast g (x.0.sessions pk)
    → HoldsAtLeast g (y.0.sessions pk)
    → HoldsAtLeast g ((if b then x else y).0.sessions pk)
if_held g pk true x y h k = h
if_held g pk false x y h k = k

module _ (pk : String) (g : ℕ) (r : StatusReconciler) (held : HoldsAtLeast g (r.sessions pk)) where
  -- A write under the generation that the map holds.
  put-HoldsAtLeast :
      (k : String) (p written : PublishedPresence)
      → r.sessions k ≡ some p
      → written.generation ≡ p.generation
      → HoldsAtLeast g ((put k written r).sessions pk)
  put-HoldsAtLeast k p written found same = elim (Bool-cases (pk == k)) [
    | inl here ↦
        let e : pk ≡ k = (eq_iff pk k).0 here in
        let before : HoldsAtLeast g (r.sessions k) = rw e at held in
        let low : g ≤ p.generation = rw found at before in rw (here, same) low
    | inr other ↦ rw other held
  ]

  owned_found :
      (k : String) (generation : ℕ) (o : Option PublishedPresence) (p : PublishedPresence)
      → filter_generation generation o ≡ some p
      → o ≡ some p
  owned_found k generation none p h = cc h
  owned_found k generation (some x) p h = ground (arith, h)

  opens-HoldsAtLeast :
      (k : String) (generation : ℕ) (snapshot : PresenceSnapshot) (now : ℕ)
      → HoldsAtLeast g ((open_presence k generation snapshot now r).0.sessions pk)
  unfolding open_presence is_taken
  opens-HoldsAtLeast k generation snapshot now =
      elim (Bool-cases (is_taken generation (r.sessions k))) [
        | inl taken ↦ rw taken held
        | inr free ↦ rw free (elim (Bool-cases (pk == k)) [
          | inr other ↦ rw other held
          | inl here ↦
              let e : pk ≡ k = (eq_iff pk k).0 here in
              let below = beyond generation (r.sessions pk) held (rw (← e) at free) in rw here below
        ])
      ]

  reconciles-HoldsAtLeast :
      (k : String) (generation : ℕ) (projection : PresenceProjection) (now : ℕ)
      → HoldsAtLeast g ((reconcile k generation projection now r).0.sessions pk)
  unfolding reconcile owned
  reconciles-HoldsAtLeast k generation projection now =
      elim (Option-cases (filter_generation generation (r.sessions k))) [
        | inl stale ↦ rw (stale-reconcile k generation now r stale projection) held
        | inr (p, mine) ↦
            rw (reconcile, mine)
              (put-HoldsAtLeast k p _ (owned_found k generation (r.sessions k) p mine) refl)
      ]

  renews-HoldsAtLeast :
      (k : String) (generation now : ℕ) → HoldsAtLeast g ((renew k generation now r).0.sessions pk)
  unfolding renew owned
  renews-HoldsAtLeast k generation now =
      elim (Option-cases (filter_generation generation (r.sessions k))) [
        | inl stale ↦ rw (stale-renew k generation now r stale) held
        | inr (p, mine) ↦
            rw (renew, mine)
              (if_held g pk (p.renewal_arm =? renewal_arm_at now r) _ _ held
                (put-HoldsAtLeast k p _ (owned_found k generation (r.sessions k) p mine) refl))
      ]

  closes-HoldsAtLeast :
      (k : String) (generation now : ℕ) → HoldsAtLeast g ((close k generation now r).0.sessions pk)
  unfolding close owned
  closes-HoldsAtLeast k generation now =
      elim (Option-cases (filter_generation generation (r.sessions k))) [
        | inl stale ↦ rw (stale-close k generation now r stale) held
        | inr (p, mine) ↦
            rw (close, mine)
              (if_held g pk p.live _ _
                (put-HoldsAtLeast k p _ (owned_found k generation (r.sessions k) p mine) refl) held)
      ]

  revokes_other-HoldsAtLeast :
      (k : String) (generation now : ℕ)
      → (k == pk) ≡ false
      → HoldsAtLeast g ((revoke k generation now r).0.sessions pk)
  unfolding revoke owned
  revokes_other-HoldsAtLeast k generation now other =
      elim (Option-cases (filter_generation generation (r.sessions k))) [
        | inl stale ↦ rw (stale-revoke k generation now r stale) held
        | inr (p, mine) ↦ rw (revoke, mine, eq_comm pk k, other) held
      ]

step-HoldsAtLeast :
    (pk : String) (g : ℕ) (r t : StatusReconciler)
    → PresenceStep pk g r t
    → HoldsAtLeast g (r.sessions pk)
    → HoldsAtLeast g (t.sessions pk)
unfolding owned
step-HoldsAtLeast pk g r t (opens k generation snapshot now) held =
    opens-HoldsAtLeast pk g r held k generation snapshot now
step-HoldsAtLeast pk g r t (reconciles k generation projection now) held =
    reconciles-HoldsAtLeast pk g r held k generation projection now
step-HoldsAtLeast pk g r t (renews k generation now) held =
    renews-HoldsAtLeast pk g r held k generation now
step-HoldsAtLeast pk g r t (closes k generation now) held =
    closes-HoldsAtLeast pk g r held k generation now
step-HoldsAtLeast pk g r t (revokes_other k generation now other) held =
    revokes_other-HoldsAtLeast pk g r held k generation now other
step-HoldsAtLeast pk g r t (revokes_older generation now older) held =
    let stale : owned pk generation r ≡ none = not_owned generation g (r.sessions pk) older held in
    rw (stale-revoke pk generation now r stale) held

pub steps-HoldsAtLeast :
    (pk : String) (g : ℕ) (r t : StatusReconciler)
    → PresenceSteps pk g r t
    → HoldsAtLeast g (r.sessions pk)
    → HoldsAtLeast g (t.sessions pk)
steps-HoldsAtLeast pk g r t unchanged held = held
steps-HoldsAtLeast pk g r t (then_step {t = m} steps last) held =
    step-HoldsAtLeast pk g m t last (steps-HoldsAtLeast pk g r m steps held)
