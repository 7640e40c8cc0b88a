-- ===== src/Reconcile/Presence/Leases.antt =====
-- What a renewal and a close publish, and how long a lease lasts.
use tenex_edge.Base.{
  ℕ, ◌+◌, ◌/◌, ◌≤◌, ◌<◌, String, ◌≡◌, refl, ◌∙◌, ap, true, false, Option, none, some, [], ◌∷◌,
  arith, eq_refl, saturating_add, saturating_add_exact, u64_max, ◌=?◌,
}
use tenex_edge.SessionState.{SessionState, offline, is_live, same_state}
use tenex_edge.Reconcile.Presence.{
  PublishedPresence, StatusReconciler, StatusOutcome, Status, publish, renewed, changed, command_of,
  to_status,
}
use tenex_edge.Reconcile.Presence.Ownership.{
  empty_outcome, filter_generation, owned, put, outcome, renewal_arm_at, renew, close,
}

owned_generation :
    (g : ℕ) (o : Option PublishedPresence) (p : PublishedPresence)
    → filter_generation g o ≡ some p
    → (p.generation =? g) ≡ true
owned_generation g none p h = cc h
owned_generation g (some q) p h = ground arith

owned-inversion :
    (pk : String) (g : ℕ) (r : StatusReconciler) (p : PublishedPresence)
    → owned pk g r ≡ some p
    → (p.generation =? g) ≡ true
unfolding owned
owned-inversion pk g r p mine = owned_generation g (r.sessions pk) p mine

-- A row that keeps its generation is owned after it was written.
owned-put :
    (pk : String) (g : ℕ) (q : PublishedPresence) (r : StatusReconciler)
    → (q.generation =? g) ≡ true
    → owned pk g (put pk q r) ≡ some q
unfolding owned
owned-put pk g q r same = rw (eq_refl pk) (rw same refl)

live_not_offline : (s : SessionState) → is_live s ≡ true → same_state s offline ≡ false
unfolding is_live same_state
live_not_offline SessionState.working h = refl
live_not_offline SessionState.idle h = refl
live_not_offline SessionState.suspended h = refl
live_not_offline offline h = cc h

-- What a renewal of a live presence writes and publishes.
abbrev renewed_presence : ℕ → StatusReconciler → PublishedPresence → PublishedPresence
renewed_presence now r p = record p { renewal_arm = renewal_arm_at now r }

abbrev renewed_status : String → ℕ → StatusReconciler → PublishedPresence → Status
renewed_status pk now r p =
    to_status (command_of pk (renewed_presence now r p)) r.ttl_secs now false

module _ (pk : String) (g now : ℕ) (r : StatusReconciler) (p : PublishedPresence)
    (mine : owned pk g r ≡ some p)
    (next_arm : (p.renewal_arm =? renewal_arm_at now r) ≡ false) where
  renew-result :
      renew pk g now r
      ≡ outcome pk
          (publish (renewed_status pk now r p) renewed ∷ [])
          (put pk (renewed_presence now r p) r)
  unfolding renew
  renew-result = rw (mine, renew, next_arm) refl

  renewed-owned : owned pk g (renew pk g now r).0 ≡ some (renewed_presence now r p)
  renewed-owned =
      ap (λ (o : StatusReconciler × StatusOutcome). owned pk g o.0) renew-result
      ∙ owned-put pk g (renewed_presence now r p)
          (record r { revision = saturating_add r.revision 1 }) (owned-inversion pk g r p mine)

  renewed-arm : (n : ℕ) → renewal_arm_at n (renew pk g now r).0 ≡ renewal_arm_at n r
  unfolding renewal_arm_at
  renewed-arm n = ap (λ (o : StatusReconciler × StatusOutcome). n / o.0.renewal_secs) renew-result

same_arm_silent :
    (pk : String) (g now : ℕ) (r : StatusReconciler) (p : PublishedPresence)
    → owned pk g r ≡ some p
    → (p.renewal_arm =? renewal_arm_at now r) ≡ true
    → renew pk g now r ≡ (r, empty_outcome pk r)
unfolding renew
same_arm_silent pk g now r p mine same = rw (mine, renew, same) refl

-- Renewing the lease of a live presence in a new arm of the clock publishes exactly one status. It has
-- the state, the time of the last change, the title and the channels that the session had, and only
-- extends the expiry, to a full lease from now. Renewing it again in the same arm is ignored.
pub renew_extends_only :
    (pk : String) (g now now' : ℕ) (r : StatusReconciler) (p : PublishedPresence)
    → owned pk g r ≡ some p
    → p.live ≡ true
    → is_live p.snapshot.projection.state ≡ true
    → (p.renewal_arm =? renewal_arm_at now r) ≡ false
    → renewal_arm_at now' r ≡ renewal_arm_at now r
    → ((status : Status) × ((renew pk g now r).1.effects ≡ publish status renewed ∷ [])
        × (status.state ≡ p.snapshot.projection.state)
        × (status.state_since ≡ p.snapshot.projection.state_since)
        × (status.title ≡ p.snapshot.projection.title)
        × (status.channels ≡ p.snapshot.projection.channels)
        × (status.expires_at ≡ some (saturating_add now r.ttl_secs)))
      × (renew pk g now' (renew pk g now r).0
          ≡ ((renew pk g now r).0, empty_outcome pk (renew pk g now r).0))
unfolding to_status command_of
renew_extends_only pk g now now' r p mine live shown next_arm same_arm =
    let quiet = live_not_offline p.snapshot.projection.state shown in
    (
      (
        renewed_status pk now r p,
        ap (λ (o : StatusReconciler × StatusOutcome). o.1.effects)
            (renew-result pk g now r p mine next_arm),
        rw live refl,
        rw (live, quiet) refl,
        refl,
        refl,
        rw (live, quiet) refl,
      ),
      same_arm_silent pk g now' (renew pk g now r).0 (renewed_presence now r p)
          (renewed-owned pk g now r p mine next_arm)
          (rw (renewed-arm pk g now r p mine next_arm now', same_arm) (ground arith)),
    )

-- With the lease of 90 seconds and the renewals every 30 that the daemon uses, the status that a
-- renewal of a live presence publishes has not expired at any time of the next two arms of the clock:
-- a lease survives a missed renewal. The clock stays 90 seconds below the greatest u64.
pub lease_survives_missed_renewal :
    (pk : String) (g now later : ℕ) (r : StatusReconciler) (p : PublishedPresence)
    → owned pk g r ≡ some p
    → p.live ≡ true
    → is_live p.snapshot.projection.state ≡ true
    → (p.renewal_arm =? renewal_arm_at now r) ≡ false
    → r.ttl_secs ≡ 90
    → r.renewal_secs ≡ 30
    → now + 90 ≤ u64_max
    → renewal_arm_at later r ≤ renewal_arm_at now r + 2
    → (status : Status) × (expiry : ℕ) × ((renew pk g now r).1.effects
        ≡ publish status renewed ∷ [])
      × (status.expires_at ≡ some expiry)
      × (later < expiry)
unfolding renewal_arm_at
lease_survives_missed_renewal pk g now later r p mine live shown next_arm ttl cadence bounded soon =
    let ((status, published, state, since, title, channels, expires), silent) =
      renew_extends_only pk g now now r p mine live shown next_arm refl in
    (
      status,
      saturating_add now r.ttl_secs,
      published,
      expires,
      rw (ttl, saturating_add_exact now 90 bounded) (below later now (rw cadence at soon)),
    )
  where
    below : (later now : ℕ) → later / 30 ≤ now / 30 + 2 → later < now + 90
    below later now h = omega (arith, h)

close_result :
    (pk : String) (g now : ℕ) (r : StatusReconciler) (p : PublishedPresence)
    → owned pk g r ≡ some p
    → p.live ≡ true
    → close pk g now r
      ≡ outcome pk
          (publish
              (to_status (command_of pk (record p { live = false })) r.ttl_secs now false)
              changed
            ∷ [])
          (put pk (record p { live = false }) r)
unfolding close
close_result pk g now r p mine live = rw (mine, close, live) refl

closed_silent :
    (pk : String) (g now : ℕ) (r : StatusReconciler) (p : PublishedPresence)
    → owned pk g r ≡ some p
    → p.live ≡ false
    → close pk g now r ≡ (r, empty_outcome pk r)
unfolding close
closed_silent pk g now r p mine dead = rw (mine, close, dead) refl

-- The owning generation of a live presence that closes it publishes exactly one status, which shows the
-- session offline since now and expires now, with its title. Closing it again is ignored.
close_publishes_offline_once :
    (pk : String) (g now now' : ℕ) (r : StatusReconciler) (p : PublishedPresence)
    → owned pk g r ≡ some p
    → p.live ≡ true
    → ((status : Status) × ((close pk g now r).1.effects ≡ publish status changed ∷ [])
        × (status.state ≡ offline)
        × (status.state_since ≡ now)
        × (status.expires_at ≡ some now)
        × (status.title ≡ p.snapshot.projection.title))
      × (close pk g now' (close pk g now r).0
          ≡ ((close pk g now r).0, empty_outcome pk (close pk g now r).0))
unfolding to_status command_of same_state
close_publishes_offline_once pk g now now' r p mine live = (
  (
    to_status (command_of pk (record p { live = false })) r.ttl_secs now false,
    ap (λ (o : StatusReconciler × StatusOutcome). o.1.effects)
        (close_result pk g now r p mine live),
    refl,
    refl,
    refl,
    refl,
  ),
  closed_silent pk g now' (close pk g now r).0 (record p { live = false })
      (ap (λ (o : StatusReconciler × StatusOutcome). owned pk g o.0)
          (close_result pk g now r p mine live)
        ∙ owned-put pk g (record p { live = false })
            (record r { revision = saturating_add r.revision 1 }) (owned-inversion pk g r p mine))
      refl,
)
