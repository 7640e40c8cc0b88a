-- ===== src/Reconcile/Presence/Fencing.antt =====
-- A superseded runtime generation publishes nothing.
use tenex_edge.Base.{ℕ, ◌<◌, String, ◌≡◌, refl, none, arith}
use tenex_edge.Reconcile.Presence.{PresenceSnapshot, PresenceProjection, StatusReconciler}
use tenex_edge.Reconcile.Presence.Ownership.{
  empty_outcome, owned, open_presence, reconcile, renew, close, revoke,
}
use tenex_edge.Reconcile.Presence.Held.{
  HoldsAtLeast, PresenceSteps, open_presence-HoldsAtLeast, steps-HoldsAtLeast, not_owned,
  taken_below, stale-reconcile, stale-renew, stale-close, stale-revoke,
}

-- Once a runtime generation of a session has been opened, and for as long as neither it nor a newer
-- one is revoked, whatever else the reconciler does: no older generation has any effect. Its lifecycle
-- changes, its renewals, its close and its revocation are ignored and publish nothing, and so is
-- opening it, or the same generation, again.
pub superseded_generation_ignored :
    (pk : String) (g g' : ℕ) (snapshot snapshot' : PresenceSnapshot)
    (projection : PresenceProjection) (now now' : ℕ) (r t : StatusReconciler)
    → g < g'
    → PresenceSteps pk g' (open_presence pk g' snapshot now r).0 t
    → (reconcile pk g projection now' t ≡ (t, empty_outcome pk t))
      × (renew pk g now' t ≡ (t, empty_outcome pk t))
      × (close pk g now' t ≡ (t, empty_outcome pk t))
      × (revoke pk g now' t ≡ (t, empty_outcome pk t))
      × (open_presence pk g snapshot' now' t ≡ (t, empty_outcome pk t))
      × (open_presence pk g' snapshot' now' t ≡ (t, empty_outcome pk t))
unfolding open_presence owned
superseded_generation_ignored pk g g' snapshot snapshot' projection now now' r t older steps =
    let held : HoldsAtLeast g' (t.sessions pk) =
      steps-HoldsAtLeast pk g' (open_presence pk g' snapshot now r).0 t steps
        (open_presence-HoldsAtLeast pk g' snapshot now r) in
    let stale : owned pk g t ≡ none = not_owned g g' (t.sessions pk) older held in
    (
      stale-reconcile pk g now' t stale projection,
      stale-renew pk g now' t stale,
      stale-close pk g now' t stale,
      stale-revoke pk g now' t stale,
      rw (taken_below g g' (t.sessions pk) (omega (arith, older)) held) refl,
      rw (taken_below g' g' (t.sessions pk) (omega arith) held) refl,
    )
