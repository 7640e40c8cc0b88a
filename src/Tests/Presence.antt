-- ===== src/Tests/Presence.antt =====
-- A session whose presence was published in the arm of the clock that begins at 990.
use tenex_edge.Base.{
  ℕ, ◌<◌, ◌≡◌, refl, true, none, some, [], ◌∷◌, arith, saturating_add, ◌==◌, if◌then◌else◌,
}
use tenex_edge.SessionState.{working, is_live}
use tenex_edge.Reconcile.Presence.{
  PresenceSnapshot, PublishedPresence, StatusReconciler, Status, publish, renewed,
}
use tenex_edge.Reconcile.Presence.Ownership.{
  empty_outcome, owned, renewal_arm_at, open_presence, reconcile, renew, close, revoke,
}
use tenex_edge.Reconcile.Presence.Held.{unchanged, then_step, closes}
use tenex_edge.Reconcile.Presence.Fencing.{superseded_generation_ignored}
use tenex_edge.Reconcile.Presence.Leases.{renew_extends_only, lease_survives_missed_renewal}

abbrev snapshot : PresenceSnapshot
snapshot = record {
  host = "laptop";
  slug = "claude";
  rel_cwd = ".";
  dispatch_event = none;
  projection = record {
    channels = "room" ∷ [];
    state = working;
    state_since = 900;
    title = "refactor";
  };
}

abbrev presence : PublishedPresence
presence = record { generation = 2; snapshot = snapshot; live = true; renewal_arm = 33 }

abbrev publishing : StatusReconciler
publishing = record {
  ttl_secs = 90;
  renewal_secs = 30;
  sessions = λ k. if k == "alice" then some presence else none;
  revision = 1;
}

-- The next incarnation has been opened, and closed again.
abbrev opened_again : StatusReconciler
opened_again = (open_presence "alice" 3 snapshot 1000 publishing).0

abbrev reopened : StatusReconciler
reopened = (close "alice" 3 1005 opened_again).0

superseded_generation_ignored_example :
    (reconcile "alice" 2 (snapshot.projection) 1010 reopened
      ≡ (reopened, empty_outcome "alice" reopened))
    × (renew "alice" 2 1010 reopened ≡ (reopened, empty_outcome "alice" reopened))
    × (close "alice" 2 1010 reopened ≡ (reopened, empty_outcome "alice" reopened))
    × (revoke "alice" 2 1010 reopened ≡ (reopened, empty_outcome "alice" reopened))
    × (open_presence "alice" 2 snapshot 1010 reopened ≡ (reopened, empty_outcome "alice" reopened))
    × (open_presence "alice" 3 snapshot 1010 reopened ≡ (reopened, empty_outcome "alice" reopened))
superseded_generation_ignored_example =
    superseded_generation_ignored "alice" 2 3 snapshot snapshot snapshot.projection 1000 1010
      publishing reopened (omega arith) (then_step unchanged (closes "alice" 3 1005))

renew_extends_only_example :
    ((status : Status) × ((renew "alice" 2 1025 publishing).1.effects ≡ publish status renewed ∷ [])
      × (status.state ≡ working)
      × (status.state_since ≡ 900)
      × (status.title ≡ "refactor")
      × (status.channels ≡ "room" ∷ [])
      × (status.expires_at ≡ some (saturating_add 1025 90)))
    × (renew "alice" 2 1030 (renew "alice" 2 1025 publishing).0 ≡ (
      (renew "alice" 2 1025 publishing).0,
      empty_outcome "alice" (renew "alice" 2 1025 publishing).0,
    ))
unfolding owned is_live renewal_arm_at
renew_extends_only_example =
    renew_extends_only "alice" 2 1025 1030 publishing presence refl refl refl refl refl

lease_survives_missed_renewal_example :
    (status : Status) × (expiry : ℕ) × ((renew "alice" 2 1025 publishing).1.effects
      ≡ publish status renewed ∷ [])
    × (status.expires_at ≡ some expiry)
    × (1100 < expiry)
unfolding owned is_live renewal_arm_at
lease_survives_missed_renewal_example =
    lease_survives_missed_renewal "alice" 2 1025 1100 publishing presence refl refl refl refl refl
      refl (omega arith) (omega arith)
