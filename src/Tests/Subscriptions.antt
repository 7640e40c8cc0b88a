-- ===== src/Tests/Subscriptions.antt =====
-- A plan of subscriptions at a concrete snapshot.
use tenex_edge.Base.{◌≡◌, true, some, List, [], ◌∷◌}
use tenex_edge.Table.{exists}
use tenex_edge.Reconcile.Subscriptions.{
  SubscriptionReconciler, SubEffect, CoverageSnapshot, sub_key, channel_h, plan, covers_channel,
}
use tenex_edge.Reconcile.Subscriptions.Plans.{confirm_all}
use tenex_edge.Reconcile.Subscriptions.Coverage.{plan_settles}

-- The daemon has left `old`, which is archived, and a session is in `room`.
abbrev snapshot : CoverageSnapshot
snapshot = record {
  daemon_channels = "old" ∷ [];
  addressed_pubkeys = "alice" ∷ [];
  profile_pubkeys = [];
  archived_channels = "old" ∷ [];
  sessions = ("room" ∷ []) ∷ [];
}

abbrev before : SubscriptionReconciler
before = record { applied = sub_key channel_h "old" ∷ []; desired_owners = [] }

plan_settles_example :
    (t : SubscriptionReconciler) × (effects : List SubEffect) × (plan snapshot before
      ≡ some (t, effects))
    × (covers_channel "room" (confirm_all effects t) ≡ true)
    × (plan snapshot (confirm_all effects t) ≡ some (confirm_all effects t, []))
unfolding exists
plan_settles_example = plan_settles snapshot before "room"
