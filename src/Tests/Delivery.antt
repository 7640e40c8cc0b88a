-- ===== src/Tests/Delivery.antt =====
-- A scan of a session with one pending mention.
use tenex_edge.Base.{
  ◌+◌, ◌-◌, ◌≤◌, ◌≡◌, ◌↔◌, String, refl, true, false, some, [], ◌∷◌, arith, is_empty,
}
use tenex_edge.Reconcile.Delivery.{DeliveryScanFact, DeliveryEffect, retry_after, decide, effects}
use tenex_edge.Reconcile.Delivery.Policy.{IsDue, injected_iff, deferral_is_exact}

-- Injected at 100, scanned at 104, with a debounce of 10 seconds.
abbrev scan : DeliveryScanFact
scan = record {
  pubkey = "alice";
  pending_event_ids = "e1" ∷ [];
  endpoint_id = some "pty-1";
  endpoint_live = true;
  last_injected_at = some 100;
  debounce_secs = 10;
  force = false;
  at = 104;
}

injected_iff_example :
    (effects (decide scan) ≡ DeliveryEffect.inject "alice" "pty-1" ("e1" ∷ []) ∷ []) ↔ (
      (is_empty scan.pending_event_ids ≡ false)
      × (scan.endpoint_id ≡ some "pty-1")
      × (scan.endpoint_live ≡ true)
      × IsDue scan)
injected_iff_example = injected_iff scan "pty-1"

deferral_is_exact_example :
    (1 ≤ 6)
    × (6 ≤ 10)
    × (effects (decide (record scan { at = 104 + 2 })) ≡ retry_after "alice" (6 - 2) ∷ [])
    × ((endpoint : String) × (scan.endpoint_id ≡ some endpoint)
        × (effects (decide (record scan { at = 104 + 6 }))
            ≡ DeliveryEffect.inject "alice" endpoint ("e1" ∷ []) ∷ []))
unfolding decide effects
deferral_is_exact_example = deferral_is_exact scan 6 2 refl (omega arith) (omega arith)
