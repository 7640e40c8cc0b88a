-- ===== src/Reconcile/Delivery/Policy.antt =====
-- When the pending mentions of a session are injected, and when a deferred one is tried again.
use tenex_edge.Base.{
  ℕ, ◌+◌, ◌-◌, ◌≤◌, ◌<◌, String, ◌≡◌, ◌↔◌, ◌⊎◌, inl, inr, true, false, Bool-cases, Option-cases,
  some, [], ◌∷◌, arith, is_empty,
}
use tenex_edge.Reconcile.Delivery.{
  DeliveryScanFact, DeliveryEffect, retry_after, last_of, decide, decide_endpoint, effects,
}

-- The debounce does not hold the injection back.
abbrev pub IsDue : DeliveryScanFact → Type 0
IsDue fact =
    (fact.force ≡ true)
    ⊎ (last_of fact.last_injected_at ≡ 0)
    ⊎ (fact.debounce_secs ≤ fact.at - last_of fact.last_injected_at)

-- The debounce of a live endpoint runs for another `delay` seconds.
pub record IsHeldBack (fact : DeliveryScanFact) (delay : ℕ) : Type 0 where
  pub live : fact.endpoint_live ≡ true
  pub unforced : fact.force ≡ false
  pub injected_before : 0 < last_of fact.last_injected_at
  pub running : fact.at - last_of fact.last_injected_at < fact.debounce_secs
  pub delay_exact : delay ≡ fact.debounce_secs - (fact.at - last_of fact.last_injected_at)

injected_when_due :
    (fact : DeliveryScanFact) (endpoint : String)
    → is_empty fact.pending_event_ids ≡ false
    → fact.endpoint_id ≡ some endpoint
    → fact.endpoint_live ≡ true
    → IsDue fact
    → effects (decide fact) ≡ DeliveryEffect.inject fact.pubkey endpoint fact.pending_event_ids ∷ []
unfolding decide effects
injected_when_due fact endpoint pending attached live due = rw (pending, attached) (ground arith)

still_held_back :
    (fact : DeliveryScanFact) (endpoint : String) (delay sooner : ℕ)
    → is_empty fact.pending_event_ids ≡ false
    → fact.endpoint_id ≡ some endpoint
    → IsHeldBack fact delay
    → last_of fact.last_injected_at ≤ fact.at
    → sooner < delay
    → effects (decide (record fact { at = fact.at + sooner }))
      ≡ retry_after fact.pubkey (delay - sooner) ∷ []
unfolding decide effects
still_held_back fact endpoint delay sooner pending attached held past early =
    rw (pending, attached) (ground arith)

endpoint_inversion :
    (fact : DeliveryScanFact) (e endpoint : String)
    → effects (some (decide_endpoint fact e))
      ≡ DeliveryEffect.inject fact.pubkey endpoint fact.pending_event_ids ∷ []
    → (e ≡ endpoint) × (fact.endpoint_live ≡ true) × IsDue fact
unfolding decide_endpoint effects
endpoint_inversion fact e endpoint h = ground arith

injected_inversion :
    (fact : DeliveryScanFact) (endpoint : String)
    → effects (decide fact) ≡ DeliveryEffect.inject fact.pubkey endpoint fact.pending_event_ids ∷ []
    → (is_empty fact.pending_event_ids ≡ false)
      × (fact.endpoint_id ≡ some endpoint)
      × (fact.endpoint_live ≡ true)
      × IsDue fact
unfolding decide effects
injected_inversion fact endpoint h = elim (Bool-cases (is_empty fact.pending_event_ids)) [
  | inl empty ↦ cc (rw empty at h)
  | inr pending ↦ elim (Option-cases fact.endpoint_id) [
    | inl detached ↦ cc (rw (pending, detached) at h)
    | inr (e, attached) ↦
        let (same_endpoint, live, due) =
          endpoint_inversion fact e endpoint (rw (pending, attached) at h) in
        (pending, rw (← same_endpoint) attached, live, due)
  ]
]

-- The mentions that are pending for a session are injected into an endpoint exactly where there are
-- some, the endpoint is the session's and is live, and the debounce does not hold them back: the scan
-- is forced, nothing was injected before, or the debounce has run out.
pub injected_iff :
    (fact : DeliveryScanFact) (endpoint : String)
    → (effects (decide fact)
        ≡ DeliveryEffect.inject fact.pubkey endpoint fact.pending_event_ids ∷ [])
      ↔ ((is_empty fact.pending_event_ids ≡ false)
          × (fact.endpoint_id ≡ some endpoint)
          × (fact.endpoint_live ≡ true)
          × IsDue fact)
injected_iff fact endpoint =
    (injected_inversion fact endpoint, λ h. injected_when_due fact endpoint h.0 h.1 h.2 h.3)

endpoint_deferral :
    (fact : DeliveryScanFact) (e : String) (delay : ℕ)
    → effects (some (decide_endpoint fact e)) ≡ retry_after fact.pubkey delay ∷ []
    → IsHeldBack fact delay
unfolding decide_endpoint effects
endpoint_deferral fact e delay h = ground arith

-- What a deferral says of the fact.
deferred_inversion :
    (fact : DeliveryScanFact) (delay : ℕ)
    → effects (decide fact) ≡ retry_after fact.pubkey delay ∷ []
    → (endpoint : String) × (is_empty fact.pending_event_ids ≡ false)
      × (fact.endpoint_id ≡ some endpoint)
      × IsHeldBack fact delay
unfolding decide effects
deferred_inversion fact delay h = elim (Bool-cases (is_empty fact.pending_event_ids)) [
  | inl empty ↦ cc (rw empty at h)
  | inr pending ↦ elim (Option-cases fact.endpoint_id) [
    | inl detached ↦ cc (rw (pending, detached) at h)
    | inr (e, attached) ↦
        (e, pending, attached, endpoint_deferral fact e delay (rw (pending, attached) at h))
  ]
]

-- A deferral names the exact delay: it is at least a second and at most the debounce, a scan of the
-- same session any sooner is deferred again, by what is left of the delay, and a scan after the delay
-- injects every pending mention into the endpoint of the session. The clock is not before the last
-- injection.
pub deferral_is_exact :
    (fact : DeliveryScanFact) (delay sooner : ℕ)
    → effects (decide fact) ≡ retry_after fact.pubkey delay ∷ []
    → last_of fact.last_injected_at ≤ fact.at
    → sooner < delay
    → (1 ≤ delay)
      × (delay ≤ fact.debounce_secs)
      × (effects (decide (record fact { at = fact.at + sooner }))
          ≡ retry_after fact.pubkey (delay - sooner) ∷ [])
      × ((endpoint : String) × (fact.endpoint_id ≡ some endpoint)
          × (effects (decide (record fact { at = fact.at + delay }))
              ≡ DeliveryEffect.inject fact.pubkey endpoint fact.pending_event_ids ∷ []))
deferral_is_exact fact delay sooner h past early =
    let (endpoint, pending, attached, held) = deferred_inversion fact delay h in
    (
      omega (arith, held.running, held.delay_exact),
      omega (arith, held.delay_exact),
      still_held_back fact endpoint delay sooner pending attached held past early,
      (
        endpoint,
        attached,
        injected_when_due (record fact { at = fact.at + delay }) endpoint pending attached held.live
            (inr (inr (omega (arith, held.running, held.delay_exact, past)))),
      ),
    )
