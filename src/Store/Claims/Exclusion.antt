-- ===== src/Store/Claims/Exclusion.antt =====
-- A claim of a side effect excludes every other one, until its lease ends or for ever.
use tenex_edge.Base.{
  ◌≤◌, ◌<◌, ◌+◌, All-append, not, eq_iff, ltb, List, ℕ, String, ◌≡◌, refl, ◌∙◌, inl, inr, Bool,
  true, false, ◌&&◌, Bool-cases, [], ◌∷◌, arith, All, eq_refl,
}
use tenex_edge.Table.{count, exists, upsert_where, count_upsert_where}
use tenex_edge.Table.Keys.{HasKeys, All-pass_by_key}
use tenex_edge.Table.Rows.{All-update_to}
use tenex_edge.Table.Idle.{
  All-of_not_exists, update_none, count_none, All-none_after, exists-append, exists-update,
}
use tenex_edge.Store.{Store, EventClaim, claim_is, is_claim_pending, is_claim_processing}
use tenex_edge.Store.Claims.{
  new_claim, reclaim_row, is_claimable, claim_orchestration_target, complete_orchestration_target,
}

-- The rows that a claim at `now` would take.
abbrev takes : String → String → ℕ → EventClaim → Bool
takes ev key now r = claim_is ev key r && is_claimable now r

module _ (ev key from_pubkey channel body : String) where
  -- Where a row of the key is there and a claim takes none, it reports so and changes nothing.
  refused :
      (now : ℕ) (s : Store)
      → exists (claim_is ev key) s.event_claims ≡ true
      → All (λ r. takes ev key now r ≡ false) s.event_claims
      → claim_orchestration_target ev key from_pubkey channel body now s ≡ (s, false)
  unfolding claim_orchestration_target upsert_where count_upsert_where
  refused now s old misses =
      rw
        (
          old,
          count_none (takes ev key now) s.event_claims misses,
          update_none (takes ev key now) (reclaim_row from_pubkey channel body now) s.event_claims
              misses,
        )
        refl

  claimed_exists :
      (now : ℕ) (s : Store)
      → exists
          (claim_is ev key)
          (claim_orchestration_target ev key from_pubkey channel body now s).0.event_claims
        ≡ true
  unfolding claim_orchestration_target upsert_where exists
  claimed_exists now s = elim (Bool-cases (exists (claim_is ev key) s.event_claims)) [
    | inl old ↦
        rw
          (
            old,
            exists-update (claim_is ev key) (takes ev key now)
                (reclaim_row from_pubkey channel body now) s.event_claims (λ r. refl),
          )
          old
    | inr new ↦
        rw
          (
            new,
            exists-append (claim_is ev key) s.event_claims
                (new_claim ev key from_pubkey channel body now ∷ []),
            eq_refl ev,
            eq_refl key,
          )
          (ground arith)
  ]

-- Once a side effect was claimed and then completed, the next claim of it, at whatever time, neither
-- succeeds nor writes.
pub completed_never_claimed :
    (ev key from_pubkey channel body : String) (now now' now'' : ℕ) (s : Store)
    → claim_orchestration_target ev key from_pubkey channel body now'' (
        complete_orchestration_target ev key now'
          (claim_orchestration_target ev key from_pubkey channel body now s).0)
      ≡ (
        complete_orchestration_target ev key now'
            (claim_orchestration_target ev key from_pubkey channel body now s).0,
        false,
      )
unfolding complete_orchestration_target is_claimable is_claim_pending is_claim_processing
completed_never_claimed ev key from_pubkey channel body now now' now'' s =
    let t = (claim_orchestration_target ev key from_pubkey channel body now s).0 in
    refused ev key from_pubkey channel body now'' (complete_orchestration_target ev key now' t)
      (exists-update (claim_is ev key) (claim_is ev key) _ t.event_claims (λ r. refl)
        ∙ claimed_exists ev key from_pubkey channel body now s)
      (All-none_after (takes ev key now'') (claim_is ev key) _ t.event_claims
        (λ r hit. ground arith) (λ r miss. ground arith))

abbrev same_claim : EventClaim → EventClaim → Bool
same_claim a b = claim_is b.event_id b.claim_key a

-- The primary key of `event_claims`.
abbrev pub HasClaimKeys : List EventClaim → Type 0
HasClaimKeys = HasKeys same_claim

claim_is-same :
    (ev key : String) (a b : EventClaim)
    → claim_is ev key a ≡ true
    → claim_is ev key b ≡ true
    → same_claim a b ≡ true
claim_is-same ev key a b h k = ground (
  arith,
  eq_iff a.event_id ev,
  eq_iff b.event_id ev,
  eq_iff a.event_id b.event_id,
  eq_iff a.claim_key key,
  eq_iff b.claim_key key,
  eq_iff a.claim_key b.claim_key,
)

-- A claim that succeeded leaves no row of its key that a claim within the lease would take.
claimed_holds :
    (ev key from_pubkey channel body : String) (now now' : ℕ) (s : Store)
    → HasClaimKeys s.event_claims
    → (claim_orchestration_target ev key from_pubkey channel body now s).1 ≡ true
    → now' ≤ now + 600
    → All
        (λ r. takes ev key now' r ≡ false)
        (claim_orchestration_target ev key from_pubkey channel body now s).0.event_claims
unfolding claim_orchestration_target upsert_where count_upsert_where is_claimable is_claim_pending
    is_claim_processing
claimed_holds ev key from_pubkey channel body now now' s keys done soon =
    elim (Bool-cases (exists (claim_is ev key) s.event_claims)) [
      | inl old ↦ rw old (
          All-update_to (λ r. (claim_is ev key r && not (is_claimable now r)) ≡ false)
            (λ r. takes ev key now' r ≡ false) (takes ev key now)
            (reclaim_row from_pubkey channel body now) s.event_claims (λ r hit passes. ground arith)
            (λ r miss passes. ground arith)
            (All-pass_by_key same_claim (claim_is ev key) (is_claimable now) s.event_claims
              (claim_is-same ev key) keys (hit_some (rw old at done))))
      | inr new ↦ rw new (
          All-append (λ r. takes ev key now' r ≡ false) s.event_claims
            (new_claim ev key from_pubkey channel body now ∷ [])
            (All-of_not_exists (claim_is ev key) (takes ev key now') s.event_claims
              (λ r miss. ground arith) new)
            (ground arith, tt))
    ]
  where
    hit_some :
        ltb 0 (count (takes ev key now) s.event_claims) ≡ true
        → 0 < count (takes ev key now) s.event_claims
    hit_some h = ground arith

-- While a claim holds its lease of ten minutes, no other claim of the same side effect succeeds, and
-- none changes what is stored.
pub lease_excludes :
    (ev key from_pubkey channel body from_pubkey' channel' body' : String) (now now' : ℕ)
    (s : Store)
    → HasClaimKeys s.event_claims
    → (claim_orchestration_target ev key from_pubkey channel body now s).1 ≡ true
    → now' ≤ now + 600
    → claim_orchestration_target ev key from_pubkey' channel' body' now'
        (claim_orchestration_target ev key from_pubkey channel body now s).0
      ≡ ((claim_orchestration_target ev key from_pubkey channel body now s).0, false)
lease_excludes ev key from_pubkey channel body from_pubkey' channel' body' now now' s keys done
      soon =
    refused ev key from_pubkey' channel' body' now'
      (claim_orchestration_target ev key from_pubkey channel body now s).0
      (claimed_exists ev key from_pubkey channel body now s)
      (claimed_holds ev key from_pubkey channel body now now' s keys done soon)
