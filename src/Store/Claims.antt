-- ===== src/Store/Claims.antt =====
-- src/state/event_claims.rs: replay guards for side effects of the backend.
pub mod Exclusion
use tenex_edge.Base.{ℕ, ◌-◌, String, Bool, concat, ◌&&◌, ◌||◌, ltb}
use tenex_edge.Table.{update, upsert_where, count_upsert_where}
use tenex_edge.Store.{
  Store, EventClaim, ClaimState, processing, completed, claim_is, is_claim_pending,
  is_claim_processing,
}

abbrev pub processing_lease_secs : ℕ
processing_lease_secs = 600

abbrev pub new_claim : String → String → String → String → String → ℕ → EventClaim
new_claim event_id claim_key from_pubkey channel_h body now = record {
  event_id = event_id;
  claim_key = claim_key;
  state = processing;
  from_pubkey = from_pubkey;
  channel_h = channel_h;
  body = body;
  created_at = now;
  updated_at = now;
}

abbrev pub reclaim_row : String → String → String → ℕ → EventClaim → EventClaim
reclaim_row from_pubkey channel_h body now r = record r {
  state = processing;
  from_pubkey = from_pubkey;
  channel_h = channel_h;
  body = body;
  updated_at = now;
}

-- `state='pending' OR (state='processing' AND updated_at < stale_before)`
unfoldable pub is_claimable : ℕ → EventClaim → Bool
unfolding is_claim_pending is_claim_processing
is_claimable now r =
    is_claim_pending r.state
    || (is_claim_processing r.state && ltb r.updated_at (now - processing_lease_secs))

unfoldable pub claim_orchestration_target :
    String → String → String → String → String → ℕ → Store → Store × Bool
unfolding is_claimable
claim_orchestration_target event_id claim_key from_pubkey channel_h body now s = (
  record s {
    event_claims =
        upsert_where (claim_is event_id claim_key) (is_claimable now)
          (new_claim event_id claim_key from_pubkey channel_h body now)
          (reclaim_row from_pubkey channel_h body now) s.event_claims;
  },
  ltb 0 (count_upsert_where (claim_is event_id claim_key) (is_claimable now) s.event_claims),
)

unfoldable pub complete_orchestration_target : String → String → ℕ → Store → Store
complete_orchestration_target event_id claim_key now s = record s {
  event_claims =
      update (claim_is event_id claim_key) (λ r. record r { state = completed; updated_at = now })
        s.event_claims;
}

unfoldable pub retry_orchestration_target : String → String → Store → Store
unfolding is_claim_processing
retry_orchestration_target event_id claim_key s = record s {
  event_claims =
      update (λ r. claim_is event_id claim_key r && is_claim_processing r.state)
        (λ r. record r { state = ClaimState.pending; updated_at = 0 }) s.event_claims;
}

unfoldable pub claim_management_command :
    String → String → String → String → ℕ → Store → Store × Bool
unfolding claim_orchestration_target
claim_management_command event_id from_pubkey channel_h body now =
    claim_orchestration_target event_id "management" from_pubkey channel_h body now

unfoldable pub complete_management_command : String → ℕ → Store → Store
unfolding complete_orchestration_target
complete_management_command event_id now = complete_orchestration_target event_id "management" now

unfoldable pub offline_mention_claim : String → String
offline_mention_claim mentioned_pubkey = concat "offline-mention:" mentioned_pubkey

unfoldable pub claim_offline_mention :
    String → String → String → String → String → ℕ → Store → Store × Bool
unfolding claim_orchestration_target
claim_offline_mention event_id mentioned_pubkey from_pubkey channel_h body now =
    claim_orchestration_target event_id (offline_mention_claim mentioned_pubkey) from_pubkey
      channel_h body now

unfoldable pub complete_offline_mention : String → String → ℕ → Store → Store
complete_offline_mention event_id mentioned_pubkey now s = record s {
  event_claims =
      update (claim_is event_id (offline_mention_claim mentioned_pubkey))
        (λ r. record r {
          state = completed;
          from_pubkey = "";
          channel_h = "";
          body = "";
          updated_at = now;
        })
        s.event_claims;
}

unfoldable pub retry_offline_mention : String → String → ℕ → Store → Store
unfolding is_claim_processing
retry_offline_mention event_id mentioned_pubkey now s = record s {
  event_claims =
      update
        (λ r.
          claim_is event_id (offline_mention_claim mentioned_pubkey) r
          && is_claim_processing r.state)
        (λ r. record r { state = ClaimState.pending; updated_at = now }) s.event_claims;
}
