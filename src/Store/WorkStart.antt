-- ===== src/Store/WorkStart.antt =====
-- src/state/work_start.rs: the hand-off from a delivered message to the turn that begins its work.
pub mod OneShot
use tenex_edge.Base.{
  ℕ, String, Bool, concat, ◌&&◌, ◌||◌, none, some, List, [], ◌∷◌, ◌==◌, ◌=?◌, ltb, text_le,
  if◌then◌else◌,
}
use tenex_edge.Table.{find, select, update, count, insert_or_ignore}
use tenex_edge.Table.Order.{sort_by}
use tenex_edge.Store.{
  Store, InboxRow, EventClaim, ClaimState, completed, claim_is, is_claim_pending,
}

pub record WorkStartClaim : Type 0 where
  pub event_id : String
  pub channel_h : String

unfoldable pub claim_key : String → String
claim_key target_pubkey = concat "work-start:" target_pubkey

abbrev pub staged_claim : ℕ → InboxRow → EventClaim
staged_claim now row = record {
  event_id = row.event_id;
  claim_key = claim_key row.target_pubkey;
  state = ClaimState.pending;
  from_pubkey = row.from_pubkey;
  channel_h = row.channel_h;
  body = "";
  created_at = now;
  updated_at = 0;
}

-- `stage_from_inbox_tx`
unfoldable pub stage_from_inbox : List InboxRow → ℕ → List EventClaim → List EventClaim
stage_from_inbox [] now t = t
stage_from_inbox (row ∷ rows) now t = stage_from_inbox rows now (
    insert_or_ignore (claim_is row.event_id (claim_key row.target_pubkey)) (staged_claim now row) t)

-- `event_id=?1 AND claim_key=?2 AND state='pending'`
abbrev pub is_open_claim : String → String → EventClaim → Bool
is_open_claim event_id key r = claim_is event_id key r && is_claim_pending r.state

abbrev pub complete_claim : ℕ → EventClaim → EventClaim
complete_claim now r = record r { state = completed; updated_at = now }

-- `ORDER BY created_at, event_id`
unfoldable pub staged_order : EventClaim → EventClaim → Bool
staged_order a b =
    ltb a.created_at b.created_at || (a.created_at =? b.created_at && text_le a.event_id b.event_id)

abbrev pub claim_of : EventClaim → WorkStartClaim
claim_of r = record { event_id = r.event_id; channel_h = r.channel_h }

abbrev pub claims_of : List EventClaim → List WorkStartClaim
claims_of [] = []
claims_of (r ∷ t) = claim_of r ∷ claims_of t

-- The candidates for exact event ids: those that have an open claim, in the order of the ids.
unfoldable pub candidates_for : List String → String → List EventClaim → List WorkStartClaim
unfolding is_claim_pending
candidates_for [] key t = []
candidates_for (event_id ∷ ids) key t =
    let rest = candidates_for ids key t in
    elim (find (is_open_claim event_id key) t) [
      | none ↦ rest
      | some r ↦ record { event_id = event_id; channel_h = r.channel_h } ∷ rest
    ]

-- No ids stand for every open claim of the recipient.
unfoldable pub candidates : List String → String → List EventClaim → List WorkStartClaim
unfolding candidates_for staged_order is_claim_pending
candidates [] key t =
    claims_of
      (sort_by staged_order (select (λ r. r.claim_key == key && is_claim_pending r.state) t))
candidates (event_id ∷ ids) key t = candidates_for (event_id ∷ ids) key t

-- The loop over the candidates: a claim is completed and handed out once.
unfoldable pub complete_each :
    List WorkStartClaim → String → ℕ → List EventClaim → List EventClaim × List WorkStartClaim
unfolding is_claim_pending
complete_each [] key now t = (t, [])
complete_each (c ∷ cs) key now t =
    let (t', out) =
      complete_each cs key now (update (is_open_claim c.event_id key) (complete_claim now) t) in
    (t', if count (is_open_claim c.event_id key) t =? 0 then out else c ∷ out)

unfoldable pub take_work_start_claims_for_events :
    String → List String → ℕ → Store → Store × List WorkStartClaim
unfolding candidates complete_each
take_work_start_claims_for_events target_pubkey event_ids now s =
    let key = claim_key target_pubkey in
    let (claims, out) =
      complete_each (candidates event_ids key s.event_claims) key now s.event_claims in
    (record s { event_claims = claims }, out)

unfoldable pub take_work_start_claims : String → ℕ → Store → Store × List WorkStartClaim
unfolding take_work_start_claims_for_events
take_work_start_claims target_pubkey now s =
    take_work_start_claims_for_events target_pubkey [] now s
