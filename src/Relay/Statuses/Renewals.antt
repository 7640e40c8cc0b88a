-- ===== src/Relay/Statuses/Renewals.antt =====
-- A renewal of a lease that changes nothing a reader would want to hear of.
use tenex_edge.Base.{
  ◌≤◌, ℕ, ◌≡◌, refl, arith, String, Bool, true, false, ◌&&◌, not, some, List, [], ◌∷◌, leb, All,
  eq_iff, ◌∙◌,
}
use tenex_edge.Table.{exists, select, update, upsert_where}
use tenex_edge.Table.Keys.{HasKeys, All-fail_by_key}
use tenex_edge.Table.Reads.{exists-find, find_holds, find-update}
use tenex_edge.Relay.Statuses.{
  Status, status_is, same_content, renew_status, upsert_status, get_status, channels_of,
  active_channels_since,
}

-- `PRIMARY KEY (pubkey, channel_h)`
abbrev pub same_key : Status → Status → Bool
same_key a b = status_is b.pubkey b.channel_h a

abbrev is_renewed_by : Status → Status → Bool
is_renewed_by st s = status_is st.pubkey st.channel_h s && leb s.updated_at st.updated_at

-- The rows that the status would change in content.
abbrev is_changed_by : Status → Status → Bool
is_changed_by st s = status_is st.pubkey st.channel_h s && not (same_content s st)

keyed :
    (pk h : String) (a b : Status)
    → status_is pk h a ≡ true
    → status_is pk h b ≡ true
    → same_key a b ≡ true
keyed pk h a b ha hb = ground (
  arith,
  ha,
  hb,
  eq_iff a.pubkey pk,
  eq_iff b.pubkey pk,
  eq_iff a.channel_h h,
  eq_iff b.channel_h h,
  eq_iff a.pubkey b.pubkey,
  eq_iff a.channel_h b.channel_h,
)

same_news :
    (cursor : ℕ) (st : Status) (t : List Status)
    → All (λ s. is_changed_by st s ≡ false) t
    → channels_of
        (select (λ s. leb cursor s.updated_at) (update (is_renewed_by st) (renew_status st) t))
      ≡ channels_of (select (λ s. leb cursor s.updated_at) t)
unfolding select update renew_status
same_news cursor st [] h = refl
same_news cursor st (s ∷ t) h = ground (arith, h.0, same_news cursor st t h.1)

same_row :
    (st r : Status)
    → status_is st.pubkey st.channel_h r ≡ true
    → same_content r st ≡ true
    → renew_status st r ≡ record st { updated_at = r.updated_at }
unfolding renew_status
same_row st r key same =
    let pk : r.pubkey ≡ st.pubkey = (eq_iff r.pubkey st.pubkey).0 (ground (arith, key)) in
    let h : r.channel_h ≡ st.channel_h =
      (eq_iff r.channel_h st.channel_h).0 (ground (arith, key)) in
    rw (same, pk, h) refl

-- What the materializer keeps: a row's clock shows a time of a status that was taken, the last of
-- which is the row's `last_seen`.
abbrev pub IsMaterialized : Status → Type 0
IsMaterialized s = s.updated_at ≤ s.last_seen

-- A status as the materializer writes it that says again, no earlier than the last one that was taken
-- for its row, what that row says: the row becomes the status, but for its clock, which it keeps; and
-- whichever time a reader asks from, the channels in which it finds something new are those from
-- before. Each session has one row for a channel, whose clock is at most its last time.
pub renewal_silent :
    (cursor : ℕ) (st r : Status) (t : List Status)
    → HasKeys same_key t
    → get_status st.pubkey st.channel_h t ≡ some r
    → IsMaterialized r
    → st.last_seen ≡ st.updated_at
    → r.last_seen ≤ st.last_seen
    → same_content r st ≡ true
    → (get_status st.pubkey st.channel_h (upsert_status st t)
        ≡ some (record st { updated_at = r.updated_at }))
      × (active_channels_since cursor (upsert_status st t) ≡ active_channels_since cursor t)
unfolding get_status upsert_status upsert_where active_channels_since
renewal_silent cursor st r t keys found clock now later same =
    let q = status_is st.pubkey st.channel_h in
    let fresh : leb r.updated_at st.updated_at ≡ true = ground (arith, clock, now, later) in
    let key : q r ≡ true = find_holds q t r found in
    let there : exists q t ≡ true = exists-find q t ∙ rw found refl in
    let unchanged : All (λ s. is_changed_by st s ≡ false) t =
      All-fail_by_key same_key q (is_changed_by st) t r (keyed st.pubkey st.channel_h)
        (λ x miss. ground (arith, miss)) keys found (ground (arith, same)) in
    (
      rw
          (
            there,
            find-update q (is_renewed_by st) (renew_status st) t (λ x. refl),
            found,
            key,
            fresh,
            same_row st r key same,
          )
          refl,
      rw (there, same_news cursor st t unchanged) refl,
    )
