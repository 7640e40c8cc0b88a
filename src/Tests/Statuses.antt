-- ===== src/Tests/Statuses.antt =====
-- Statuses at concrete inputs.
use tenex_edge.Base.{arith, ℕ, String, ◌≡◌, refl, some, [], ◌∷◌}
use tenex_edge.SessionState.{working, as_str}
use tenex_edge.Table.{find}
use tenex_edge.Relay.Statuses.{
  Status, same_content, get_status, upsert_status, active_channels_since,
}
use tenex_edge.Relay.Statuses.Renewals.{renewal_silent}

abbrev status_in : String → ℕ → Status
status_in channel_h at = record {
  pubkey = "pk";
  channel_h = channel_h;
  slug = "agent";
  title = "Task title";
  activity = "reading";
  state = working;
  state_since = 100;
  last_seen = at;
  updated_at = at;
  expiration = at;
}

renewal_silent_example :
    (get_status "pk" "h1"
        (upsert_status (status_in "h1" 150) (status_in "h1" 100 ∷ status_in "h2" 140 ∷ []))
      ≡ some (record (status_in "h1" 150) { updated_at = 100 }))
    × (active_channels_since 120
          (upsert_status (status_in "h1" 150) (status_in "h1" 100 ∷ status_in "h2" 140 ∷ []))
        ≡ active_channels_since 120 (status_in "h1" 100 ∷ status_in "h2" 140 ∷ []))
unfolding find get_status same_content as_str
renewal_silent_example =
    renewal_silent 120 (status_in "h1" 150) (status_in "h1" 100)
      (status_in "h1" 100 ∷ status_in "h2" 140 ∷ []) ((refl, tt), (tt, tt)) refl (omega arith) refl
      (omega arith) refl
