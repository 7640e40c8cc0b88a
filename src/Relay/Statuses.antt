-- ===== src/Relay/Statuses.antt =====
-- src/state/status.rs: the latest status of each session in each channel. Its `updated_at` is the
-- clock by which readers see what is new, and its `expiration` says whether it is alive.
pub mod Renewals
use tenex_edge.Base.{
  ℕ, String, Bool, true, false, ◌&&◌, ◌||◌, not, Option, none, some, List, [], ◌∷◌, ◌==◌, ◌=?◌, ltb,
  leb, if◌then◌else◌, text_lt, text_le,
}
use tenex_edge.Table.{find, exists, select, upsert_where}
use tenex_edge.Table.Order.{sort_by}
use tenex_edge.SessionState.{SessionState, as_str}

-- A row of `relay_status`.
pub record Status : Type 0 where
  pub pubkey : String
  pub channel_h : String
  pub slug : String
  pub title : String
  pub activity : String
  pub state : SessionState
  pub state_since : ℕ
  pub last_seen : ℕ
  pub updated_at : ℕ
  pub expiration : ℕ

abbrev pub status_is : String → String → Status → Bool
status_is pubkey channel_h s = s.pubkey == pubkey && s.channel_h == channel_h

-- The columns whose change the clock `updated_at` shows.
unfoldable pub same_content : Status → Status → Bool
unfolding as_str
same_content a b =
    a.slug == b.slug
    && a.title == b.title
    && a.activity == b.activity
    && as_str a.state == as_str b.state

-- `DO UPDATE SET`
unfoldable pub renew_status : Status → Status → Status
unfolding same_content
renew_status status s = record s {
  slug = status.slug;
  title = status.title;
  activity = status.activity;
  state = status.state;
  state_since = status.state_since;
  last_seen = status.last_seen;
  updated_at = if same_content s status then s.updated_at else status.updated_at;
  expiration = status.expiration;
}

unfoldable pub upsert_status : Status → List Status → List Status
unfolding renew_status
upsert_status status t =
    upsert_where (status_is status.pubkey status.channel_h)
      (λ s. leb s.updated_at status.updated_at) status (renew_status status) t

unfoldable pub get_status : String → String → List Status → Option Status
get_status pubkey channel_h t = find (status_is pubkey channel_h) t

unfoldable pub live_status_for_channel : String → ℕ → List Status → List Status
live_status_for_channel channel_h now t =
    sort_by (λ a b. leb b.updated_at a.updated_at)
      (select (λ s. s.channel_h == channel_h && leb now s.expiration) t)

-- A missing or empty agent, and a missing time, restrict nothing.
abbrev pub is_of_agent : Option String → Status → Bool
is_of_agent none s = true
is_of_agent (some agent) s = agent == "" || s.pubkey == agent || s.slug == agent

abbrev pub is_since : Option ℕ → Status → Bool
is_since none s = true
is_since (some since) s = leb since s.updated_at

-- `ORDER BY channel_h ASC, updated_at DESC`
abbrev pub channel_order : Status → Status → Bool
channel_order a b =
    text_lt a.channel_h b.channel_h || a.channel_h == b.channel_h && leb b.updated_at a.updated_at

unfoldable pub list_status_sessions : Option String → Option ℕ → List Status → List Status
list_status_sessions agent since t =
    sort_by channel_order (select (λ s. is_of_agent agent s && is_since since s) t)

-- `SELECT DISTINCT channel_h`
unfoldable pub distinct : List String → List String
distinct [] = []
distinct (h ∷ t) = let rest = distinct t in if exists (λ x. x == h) rest then rest else h ∷ rest

abbrev pub channels_of : List Status → List String
channels_of [] = []
channels_of (s ∷ t) = s.channel_h ∷ channels_of t

unfoldable pub active_channels_since : ℕ → List Status → List String
unfolding distinct
active_channels_since cursor t =
    sort_by text_le (distinct (channels_of (select (λ s. leb cursor s.updated_at) t)))
