-- ===== src/Store/Standing/Fences.antt =====
-- The standing epoch fences the timers that remove a session from a channel.
use tenex_edge.Base.{ℕ, String, Bool, List}
use tenex_edge.Table.{upsert}
use tenex_edge.Table.Keys.{HasKeys}
use tenex_edge.Store.{Store, SessionStanding, standing_is}
use tenex_edge.Store.Standing.{member_row, new_member}

abbrev same_standing : SessionStanding → SessionStanding → Bool
same_standing a b = standing_is b.pubkey b.channel_h a

-- The primary key of `session_standing`.
abbrev pub HasStandingKeys : List SessionStanding → Type 0
HasStandingKeys = HasKeys same_standing

-- What a membership write leaves.
abbrev with_member : String → String → ℕ → ℕ → Store → Store
with_member pk channel epoch now s = record s {
  session_standing =
      upsert (standing_is pk channel) (new_member pk channel epoch now) (member_row epoch now)
        s.session_standing;
}
