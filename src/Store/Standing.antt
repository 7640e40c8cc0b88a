-- ===== src/Store/Standing.antt =====
-- src/state/session_standing.rs: what a session's routes are worth on the fabric.
pub mod Fences
use tenex_edge.Base.{
  ℕ, ◌+◌, String, Bool, ◌&&◌, ◌||◌, not, Option, none, some, List, [], ◌∷◌, ◌==◌, ◌=?◌, ltb, leb,
  text_lt, text_le, if◌then◌else◌,
}
use tenex_edge.Session.{Session, is_running, is_stopped, is_revoked}
use tenex_edge.Table.{find, exists, select, update, count, insert_or_ignore, upsert}
use tenex_edge.Table.Order.{sort_by}
use tenex_edge.Store.{
  Store, SessionRoute, SessionStanding, StandingState, member, retained, absent, standing_is,
  is_member, is_retained, same_standing_state,
}

-- `get_session_standing`
unfoldable pub get_session_standing : String → String → Store → Option SessionStanding
get_session_standing pubkey channel_h s = find (standing_is pubkey channel_h) s.session_standing

-- `ORDER BY channel_h`
unfoldable pub channel_order : SessionStanding → SessionStanding → Bool
channel_order a b = text_le a.channel_h b.channel_h

unfoldable pub list_session_standing : String → Store → List SessionStanding
unfolding channel_order
list_session_standing pubkey s =
    sort_by channel_order (select (λ r. r.pubkey == pubkey) s.session_standing)

-- The row `(…, 'absent', 0, 1, epoch, now)` that every new route starts from.
abbrev pub absent_standing : String → String → ℕ → ℕ → SessionStanding
absent_standing pubkey channel_h epoch now = record {
  pubkey = pubkey;
  channel_h = channel_h;
  state = absent;
  retain_until = 0;
  standing_epoch = 1;
  session_lifecycle_epoch = epoch;
  updated_at = now;
}

-- `INSERT INTO session_standing … SELECT … FROM session_channels route WHERE route.pubkey=?1
-- ON CONFLICT DO NOTHING`
unfoldable pub insert_absent :
    String → ℕ → ℕ → List SessionRoute → List SessionStanding → List SessionStanding
insert_absent pubkey epoch now [] t = t
insert_absent pubkey epoch now (r ∷ routes) t = insert_absent pubkey epoch now routes (
    if r.pubkey == pubkey
    then insert_or_ignore (standing_is r.pubkey r.channel_h)
        (absent_standing r.pubkey r.channel_h epoch now) t
    else t)

abbrev pub retain_row : ℕ → ℕ → ℕ → SessionStanding → SessionStanding
retain_row epoch retain_until now r = record r {
  state = retained;
  retain_until = retain_until;
  standing_epoch = r.standing_epoch + 1;
  session_lifecycle_epoch = epoch;
  updated_at = now;
}

-- `retain_in_transaction`
unfoldable pub retain_in_transaction : String → ℕ → ℕ → ℕ → Store → Store
unfolding insert_absent is_member
retain_in_transaction pubkey lifecycle_epoch retain_until now s = record s {
  session_standing =
      update (λ r. r.pubkey == pubkey && is_member r.state)
        (retain_row lifecycle_epoch retain_until now)
        (insert_absent pubkey lifecycle_epoch now s.session_channels s.session_standing);
}

abbrev pub member_row : ℕ → ℕ → SessionStanding → SessionStanding
member_row epoch now r = record r {
  state = member;
  retain_until = 0;
  standing_epoch = r.standing_epoch + 1;
  session_lifecycle_epoch = epoch;
  updated_at = now;
}

abbrev pub new_member : String → String → ℕ → ℕ → SessionStanding
new_member pubkey channel_h epoch now = record {
  pubkey = pubkey;
  channel_h = channel_h;
  state = member;
  retain_until = 0;
  standing_epoch = 1;
  session_lifecycle_epoch = epoch;
  updated_at = now;
}

-- `runtime_state='running' AND lifecycle_epoch=?3 AND recovery_state<>'revoked'`
abbrev pub owns_lifecycle : String → ℕ → Session → Bool
owns_lifecycle pubkey epoch r =
    r.pubkey == pubkey
    && is_running r.runtime_state
    && r.lifecycle_epoch =? epoch
    && not (is_revoked r.recovery_state)

-- `SELECT standing_epoch …`
abbrev pub epoch_of : Option SessionStanding → Option ℕ
epoch_of none = none
epoch_of (some r) = some r.standing_epoch

-- `mark_session_standing_member_if_running`: the new standing epoch, or `none` where the lifecycle
-- that asked is no longer the running one
unfoldable pub mark_session_standing_member_if_running :
    String → String → ℕ → ℕ → Store → Store × Option ℕ
unfolding is_running is_revoked
mark_session_standing_member_if_running pubkey channel_h epoch now s =
    elim (find (owns_lifecycle pubkey epoch) s.sessions) [
      | none ↦ (s, none)
      | some owner ↦
          let standing =
            upsert (standing_is pubkey channel_h)
              (new_member pubkey channel_h owner.lifecycle_epoch now)
              (member_row owner.lifecycle_epoch now) s.session_standing in
          (
            record s { session_standing = standing },
            epoch_of (find (standing_is pubkey channel_h) standing),
          )
    ]

-- `retain_stopped_session_routes`
unfoldable pub retain_stopped_session_routes :
    String → ℕ → ℕ → ℕ → Store → Store × Option (List SessionStanding)
unfolding is_stopped retain_in_transaction
retain_stopped_session_routes pubkey epoch retain_until now s =
    let s' = retain_in_transaction pubkey epoch retain_until now s in
    if exists (λ r. r.pubkey == pubkey && is_stopped r.runtime_state && r.lifecycle_epoch =? epoch)
      s.sessions
    then (s', some (list_session_standing pubkey s'))
    else (s, none)

unfoldable pub is_due_retained : ℕ → SessionStanding → Bool
unfolding is_retained
is_due_retained now r = is_retained r.state && ltb 0 r.retain_until && leb r.retain_until now

-- `ORDER BY retain_until, pubkey, channel_h`
unfoldable pub due_order : SessionStanding → SessionStanding → Bool
due_order a b =
    ltb a.retain_until b.retain_until
    || (a.retain_until =? b.retain_until
        && (text_lt a.pubkey b.pubkey || (a.pubkey == b.pubkey && text_le a.channel_h b.channel_h)))

unfoldable pub list_due_retained_standing : ℕ → Store → List SessionStanding
unfolding is_due_retained due_order
list_due_retained_standing now s =
    sort_by due_order (select (is_due_retained now) s.session_standing)

-- `ORDER BY updated_at DESC, pubkey, channel_h`
unfoldable pub recent_order : SessionStanding → SessionStanding → Bool
recent_order a b =
    ltb b.updated_at a.updated_at
    || (a.updated_at =? b.updated_at
        && (text_lt a.pubkey b.pubkey || (a.pubkey == b.pubkey && text_le a.channel_h b.channel_h)))

unfoldable pub list_retained_session_standing : ℕ → Store → List SessionStanding
unfolding is_retained recent_order
list_retained_session_standing now s =
    sort_by recent_order
      (select (λ r. is_retained r.state && ltb now r.retain_until) s.session_standing)

abbrev pub absent_row : ℕ → SessionStanding → SessionStanding
absent_row now r = record r {
  state = absent;
  retain_until = 0;
  standing_epoch = r.standing_epoch + 1;
  updated_at = now;
}

-- The row that the caller read, unchanged since.
abbrev pub is_expected_standing : String → String → StandingState → ℕ → ℕ → SessionStanding → Bool
is_expected_standing pubkey channel_h expected epoch lifecycle r =
    standing_is pubkey channel_h r
    && same_standing_state r.state expected
    && r.standing_epoch =? epoch
    && r.session_lifecycle_epoch =? lifecycle

-- `mark_session_standing_absent_if_epoch`
unfoldable pub mark_session_standing_absent_if_epoch :
    String → String → StandingState → ℕ → ℕ → ℕ → Store → Store × Bool
unfolding same_standing_state
mark_session_standing_absent_if_epoch pubkey channel_h expected epoch lifecycle now s =
    let hit = is_expected_standing pubkey channel_h expected epoch lifecycle in
    (
      record s { session_standing = update hit (absent_row now) s.session_standing },
      count hit s.session_standing =? 1,
    )
