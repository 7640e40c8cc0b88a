-- ===== src/Store/Routes.antt =====
-- src/state/session_routes.rs: committing a relay admission, and what to do with a stale one.
pub mod Settled
use tenex_edge.Base.{
  ℕ, ◌+◌, String, Bool, ◌&&◌, ◌||◌, not, none, some, List, ◌==◌, ◌=?◌, ltb, trim, text_le,
  if◌then◌else◌,
}
use tenex_edge.Session.{Session, is_running, is_revoked}
use tenex_edge.Table.{find, exists, select, count, delete, insert_or_ignore, upsert}
use tenex_edge.Table.Order.{sort_by}
use tenex_edge.Store.{
  Store, SessionRoute, SessionStanding, retained, absent, session_is, route_is, standing_is,
  is_member,
}
use tenex_edge.Store.Standing.{get_session_standing, absent_standing, member_row, new_member}
use tenex_edge.Store.Result.{Result, ok, err, no_row}

pub data ConfirmedAdmissionCommit : Type 0 where
  committed : ConfirmedAdmissionCommit
  cleanup_due : SessionStanding → ConfirmedAdmissionCommit
  superseded : ConfirmedAdmissionCommit

pub data PendingAdmissionOutcome : Type 0 where
  cleanup : PendingAdmissionOutcome
  newer : PendingAdmissionOutcome

abbrev pub cleanup_row : ℕ → ℕ → SessionStanding → SessionStanding
cleanup_row epoch now r = record r {
  state = retained;
  retain_until = now;
  standing_epoch = r.standing_epoch + 1;
  session_lifecycle_epoch = epoch;
  updated_at = now;
}

abbrev pub new_cleanup : String → String → ℕ → ℕ → SessionStanding
new_cleanup pubkey channel_h epoch now = record {
  pubkey = pubkey;
  channel_h = channel_h;
  state = retained;
  retain_until = now;
  standing_epoch = 1;
  session_lifecycle_epoch = epoch;
  updated_at = now;
}

-- A member row that another lifecycle wrote.
abbrev pub is_newer_member : String → String → ℕ → SessionStanding → Bool
is_newer_member pubkey channel_h epoch r =
    standing_is pubkey channel_h r && is_member r.state && not (r.session_lifecycle_epoch =? epoch)

unfoldable pub schedule_cleanup_in_transaction :
    String → String → ℕ → ℕ → Store → Store × PendingAdmissionOutcome
unfolding is_member
schedule_cleanup_in_transaction pubkey channel_h epoch now s =
    if exists (is_newer_member pubkey channel_h epoch) s.session_standing then (s, newer) else (
      record s {
        session_standing =
            upsert (standing_is pubkey channel_h) (new_cleanup pubkey channel_h epoch now)
              (cleanup_row epoch now) s.session_standing;
      },
      cleanup,
    )

-- `finish_admission_outcome`
unfoldable pub finish_admission_outcome :
    String → String → Store × PendingAdmissionOutcome → Result (Store × ConfirmedAdmissionCommit)
unfolding get_session_standing
finish_admission_outcome pubkey channel_h (s, newer) = ok (s, superseded)
finish_admission_outcome pubkey channel_h (s, cleanup) =
    elim (get_session_standing pubkey channel_h s) [
      | none ↦ err no_row
      | some row ↦ ok (s, cleanup_due row)
    ]

-- The runtime generation and lifecycle that asked for the admission still own the session.
abbrev pub owns_runtime : String → ℕ → ℕ → Session → Bool
owns_runtime pubkey generation epoch r =
    session_is pubkey r
    && r.runtime_generation =? generation
    && r.lifecycle_epoch =? epoch
    && is_running r.runtime_state
    && not (is_revoked r.recovery_state)

abbrev pub admitted_route : String → String → ℕ → SessionRoute
admitted_route pubkey channel_h now = record {
  pubkey = pubkey;
  channel_h = channel_h;
  granted_at = now;
}

abbrev pub commit_admission : String → String → ℕ → ℕ → Store → Store
commit_admission pubkey channel_h epoch now s = record s {
  session_channels =
      upsert (route_is pubkey channel_h) (admitted_route pubkey channel_h now)
        (λ r. record r { granted_at = now }) s.session_channels;
  session_standing =
      upsert (standing_is pubkey channel_h) (new_member pubkey channel_h epoch now)
        (member_row epoch now) s.session_standing;
}

unfoldable pub commit_confirmed_session_admission :
    String → String → ℕ → ℕ → ℕ → Store → Result (Store × ConfirmedAdmissionCommit)
unfolding is_running is_revoked schedule_cleanup_in_transaction finish_admission_outcome
commit_confirmed_session_admission pubkey channel_h generation epoch now s =
    if exists (owns_runtime pubkey generation epoch) s.sessions
    then ok (commit_admission pubkey channel_h epoch now s, committed)
    else finish_admission_outcome pubkey channel_h
        (schedule_cleanup_in_transaction pubkey channel_h epoch now s)

-- The three-way join: the session owns the admission, and its route and member row are there.
unfoldable pub admission_is_committed : String → String → ℕ → ℕ → Store → Bool
unfolding is_running is_revoked is_member
admission_is_committed pubkey channel_h generation epoch s =
    exists (owns_runtime pubkey generation epoch) s.sessions
    && exists (route_is pubkey channel_h) s.session_channels
    && exists
        (λ r.
          standing_is pubkey channel_h r && is_member r.state && r.session_lifecycle_epoch =? epoch)
        s.session_standing

unfoldable pub schedule_confirmed_admission_cleanup :
    String → String → ℕ → ℕ → ℕ → Store → Result (Store × ConfirmedAdmissionCommit)
unfolding admission_is_committed schedule_cleanup_in_transaction finish_admission_outcome
schedule_confirmed_admission_cleanup pubkey channel_h generation epoch now s =
    if admission_is_committed pubkey channel_h generation epoch s
    then ok (s, committed)
    else finish_admission_outcome pubkey channel_h
        (schedule_cleanup_in_transaction pubkey channel_h epoch now s)

abbrev pub revoked_row : ℕ → ℕ → SessionStanding → SessionStanding
revoked_row epoch now r = record r {
  state = absent;
  retain_until = 0;
  standing_epoch = r.standing_epoch + 1;
  session_lifecycle_epoch = epoch;
  updated_at = now;
}

unfoldable pub revoke_route_and_mark_absent : String → String → ℕ → Store → Store × Bool
revoke_route_and_mark_absent pubkey channel_h now s = (
  record s {
    session_channels = delete (route_is pubkey channel_h) s.session_channels;
    session_standing = elim (find (session_is pubkey) s.sessions) [
      | none ↦ s.session_standing
      | some row ↦
          upsert (standing_is pubkey channel_h)
            (absent_standing pubkey channel_h row.lifecycle_epoch now)
            (revoked_row row.lifecycle_epoch now) s.session_standing
    ];
  },
  ltb 0 (count (route_is pubkey channel_h) s.session_channels),
)

unfoldable pub grant_session_route : String → String → ℕ → Store → Store
grant_session_route pubkey channel_h granted_at s = if trim channel_h == "" then s else record s {
  session_channels =
      insert_or_ignore (route_is pubkey channel_h) (admitted_route pubkey channel_h granted_at)
        s.session_channels;
}

unfoldable pub revoke_session_route : String → String → Store → Store × Bool
revoke_session_route pubkey channel_h s = (
  record s { session_channels = delete (route_is pubkey channel_h) s.session_channels },
  ltb 0 (count (route_is pubkey channel_h) s.session_channels),
)

unfoldable pub has_session_route : String → String → Store → Bool
has_session_route pubkey channel_h s = exists (route_is pubkey channel_h) s.session_channels

-- `ORDER BY granted_at, channel_h`
unfoldable pub grant_order : SessionRoute → SessionRoute → Bool
grant_order a b =
    ltb a.granted_at b.granted_at
    || (a.granted_at =? b.granted_at && text_le a.channel_h b.channel_h)

unfoldable pub list_session_routes : String → Store → List SessionRoute
unfolding grant_order
list_session_routes pubkey s =
    sort_by grant_order (select (λ r. r.pubkey == pubkey) s.session_channels)
