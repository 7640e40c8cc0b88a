-- ===== src/Store/Recovery.antt =====
-- src/state/session_recovery.rs: the two-phase destruction of a session's recovery authority.
use tenex_edge.Base.{ℕ, ◌+◌, String, Bool, true, false, ◌&&◌, ◌==◌, ◌=?◌, if◌then◌else◌}
use tenex_edge.Session.{Session, RecoveryState, StopReason, is_revoked}
use tenex_edge.Table.{find, update, count, delete}
use tenex_edge.Store.{Store, SessionStanding, retained, absent, session_is, is_absent}
use tenex_edge.Store.Standing.{insert_absent}
use tenex_edge.Store.Stopping.{stop_row, epoch_or_0}
use tenex_edge.Store.Eviction.{release_handle}

abbrev pub is_generation : String → ℕ → Session → Bool
is_generation pubkey generation r = session_is pubkey r && r.runtime_generation =? generation

unfoldable pub revoke_session_recovery_if_generation : String → ℕ → Store → Store × Bool
revoke_session_recovery_if_generation pubkey generation s = (
  record s {
    sessions =
        update (is_generation pubkey generation)
          (λ r. record r { recovery_state = RecoveryState.revoked }) s.sessions;
  },
  count (is_generation pubkey generation) s.sessions =? 1,
)

-- `state=CASE WHEN state='absent' THEN 'absent' ELSE 'retained' END`, and the other columns
unfoldable pub revocation_row : ℕ → ℕ → SessionStanding → SessionStanding
unfolding is_absent
revocation_row epoch now r = record r {
  state = if is_absent r.state then absent else retained;
  retain_until = if is_absent r.state then 0 else now;
  standing_epoch = r.standing_epoch + 1;
  session_lifecycle_epoch = epoch;
  updated_at = now;
}

unfoldable pub revoke_standing : String → ℕ → ℕ → Store → Store
unfolding insert_absent revocation_row
revoke_standing pubkey epoch now s = record s {
  session_standing =
      update (λ r. r.pubkey == pubkey) (revocation_row epoch now)
        (insert_absent pubkey epoch now s.session_channels s.session_standing);
}

-- The three `DELETE` statements.
unfoldable pub delete_authority : String → Store → Store
delete_authority pubkey s = record s {
  session_locators = delete (λ l. l.pubkey == pubkey) s.session_locators;
  session_signers = delete (λ g. g.pubkey == pubkey) s.session_signers;
  session_channels = delete (λ r. r.pubkey == pubkey) s.session_channels;
}

unfoldable pub after_revocation : String → ℕ → Store → Store
unfolding release_handle revoke_standing delete_authority
after_revocation pubkey now s = delete_authority pubkey (
    revoke_standing pubkey (epoch_or_0 (find (session_is pubkey) s.sessions)) now
      (release_handle pubkey now s))

abbrev pub is_revoked_generation : String → ℕ → Session → Bool
is_revoked_generation pubkey generation r =
    is_generation pubkey generation r && is_revoked r.recovery_state

unfoldable pub finalize_session_recovery_revocation : String → ℕ → ℕ → Store → Store × Bool
unfolding is_revoked stop_row after_revocation
finalize_session_recovery_revocation pubkey generation now s =
    let hit = is_revoked_generation pubkey generation in
    let finalized =
      after_revocation pubkey now
        (record s { sessions = update hit (stop_row StopReason.revoked now) s.sessions }) in
    if count hit s.sessions =? 0 then (s, false) else (finalized, true)
