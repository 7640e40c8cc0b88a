-- ===== src/Store/Step/Follows.antt =====
-- How one session row may follow another: the clocks of a session only go forward, a change of the
-- runtime state or generation advances the lifecycle epoch, and a revocation is final.
use tenex_edge.Base.{ℕ, ◌≤◌, ◌<◌, ◌≡◌, ◌⊎◌, true, false, some, arith}
use tenex_edge.Session.{Session, PresentationState, StopReason, is_revoked}
use tenex_edge.Store.Result.{ok}
use tenex_edge.Store.Sessions.{
  RegisterSession, AdmittedRuntimeFacts, renew_session, next_generation,
}
use tenex_edge.Store.Stopping.{stop_row}
use tenex_edge.Store.Lifecycle.{
  edge_row, unavailable_row, disarm_row, is_newer_edge, turn_started_row, turn_ended_row,
}
use tenex_edge.Store.Eviction.{reserve_row, cancel_row}

pub record Follows (a b : Session) : Type 0 where
  pub same_pubkey : b.pubkey ≡ a.pubkey
  pub lifecycle_grows : a.lifecycle_epoch ≤ b.lifecycle_epoch
  pub generation_grows : a.runtime_generation ≤ b.runtime_generation
  pub attachment_grows :
      (a.attachment_epoch ≤ b.attachment_epoch) ⊎ (a.runtime_generation < b.runtime_generation)
  pub turns_grow : a.turn_count ≤ b.turn_count
  pub busy_grows : a.busy_seconds ≤ b.busy_seconds
  pub fenced :
      ((b.runtime_state ≡ a.runtime_state) × (b.runtime_generation ≡ a.runtime_generation))
      ⊎ (a.lifecycle_epoch < b.lifecycle_epoch)
  pub revocation_final :
      (is_revoked a.recovery_state ≡ false) ⊎ (is_revoked b.recovery_state ≡ true)

pub Follows-refl : (a : Session) → Follows a a
Follows-refl a = ground arith

pub Follows-trans : (a b c : Session) → Follows a b → Follows b c → Follows a c
Follows-trans a b c h k = ground arith

pub renew_session-Follows :
    (r : RegisterSession) (facts : AdmittedRuntimeFacts) (generation : ℕ) (old : Session)
    → next_generation (some old) ≡ ok generation
    → Follows old (renew_session r facts generation old)
unfolding renew_session next_generation
renew_session-Follows r facts generation old h = ground arith

pub stop_row-Follows :
    (reason : StopReason) (at : ℕ) (r : Session) → Follows r (stop_row reason at r)
unfolding stop_row
stop_row-Follows reason at r = ground arith

pub edge_row-Follows :
    (epoch : ℕ) (p : PresentationState) (at : ℕ) (r : Session)
    → is_newer_edge epoch r ≡ true
    → Follows r (edge_row epoch p at r)
unfolding edge_row is_newer_edge
edge_row-Follows epoch p at r h = ground arith

pub turn_started_row-Follows : (at : ℕ) (r : Session) → Follows r (turn_started_row at r)
unfolding turn_started_row
turn_started_row-Follows at r = ground arith

pub turn_ended_row-Follows : (at : ℕ) (r : Session) → Follows r (turn_ended_row at r)
unfolding turn_ended_row
turn_ended_row-Follows at r = ground arith

pub unavailable_row-Follows : (at : ℕ) (r : Session) → Follows r (unavailable_row at r)
unfolding unavailable_row
unavailable_row-Follows at r = ground arith

pub disarm_row-Follows : (r : Session) → Follows r (disarm_row r)
unfolding disarm_row
disarm_row-Follows r = ground arith

pub reserve_row-Follows : (now : ℕ) (r : Session) → Follows r (reserve_row now r)
unfolding reserve_row
reserve_row-Follows now r = ground arith

pub cancel_row-Follows :
    (epoch : ℕ) (p : PresentationState) (at : ℕ) (r : Session)
    → r.attachment_epoch ≤ epoch
    → Follows r (cancel_row epoch p at r)
unfolding cancel_row
cancel_row-Follows epoch p at r h = ground arith
