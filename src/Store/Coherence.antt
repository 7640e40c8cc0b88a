-- ===== src/Store/Coherence.antt =====
-- What holds of every session row between two operations, and that each row operation keeps it.
use tenex_edge.Base.{ℕ, ◌≡◌, ◌≢◌, ◌⊎◌, true, false, none, arith}
use tenex_edge.Session.{
  Session, PresentationState, StopReason, running, unavailable, headless, idle, is_running,
  is_stopping, is_idle,
}
use tenex_edge.Store.Sessions.{RegisterSession, AdmittedRuntimeFacts, new_session, renew_session}
use tenex_edge.Store.Stopping.{stop_row}
use tenex_edge.Store.Lifecycle.{
  edge_row, unavailable_row, turn_started_row, turn_ended_row, disarm_row, idle_deadline_at,
}
use tenex_edge.Store.Eviction.{reserve_row, cancel_row}

-- The idle deadline is armed on running, headless, idle sessions alone, ten minutes after the
-- session fell idle; a session that is stopping or stopped does no work; a stopped one presents
-- nothing; and a stop reason stands exactly on the sessions that are not running.
pub record IsCoherent (r : Session) : Type 0 where
  pub armed :
      (r.idle_deadline ≡ 0)
      ⊎ ((r.runtime_state ≡ running)
          × (r.presentation_state ≡ headless)
          × (r.work_state ≡ idle)
          × (r.idle_deadline ≡ idle_deadline_at r.idle_since))
  pub resting : (r.runtime_state ≡ running) ⊎ (r.work_state ≡ idle)
  pub hidden :
      (is_running r.runtime_state ≡ true)
      ⊎ (is_stopping r.runtime_state ≡ true)
      ⊎ (r.presentation_state ≡ unavailable)
  pub reasoned :
      ((r.runtime_state ≡ running) × (r.stop_reason ≡ none))
      ⊎ ((is_running r.runtime_state ≡ false) × (r.stop_reason ≢ none))

pub new_session-IsCoherent :
    (r : RegisterSession) (facts : AdmittedRuntimeFacts) (generation : ℕ)
    → IsCoherent (new_session r facts generation)
unfolding new_session
new_session-IsCoherent r facts generation = ground arith

pub renew_session-IsCoherent :
    (r : RegisterSession) (facts : AdmittedRuntimeFacts) (generation : ℕ) (old : Session)
    → IsCoherent (renew_session r facts generation old)
unfolding renew_session
renew_session-IsCoherent r facts generation old = ground arith

pub stop_row-IsCoherent :
    (reason : StopReason) (at : ℕ) (r : Session) → IsCoherent (stop_row reason at r)
unfolding stop_row is_running
stop_row-IsCoherent reason at r = ground arith

pub edge_row-IsCoherent :
    (epoch : ℕ) (p : PresentationState) (at : ℕ) (r : Session)
    → is_running r.runtime_state ≡ true
    → IsCoherent r
    → IsCoherent (edge_row epoch p at r)
unfolding edge_row is_running
edge_row-IsCoherent epoch p at r run h = ground arith

pub unavailable_row-IsCoherent :
    (at : ℕ) (r : Session) → IsCoherent r → IsCoherent (unavailable_row at r)
unfolding unavailable_row
unavailable_row-IsCoherent at r h = ground arith

pub turn_started_row-IsCoherent :
    (at : ℕ) (r : Session)
    → is_running r.runtime_state ≡ true
    → IsCoherent r
    → IsCoherent (turn_started_row at r)
unfolding turn_started_row is_running
turn_started_row-IsCoherent at r run h = ground arith

pub turn_ended_row-IsCoherent :
    (at : ℕ) (r : Session)
    → is_running r.runtime_state ≡ true
    → IsCoherent r
    → IsCoherent (turn_ended_row at r)
unfolding turn_ended_row is_running
turn_ended_row-IsCoherent at r run h = ground arith

pub disarm_row-IsCoherent : (r : Session) → IsCoherent r → IsCoherent (disarm_row r)
unfolding disarm_row
disarm_row-IsCoherent r h = ground arith

pub reserve_row-IsCoherent :
    (now : ℕ) (r : Session)
    → is_idle r.work_state ≡ true
    → IsCoherent r
    → IsCoherent (reserve_row now r)
unfolding reserve_row is_idle is_running is_stopping
reserve_row-IsCoherent now r rest h = ground arith

pub cancel_row-IsCoherent :
    (epoch : ℕ) (p : PresentationState) (at : ℕ) (r : Session)
    → is_stopping r.runtime_state ≡ true
    → IsCoherent r
    → IsCoherent (cancel_row epoch p at r)
unfolding cancel_row is_stopping is_running
cancel_row-IsCoherent epoch p at r halting h = ground arith
