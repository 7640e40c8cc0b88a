-- ===== src/Store/Lifecycle/Turns.antt =====
-- What a turn adds to the counters of its session.
use tenex_edge.Base.{
  ℕ, ◌+◌, ◌-◌, ◌<◌, String, ◌≡◌, refl, ◌∙◌, Bool, true, false, ◌&&◌, some, arith, if◌then◌else◌,
}
use tenex_edge.Session.{Session, is_idle, is_working}
use tenex_edge.Table.Reads.{find-update}
use tenex_edge.Store.{Store, session_is}
use tenex_edge.Store.Sessions.{get_session}
use tenex_edge.Store.Stopping.{is_running_generation}
use tenex_edge.Store.Lifecycle.{
  turn_started_row, turn_ended_row, consume_echoes, apply_session_turn_started,
  apply_session_turn_ended,
}

get_session-start :
    (pk : String) (g at : ℕ) (s : Store) (a : Session)
    → get_session pk s ≡ some a
    → is_running_generation pk g a ≡ true
    → get_session pk (apply_session_turn_started pk g at s).0 ≡ some (turn_started_row at a)
unfolding get_session apply_session_turn_started turn_started_row
get_session-start pk g at s a found hit =
    find-update (session_is pk) (is_running_generation pk g) (turn_started_row at) s.sessions
      (λ r. refl)
    ∙ rw (found, hit) refl

get_session-consume :
    (pk pk' : String) (b : Bool) (s : Store)
    → get_session pk (if b then consume_echoes pk' s else s) ≡ get_session pk s
unfolding get_session consume_echoes
get_session-consume pk pk' true s = refl
get_session-consume pk pk' false s = refl

abbrev ends_turn : String → ℕ → Session → Bool
ends_turn pk g r = is_running_generation pk g r && is_working r.work_state

get_session-end :
    (pk : String) (g at : ℕ) (s : Store) (a : Session)
    → get_session pk s ≡ some a
    → ends_turn pk g a ≡ true
    → get_session pk (apply_session_turn_ended pk g at s).0 ≡ some (turn_ended_row at a)
unfolding get_session apply_session_turn_ended turn_ended_row
get_session-end pk g at s a found hit =
    get_session-consume pk pk _ _
    ∙ find-update (session_is pk) (ends_turn pk g) (turn_ended_row at) s.sessions (λ r. refl)
    ∙ rw (found, hit) refl

-- An idle session that runs the named generation and starts a turn, reports the start again, and
-- ends the turn, has counted one turn more and is busy by the time from the first start to the end:
-- the repeated start neither counts nor moves the start. It is idle again after it.
pub turn_counts_once :
    (pk : String) (g at1 at2 at3 : ℕ) (s : Store) (a : Session)
    → get_session pk s ≡ some a
    → is_running_generation pk g a ≡ true
    → is_idle a.work_state ≡ true
    → 0 < at1
    → let started = (apply_session_turn_started pk g at1 s).0 in
      let again = (apply_session_turn_started pk g at2 started).0 in
      (b : Session) × (get_session pk (apply_session_turn_ended pk g at3 again).0 ≡ some b)
      × (b.turn_count ≡ a.turn_count + 1)
      × (b.busy_seconds ≡ a.busy_seconds + (at3 - at1))
      × (is_idle b.work_state ≡ true)
      × (b.turn_started_at ≡ 0)
unfolding turn_started_row turn_ended_row is_idle is_working
turn_counts_once pk g at1 at2 at3 s a found hit resting positive =
    let first = get_session-start pk g at1 s a found hit in
    let twice =
      get_session-start pk g at2 (apply_session_turn_started pk g at1 s).0 (turn_started_row at1 a)
        first (ground arith) in
    (
      turn_ended_row at3 (turn_started_row at2 (turn_started_row at1 a)),
      get_session-end pk g at3 _ (turn_started_row at2 (turn_started_row at1 a)) twice
          (ground arith),
      ground arith,
      ground arith,
      ground arith,
      ground arith,
    )
