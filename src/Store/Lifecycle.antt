-- ===== src/Store/Lifecycle.antt =====
-- src/state/session_lifecycle.rs: presentation edges, turns and the idle deadline of a running
-- session. An `UPDATE` tests and rewrites the row of the pubkey, and `changed == 1` is the result.
pub mod Edges
pub mod Turns
use tenex_edge.Base.{
  ℕ, ◌+◌, ◌-◌, String, Bool, ◌&&◌, ◌||◌, ◌==◌, ◌=?◌, ltb, saturating_add, if◌then◌else◌,
}
use tenex_edge.Session.{
  Session, PresentationState, unavailable, idle, working, is_running, is_unavailable, is_headless,
  is_idle, is_working,
}
use tenex_edge.Table.{update, count}
use tenex_edge.Store.{Store, echo_consumed, is_injected}
use tenex_edge.Store.Stopping.{is_running_generation}

abbrev pub headless_idle_timeout_secs : ℕ
headless_idle_timeout_secs = 600

-- `CASE WHEN … THEN at ELSE 0 END` of `idle_since`, and the deadline that goes with it.
abbrev pub when_0 : Bool → ℕ → ℕ
when_0 b n = if b then n else 0

abbrev pub idle_deadline_at : ℕ → ℕ
idle_deadline_at at = saturating_add at headless_idle_timeout_secs

-- `attachment_epoch<?3 OR (attachment_epoch=?3 AND presentation_state='unavailable')`
unfoldable pub is_newer_edge : ℕ → Session → Bool
unfolding is_unavailable
is_newer_edge epoch r =
    ltb r.attachment_epoch epoch
    || (r.attachment_epoch =? epoch && is_unavailable r.presentation_state)

unfoldable pub edge_row : ℕ → PresentationState → ℕ → Session → Session
unfolding is_headless is_idle
edge_row epoch presentation at r = record r {
  presentation_state = presentation;
  attachment_epoch = epoch;
  idle_since = when_0 (is_headless presentation && is_idle r.work_state) at;
  idle_deadline = when_0 (is_headless presentation && is_idle r.work_state) (idle_deadline_at at);
}

unfoldable pub apply_session_presentation_edge :
    String → ℕ → ℕ → PresentationState → ℕ → Store → Store × Bool
unfolding is_running is_newer_edge edge_row
apply_session_presentation_edge pubkey generation epoch presentation at s =
    let hit = λ (r : Session). is_running_generation pubkey generation r && is_newer_edge epoch r in
    (
      record s { sessions = update hit (edge_row epoch presentation at) s.sessions },
      count hit s.sessions =? 1,
    )

unfoldable pub unavailable_row : ℕ → Session → Session
unavailable_row at r = record r {
  presentation_state = unavailable;
  idle_since = 0;
  idle_deadline = 0;
  state_changed_at = at;
}

unfoldable pub mark_session_presentation_unavailable : String → ℕ → ℕ → ℕ → Store → Store × Bool
unfolding is_running unavailable_row
mark_session_presentation_unavailable pubkey generation epoch at s =
    let hit =
      λ (r : Session). is_running_generation pubkey generation r && r.attachment_epoch =? epoch in
    (record s { sessions = update hit (unavailable_row at) s.sessions }, count hit s.sessions =? 1)

unfoldable pub turn_started_row : ℕ → Session → Session
unfolding is_idle
turn_started_row at r = record r {
  turn_started_at = if is_idle r.work_state then at else r.turn_started_at;
  work_state = working;
  turn_count = r.turn_count + when_0 (is_idle r.work_state) 1;
  state_changed_at = if is_idle r.work_state then at else r.state_changed_at;
  idle_since = 0;
  idle_deadline = 0;
}

unfoldable pub apply_session_turn_started : String → ℕ → ℕ → Store → Store × Bool
unfolding is_running turn_started_row
apply_session_turn_started pubkey generation at s = (
  record s {
    sessions = update (is_running_generation pubkey generation) (turn_started_row at) s.sessions;
  },
  count (is_running_generation pubkey generation) s.sessions =? 1,
)

unfoldable pub turn_ended_row : ℕ → Session → Session
unfolding is_headless
turn_ended_row at r = record r {
  busy_seconds = r.busy_seconds + when_0 (ltb 0 r.turn_started_at) (at - r.turn_started_at);
  work_state = idle;
  turn_started_at = 0;
  state_changed_at = at;
  idle_since = when_0 (is_headless r.presentation_state) at;
  idle_deadline = when_0 (is_headless r.presentation_state) (idle_deadline_at at);
}

-- `UPDATE inbox SET state='echo_consumed' WHERE target_pubkey=?1 AND state='injected'`
unfoldable pub consume_echoes : String → Store → Store
unfolding is_injected
consume_echoes pubkey s = record s {
  inbox =
      update (λ i. i.target_pubkey == pubkey && is_injected i.state)
        (λ i. record i { state = echo_consumed }) s.inbox;
}

unfoldable pub apply_session_turn_ended : String → ℕ → ℕ → Store → Store × Bool
unfolding is_running is_working turn_ended_row consume_echoes
apply_session_turn_ended pubkey generation at s =
    let hit =
      λ (r : Session). is_running_generation pubkey generation r && is_working r.work_state in
    let changed = count hit s.sessions in
    let ended = record s { sessions = update hit (turn_ended_row at) s.sessions } in
    (if changed =? 1 then consume_echoes pubkey ended else ended, changed =? 1)

unfoldable pub disarm_row : Session → Session
disarm_row r = record r { idle_since = 0; idle_deadline = 0 }

unfoldable pub cancel_session_idle_deadline_for_delivery : String → ℕ → Store → Store × Bool
unfolding is_running disarm_row
cancel_session_idle_deadline_for_delivery pubkey generation s = (
  record s { sessions = update (is_running_generation pubkey generation) disarm_row s.sessions },
  count (is_running_generation pubkey generation) s.sessions =? 1,
)
