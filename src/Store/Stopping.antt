-- ===== src/Store/Stopping.antt =====
-- src/state/sessions.rs, second half: what is observed of a running incarnation, and its stop.
use tenex_edge.Base.{
  ℕ, ◌+◌, ◌-◌, String, Bool, false, ◌&&◌, not, Option, none, some, List, ◌==◌, ◌=?◌, ltb, leb, max,
  saturating_add, text_le, if◌then◌else◌,
}
use tenex_edge.Session.{
  Session, StopReason, stopped, unavailable, idle, attached_clean_exit, is_running, is_stopping,
  is_working, is_revoked,
}
use tenex_edge.Table.{find, select, update, count}
use tenex_edge.Table.Order.{sort_by}
use tenex_edge.Store.{Store, session_is}
use tenex_edge.Store.Sessions.{get_session}
use tenex_edge.Store.Standing.{retain_in_transaction}

-- `session_lifecycle::STOPPED_STANDING_RETENTION_SECS`
abbrev pub stopped_standing_retention_secs : ℕ
stopped_standing_retention_secs = 3600

unfoldable pub record_claimed_harness : String → String → Store → Store
record_claimed_harness pubkey claimed s = if claimed == "" then s else record s {
  sessions = update (session_is pubkey) (λ r. record r { claimed_harness = claimed }) s.sessions;
}

-- `ORDER BY created_at DESC`, and `ORDER BY pubkey`
unfoldable pub newest_order : Session → Session → Bool
newest_order a b = leb b.created_at a.created_at

unfoldable pub list_running_sessions : Store → List Session
unfolding is_running newest_order
list_running_sessions s = sort_by newest_order (select (λ r. is_running r.runtime_state) s.sessions)

unfoldable pub pubkey_order : Session → Session → Bool
pubkey_order a b = text_le a.pubkey b.pubkey

unfoldable pub list_stopping_sessions : Store → List Session
unfolding is_stopping pubkey_order
list_stopping_sessions s =
    sort_by pubkey_order (select (λ r. is_stopping r.runtime_state) s.sessions)

-- `touch_handle_for_pubkey`
unfoldable pub touch_handle_for_pubkey : String → ℕ → Store → Store
touch_handle_for_pubkey pubkey at s = record s {
  handle_leases =
      update (λ l. l.live && l.pubkey == pubkey) (λ l. record l { last_active_at = at })
        s.handle_leases;
}

unfoldable pub touch_session : String → ℕ → Store → Store
unfolding touch_handle_for_pubkey
touch_session pubkey last_seen s = touch_handle_for_pubkey pubkey last_seen (record s {
  sessions = update (session_is pubkey) (λ r. record r { last_seen = last_seen }) s.sessions;
})

-- `now` is the clock's value, `crate::util::now_secs()`
unfoldable pub bind_runtime_process : String → ℕ → Option ℕ → ℕ → Store → Store × Bool
unfolding is_running is_revoked
bind_runtime_process pubkey generation child_pid now s =
    let hit = λ (r : Session).
      session_is pubkey r
      && r.runtime_generation =? generation
      && is_running r.runtime_state
      && not (is_revoked r.recovery_state) in
    (
      record s {
        sessions = update hit (λ r. record r { child_pid = child_pid; last_seen = now }) s.sessions;
      },
      ltb 0 (count hit s.sessions),
    )

-- `CASE WHEN work_state='working' AND turn_started_at>0 THEN MAX(0, ?-turn_started_at) ELSE 0 END`:
-- the subtraction of SQL is signed, and `MAX(0, …)` stops it at 0 as `-` does
unfoldable pub open_turn_seconds : ℕ → Session → ℕ
unfolding is_working
open_turn_seconds at r =
    if is_working r.work_state && ltb 0 r.turn_started_at then at - r.turn_started_at else 0

unfoldable pub stop_row : StopReason → ℕ → Session → Session
unfolding open_turn_seconds
stop_row reason stopped_at r = record r {
  runtime_state = stopped;
  presentation_state = unavailable;
  work_state = idle;
  lifecycle_epoch = r.lifecycle_epoch + 1;
  idle_since = 0;
  idle_deadline = 0;
  busy_seconds = r.busy_seconds + open_turn_seconds stopped_at r;
  stopped_at = stopped_at;
  stop_reason = some reason;
  turn_started_at = 0;
  state_changed_at = stopped_at;
}

-- `mark_handle_stopped`; `COALESCE((SELECT last_seen …), 0)`
abbrev pub last_seen_or_0 : Option Session → ℕ
last_seen_or_0 none = 0
last_seen_or_0 (some r) = r.last_seen

unfoldable pub mark_handle_stopped : String → Store → Store
mark_handle_stopped pubkey s = record s {
  handle_leases =
      update (λ l. l.pubkey == pubkey)
        (λ l. record l {
          live = false;
          last_active_at =
              max l.last_active_at (last_seen_or_0 (find (session_is pubkey) s.sessions));
        })
        s.handle_leases;
}

-- A clean exit and a revocation leave no retention.
unfoldable pub retain_until_of : StopReason → ℕ → ℕ
retain_until_of attached_clean_exit stopped_at = stopped_at
retain_until_of StopReason.revoked stopped_at = stopped_at
retain_until_of _ stopped_at = saturating_add stopped_at stopped_standing_retention_secs

abbrev pub is_running_generation : String → ℕ → Session → Bool
is_running_generation pubkey generation r =
    session_is pubkey r && r.runtime_generation =? generation && is_running r.runtime_state

-- `SELECT lifecycle_epoch FROM sessions WHERE pubkey=?1`
abbrev pub epoch_or_0 : Option Session → ℕ
epoch_or_0 none = 0
epoch_or_0 (some r) = r.lifecycle_epoch

-- The statements that follow where the row was there.
unfoldable pub after_stop : String → StopReason → ℕ → Store → Store
unfolding mark_handle_stopped retain_until_of retain_in_transaction
after_stop pubkey reason stopped_at s =
    retain_in_transaction pubkey (epoch_or_0 (find (session_is pubkey) s.sessions))
      (retain_until_of reason stopped_at) stopped_at (mark_handle_stopped pubkey s)

unfoldable pub mark_runtime_stopped_if_generation :
    String → ℕ → StopReason → ℕ → Store → Store × Bool
unfolding is_running stop_row after_stop
mark_runtime_stopped_if_generation pubkey generation reason stopped_at s =
    let hit = is_running_generation pubkey generation in
    let changed = count hit s.sessions in
    let stopped_rows = record s { sessions = update hit (stop_row reason stopped_at) s.sessions } in
    (
      if ltb 0 changed then after_stop pubkey reason stopped_at stopped_rows else stopped_rows,
      changed =? 1,
    )

unfoldable pub mark_runtime_stopped : String → StopReason → ℕ → Store → Store × Bool
unfolding get_session mark_runtime_stopped_if_generation
mark_runtime_stopped pubkey reason stopped_at s = elim (get_session pubkey s) [
  | none ↦ (s, false)
  | some session ↦
      mark_runtime_stopped_if_generation pubkey session.runtime_generation reason stopped_at s
]
