-- ===== src/Session.antt =====
-- src/state/session_ty.rs: the persisted enums and the session row.
pub mod Enums
use tenex_edge.Base.{ℕ, String, Bool, true, false, ◌&&◌, Option, none, some, ◌==◌, if◌then◌else◌}

pub data RuntimeState : Type 0 where
  running stopping stopped : RuntimeState

pub data PresentationState : Type 0 where
  unavailable headed headless : PresentationState

pub data WorkState : Type 0 where
  idle working : WorkState

pub data RecoveryState : Type 0 where
  pending ready revoked : RecoveryState

pub data StopReason : Type 0 where
  unknown attached_clean_exit idle_evicted headless_exit crash operator_kill revoked superseded :
      StopReason

-- `is_…` are the comparisons `state = '…'` of the SQL text and `==` of the Rust code.
unfoldable pub is_running : RuntimeState → Bool
is_running RuntimeState.running = true
is_running _ = false

unfoldable pub is_stopping : RuntimeState → Bool
is_stopping RuntimeState.stopping = true
is_stopping _ = false

unfoldable pub is_stopped : RuntimeState → Bool
is_stopped RuntimeState.stopped = true
is_stopped _ = false

unfoldable pub is_unavailable : PresentationState → Bool
is_unavailable PresentationState.unavailable = true
is_unavailable _ = false

unfoldable pub is_headed : PresentationState → Bool
is_headed PresentationState.headed = true
is_headed _ = false

unfoldable pub is_headless : PresentationState → Bool
is_headless PresentationState.headless = true
is_headless _ = false

unfoldable pub is_idle : WorkState → Bool
is_idle WorkState.idle = true
is_idle _ = false

unfoldable pub is_working : WorkState → Bool
is_working WorkState.working = true
is_working _ = false

unfoldable pub is_pending : RecoveryState → Bool
is_pending RecoveryState.pending = true
is_pending _ = false

unfoldable pub is_ready : RecoveryState → Bool
is_ready RecoveryState.ready = true
is_ready _ = false

unfoldable pub is_revoked : RecoveryState → Bool
is_revoked RecoveryState.revoked = true
is_revoked _ = false

-- The macro `string_enum!` writes `as_str` and `parse` of each enum; `parse` fails on any other text.
unfoldable pub runtime_as_str : RuntimeState → String
runtime_as_str RuntimeState.running = "running"
runtime_as_str RuntimeState.stopping = "stopping"
runtime_as_str RuntimeState.stopped = "stopped"

unfoldable pub parse_runtime : String → Option RuntimeState
parse_runtime value =
    if value == "running"
    then some RuntimeState.running
    else if value == "stopping"
    then some RuntimeState.stopping
    else if value == "stopped"
    then some RuntimeState.stopped
    else none

unfoldable pub presentation_as_str : PresentationState → String
presentation_as_str PresentationState.unavailable = "unavailable"
presentation_as_str PresentationState.headed = "headed"
presentation_as_str PresentationState.headless = "headless"

unfoldable pub parse_presentation : String → Option PresentationState
parse_presentation value =
    if value == "unavailable"
    then some PresentationState.unavailable
    else if value == "headed"
    then some PresentationState.headed
    else if value == "headless"
    then some PresentationState.headless
    else none

unfoldable pub work_as_str : WorkState → String
work_as_str WorkState.idle = "idle"
work_as_str WorkState.working = "working"

unfoldable pub parse_work : String → Option WorkState
parse_work value =
    if value == "idle"
    then some WorkState.idle
    else if value == "working"
    then some WorkState.working
    else none

unfoldable pub recovery_as_str : RecoveryState → String
recovery_as_str RecoveryState.pending = "pending"
recovery_as_str RecoveryState.ready = "ready"
recovery_as_str RecoveryState.revoked = "revoked"

unfoldable pub parse_recovery : String → Option RecoveryState
parse_recovery value =
    if value == "pending"
    then some RecoveryState.pending
    else if value == "ready"
    then some RecoveryState.ready
    else if value == "revoked"
    then some RecoveryState.revoked
    else none

unfoldable pub reason_as_str : StopReason → String
reason_as_str StopReason.unknown = "unknown"
reason_as_str StopReason.attached_clean_exit = "attached_clean_exit"
reason_as_str StopReason.idle_evicted = "idle_evicted"
reason_as_str StopReason.headless_exit = "headless_exit"
reason_as_str StopReason.crash = "crash"
reason_as_str StopReason.operator_kill = "operator_kill"
reason_as_str StopReason.revoked = "revoked"
reason_as_str StopReason.superseded = "superseded"

unfoldable pub parse_reason : String → Option StopReason
parse_reason value =
    if value == "unknown"
    then some StopReason.unknown
    else if value == "attached_clean_exit"
    then some StopReason.attached_clean_exit
    else if value == "idle_evicted"
    then some StopReason.idle_evicted
    else if value == "headless_exit"
    then some StopReason.headless_exit
    else if value == "crash"
    then some StopReason.crash
    else if value == "operator_kill"
    then some StopReason.operator_kill
    else if value == "revoked"
    then some StopReason.revoked
    else if value == "superseded"
    then some StopReason.superseded
    else none

-- The row of the table `sessions`; `pubkey` is its primary key.
pub record Session : Type 0 where
  pub pubkey : String
  pub runtime_generation : ℕ
  pub agent_slug : String
  pub channel_h : String
  pub work_root : String
  pub readiness_parent : String
  pub observed_harness : String
  pub claimed_harness : String
  pub admitted_bundle : String
  pub admitted_transport : String
  pub endpoint_provenance : String
  pub child_pid : Option ℕ
  pub runtime_state : RuntimeState
  pub presentation_state : PresentationState
  pub work_state : WorkState
  pub recovery_state : RecoveryState
  pub lifecycle_epoch : ℕ
  pub attachment_epoch : ℕ
  pub idle_since : ℕ
  pub idle_deadline : ℕ
  pub stopped_at : ℕ
  pub stop_reason : Option StopReason
  pub turn_count : ℕ
  pub busy_seconds : ℕ
  pub created_at : ℕ
  pub last_seen : ℕ
  pub turn_started_at : ℕ
  pub seen_cursor : ℕ
  pub title : String
  pub state_changed_at : ℕ

-- `Session::is_running`, `Session::is_working` and `Session::can_fresh_relaunch_exact`
unfoldable pub session_is_running : Session → Bool
unfolding is_running
session_is_running s = is_running s.runtime_state

unfoldable pub session_is_working : Session → Bool
unfolding is_working
session_is_working s = is_working s.work_state

unfoldable pub can_fresh_relaunch_exact : Session → Bool
unfolding is_stopped is_pending
can_fresh_relaunch_exact s = is_stopped s.runtime_state && is_pending s.recovery_state
