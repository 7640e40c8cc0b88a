-- ===== src/SessionState.antt =====
-- src/session_state.rs: the four product states of a session, as every surface renders them.
pub mod Rendering
use tenex_edge.Base.{
  ℕ, ◌+◌, String, Bool, true, false, ◌&&◌, not, Option, none, some, ltb, max, saturating_add, ◌==◌,
  if◌then◌else◌,
}

pub data SessionState : Type 0 where
  working idle suspended offline : SessionState

-- `SessionState::classify`
unfoldable pub classify : Bool → Bool → Bool → SessionState
classify live is_busy automatic_delivery =
    if not live
    then offline
    else if is_busy
    then working
    else if automatic_delivery
    then idle
    else suspended

-- `SessionState::observed`
unfoldable pub observed : SessionState → Bool → SessionState
observed s live = if live then s else offline

unfoldable pub as_str : SessionState → String
as_str working = "working"
as_str idle = "idle"
as_str suspended = "suspended"
as_str offline = "offline"

unfoldable pub parse : String → Option SessionState
parse value =
    if value == "working"
    then some working
    else if value == "idle"
    then some idle
    else if value == "suspended"
    then some suspended
    else if value == "offline"
    then some offline
    else none

unfoldable pub is_working : SessionState → Bool
is_working working = true
is_working _ = false

unfoldable pub is_live : SessionState → Bool
is_live offline = false
is_live _ = true

-- The session goes offline on the first second after the lease expires.
unfoldable pub semantic_change_at : SessionState → ℕ → ℕ → ℕ → ℕ
unfolding is_live
semantic_change_at state updated_at expiration now =
    if is_live state && ltb expiration now
    then max updated_at (saturating_add expiration 1)
    else updated_at

-- The derived equality.
unfoldable pub same_state : SessionState → SessionState → Bool
same_state working working = true
same_state idle idle = true
same_state suspended suspended = true
same_state offline offline = true
same_state _ _ = false
