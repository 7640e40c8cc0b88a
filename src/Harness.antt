-- ===== src/Harness.antt =====
-- src/session.rs: the harness vocabulary, and the room that a newly born session joins.
pub mod Names
use tenex_edge.Base.{String, Bool, Option, none, some, ◌==◌, if◌then◌else◌}

pub data Harness : Type 0 where
  claude_code codex opencode grok goose hermes unknown : Harness

-- `Harness::as_str`
unfoldable pub as_str : Harness → String
as_str claude_code = "claude-code"
as_str codex = "codex"
as_str opencode = "opencode"
as_str grok = "grok"
as_str goose = "goose"
as_str hermes = "hermes"
as_str unknown = "unknown"

-- `Harness::from_str`: total, what is not a name is `unknown`.
unfoldable pub from_str : String → Harness
from_str s =
    if s == "claude-code"
    then claude_code
    else if s == "codex"
    then codex
    else if s == "opencode"
    then opencode
    else if s == "grok"
    then grok
    else if s == "goose"
    then goose
    else if s == "hermes"
    then hermes
    else unknown

-- `Harness::agent_slug`
unfoldable pub agent_slug : Harness → String
agent_slug claude_code = "claude"
agent_slug codex = "codex"
agent_slug opencode = "opencode"
agent_slug grok = "grok"
agent_slug goose = "goose"
agent_slug hermes = "hermes"
agent_slug unknown = "unknown"

-- `harness == Harness::Unknown`
unfoldable pub is_unknown : Harness → Bool
is_unknown unknown = Bool.true
is_unknown _ = Bool.false

pub data RoomDecision : Type 0 where
  mint : String → RoomDecision
  use_existing : String → RoomDecision

unfoldable pub decide_session_room : Option String → String → Bool → RoomDecision
decide_session_room none work_root per_session_rooms =
    if per_session_rooms then mint work_root else use_existing work_root
decide_session_room (some group) work_root per_session_rooms =
    if group == ""
    then (if per_session_rooms then mint work_root else use_existing work_root)
    else use_existing group
