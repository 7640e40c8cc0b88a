-- ===== src/Tests/Data.antt =====
-- Concrete sessions, messages and stores.
use tenex_edge.Base.{◌≡◌, refl, none, some, [], ◌∷◌}
use tenex_edge.Session.{
  Session, headless, unavailable, running, stopping, idle, idle_evicted, RecoveryState,
}
use tenex_edge.Store.{Store, empty}
use tenex_edge.Store.Sessions.{RegisterSession, AdmittedRuntimeFacts, new_session}

abbrev pub registration : RegisterSession
registration = record {
  pubkey = "alice";
  observed_harness = "claude-code";
  agent_slug = "claude";
  channel_h = "room";
  child_pid = none;
  now = 100;
}

abbrev pub launch : AdmittedRuntimeFacts
launch = record {
  observed_harness = "claude-code";
  claimed_harness = "";
  bundle = "default";
  transport = "pty";
  endpoint_provenance = "launch";
}

-- The first incarnation of `registration`.
abbrev pub fresh : Session
fresh = record {
  pubkey = "alice";
  runtime_generation = 1;
  agent_slug = "claude";
  channel_h = "room";
  work_root = "";
  readiness_parent = "";
  observed_harness = "claude-code";
  claimed_harness = "";
  admitted_bundle = "default";
  admitted_transport = "pty";
  endpoint_provenance = "launch";
  child_pid = none;
  runtime_state = running;
  presentation_state = unavailable;
  work_state = idle;
  recovery_state = RecoveryState.pending;
  lifecycle_epoch = 1;
  attachment_epoch = 0;
  idle_since = 0;
  idle_deadline = 0;
  stopped_at = 0;
  stop_reason = none;
  turn_count = 0;
  busy_seconds = 0;
  created_at = 100;
  last_seen = 100;
  turn_started_at = 0;
  seen_cursor = 0;
  title = "";
  state_changed_at = 100;
}

fresh-new_session : fresh ≡ new_session registration launch 1
unfolding new_session
fresh-new_session = refl

-- Headless and idle since 100, with the deadline 700.
abbrev pub resting : Session
resting = record fresh {
  presentation_state = headless;
  attachment_epoch = 3;
  idle_since = 100;
  idle_deadline = 700;
}

-- The first phase of its eviction is done, under the lifecycle epoch 2.
abbrev pub evicting : Session
evicting = record resting {
  runtime_state = stopping;
  lifecycle_epoch = 2;
  idle_since = 0;
  idle_deadline = 0;
  stopped_at = 800;
  stop_reason = some idle_evicted;
  state_changed_at = 800;
}

abbrev pub revoked : Session
revoked = record fresh { recovery_state = RecoveryState.revoked }

abbrev pub with_session : Session → Store
with_session row = record empty { sessions = row ∷ [] }
