-- ===== src/Store/Sessions.antt =====
-- src/state/sessions.rs: reserving the sole running incarnation of a session, and stopping it.
pub mod Incarnation
use tenex_edge.Base.{
  ℕ, ◌+◌, String, Bool, true, ◌||◌, not, Option, none, some, ◌==◌, ◌=?◌, u64_max, trim,
  if◌then◌else◌,
}
use tenex_edge.Harness
use tenex_edge.Session.{Session, RecoveryState, running, unavailable, idle, is_stopped, is_revoked}
use tenex_edge.Table.{find, update, insert_or_ignore, upsert}
use tenex_edge.Store.{Store, SessionRoute, session_is, route_is, standing_is}
use tenex_edge.Store.Standing.{absent_standing}
use tenex_edge.Store.Result.{
  Result, ok, err, ◌>>=◌, ◌>>◌, fail_if, empty_pubkey, missing_observed_harness,
  unknown_observed_harness, mismatched_observed_harness, unknown_transport, launch_forbids_claimed,
  launch_requires_bundle, launch_requires_transport, hook_requires_claimed, unknown_claimed_harness,
  hook_forbids_bundle, unknown_provenance, active_runtime, recovery_revoked, generation_exhausted,
}

pub record RegisterSession : Type 0 where
  pub pubkey : String
  pub observed_harness : String
  pub agent_slug : String
  pub channel_h : String
  pub child_pid : Option ℕ
  pub now : ℕ

pub record AdmittedRuntimeFacts : Type 0 where
  pub observed_harness : String
  pub claimed_harness : String
  pub bundle : String
  pub transport : String
  pub endpoint_provenance : String

-- `Harness::from_str(s)` is `Unknown`, or does not print as `s` again
unfoldable pub is_unknown_harness : String → Bool
unfolding Harness.is_unknown
is_unknown_harness s =
    Harness.is_unknown (Harness.from_str s) || not (Harness.as_str (Harness.from_str s) == s)

unfoldable pub launch_facts : AdmittedRuntimeFacts → Result (Unit {0})
launch_facts facts = do
  fail_if (not (facts.claimed_harness == "")) launch_forbids_claimed
  fail_if (trim facts.bundle == "") launch_requires_bundle
  fail_if (facts.transport == "") launch_requires_transport

unfoldable pub hook_facts : AdmittedRuntimeFacts → Result (Unit {0})
unfolding is_unknown_harness
hook_facts facts = do
  let claimed = trim facts.claimed_harness
  fail_if (claimed == "") hook_requires_claimed
  fail_if (is_unknown_harness claimed) unknown_claimed_harness
  fail_if (not (facts.bundle == "")) hook_forbids_bundle

-- The `match` on `endpoint_provenance`.
unfoldable pub provenance_facts : AdmittedRuntimeFacts → Result (Unit {0})
unfolding launch_facts hook_facts
provenance_facts facts =
    if facts.endpoint_provenance == "launch"
    then launch_facts facts
    else if facts.endpoint_provenance == "hook"
    then hook_facts facts
    else err unknown_provenance

abbrev pub is_transport : String → Bool
is_transport t = t == "" || t == "pty" || t == "acp" || t == "app-server"

unfoldable pub validate_runtime_facts : RegisterSession → AdmittedRuntimeFacts → Result (Unit {0})
unfolding is_unknown_harness provenance_facts
validate_runtime_facts r facts = do
  let observed = trim facts.observed_harness
  fail_if (observed == "") missing_observed_harness
  fail_if (is_unknown_harness observed) unknown_observed_harness
  fail_if (not (r.observed_harness == observed)) mismatched_observed_harness
  fail_if (not (is_transport facts.transport)) unknown_transport
  provenance_facts facts

-- The guards on the previous incarnation, and the generation of the next one.
unfoldable pub next_generation : Option Session → Result ℕ
unfolding is_stopped is_revoked
next_generation none = ok 1
next_generation (some previous) = do
  fail_if (not (is_stopped previous.runtime_state)) active_runtime
  fail_if (is_revoked previous.recovery_state) recovery_revoked
  fail_if (previous.runtime_generation =? u64_max) generation_exhausted
  ok (previous.runtime_generation + 1)

-- The row that `INSERT INTO sessions` writes where the pubkey is new.
unfoldable pub new_session : RegisterSession → AdmittedRuntimeFacts → ℕ → Session
new_session r facts generation = record {
  pubkey = r.pubkey;
  runtime_generation = generation;
  agent_slug = r.agent_slug;
  channel_h = r.channel_h;
  work_root = "";
  readiness_parent = "";
  observed_harness = facts.observed_harness;
  claimed_harness = facts.claimed_harness;
  admitted_bundle = facts.bundle;
  admitted_transport = facts.transport;
  endpoint_provenance = facts.endpoint_provenance;
  child_pid = r.child_pid;
  runtime_state = running;
  presentation_state = unavailable;
  work_state = idle;
  recovery_state = RecoveryState.pending;
  lifecycle_epoch = 1;
  attachment_epoch = 0;
  idle_since = 0;
  idle_deadline = 0;
  stopped_at = 0;
  stop_reason = none;
  turn_count = 0;
  busy_seconds = 0;
  created_at = r.now;
  last_seen = r.now;
  turn_started_at = 0;
  seen_cursor = 0;
  title = "";
  state_changed_at = r.now;
}

-- The three-way `CASE` on `endpoint_provenance`.
abbrev pub admitted_fact : AdmittedRuntimeFacts → Session → String → String → String
admitted_fact facts old new_value old_value =
    if facts.endpoint_provenance == "launch"
    then new_value
    else if old.endpoint_provenance == "launch"
    then old_value
    else new_value

-- `ON CONFLICT(pubkey) DO UPDATE SET …`
unfoldable pub renew_session : RegisterSession → AdmittedRuntimeFacts → ℕ → Session → Session
renew_session r facts generation old = record old {
  runtime_generation = generation;
  agent_slug = r.agent_slug;
  channel_h = r.channel_h;
  observed_harness = admitted_fact facts old facts.observed_harness old.observed_harness;
  claimed_harness =
      if facts.claimed_harness == "" then old.claimed_harness else facts.claimed_harness;
  admitted_bundle = admitted_fact facts old facts.bundle old.admitted_bundle;
  admitted_transport = admitted_fact facts old facts.transport old.admitted_transport;
  endpoint_provenance = admitted_fact facts old facts.endpoint_provenance old.endpoint_provenance;
  child_pid = r.child_pid;
  runtime_state = running;
  presentation_state = unavailable;
  work_state = idle;
  lifecycle_epoch = old.lifecycle_epoch + 1;
  attachment_epoch = 0;
  idle_since = 0;
  idle_deadline = 0;
  stopped_at = 0;
  stop_reason = none;
  created_at = r.now;
  last_seen = r.now;
  turn_started_at = 0;
  state_changed_at = r.now;
}

abbrev pub new_route : RegisterSession → SessionRoute
new_route r = record { pubkey = r.pubkey; channel_h = r.channel_h; granted_at = r.now }

-- `grant_route_and_initialize_standing`; the `SELECT … FROM sessions` yields the new row
unfoldable pub grant_route_and_initialize_standing : RegisterSession → Store → Store
grant_route_and_initialize_standing r s = record s {
  session_channels =
      insert_or_ignore (route_is r.pubkey r.channel_h) (new_route r) s.session_channels;
  session_standing = elim (find (session_is r.pubkey) s.sessions) [
    | none ↦ s.session_standing
    | some row ↦
        insert_or_ignore (standing_is r.pubkey r.channel_h)
          (absent_standing r.pubkey r.channel_h row.lifecycle_epoch r.now) s.session_standing
  ];
}

-- `UPDATE handle_leases SET live=1, last_active_at=?2 WHERE pubkey=?1`
unfoldable pub revive_handle : String → ℕ → Store → Store
revive_handle pubkey now s = record s {
  handle_leases =
      update (λ l. l.pubkey == pubkey) (λ l. record l { live = true; last_active_at = now })
        s.handle_leases;
}

-- The three statements of the transaction.
unfoldable pub write_reservation : RegisterSession → AdmittedRuntimeFacts → ℕ → Store → Store
unfolding grant_route_and_initialize_standing revive_handle
write_reservation r facts generation s =
    let reserved = record s {
      sessions =
          upsert (session_is r.pubkey) (new_session r facts generation)
            (renew_session r facts generation) s.sessions;
    } in
    let routed =
      if trim r.channel_h == "" then reserved else grant_route_and_initialize_standing r reserved in
    revive_handle r.pubkey r.now routed

-- `reserve_session_with_facts`
unfoldable pub reserve_session_with_facts :
    RegisterSession → AdmittedRuntimeFacts → Store → Result (Store × ℕ)
reserve_session_with_facts r facts s = do
  fail_if (trim r.pubkey == "") empty_pubkey
  validate_runtime_facts r facts
  generation ← next_generation (find (session_is r.pubkey) s.sessions)
  ok (write_reservation r facts generation s, generation)

unfoldable pub get_session : String → Store → Option Session
get_session pubkey s = find (session_is pubkey) s.sessions
