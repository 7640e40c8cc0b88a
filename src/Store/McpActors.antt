-- ===== src/Store/McpActors.antt =====
-- src/state/mcp_actors.rs: sessions that a remote caller acts as, without a terminal.
pub mod Inversion
use tenex_edge.Base.{
  ℕ, ◌+◌, String, Bool, ◌&&◌, ◌||◌, not, Option, none, some, List, [], ◌∷◌, ◌++◌, ◌==◌,
  if◌then◌else◌,
}
use tenex_edge.Session.{
  Session, RecoveryState, running, headless, idle, is_stopping, is_stopped, is_revoked,
}
use tenex_edge.Table.{find, exists, update}
use tenex_edge.Store.{Store, McpActorAlias, session_is}
use tenex_edge.Store.Result.{
  Result, ok, err, ◌>>=◌, ◌>>◌, fail_if, unknown_pubkey, constraint_failed, actor_changed,
  actor_stopping, recovery_revoked,
}
use tenex_edge.Store.Lifecycle.{idle_deadline_at, when_0}
use tenex_edge.Store.Routes.{grant_session_route}
use tenex_edge.Store.Locators.{require_session}

abbrev pub actor_is : String → McpActorAlias → Bool
actor_is actor_key a = a.actor_key == actor_key

unfoldable pub is_mcp_actor_pubkey : String → Store → Bool
is_mcp_actor_pubkey pubkey s = exists (λ a. a.pubkey == pubkey) s.mcp_actor_aliases

abbrev pub pubkey_of : Option McpActorAlias → Option String
pubkey_of none = none
pubkey_of (some a) = some a.pubkey

unfoldable pub mcp_actor_pubkey : String → Store → Option String
mcp_actor_pubkey actor_key s = pubkey_of (find (actor_is actor_key) s.mcp_actor_aliases)

abbrev pub new_alias : String → String → String → ℕ → McpActorAlias
new_alias actor_key actor_kind pubkey now = record {
  actor_key = actor_key;
  actor_kind = actor_kind;
  pubkey = pubkey;
  created_at = now;
  last_seen = now;
}

-- `stored == (actor_kind, pubkey)`
abbrev pub same_actor : String → String → Option McpActorAlias → Bool
same_actor actor_kind pubkey none = Bool.false
same_actor actor_kind pubkey (some a) = a.actor_kind == actor_kind && a.pubkey == pubkey

abbrev pub touch_actor : String → ℕ → List McpActorAlias → List McpActorAlias
touch_actor actor_key now t = update (actor_is actor_key) (λ a. record a { last_seen = now }) t

-- `bind_mcp_actor`. Its two statements do not stand in one transaction, so where the identity has
-- changed the first one's write to `last_seen` stays: the store is returned beside the answer.
unfoldable pub bind_mcp_actor : String → String → String → ℕ → Store → Store × Result (Unit {0})
bind_mcp_actor actor_key actor_kind pubkey now s =
    let known = exists (actor_is actor_key) s.mcp_actor_aliases in
    let touched = record s { mcp_actor_aliases = touch_actor actor_key now s.mcp_actor_aliases } in
    let added = record s {
      mcp_actor_aliases = s.mcp_actor_aliases ++ new_alias actor_key actor_kind pubkey now ∷ [];
    } in
    if not (actor_kind == "openai" || actor_kind == "grok")
    then (s, err constraint_failed)
    else if known
    then (
      touched,
      fail_if
          (not (same_actor actor_kind pubkey (find (actor_is actor_key) touched.mcp_actor_aliases)))
          actor_changed,
    )
    else if exists (λ a. a.pubkey == pubkey) s.mcp_actor_aliases
    then (s, err constraint_failed)
    else (added, ok tt)

-- The row that `reserve_mcp_actor_session` inserts; the other columns take the schema's defaults.
unfoldable pub actor_session : String → String → String → ℕ → Session
actor_session pubkey agent_slug channel now = record {
  pubkey = pubkey;
  runtime_generation = 1;
  agent_slug = agent_slug;
  channel_h = channel;
  work_root = channel;
  readiness_parent = "";
  observed_harness = "";
  claimed_harness = "";
  admitted_bundle = "";
  admitted_transport = "";
  endpoint_provenance = "";
  child_pid = none;
  runtime_state = running;
  presentation_state = headless;
  work_state = idle;
  recovery_state = RecoveryState.ready;
  lifecycle_epoch = 1;
  attachment_epoch = 0;
  idle_since = now;
  idle_deadline = idle_deadline_at now;
  stopped_at = 0;
  stop_reason = none;
  turn_count = 0;
  busy_seconds = 0;
  created_at = now;
  last_seen = now;
  turn_started_at = 0;
  seen_cursor = 0;
  title = "";
  state_changed_at = 0;
}

unfoldable pub reserve_mcp_actor_session : String → String → String → ℕ → Store → Result Store
unfolding actor_session grant_session_route
reserve_mcp_actor_session pubkey agent_slug channel now s = do
  fail_if (exists (session_is pubkey) s.sessions) constraint_failed
  ok (
      grant_session_route pubkey channel now
        (record s { sessions = s.sessions ++ actor_session pubkey agent_slug channel now ∷ [] }))

unfoldable pub activated_row : ℕ → Session → Session
unfolding is_stopped
activated_row now r = record r {
  runtime_generation = r.runtime_generation + when_0 (is_stopped r.runtime_state) 1;
  runtime_state = running;
  presentation_state = headless;
  work_state = idle;
  lifecycle_epoch = r.lifecycle_epoch + when_0 (is_stopped r.runtime_state) 1;
  idle_since = now;
  idle_deadline = idle_deadline_at now;
  stopped_at = 0;
  stop_reason = none;
  last_seen = now;
  state_changed_at = now;
}

-- The three `UPDATE` statements.
unfoldable pub write_activation : String → String → ℕ → Store → Store
unfolding activated_row
write_activation actor_key pubkey now s = record s {
  sessions = update (session_is pubkey) (activated_row now) s.sessions;
  mcp_actor_aliases = touch_actor actor_key now s.mcp_actor_aliases;
  handle_leases =
      update (λ l. l.pubkey == pubkey) (λ l. record l { live = Bool.true; last_active_at = now })
        s.handle_leases;
}

unfoldable pub activate_mcp_actor : String → String → ℕ → Store → Result Store
unfolding is_stopping is_revoked
activate_mcp_actor actor_key pubkey now s = do
  r ← require_session unknown_pubkey (find (session_is pubkey) s.sessions)
  fail_if (is_stopping r.runtime_state) actor_stopping
  fail_if (is_revoked r.recovery_state) recovery_revoked
  ok (write_activation actor_key pubkey now s)
