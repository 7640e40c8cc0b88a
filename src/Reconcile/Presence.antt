-- ===== src/Reconcile/Presence.antt =====
-- src/reconcile/status/: which presence lease the daemon publishes for a session, and who may.
-- `Status` is the one of src/domain.rs, with the two fields of its `AgentRef` in place. A `BTreeSet` of
-- channels is the list of its elements in order, and the map of sessions is a function.
pub mod Ownership
pub mod Held
pub mod Fencing
pub mod Leases
use tenex_edge.Base.{
  ℕ, ◌/◌, String, Bool, ◌&&◌, ◌||◌, not, Option, none, some, List, [], ◌∷◌, ◌==◌, ◌=?◌, leb, max,
  saturating_add, if◌then◌else◌,
}
use tenex_edge.SessionState.{SessionState, offline, same_state}

pub data PublishReason : Type 0 where
  opened changed renewed : PublishReason

unfoldable pub as_str : PublishReason → String
as_str opened = "opened"
as_str changed = "changed"
as_str renewed = "renewed"

pub record Status : Type 0 where
  pub pubkey : String
  pub slug : String
  pub channels : List String
  pub host : String
  pub title : String
  pub activity : String
  pub state : SessionState
  pub state_since : ℕ
  pub rel_cwd : String
  pub expires_at : Option ℕ
  pub dispatch_event : Option String

pub data StatusEffect : Type 0 where
  publish : Status → PublishReason → StatusEffect
  expire : Status → StatusEffect

pub record PresenceProjection : Type 0 where
  pub channels : List String
  pub state : SessionState
  pub state_since : ℕ
  pub title : String

pub record PresenceSnapshot : Type 0 where
  pub host : String
  pub slug : String
  pub rel_cwd : String
  pub dispatch_event : Option String
  pub projection : PresenceProjection

pub record PublishedPresence : Type 0 where
  pub generation : ℕ
  pub snapshot : PresenceSnapshot
  pub live : Bool
  pub renewal_arm : ℕ

pub record StatusReconciler : Type 0 where
  pub ttl_secs : ℕ
  pub renewal_secs : ℕ
  pub sessions : String → Option PublishedPresence
  pub revision : ℕ

pub record StatusCommand : Type 0 where
  pub pubkey : String
  pub channels : List String
  pub title : String
  pub state : SessionState
  pub state_since : ℕ
  pub host : String
  pub slug : String
  pub rel_cwd : String
  pub dispatch_event : Option String

pub record StatusOutcome : Type 0 where
  pub effects : List StatusEffect
  pub revision : ℕ
  pub pubkey : Option String

abbrev pub presence_lease_renewal_secs : ℕ
presence_lease_renewal_secs = 30

-- `StatusReconciler::new`
unfoldable pub new : ℕ → ℕ → StatusReconciler
new ttl_secs renewal_secs = record {
  ttl_secs = max ttl_secs 1;
  renewal_secs = max renewal_secs 1;
  sessions = λ pubkey. none;
  revision = 0;
}

unfoldable pub for_ttl : ℕ → StatusReconciler
unfolding new
for_ttl ttl_secs = new ttl_secs presence_lease_renewal_secs

unfoldable pub command_of : String → PublishedPresence → StatusCommand
command_of pubkey presence =
    let snapshot = presence.snapshot in
    record {
      pubkey = pubkey;
      channels = snapshot.projection.channels;
      title = snapshot.projection.title;
      state = if presence.live then snapshot.projection.state else offline;
      state_since = snapshot.projection.state_since;
      host = snapshot.host;
      slug = snapshot.slug;
      rel_cwd = snapshot.rel_cwd;
      dispatch_event = snapshot.dispatch_event;
    }

-- `src/reconcile/status/status_build.rs`
unfoldable pub to_status : StatusCommand → ℕ → ℕ → Bool → Status
unfolding same_state
to_status cmd ttl_secs now expiring =
    let ends = expiring || same_state cmd.state offline in
    record {
      pubkey = cmd.pubkey;
      slug = cmd.slug;
      channels = cmd.channels;
      host = cmd.host;
      title = cmd.title;
      activity = "";
      state = if expiring then offline else cmd.state;
      state_since = if ends then now else cmd.state_since;
      rel_cwd = cmd.rel_cwd;
      expires_at = some (if ends then now else saturating_add now ttl_secs);
      dispatch_event = cmd.dispatch_event;
    }

-- The derived equality of `StatusCommand`.
abbrev pub same_texts : List String → List String → Bool
same_texts [] [] = Bool.true
same_texts (a ∷ xs) (b ∷ ys) = a == b && same_texts xs ys
same_texts _ _ = Bool.false

abbrev pub same_option : Option String → Option String → Bool
same_option none none = Bool.true
same_option (some a) (some b) = a == b
same_option _ _ = Bool.false

unfoldable pub same_command : StatusCommand → StatusCommand → Bool
unfolding same_state
same_command a b =
    a.pubkey == b.pubkey
    && same_texts a.channels b.channels
    && a.title == b.title
    && same_state a.state b.state
    && a.state_since =? b.state_since
    && a.host == b.host
    && a.slug == b.slug
    && a.rel_cwd == b.rel_cwd
    && same_option a.dispatch_event b.dispatch_event
