-- ===== src/Store.antt =====
-- src/state.rs: the local store. A table is the list of its rows (Table), a row is a record with the
-- source's fields, and an operation takes the store and returns the new one. The statements of an
-- operation run in one transaction, and an operation that fails leaves the store as it was.
-- `…_is` tests whether a row has a primary key (src/state/schema/ddl.rs).
pub mod Result
pub mod Sessions
pub mod Standing
pub mod Stopping
pub mod Routes
pub mod Lifecycle
pub mod Eviction
pub mod Recovery
pub mod Inbox
pub mod Delivery
pub mod WorkStart
pub mod Claims
pub mod Context
pub mod Coherence
pub mod Handles
pub mod Locators
pub mod McpActors
pub mod Retention
pub mod Step
use tenex_edge.Base.{ℕ, String, Bool, ◌&&◌, List, [], ◌==◌}
use tenex_edge.Session.{Session}

-- `session_channels`
pub record SessionRoute : Type 0 where
  pub pubkey : String
  pub channel_h : String
  pub granted_at : ℕ

pub data StandingState : Type 0 where
  member retained absent : StandingState

-- `session_standing`
pub record SessionStanding : Type 0 where
  pub pubkey : String
  pub channel_h : String
  pub state : StandingState
  pub retain_until : ℕ
  pub standing_epoch : ℕ
  pub session_lifecycle_epoch : ℕ
  pub updated_at : ℕ

-- `session_locators`
pub record SessionLocator : Type 0 where
  pub harness : String
  pub locator_kind : String
  pub locator_value : String
  pub pubkey : String
  pub runtime_generation : ℕ
  pub created_at : ℕ

-- `session_signers`
pub record SessionSigner : Type 0 where
  pub pubkey : String
  pub signer_salt : String

-- `handle_leases`; the column `live` holds 0 or 1
pub record HandleLease : Type 0 where
  pub handle : String
  pub pubkey : String
  pub agent_slug : String
  pub leased_at : ℕ
  pub last_active_at : ℕ
  pub live : Bool

-- The texts that the column `state` of `inbox` is written with.
pub data InboxState : Type 0 where
  pending delivered injected echo_consumed : InboxState

-- `inbox`
pub record InboxRow : Type 0 where
  pub event_id : String
  pub target_pubkey : String
  pub state : InboxState
  pub from_pubkey : String
  pub channel_h : String
  pub body : String
  pub created_at : ℕ
  pub delivered_at : ℕ

-- The texts that the column `state` of `event_claims` is written with.
pub data ClaimState : Type 0 where
  pending processing completed : ClaimState

-- `event_claims`
pub record EventClaim : Type 0 where
  pub event_id : String
  pub claim_key : String
  pub state : ClaimState
  pub from_pubkey : String
  pub channel_h : String
  pub body : String
  pub created_at : ℕ
  pub updated_at : ℕ

-- `mcp_actor_aliases`
pub record McpActorAlias : Type 0 where
  pub actor_key : String
  pub actor_kind : String
  pub pubkey : String
  pub created_at : ℕ
  pub last_seen : ℕ

pub record Store : Type 0 where
  pub sessions : List Session
  pub session_channels : List SessionRoute
  pub session_standing : List SessionStanding
  pub session_locators : List SessionLocator
  pub session_signers : List SessionSigner
  pub handle_leases : List HandleLease
  pub inbox : List InboxRow
  pub event_claims : List EventClaim
  pub mcp_actor_aliases : List McpActorAlias

-- The store that a new database opens with.
abbrev pub empty : Store
empty = record {
  sessions = [];
  session_channels = [];
  session_standing = [];
  session_locators = [];
  session_signers = [];
  handle_leases = [];
  inbox = [];
  event_claims = [];
  mcp_actor_aliases = [];
}

abbrev pub session_is : String → Session → Bool
session_is pubkey r = r.pubkey == pubkey

abbrev pub route_is : String → String → SessionRoute → Bool
route_is pubkey channel_h r = r.pubkey == pubkey && r.channel_h == channel_h

abbrev pub standing_is : String → String → SessionStanding → Bool
standing_is pubkey channel_h r = r.pubkey == pubkey && r.channel_h == channel_h

abbrev pub inbox_is : String → String → InboxRow → Bool
inbox_is event_id target_pubkey r = r.event_id == event_id && r.target_pubkey == target_pubkey

abbrev pub claim_is : String → String → EventClaim → Bool
claim_is event_id claim_key r = r.event_id == event_id && r.claim_key == claim_key

-- The comparisons `state = '…'` of the SQL text.
unfoldable pub is_member : StandingState → Bool
is_member member = Bool.true
is_member _ = Bool.false

unfoldable pub is_retained : StandingState → Bool
is_retained retained = Bool.true
is_retained _ = Bool.false

unfoldable pub is_absent : StandingState → Bool
is_absent absent = Bool.true
is_absent _ = Bool.false

unfoldable pub same_standing_state : StandingState → StandingState → Bool
same_standing_state member member = Bool.true
same_standing_state retained retained = Bool.true
same_standing_state absent absent = Bool.true
same_standing_state _ _ = Bool.false

unfoldable pub is_pending : InboxState → Bool
is_pending InboxState.pending = Bool.true
is_pending _ = Bool.false

unfoldable pub is_delivered : InboxState → Bool
is_delivered delivered = Bool.true
is_delivered _ = Bool.false

unfoldable pub is_injected : InboxState → Bool
is_injected injected = Bool.true
is_injected _ = Bool.false

unfoldable pub is_claim_pending : ClaimState → Bool
is_claim_pending ClaimState.pending = Bool.true
is_claim_pending _ = Bool.false

unfoldable pub is_claim_processing : ClaimState → Bool
is_claim_processing processing = Bool.true
is_claim_processing _ = Bool.false
