-- ===== src/Relay.antt =====
-- The read model that relay events build (src/state/). Each table stands for itself: no operation
-- but the pruner, in Store/Retention, writes two of them, except where a record holds both.
pub mod Channels
pub mod Events
pub mod Members
pub mod Attempts
pub mod Messages
pub mod Statuses
pub mod Reactions
use tenex_edge.Base.{ℕ, String}

-- A row of `relay_channels`; `parent` is empty on a top-level channel.
pub record Channel : Type 0 where
  pub channel_h : String
  pub name : String
  pub about : String
  pub parent : String
  pub created_at : ℕ
  pub updated_at : ℕ

-- A row of `channel_resolution_intents`: a name that waits for its channel.
pub record ResolutionIntent : Type 0 where
  pub parent : String
  pub name : String
  pub channel_h : String
  pub created_at : ℕ

-- A row of `relay_events`.
pub record RelayEvent : Type 0 where
  pub id : String
  pub kind : ℕ
  pub pubkey : String
  pub created_at : ℕ
  pub channel_h : String
  pub d_tag : String
  pub content : String
  pub tags_json : String
