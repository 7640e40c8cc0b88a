-- ===== src/Relay/Messages.antt =====
-- src/state/messages.rs: the messages of a channel as readers see them, and to whom they went. A
-- local send and its echo from the relay write the same row.
pub mod Reads
pub mod Kept
use tenex_edge.Base.{
  ℕ, String, Bool, ◌&&◌, Option, none, some, List, [], ◌∷◌, ◌==◌, ◌=?◌, max, if◌then◌else◌, trim,
  or_else,
}
use tenex_edge.Table.{insert_or_ignore, upsert}
use tenex_edge.Relay.{RelayEvent}
use tenex_edge.Store.Result.{Result, ok, err, empty_message_id}

-- A row of `messages`.
pub record Message : Type 0 where
  pub message_id : String
  pub thread_id : String
  pub channel_h : String
  pub author_pubkey : String
  pub body : String
  pub created_at : ℕ
  pub direction : String
  pub sync_state : String
  pub native_event_id : Option String
  pub error : Option String

pub record RecordMessage : Type 0 where
  pub message_id : String
  pub thread_id : String
  pub channel_h : String
  pub author_pubkey : String
  pub body : String
  pub created_at : ℕ
  pub direction : String
  pub sync_state : String
  pub native_event_id : Option String
  pub error : Option String

-- A row of `message_recipients`, in which 0 stands for no delivery, and what a reader gets for it.
pub record RecipientRow : Type 0 where
  pub message_id : String
  pub recipient_pubkey : String
  pub delivered_at : ℕ

pub record MessageRecipient : Type 0 where
  pub message_id : String
  pub recipient_pubkey : String
  pub delivered_at : Option ℕ

pub record Messages : Type 0 where
  pub rows : List Message
  pub recipients : List RecipientRow

-- `opt_text`, and `NULLIF(?, '')` of an optional text.
unfoldable pub opt_text : Option String → Option String
opt_text none = none
opt_text (some v) = if v == "" then none else some v

abbrev pub message_is : String → Message → Bool
message_is message_id m = m.message_id == message_id

abbrev pub recipient_is : String → String → RecipientRow → Bool
recipient_is message_id recipient_pubkey r =
    r.message_id == message_id && r.recipient_pubkey == recipient_pubkey

-- The columns that a relay event of kind 9 gives.
abbrev pub inbound_message : RelayEvent → Message
inbound_message e = record {
  message_id = e.id;
  thread_id = e.channel_h;
  channel_h = e.channel_h;
  author_pubkey = e.pubkey;
  body = e.content;
  created_at = e.created_at;
  direction = "inbound";
  sync_state = "accepted";
  native_event_id = some e.id;
  error = none;
}

unfoldable pub backfill_messages_from_relay_events : List RelayEvent → Messages → Messages
backfill_messages_from_relay_events [] m = m
backfill_messages_from_relay_events (e ∷ events) m = backfill_messages_from_relay_events events (
    if e.kind =? 9
    then record m { rows = insert_or_ignore (message_is e.id) (inbound_message e) m.rows }
    else m)

abbrev pub new_message : String → RecordMessage → Message
new_message message_id msg = record {
  message_id = message_id;
  thread_id = msg.thread_id;
  channel_h = msg.channel_h;
  author_pubkey = msg.author_pubkey;
  body = msg.body;
  created_at = msg.created_at;
  direction = msg.direction;
  sync_state = msg.sync_state;
  native_event_id = opt_text msg.native_event_id;
  error = opt_text msg.error;
}

-- `ON CONFLICT(message_id) DO UPDATE SET`
unfoldable pub renew_message : RecordMessage → Message → Message
renew_message msg m = record m {
  thread_id = msg.thread_id;
  channel_h = msg.channel_h;
  author_pubkey = msg.author_pubkey;
  body = msg.body;
  created_at = msg.created_at;
  direction = if m.direction == "outbound" then m.direction else msg.direction;
  sync_state = msg.sync_state;
  native_event_id = or_else (opt_text msg.native_event_id) m.native_event_id;
  error = opt_text msg.error;
}

unfoldable pub record_message : RecordMessage → Messages → Result (Messages × String)
unfolding renew_message
record_message msg m =
    let message_id = trim msg.message_id in
    if message_id == ""
    then err empty_message_id
    else ok (
        (
          record m {
            rows =
                upsert (message_is message_id) (new_message message_id msg) (renew_message msg)
                  m.rows;
          },
          message_id,
        ))

-- `delivered_at.unwrap_or(0)`
abbrev pub time_or_zero : Option ℕ → ℕ
time_or_zero none = 0
time_or_zero (some at) = at

unfoldable pub add_message_recipient : String → String → Option ℕ → Messages → Messages
add_message_recipient message_id recipient_pubkey delivered_at m = record m {
  recipients =
      upsert (recipient_is message_id recipient_pubkey)
        (record {
          message_id = message_id;
          recipient_pubkey = recipient_pubkey;
          delivered_at = time_or_zero delivered_at;
        })
        (λ r. record r { delivered_at = max r.delivered_at (time_or_zero delivered_at) })
        m.recipients;
}
