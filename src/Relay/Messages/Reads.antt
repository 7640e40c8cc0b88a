-- ===== src/Relay/Messages/Reads.antt =====
-- The reads of src/state/messages.rs.
use tenex_edge.Base.{
  ℕ, String, Bool, false, ◌&&◌, ◌||◌, Option, none, some, List, [], ◌∷◌, ◌==◌, ◌=?◌, ltb, leb,
  if◌then◌else◌, text_lt, text_le, take,
}
use Prim.Native.String.{len}
use tenex_edge.Table.{find, exists, select}
use tenex_edge.Table.Order.{sort_by}
use tenex_edge.Store.Result.{Result, ok, err, ambiguous_prefix}
use tenex_edge.Relay.Messages.{
  Message, RecipientRow, MessageRecipient, Messages, opt_text, message_is,
}

-- `row_to_message`
unfoldable pub row_to_message : Message → Message
row_to_message m = record m {
  native_event_id = opt_text m.native_event_id;
  error = opt_text m.error;
}

abbrev pub read_each : List Message → List Message
unfolding row_to_message
read_each [] = []
read_each (m ∷ t) = row_to_message m ∷ read_each t

unfoldable pub get_message : String → Messages → Option Message
unfolding row_to_message
get_message message_id m = elim (find (message_is message_id) m.rows) [
  | none ↦ none
  | some r ↦ some (row_to_message r)
]

-- `ORDER BY created_at ASC, message_id ASC`, and both descending.
abbrev pub oldest_first : Message → Message → Bool
oldest_first a b =
    ltb a.created_at b.created_at
    || a.created_at =? b.created_at && text_le a.message_id b.message_id

abbrev pub newest_first : Message → Message → Bool
newest_first a b =
    ltb b.created_at a.created_at
    || a.created_at =? b.created_at && text_le b.message_id a.message_id

-- `glob` is SQLite's `x GLOB prefix || '*'`, which no missing id passes.
abbrev pub has_prefix : (String → String → Bool) → String → Message → Bool
has_prefix glob prefix m =
    glob prefix m.message_id || (elim m.native_event_id [ none ↦ false | some id ↦ glob prefix id ])

abbrev pub at_most_one : List Message → Result (Option Message)
at_most_one [] = ok none
at_most_one (m ∷ []) = ok (some m)
at_most_one (m ∷ m2 ∷ _) = err ambiguous_prefix

unfoldable pub get_message_by_prefix :
    (String → String → Bool) → String → Messages → Result (Option Message)
unfolding get_message
get_message_by_prefix glob prefix m =
    if leb 64 (len prefix)
    then ok (get_message prefix m)
    else at_most_one
        (read_each (take 2 (sort_by newest_first (select (has_prefix glob prefix) m.rows))))

unfoldable pub chat_messages_for_channel : String → ℕ → ℕ → Messages → List Message
chat_messages_for_channel channel_h since limit m = read_each (
    take limit (
      sort_by oldest_first
        (select (λ r. r.channel_h == channel_h && ltb since r.created_at) m.rows)))

unfoldable pub recent_chat_messages_for_channel : String → ℕ → ℕ → Messages → List Message
recent_chat_messages_for_channel channel_h since limit m = read_each (
    take limit (
      sort_by newest_first
        (select (λ r. r.channel_h == channel_h && ltb since r.created_at) m.rows)))

-- Behind a cursor of a time and an id.
abbrev pub is_after : ℕ → String → Message → Bool
is_after after_created_at after_id m =
    ltb after_created_at m.created_at
    || m.created_at =? after_created_at && text_lt after_id m.message_id

unfoldable pub chat_messages_for_channel_after : String → ℕ → String → ℕ → Messages → List Message
chat_messages_for_channel_after channel_h after_created_at after_id limit m = read_each (
    take limit (
      sort_by oldest_first
        (select (λ r. r.channel_h == channel_h && is_after after_created_at after_id r) m.rows)))

unfoldable pub recent_chat_messages : ℕ → ℕ → Messages → List Message
recent_chat_messages since limit m =
    read_each (take limit (sort_by newest_first (select (λ r. leb since r.created_at) m.rows)))

unfoldable pub pubkey_has_outbound_message_since : String → ℕ → Messages → Bool
pubkey_has_outbound_message_since pubkey since m =
    exists
      (λ r.
        r.author_pubkey == pubkey
        && r.direction == "outbound"
        && r.sync_state == "accepted"
        && leb since r.created_at)
      m.rows

-- `row_to_recipient`
unfoldable pub row_to_recipient : RecipientRow → MessageRecipient
row_to_recipient r = record {
  message_id = r.message_id;
  recipient_pubkey = r.recipient_pubkey;
  delivered_at = if ltb 0 r.delivered_at then some r.delivered_at else none;
}

abbrev pub read_recipients : List RecipientRow → List MessageRecipient
unfolding row_to_recipient
read_recipients [] = []
read_recipients (r ∷ t) = row_to_recipient r ∷ read_recipients t

unfoldable pub message_recipients : String → Messages → List MessageRecipient
message_recipients message_id m = read_recipients (
    sort_by (λ a b. text_le a.recipient_pubkey b.recipient_pubkey)
      (select (λ r. r.message_id == message_id) m.recipients))
