-- ===== src/Tests/Readers.antt =====
-- The messages that readers see at concrete inputs.
use tenex_edge.Base.{String, refl, none, some, [], ◌∷◌, trim}
use tenex_edge.Table.{find, exists, update, upsert}
use tenex_edge.Relay.Messages.{
  Message, RecordMessage, RecipientRow, Messages, opt_text, message_is, recipient_is, new_message,
  record_message, renew_message, add_message_recipient,
}
use tenex_edge.Relay.Messages.Kept.{
  IsKept, IsDelivered, StillFound, MessageSteps, no_step, then_step, recorded, addressed,
  message_kept,
}

abbrev message_from : String → String → RecordMessage
message_from direction sync_state = record {
  message_id = "e1";
  thread_id = "room";
  channel_h = "room";
  author_pubkey = "alice";
  body = "hello";
  created_at = 10;
  direction = direction;
  sync_state = sync_state;
  native_event_id = some "e1";
  error = none;
}

abbrev sent : Message
sent = new_message "e1" (message_from "outbound" "pending")

abbrev edge : RecipientRow
edge = record { message_id = "e1"; recipient_pubkey = "bob"; delivered_at = 20 }

abbrev local_send : Messages
local_send = record { rows = sent ∷ []; recipients = edge ∷ [] }

-- The relay's echo, by which the message is accepted.
abbrev echoed : Messages
echoed = record { rows = record sent { sync_state = "accepted" } ∷ []; recipients = edge ∷ [] }

abbrev readdressed : Messages
readdressed = add_message_recipient "e1" "bob" none echoed

echo : MessageSteps local_send readdressed
unfolding record_message renew_message trim upsert exists update opt_text
echo =
    then_step (then_step no_step (recorded (message_from "inbound" "accepted") echoed "e1" refl))
      (addressed "e1" "bob" none)

message_kept_example :
    StillFound IsKept (some sent) (find (message_is "e1") readdressed.rows)
    × StillFound IsDelivered (some edge) (find (recipient_is "e1" "bob") readdressed.recipients)
unfolding find
message_kept_example = message_kept local_send readdressed "e1" "bob" echo
