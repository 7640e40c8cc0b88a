-- ===== src/Relay/Messages/Kept.antt =====
-- What no write to the messages takes back, whichever of a local send and its echo comes first.
use tenex_edge.Base.{
  Option-cases, none, ℕ, ◌≤◌, ◌≡◌, refl, inl, inr, ap, arith, String, Bool, false, ◌&&◌, not,
  Bool-cases, Option, some, List, [], ◌∷◌, ◌==◌, ◌=?◌, is_some, max, trim, ◌∙◌,
}
use tenex_edge.Table.{find, exists, upsert, insert_or_ignore}
use tenex_edge.Table.Rows.{
  Evolves, Evolves-refl, Evolves-append, Evolves-update, Evolves-trans, find-Evolves,
}
use tenex_edge.Relay.{RelayEvent}
use tenex_edge.Store.Result.{ok}
use tenex_edge.Relay.Messages.{
  Message, RecordMessage, RecipientRow, Messages, message_is, recipient_is, inbound_message,
  backfill_messages_from_relay_events, new_message, renew_message, record_message, time_or_zero,
  add_message_recipient,
}

-- The same message, outbound if it was, and with an event of the relay if it had one.
pub record IsKept (a b : Message) : Type 0 where
  pub same_id : b.message_id ≡ a.message_id
  pub outbound_kept : (a.direction == "outbound" && not (b.direction == "outbound")) ≡ false
  pub native_kept : (is_some a.native_event_id && not (is_some b.native_event_id)) ≡ false

-- The same edge, and delivered no earlier.
pub record IsDelivered (a b : RecipientRow) : Type 0 where
  pub same_message : b.message_id ≡ a.message_id
  pub same_recipient : b.recipient_pubkey ≡ a.recipient_pubkey
  pub delivered_later : a.delivered_at ≤ b.delivered_at

pub record Follows (a b : Messages) : Type 0 where
  pub rows_kept : Evolves IsKept a.rows b.rows
  pub recipients_kept : Evolves IsDelivered a.recipients b.recipients

IsKept-refl : (a : Message) → IsKept a a
IsKept-refl a = record { same_id = refl; outbound_kept = ground arith; native_kept = ground arith }

IsKept-trans : (a b c : Message) → IsKept a b → IsKept b c → IsKept a c
IsKept-trans a b c h k = record {
  same_id = k.same_id ∙ h.same_id;
  outbound_kept = ground (arith, h.outbound_kept, k.outbound_kept);
  native_kept = ground (arith, h.native_kept, k.native_kept);
}

IsDelivered-refl : (a : RecipientRow) → IsDelivered a a
IsDelivered-refl a = record {
  same_message = refl;
  same_recipient = refl;
  delivered_later = omega arith;
}

IsDelivered-trans : (a b c : RecipientRow) → IsDelivered a b → IsDelivered b c → IsDelivered a c
IsDelivered-trans a b c h k = record {
  same_message = k.same_message ∙ h.same_message;
  same_recipient = k.same_recipient ∙ h.same_recipient;
  delivered_later = omega (arith, h.delivered_later, k.delivered_later);
}

Follows-refl : (a : Messages) → Follows a a
Follows-refl a = record {
  rows_kept = Evolves-refl IsKept IsKept-refl a.rows;
  recipients_kept = Evolves-refl IsDelivered IsDelivered-refl a.recipients;
}

Follows-trans : (a b c : Messages) → Follows a b → Follows b c → Follows a c
Follows-trans a b c h k = record {
  rows_kept = Evolves-trans IsKept IsKept-trans a.rows b.rows c.rows h.rows_kept k.rows_kept;
  recipients_kept =
      Evolves-trans IsDelivered IsDelivered-trans a.recipients b.recipients c.recipients
        h.recipients_kept k.recipients_kept;
}

ignored :
    (q : Message → Bool) (r : Message) (t : List Message)
    → Evolves IsKept t (insert_or_ignore q r t)
unfolding insert_or_ignore
ignored q r t = elim (Bool-cases (exists q t)) [
  | inl old ↦ rw old (Evolves-refl IsKept IsKept-refl t)
  | inr new ↦ rw new (Evolves-append IsKept IsKept-refl t (r ∷ []))
]

renewed : (msg : RecordMessage) (m : Message) → IsKept m (renew_message msg m)
unfolding renew_message
renewed msg m = record { same_id = refl; outbound_kept = ground arith; native_kept = ground arith }

upserted_message :
    (id : String) (msg : RecordMessage) (t : List Message)
    → Evolves IsKept t (upsert (message_is id) (new_message id msg) (renew_message msg) t)
unfolding upsert
upserted_message id msg t = elim (Bool-cases (exists (message_is id) t)) [
  | inl old ↦ rw old (
      Evolves-update IsKept IsKept-refl (message_is id) (renew_message msg) t
        (λ r hit. renewed msg r))
  | inr new ↦ rw new (Evolves-append IsKept IsKept-refl t (new_message id msg ∷ []))
]

later :
    (n : ℕ) (r : RecipientRow) → IsDelivered r (record r { delivered_at = max r.delivered_at n })
later n r = record { same_message = refl; same_recipient = refl; delivered_later = omega arith }

upserted_recipient :
    (q : RecipientRow → Bool) (new : RecipientRow) (n : ℕ) (t : List RecipientRow)
    → Evolves IsDelivered t (upsert q new (λ r. record r { delivered_at = max r.delivered_at n }) t)
unfolding upsert
upserted_recipient q new n t = elim (Bool-cases (exists q t)) [
  | inl old ↦ rw old (
      Evolves-update IsDelivered IsDelivered-refl q
        (λ r. record r { delivered_at = max r.delivered_at n }) t (λ r hit. later n r))
  | inr absent ↦ rw absent (Evolves-append IsDelivered IsDelivered-refl t (new ∷ []))
]

filled :
    (events : List RelayEvent) (m : Messages)
    → Follows m (backfill_messages_from_relay_events events m)
unfolding backfill_messages_from_relay_events
filled [] m = Follows-refl m
filled (e ∷ events) m = elim (Bool-cases (e.kind =? 9)) [
  | inl chat ↦
      let next : Messages = record m {
        rows = insert_or_ignore (message_is e.id) (inbound_message e) m.rows;
      } in
      let first : Follows m next = record {
        rows_kept = ignored (message_is e.id) (inbound_message e) m.rows;
        recipients_kept = Evolves-refl IsDelivered IsDelivered-refl m.recipients;
      } in
      rw chat (
        Follows-trans m next (backfill_messages_from_relay_events events next) first
          (filled events next))
  | inr other ↦ rw other (filled events m)
]

pub data MessageStep (a : Messages) : Messages → Type 0 where
  backfilled :
      (events : List RelayEvent) → MessageStep a (backfill_messages_from_relay_events events a)
  recorded :
      (msg : RecordMessage) (b : Messages) (id : String)
      → record_message msg a ≡ ok (b, id)
      → MessageStep a b
  addressed :
      (message_id recipient_pubkey : String) (delivered_at : Option ℕ)
      → MessageStep a (add_message_recipient message_id recipient_pubkey delivered_at a)

pub data MessageSteps (a : Messages) : Messages → Type 0 where
  no_step : MessageSteps a a
  then_step : {b c : Messages} → MessageSteps a b → MessageStep b c → MessageSteps a c

record_message-Follows :
    (msg : RecordMessage) (a b : Messages) (id : String)
    → record_message msg a ≡ ok (b, id)
    → Follows a b
unfolding record_message
record_message-Follows msg a b id h = elim (Bool-cases (trim msg.message_id == "")) [
  | inl blank ↦ cc (rw blank at h)
  | inr named ↦
      let key = trim msg.message_id in
      let next : Messages = record a {
        rows = upsert (message_is key) (new_message key msg) (renew_message msg) a.rows;
      } in
      let written : ok (next, key) ≡ ok (b, id) = rw named at h in
      let same : next ≡ b = cc written in
      let kept : Follows a next = record {
        rows_kept = upserted_message key msg a.rows;
        recipients_kept = Evolves-refl IsDelivered IsDelivered-refl a.recipients;
      } in
      rw same at kept
]

step-Follows : (a b : Messages) → MessageStep a b → Follows a b
unfolding add_message_recipient
step-Follows a b (backfilled events) = filled events a
step-Follows a b (recorded msg _ id h) = record_message-Follows msg a b id h
step-Follows a b (addressed message_id recipient_pubkey delivered_at) = record {
  rows_kept = Evolves-refl IsKept IsKept-refl a.rows;
  recipients_kept =
      upserted_recipient (recipient_is message_id recipient_pubkey)
        (record {
          message_id = message_id;
          recipient_pubkey = recipient_pubkey;
          delivered_at = time_or_zero delivered_at;
        })
        (time_or_zero delivered_at) a.recipients;
}

steps-Follows : (a b : Messages) → MessageSteps a b → Follows a b
steps-Follows a b no_step = Follows-refl a
steps-Follows a b (then_step {b = m} steps last) =
    Follows-trans a m b (steps-Follows a m steps) (step-Follows m b last)

-- What a lookup found, it still finds, and as it may be.
abbrev pub StillFound {ℓ} : {R : Type ℓ} (F : R → R → Type 0) → Option R → Option R → Type 0
StillFound F none after = Unit
StillFound F (some a) none = ⊥
StillFound F (some a) (some b) = F a b

still_found {ℓ} :
    {R : Type ℓ} (F : R → R → Type 0) (q : R → Bool) (t u : List R)
    → ((x y : R) → F x y → q y ≡ q x)
    → Evolves F t u
    → StillFound F (find q t) (find q u)
still_found F q t u keeps h = elim (Option-cases (find q t)) [
  | inl missing ↦ rw missing tt
  | inr (a, found) ↦
      let (b, after, kept) = find-Evolves F q t u a keeps h found in rw (found, after) kept
]

-- Whatever messages are recorded, backfilled and addressed, in any order: a message that is stored
-- stays stored under its id, is outbound if it was and has an event of the relay if it had one; and
-- a recipient of a message stays one, with a delivery that is no earlier.
pub message_kept :
    (a b : Messages) (id pk : String)
    → MessageSteps a b
    → StillFound IsKept (find (message_is id) a.rows) (find (message_is id) b.rows)
      × StillFound IsDelivered
          (find (recipient_is id pk) a.recipients)
          (find (recipient_is id pk) b.recipients)
message_kept a b id pk steps =
    let h = steps-Follows a b steps in
    (
      still_found IsKept (message_is id) a.rows b.rows (λ x y k. ap (λ i. i == id) k.same_id)
          h.rows_kept,
      still_found IsDelivered (recipient_is id pk) a.recipients b.recipients
          (λ x y k. rw (k.same_message, k.same_recipient) refl) h.recipients_kept,
    )
