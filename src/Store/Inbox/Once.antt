-- ===== src/Store/Inbox/Once.antt =====
-- An event is recorded once for each recipient.
use tenex_edge.Base.{ℕ, String, ◌≡◌, refl, inl, inr, true, false, not, Bool-cases, [], ◌∷◌, eq_refl}
use tenex_edge.Table.{exists, insert_or_ignore}
use tenex_edge.Table.Idle.{exists-append}
use tenex_edge.Store.{Store, inbox_is}
use tenex_edge.Store.Inbox.{new_inbox, enqueue_inbox, is_event_handled}

pub handled_refused :
    (ev tgt from_pubkey channel body : String) (at : ℕ) (s : Store)
    → is_event_handled ev tgt s ≡ true
    → enqueue_inbox ev tgt from_pubkey channel body at s ≡ (s, false)
unfolding enqueue_inbox is_event_handled insert_or_ignore
handled_refused ev tgt from_pubkey channel body at s old = rw old refl

-- An event is accepted exactly where it was not handled for the recipient before. In the store that
-- this leaves it is handled, and offering it again, with whatever sender, channel, body and time, is
-- refused and changes nothing.
pub enqueue_once :
    (ev tgt from_pubkey channel body from_pubkey' channel' body' : String) (at at' : ℕ) (s : Store)
    → ((enqueue_inbox ev tgt from_pubkey channel body at s).1 ≡ not (is_event_handled ev tgt s))
      × (is_event_handled ev tgt (enqueue_inbox ev tgt from_pubkey channel body at s).0 ≡ true)
      × (enqueue_inbox ev tgt from_pubkey' channel' body' at'
            (enqueue_inbox ev tgt from_pubkey channel body at s).0
          ≡ ((enqueue_inbox ev tgt from_pubkey channel body at s).0, false))
unfolding enqueue_inbox is_event_handled insert_or_ignore exists
enqueue_once ev tgt from_pubkey channel body from_pubkey' channel' body' at at' s =
    elim (Bool-cases (exists (inbox_is ev tgt) s.inbox)) [
      | inl old ↦ rw (old, old) (refl, refl, refl)
      | inr new ↦
          let row = new_inbox ev tgt from_pubkey channel body at in
          rw (new, exists-append (inbox_is ev tgt) s.inbox (row ∷ []), new, eq_refl ev, eq_refl tgt)
            (refl, refl, refl)
    ]
