-- ===== src/Store/Eviction/Fences.antt =====
-- src/state/session_lifecycle.rs and inbox.rs: open messages stand between an idle session and its
-- eviction.
use tenex_edge.Base.{
  ℕ, String, ◌≡◌, refl, inl, inr, true, false, ◌&&◌, ◌||◌, Bool-cases, none, List, [], ◌∷◌, arith,
  eq_iff, eq_refl, ◌==◌,
}
use tenex_edge.Session.{Session}
use tenex_edge.Table.{exists, insert_or_ignore}
use tenex_edge.Table.Idle.{update_none, count_none, All-none, exists-append}
use tenex_edge.Store.{Store, InboxRow, session_is, is_pending, is_injected}
use tenex_edge.Store.Inbox.{new_inbox, enqueue_inbox, is_event_handled}
use tenex_edge.Store.Eviction.{
  has_open_inbox, is_due, is_reservable, reserve_row, reserve_due_idle_eviction,
}

open_inbox_not_due :
    (inbox : List InboxRow) (pk : String) (g l a now : ℕ) (r : Session)
    → has_open_inbox inbox pk ≡ true
    → is_reservable inbox pk g l a now r ≡ false
unfolding is_due
open_inbox_not_due inbox pk g l a now r open_inbox = elim (Bool-cases (session_is pk r)) [
  | inl here ↦
      let same_key : r.pubkey ≡ pk = ground (arith, eq_iff r.pubkey pk) in
      rw (same_key, open_inbox) (ground arith)
  | inr other ↦ rw other refl
]

-- No eviction is reserved, and nothing is written, for a session that has a message which is pending
-- or on its way to a turn, whatever generation and epochs are named and however long it has been idle.
open_inbox_fences :
    (pk : String) (g l a now : ℕ) (s : Store)
    → has_open_inbox s.inbox pk ≡ true
    → reserve_due_idle_eviction pk g l a now s ≡ (s, none)
unfolding reserve_due_idle_eviction
open_inbox_fences pk g l a now s open_inbox =
    let misses =
      All-none (is_reservable s.inbox pk g l a now) s.sessions
        (λ r. open_inbox_not_due s.inbox pk g l a now r open_inbox) in
    rw
      (
        count_none (is_reservable s.inbox pk g l a now) s.sessions misses,
        update_none (is_reservable s.inbox pk g l a now) (reserve_row now) s.sessions misses,
      )
      refl

enqueue-has_open_inbox :
    (ev pk from_pubkey channel body : String) (at : ℕ) (s : Store)
    → is_event_handled ev pk s ≡ false
    → has_open_inbox (enqueue_inbox ev pk from_pubkey channel body at s).0.inbox pk ≡ true
unfolding enqueue_inbox is_event_handled insert_or_ignore has_open_inbox exists is_pending
    is_injected
enqueue-has_open_inbox ev pk from_pubkey channel body at s new =
    rw
      (
        new,
        exists-append (λ i. i.target_pubkey == pk && (is_pending i.state || is_injected i.state))
            s.inbox (new_inbox ev pk from_pubkey channel body at ∷ []),
        eq_refl pk,
      )
      (ground arith)

-- A message that arrives fences the eviction of its recipient: in the store that recording a new
-- message leaves, no eviction of that session is reserved and nothing is written, whatever generation
-- and epochs the supervisor names and however long the session has been idle.
pub message_fences_eviction :
    (ev pk from_pubkey channel body : String) (at g l a now : ℕ) (s : Store)
    → is_event_handled ev pk s ≡ false
    → reserve_due_idle_eviction pk g l a now (enqueue_inbox ev pk from_pubkey channel body at s).0
      ≡ ((enqueue_inbox ev pk from_pubkey channel body at s).0, none)
message_fences_eviction ev pk from_pubkey channel body at g l a now s new =
    open_inbox_fences pk g l a now (enqueue_inbox ev pk from_pubkey channel body at s).0
      (enqueue-has_open_inbox ev pk from_pubkey channel body at s new)
