-- ===== src/Store/Inbox.antt =====
-- src/state/inbox.rs: recording inbound events, once for each recipient.
pub mod Once
use tenex_edge.Base.{ℕ, String, Bool, ◌&&◌, List, ◌==◌, leb, if◌then◌else◌}
use tenex_edge.Session.{is_running}
use tenex_edge.Table.{exists, select, update, insert_or_ignore}
use tenex_edge.Table.Order.{sort_by}
use tenex_edge.Store.{Store, InboxRow, InboxState, delivered, session_is, inbox_is, is_pending}
use tenex_edge.Store.Lifecycle.{disarm_row}

abbrev pub new_inbox : String → String → String → String → String → ℕ → InboxRow
new_inbox event_id target_pubkey from_pubkey channel_h body created_at = record {
  event_id = event_id;
  target_pubkey = target_pubkey;
  state = InboxState.pending;
  from_pubkey = from_pubkey;
  channel_h = channel_h;
  body = body;
  created_at = created_at;
  delivered_at = 0;
}

-- `UPDATE sessions SET idle_since=0, idle_deadline=0 WHERE pubkey=?1 AND runtime_state='running'`
unfoldable pub disarm : String → Store → Store
unfolding is_running disarm_row
disarm pubkey s = record s {
  sessions = update (λ r. session_is pubkey r && is_running r.runtime_state) disarm_row s.sessions;
}

-- `enqueue_inbox`: the row is new exactly where no row has its key
unfoldable pub enqueue_inbox : String → String → String → String → String → ℕ → Store → Store × Bool
unfolding disarm
enqueue_inbox event_id target_pubkey from_pubkey channel_h body created_at s =
    let row = new_inbox event_id target_pubkey from_pubkey channel_h body created_at in
    let recorded = record s {
      inbox = insert_or_ignore (inbox_is event_id target_pubkey) row s.inbox;
    } in
    if exists (inbox_is event_id target_pubkey) s.inbox
    then (recorded, Bool.false)
    else (disarm target_pubkey recorded, Bool.true)

unfoldable pub mark_delivered : String → String → ℕ → Store → Store
mark_delivered event_id target_pubkey delivered_at s = record s {
  inbox =
      update (inbox_is event_id target_pubkey)
        (λ r. record r { state = delivered; delivered_at = delivered_at }) s.inbox;
}

-- `ORDER BY created_at ASC`, and `sort_by_key(|r| r.created_at)`
unfoldable pub created_order : InboxRow → InboxRow → Bool
created_order a b = leb a.created_at b.created_at

-- `target_pubkey=?1 AND state='pending'`
unfoldable pub is_pending_for : String → InboxRow → Bool
unfolding is_pending
is_pending_for target_pubkey r = r.target_pubkey == target_pubkey && is_pending r.state

unfoldable pub peek_pending_for_pubkey : String → Store → List InboxRow
unfolding created_order is_pending_for
peek_pending_for_pubkey target_pubkey s =
    sort_by created_order (select (is_pending_for target_pubkey) s.inbox)

unfoldable pub is_event_handled : String → String → Store → Bool
is_event_handled event_id target_pubkey s = exists (inbox_is event_id target_pubkey) s.inbox
