-- ===== src/Store/Eviction.antt =====
-- src/state/session_lifecycle.rs: evicting an idle headless session in two phases, reserve and
-- finalize, with a cancellation by a presentation change between them.
pub mod Fences
pub mod Epochs
use tenex_edge.Base.{
  ℕ, ◌+◌, String, Bool, false, ◌&&◌, ◌||◌, not, Option, none, some, List, ◌==◌, ◌=?◌, ltb, leb, max,
  saturating_add, text_le, if◌then◌else◌,
}
use tenex_edge.Session.{
  Session, PresentationState, StopReason, running, stopping, idle_evicted, is_running, is_stopping,
  is_headless, is_unavailable, is_idle,
}
use tenex_edge.Table.{find, exists, select, update, count}
use tenex_edge.Table.Order.{sort_by}
use tenex_edge.Store.{Store, InboxRow, session_is, is_pending, is_injected}
use tenex_edge.Store.Sessions.{get_session}
use tenex_edge.Store.Standing.{retain_in_transaction}
use tenex_edge.Store.Stopping.{stop_row, epoch_or_0, stopped_standing_retention_secs}
use tenex_edge.Store.Lifecycle.{when_0, idle_deadline_at}

-- `EXISTS (SELECT 1 FROM inbox item WHERE item.target_pubkey=… AND item.state IN ('pending', 'injected'))`
unfoldable pub has_open_inbox : List InboxRow → String → Bool
unfolding is_pending is_injected
has_open_inbox inbox pubkey =
    exists (λ i. i.target_pubkey == pubkey && (is_pending i.state || is_injected i.state)) inbox

-- The `WHERE` of `list_due_idle_evictions`, which `reserve_due_idle_eviction` tests again.
unfoldable pub is_due : List InboxRow → ℕ → Session → Bool
unfolding has_open_inbox is_running is_headless is_idle
is_due inbox now r =
    is_running r.runtime_state
    && is_headless r.presentation_state
    && is_idle r.work_state
    && ltb 0 r.idle_deadline
    && leb r.idle_deadline now
    && not (has_open_inbox inbox r.pubkey)

-- `ORDER BY idle_deadline, pubkey`
unfoldable pub deadline_order : Session → Session → Bool
deadline_order a b =
    ltb a.idle_deadline b.idle_deadline
    || (a.idle_deadline =? b.idle_deadline && text_le a.pubkey b.pubkey)

unfoldable pub list_due_idle_evictions : ℕ → Store → List Session
unfolding is_due deadline_order
list_due_idle_evictions now s = sort_by deadline_order (select (is_due s.inbox now) s.sessions)

unfoldable pub reserve_row : ℕ → Session → Session
reserve_row now r = record r {
  runtime_state = stopping;
  lifecycle_epoch = r.lifecycle_epoch + 1;
  idle_since = 0;
  idle_deadline = 0;
  stopped_at = now;
  stop_reason = some idle_evicted;
  state_changed_at = now;
}

-- The row that the caller listed, unchanged since and still due.
abbrev pub is_reservable : List InboxRow → String → ℕ → ℕ → ℕ → ℕ → Session → Bool
is_reservable inbox pubkey generation lifecycle_epoch attachment_epoch now r =
    session_is pubkey r
    && r.runtime_generation =? generation
    && r.lifecycle_epoch =? lifecycle_epoch
    && r.attachment_epoch =? attachment_epoch
    && is_due inbox now r

unfoldable pub reserve_due_idle_eviction : String → ℕ → ℕ → ℕ → ℕ → Store → Store × Option Session
unfolding is_due reserve_row get_session
reserve_due_idle_eviction pubkey generation lifecycle_epoch attachment_epoch now s =
    let hit = is_reservable s.inbox pubkey generation lifecycle_epoch attachment_epoch now in
    let reserved = record s { sessions = update hit (reserve_row now) s.sessions } in
    if count hit s.sessions =? 0 then (reserved, none) else (reserved, get_session pubkey reserved)

unfoldable pub cancel_row : ℕ → PresentationState → ℕ → Session → Session
unfolding is_headless
cancel_row epoch presentation at r = record r {
  runtime_state = running;
  presentation_state = presentation;
  stop_reason = none;
  attachment_epoch = epoch;
  lifecycle_epoch = r.lifecycle_epoch + 1;
  stopped_at = 0;
  state_changed_at = at;
  idle_since = when_0 (is_headless presentation) at;
  idle_deadline = when_0 (is_headless presentation) (idle_deadline_at at);
}

abbrev pub is_stopping_epoch : String → ℕ → ℕ → Session → Bool
is_stopping_epoch pubkey generation epoch r =
    session_is pubkey r
    && r.runtime_generation =? generation
    && is_stopping r.runtime_state
    && r.lifecycle_epoch =? epoch

unfoldable pub cancel_idle_eviction_on_presentation_change :
    String → ℕ → ℕ → ℕ → PresentationState → ℕ → Store → Store × Bool
unfolding is_stopping is_unavailable cancel_row
cancel_idle_eviction_on_presentation_change pubkey generation stopping_epoch epoch presentation at
      s =
    let hit = λ (r : Session).
      is_stopping_epoch pubkey generation stopping_epoch r
      && (ltb r.attachment_epoch epoch
          || (is_unavailable presentation && r.attachment_epoch =? epoch)) in
    (
      record s { sessions = update hit (cancel_row epoch presentation at) s.sessions },
      count hit s.sessions =? 1,
    )

-- `UPDATE handle_leases SET live=0, last_active_at=MAX(last_active_at, ?2) WHERE pubkey=?1`
unfoldable pub release_handle : String → ℕ → Store → Store
release_handle pubkey at s = record s {
  handle_leases =
      update (λ l. l.pubkey == pubkey)
        (λ l. record l { live = false; last_active_at = max l.last_active_at at }) s.handle_leases;
}

unfoldable pub after_finalize : String → ℕ → Store → Store
unfolding release_handle retain_in_transaction
after_finalize pubkey stopped_at s =
    retain_in_transaction pubkey (epoch_or_0 (find (session_is pubkey) s.sessions))
      (saturating_add stopped_at stopped_standing_retention_secs) stopped_at
      (release_handle pubkey stopped_at s)

unfoldable pub finalize_runtime_stopped_if_epoch :
    String → ℕ → ℕ → StopReason → ℕ → Store → Store × Option Session
unfolding is_stopping stop_row after_finalize get_session
finalize_runtime_stopped_if_epoch pubkey generation stopping_epoch reason stopped_at s =
    let hit = is_stopping_epoch pubkey generation stopping_epoch in
    let finalized =
      after_finalize pubkey stopped_at
        (record s { sessions = update hit (stop_row reason stopped_at) s.sessions }) in
    if count hit s.sessions =? 0 then (s, none) else (finalized, get_session pubkey finalized)
