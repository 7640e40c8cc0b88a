-- ===== src/Store/Retention.antt =====
-- src/state/retention.rs: the pruning of old rows, which the daemon runs on a timer.
use tenex_edge.Base.{ℕ, ◌+◌, ◌-◌, String, Bool, ◌&&◌, not, List, concat, ltb}
use tenex_edge.Table.{delete, count}
use tenex_edge.Store.{Store, InboxRow, EventClaim, ClaimState, completed, is_pending}
use tenex_edge.Relay.{RelayEvent}
use tenex_edge.Relay.Attempts.{NativeTurnAttempt, Attempts}

abbrev pub relay_event_retention_secs : ℕ
relay_event_retention_secs = 1209600

abbrev pub completed_ledger_retention_secs : ℕ
completed_ledger_retention_secs = 604800

abbrev pub offline_mention_claim_prefix : String
offline_mention_claim_prefix = "offline-mention:"

pub record RetentionPruneReport : Type 0 where
  pub relay_events : ℕ
  pub delivered_inbox : ℕ
  pub completed_event_claims : ℕ
  pub native_turn_attempts : ℕ

abbrev pub total : RetentionPruneReport → ℕ
total r = r.relay_events + r.delivered_inbox + r.completed_event_claims + r.native_turn_attempts

-- The tables that are pruned.
pub record Retained : Type 0 where
  pub store : Store
  pub relay_events : List RelayEvent
  pub attempts : Attempts

-- `delivered_at > 0 AND delivered_at < ?1`, and the same of other times
abbrev pub is_past : ℕ → ℕ → Bool
is_past before at = ltb 0 at && ltb at before

-- `state IN ('delivered', 'injected', 'echo_consumed')`: every state but `pending`
unfoldable pub is_old_inbox : ℕ → InboxRow → Bool
unfolding is_pending
is_old_inbox before r = not (is_pending r.state) && is_past before r.delivered_at

abbrev pub is_completed : ClaimState → Bool
is_completed completed = Bool.true
is_completed _ = Bool.false

-- `like` is SQLite's `key LIKE pattern`.
unfoldable pub is_old_claim : (String → String → Bool) → ℕ → EventClaim → Bool
is_old_claim like before r =
    is_completed r.state
    && is_past before r.updated_at
    && not (like r.claim_key (concat offline_mention_claim_prefix "%"))

unfoldable pub prune_retained_state_before :
    (String → String → Bool) → ℕ → ℕ → Retained → Retained × RetentionPruneReport
unfolding is_old_inbox is_old_claim
prune_retained_state_before like relay_events_before completed_ledgers_before r =
    let old_event = λ (e : RelayEvent). ltb e.created_at relay_events_before in
    let old_attempt = λ (a : NativeTurnAttempt). is_past completed_ledgers_before a.finished_at in
    (
      record {
        store = record r.store {
          inbox = delete (is_old_inbox completed_ledgers_before) r.store.inbox;
          event_claims = delete (is_old_claim like completed_ledgers_before) r.store.event_claims;
        };
        relay_events = delete old_event r.relay_events;
        attempts = record r.attempts { rows = delete old_attempt r.attempts.rows };
      },
      record {
        relay_events = count old_event r.relay_events;
        delivered_inbox = count (is_old_inbox completed_ledgers_before) r.store.inbox;
        completed_event_claims =
            count (is_old_claim like completed_ledgers_before) r.store.event_claims;
        native_turn_attempts = count old_attempt r.attempts.rows;
      },
    )

unfoldable pub prune_retained_state :
    (String → String → Bool) → ℕ → Retained → Retained × RetentionPruneReport
unfolding prune_retained_state_before
prune_retained_state like now r =
    prune_retained_state_before like (now - relay_event_retention_secs)
      (now - completed_ledger_retention_secs) r
