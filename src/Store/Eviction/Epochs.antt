-- ===== src/Store/Eviction/Epochs.antt =====
-- The two phases of an eviction, and the lifecycle epoch that ties them together.
use tenex_edge.Base.{
  ℕ, ◌+◌, ◌<◌, String, ◌≡◌, refl, ◌∙◌, ap, Bool, true, false, ◌&&◌, ◌||◌, none, some, arith, ltb,
  ◌=?◌, if◌then◌else◌,
}
use tenex_edge.Session.{
  Session, PresentationState, StopReason, is_running, is_stopping, is_stopped, is_unavailable,
}
use tenex_edge.Table.{count}
use tenex_edge.Table.Keys.{All-fail_by_key, found_by_key}
use tenex_edge.Table.Reads.{find-update, count_found}
use tenex_edge.Table.Idle.{count_none}
use tenex_edge.Store.{Store, session_is}
use tenex_edge.Store.Sessions.{get_session}
use tenex_edge.Store.Stopping.{stop_row}
use tenex_edge.Store.Eviction.{
  is_reservable, reserve_row, reserve_due_idle_eviction, cancel_row, is_stopping_epoch,
  cancel_idle_eviction_on_presentation_change, after_finalize, finalize_runtime_stopped_if_epoch,
}
use tenex_edge.Store.Step.{Step, Reach}
use tenex_edge.Store.Step.Change.{HasSessionKeys, same_session, session_is-same}
use tenex_edge.Store.Step.Invariant.{IsSound, session_history, Reach-IsSound, Step-IsSound}

within_stopping_epoch :
    (pk : String) (g e : ℕ) (r : Session)
    → session_is pk r ≡ false
    → is_stopping_epoch pk g e r ≡ false
within_stopping_epoch pk g e r other = ground arith

-- The lifecycle epoch that a finalization names is over: it stops nothing and writes nothing.
finalize_refused :
    (pk : String) (g e : ℕ) (reason : StopReason) (at : ℕ) (s : Store) (b : Session)
    → HasSessionKeys s.sessions
    → get_session pk s ≡ some b
    → e < b.lifecycle_epoch
    → finalize_runtime_stopped_if_epoch pk g e reason at s ≡ (s, none)
unfolding finalize_runtime_stopped_if_epoch get_session
finalize_refused pk g e reason at s b keys found over =
    rw
      (count_none (is_stopping_epoch pk g e) s.sessions (
        All-fail_by_key same_session (session_is pk) (is_stopping_epoch pk g e) s.sessions b
          (session_is-same pk) (within_stopping_epoch pk g e) keys found (ground arith)))
      refl

-- A lifecycle epoch that a session has left is never acted on: from a sound store in which the
-- session is past the epoch, whatever steps run, finalizing a stop under that epoch is refused
-- and writes nothing.
pub left_epoch_never_finalized :
    (pk : String) (g e : ℕ) (reason : StopReason) (at : ℕ) {s t : Store} (a : Session)
    → IsSound s
    → get_session pk s ≡ some a
    → e < a.lifecycle_epoch
    → Reach s t
    → finalize_runtime_stopped_if_epoch pk g e reason at t ≡ (t, none)
left_epoch_never_finalized pk g e reason at {s} {t} a sound found over reach =
    let (b, later, follows) = session_history pk a sound reach found in
    finalize_refused pk g e reason at t b (Reach-IsSound sound reach).keys later
      (omega (arith, follows.lifecycle_grows, over))

abbrev cancels : String → ℕ → ℕ → ℕ → PresentationState → Session → Bool
cancels pk g e epoch p r =
    is_stopping_epoch pk g e r
    && (ltb r.attachment_epoch epoch || (is_unavailable p && r.attachment_epoch =? epoch))

cancel_result :
    (pk : String) (g e epoch : ℕ) (p : PresentationState) (at : ℕ) (s : Store)
    → HasSessionKeys s.sessions
    → (cancel_idle_eviction_on_presentation_change pk g e epoch p at s).1 ≡ true
    → (b : Session) × (get_session pk
          (cancel_idle_eviction_on_presentation_change pk g e epoch p at s).0
        ≡ some b)
      × (e < b.lifecycle_epoch)
      × (is_running b.runtime_state ≡ true)
unfolding cancel_idle_eviction_on_presentation_change get_session cancel_row is_running
cancel_result pk g e epoch p at s keys done =
    let (a, found, hit) =
      found_by_key same_session (session_is pk) (cancels pk g e epoch p) s.sessions
        (session_is-same pk) (λ r other. ground arith) keys (ground arith) in
    (
      cancel_row epoch p at a,
      find-update (session_is pk) (cancels pk g e epoch p) (cancel_row epoch p at) s.sessions
            (λ r. refl)
          ∙ rw (found, hit) refl,
      ground arith,
      refl,
    )

-- A presentation change that cancels an eviction wins over its finalization for good: the session
-- runs again, and whatever steps run after the cancellation, finalizing the stop that had been
-- reserved is refused and writes nothing.
pub cancelled_never_finalized :
    (pk : String) (g e epoch : ℕ) (p : PresentationState) (at at' : ℕ) (reason : StopReason)
    {s t : Store}
    → IsSound s
    → (cancel_idle_eviction_on_presentation_change pk g e epoch p at s).1 ≡ true
    → Reach (cancel_idle_eviction_on_presentation_change pk g e epoch p at s).0 t
    → ((b : Session) × (get_session pk
            (cancel_idle_eviction_on_presentation_change pk g e epoch p at s).0
          ≡ some b)
        × (is_running b.runtime_state ≡ true))
      × (finalize_runtime_stopped_if_epoch pk g e reason at' t ≡ (t, none))
cancelled_never_finalized pk g e epoch p at at' reason {s} {t} sound done reach =
    let (b, found, over, runs) = cancel_result pk g e epoch p at s sound.keys done in
    let sound' = Step-IsSound (Step.cancel_eviction pk g e epoch p at) sound in
    ((b, found, runs), left_epoch_never_finalized pk g e reason at' b sound' found over reach)

-- A write of sessions alone, and the result of the write.
reserved_some :
    (pk : String) (g l a now : ℕ) (s : Store) (r : Session)
    → (reserve_due_idle_eviction pk g l a now s).1 ≡ some r
    → 0 < count (is_reservable s.inbox pk g l a now) s.sessions
unfolding reserve_due_idle_eviction
reserved_some pk g l a now s r done = ground arith

-- What is stored does not depend on the answer.
first_of_if {ℓ κ} :
    {A : Type ℓ} {B : Type κ} (c : Bool) (x : A) (y z : B)
    → (if◌then◌else◌ {A = A × B} c (x, y) (x, z)).0 ≡ x
first_of_if true x y z = refl
first_of_if false x y z = refl

reserve_result :
    (pk : String) (g l a now : ℕ) (s : Store) (r : Session)
    → HasSessionKeys s.sessions
    → (reserve_due_idle_eviction pk g l a now s).1 ≡ some r
    → (b : Session) × (get_session pk (reserve_due_idle_eviction pk g l a now s).0 ≡ some b)
      × (is_stopping_epoch pk g (l + 1) b ≡ true)
unfolding reserve_due_idle_eviction get_session reserve_row is_stopping
reserve_result pk g l a now s r keys done =
    let hit_test = is_reservable s.inbox pk g l a now in
    let (b, found, hit) =
      found_by_key same_session (session_is pk) hit_test s.sessions (session_is-same pk)
        (λ r other. ground arith) keys (reserved_some pk g l a now s r done) in
    (
      reserve_row now b,
      ap (get_session pk) (first_of_if (count hit_test s.sessions =? 0) _ none _)
          ∙ find-update (session_is pk) hit_test (reserve_row now) s.sessions (λ r. refl)
          ∙ rw (found, hit) refl,
      ground arith,
    )

finalize_result :
    (pk : String) (g e : ℕ) (reason : StopReason) (at : ℕ) (s : Store) (b : Session)
    → get_session pk s ≡ some b
    → is_stopping_epoch pk g e b ≡ true
    → (finalize_runtime_stopped_if_epoch pk g e reason at s).1 ≡ some (stop_row reason at b)
unfolding finalize_runtime_stopped_if_epoch get_session after_finalize stop_row
finalize_result pk g e reason at s b found hit =
    rw (count_found (session_is pk) (is_stopping_epoch pk g e) s.sessions b found hit) (
      find-update (session_is pk) (is_stopping_epoch pk g e) (stop_row reason at) s.sessions
        (λ r. refl)
      ∙ rw (found, hit) refl)

-- The two phases of an eviction fit together: in a store with one row for each session, once the
-- first phase has reserved the session, finalizing the stop under the next lifecycle epoch succeeds
-- at once, and the session is stopped for the given reason and presents nothing.
pub reserved_then_finalized :
    (pk : String) (g l a now : ℕ) (reason : StopReason) (at : ℕ) (s : Store) (r : Session)
    → HasSessionKeys s.sessions
    → (reserve_due_idle_eviction pk g l a now s).1 ≡ some r
    → (b : Session) × ((finalize_runtime_stopped_if_epoch pk g
          (l + 1)
          reason
          at
          (reserve_due_idle_eviction pk g l a now s).0).1
        ≡ some b)
      × (is_stopped b.runtime_state ≡ true)
      × (b.stop_reason ≡ some reason)
      × (b.runtime_generation ≡ g)
      × (b.lifecycle_epoch ≡ l + 2)
unfolding stop_row is_stopped
reserved_then_finalized pk g l a now reason at s r keys done =
    let (b, found, hit) = reserve_result pk g l a now s r keys done in
    (
      stop_row reason at b,
      finalize_result pk g (l + 1) reason at (reserve_due_idle_eviction pk g l a now s).0 b found
          hit,
      refl,
      refl,
      ground arith,
      ground arith,
    )
