-- ===== src/Store/Locators.antt =====
-- src/state/locators.rs and session_native.rs: host-local locators of a session, each of which resolves
-- to its pubkey. A runtime locator carries the generation that may act through it, a native resume
-- locator carries 0.
pub mod Inversion
pub mod Unique
pub mod Claiming
use tenex_edge.Base.{
  ℕ, String, Bool, ◌&&◌, ◌||◌, not, Option, none, some, List, [], ◌∷◌, ◌++◌, ◌==◌, ◌=?◌, ltb,
  if◌then◌else◌,
}
use tenex_edge.Session.{Session, RecoveryState, is_running, is_revoked, is_idle, is_ready}
use tenex_edge.Table.{find, exists, update, delete, upsert, count}
use tenex_edge.Store.{Store, SessionLocator, session_is}
use tenex_edge.Store.Result.{
  Error, Result, ok, err, ◌>>=◌, ◌>>◌, fail_if, recovery_revoked, unknown_locator_kind,
  locator_without_session, unknown_pubkey, already_owns_locator,
}

abbrev pub locator_native_resume : String
locator_native_resume = "native_resume"

abbrev pub is_native : String → Bool
is_native kind = kind == locator_native_resume

-- `LOCATOR_PTY | LOCATOR_ACP | LOCATOR_APP_SERVER`
abbrev pub is_delivery_path : String → Bool
is_delivery_path kind = kind == "pty" || kind == "acp" || kind == "app_server"

unfoldable pub validate_locator_kind : String → Result (Unit {0})
validate_locator_kind kind =
    fail_if (not (is_native kind || is_delivery_path kind || kind == "pid")) unknown_locator_kind

abbrev pub locator_is : String → String → String → SessionLocator → Bool
locator_is harness kind value l =
    l.harness == harness && l.locator_kind == kind && l.locator_value == value

-- `SELECT … FROM sessions WHERE pubkey=?1`, or the error where there is none
abbrev pub require_session : Error → Option Session → Result Session
require_session e none = err e
require_session e (some r) = ok r

-- `EXISTS(… AND runtime_generation=?4)`
abbrev pub has_endpoint : String → String → String → ℕ → List SessionLocator → Bool
has_endpoint pubkey harness kind generation t =
    exists
      (λ l.
        l.pubkey == pubkey
        && l.harness == harness
        && l.locator_kind == kind
        && l.runtime_generation =? generation)
      t

-- The row whose `state_changed_at` a new delivery path moves.
abbrev pub is_resting_generation : String → ℕ → Session → Bool
is_resting_generation pubkey generation r =
    session_is pubkey r
    && r.runtime_generation =? generation
    && is_running r.runtime_state
    && is_idle r.work_state

abbrev pub touch_state : Bool → String → ℕ → ℕ → List Session → List Session
touch_state b pubkey generation at t =
    if b
    then update (is_resting_generation pubkey generation) (λ r. record r { state_changed_at = at })
        t
    else t

abbrev pub new_locator : String → String → String → String → ℕ → ℕ → SessionLocator
new_locator harness kind value pubkey generation created_at = record {
  harness = harness;
  locator_kind = kind;
  locator_value = value;
  pubkey = pubkey;
  runtime_generation = generation;
  created_at = created_at;
}

-- The `DELETE` that comes first: what the new locator takes the place of.
abbrev pub is_replaced : String → String → String → SessionLocator → Bool
is_replaced pubkey harness kind l =
    l.pubkey == pubkey
    && (if is_native kind
        then l.locator_kind == locator_native_resume
        else l.harness == harness && l.locator_kind == kind)

unfoldable pub write_locator :
    String → String → String → String → ℕ → ℕ → List SessionLocator → List SessionLocator
write_locator harness kind value pubkey generation created_at t =
    upsert (locator_is harness kind value)
      (new_locator harness kind value pubkey generation created_at)
      (λ l. record l { pubkey = pubkey; runtime_generation = generation; created_at = created_at })
      (delete (is_replaced pubkey harness kind) t)

abbrev pub make_ready : Bool → String → List Session → List Session
make_ready b pubkey t =
    if b
    then update (session_is pubkey) (λ r. record r { recovery_state = RecoveryState.ready }) t
    else t

-- The writes of `put_session_locator`, for the session `r`.
unfoldable pub write_session_locator :
    String → String → String → String → ℕ → Session → Store → Store
unfolding is_running is_idle write_locator
write_session_locator harness kind value pubkey created_at r s =
    let adds_path =
      is_delivery_path kind
      && not (has_endpoint pubkey harness kind r.runtime_generation s.session_locators) in
    record s {
      session_locators =
          write_locator harness kind value pubkey
            (if is_native kind then 0 else r.runtime_generation) created_at s.session_locators;
      sessions =
          make_ready (is_native kind) pubkey
            (touch_state adds_path pubkey r.runtime_generation created_at s.sessions);
    }

unfoldable pub put_session_locator : String → String → String → String → ℕ → Store → Result Store
unfolding validate_locator_kind is_revoked
put_session_locator harness kind value pubkey created_at s = do
  validate_locator_kind kind
  r ← require_session locator_without_session (find (session_is pubkey) s.sessions)
  fail_if (is_native kind && is_revoked r.recovery_state) recovery_revoked
  ok (write_session_locator harness kind value pubkey created_at r s)

unfoldable pub set_native_resume_locator : String → String → String → ℕ → Store → Result Store
unfolding put_session_locator
set_native_resume_locator pubkey harness native_resume now s = do
  fail_if (not (exists (session_is pubkey) s.sessions)) unknown_pubkey
  put_session_locator harness locator_native_resume native_resume pubkey now s

-- The two ways that `claim_native_resume_locator` ends: the owner that is there, or the new one.
unfoldable pub claim_unowned : String → String → String → ℕ → Store → Result (Store × String)
claim_unowned pubkey harness native_resume now s = do
  fail_if (exists (λ l. l.pubkey == pubkey && is_native l.locator_kind) s.session_locators)
      already_owns_locator
  ok (
    record s {
      session_locators =
          s.session_locators
          ++ new_locator harness locator_native_resume native_resume pubkey 0 now ∷ [];
      sessions = make_ready Bool.true pubkey s.sessions;
    },
    pubkey,
  )

unfoldable pub claim_native_resume_locator :
    String → String → String → ℕ → Store → Result (Store × String)
unfolding is_revoked claim_unowned
claim_native_resume_locator pubkey harness native_resume now s = do
  r ← require_session unknown_pubkey (find (session_is pubkey) s.sessions)
  fail_if (is_revoked r.recovery_state) recovery_revoked
  elim (find (locator_is harness locator_native_resume native_resume) s.session_locators) [
    | some owner ↦ ok (s, owner.pubkey)
    | none ↦ claim_unowned pubkey harness native_resume now s
  ]

unfoldable pub clear_locator_kind : String → String → Store → Result Store
unfolding validate_locator_kind is_ready
clear_locator_kind pubkey kind s = do
  validate_locator_kind kind
  ok (record s {
    session_locators =
        delete (λ l. l.pubkey == pubkey && l.locator_kind == kind) s.session_locators;
    sessions =
        if is_native kind
        then update (λ r. session_is pubkey r && is_ready r.recovery_state)
            (λ r. record r { recovery_state = RecoveryState.pending }) s.sessions
        else s.sessions;
  })

-- `harness=(SELECT observed_harness FROM sessions WHERE pubkey=?1)`; no row passes where there is none
abbrev pub is_of_harness : Option Session → SessionLocator → Bool
is_of_harness none l = Bool.false
is_of_harness (some r) l = l.harness == r.observed_harness

unfoldable pub clear_runtime_locator_if_generation :
    String → String → ℕ → ℕ → Store → Result (Store × Bool)
unfolding validate_locator_kind is_running is_idle
clear_runtime_locator_if_generation pubkey kind generation now s = do
  validate_locator_kind kind
  let hit = λ (l : SessionLocator).
      l.pubkey == pubkey
      && l.locator_kind == kind
      && l.runtime_generation =? generation
      && is_of_harness (find (session_is pubkey) s.sessions) l
  let removed = ltb 0 (count hit s.session_locators)
  ok (
    record s {
      session_locators = delete hit s.session_locators;
      sessions = touch_state (removed && is_delivery_path kind) pubkey generation now s.sessions;
    },
    removed,
  )

unfoldable pub clear_session_locator_kind : String → String → String → Store → Result Store
unfolding validate_locator_kind
clear_session_locator_kind pubkey harness kind s = do
  validate_locator_kind kind
  ok (record s {
    session_locators =
        delete (λ l. l.pubkey == pubkey && l.harness == harness && l.locator_kind == kind)
          s.session_locators;
  })
