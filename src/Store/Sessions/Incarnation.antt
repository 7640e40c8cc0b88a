-- ===== src/Store/Sessions/Incarnation.antt =====
-- A reservation that succeeds leaves the sole running incarnation of its session.
use tenex_edge.Base.{
  ℕ, ◌≡◌, refl, sym, ◌∙◌, ap, Bool, true, false, none, some, Option, ◌==◌, arith, eq_refl, trim,
  if◌then◌else◌,
}
use tenex_edge.Session.{Session, is_running, is_stopped, is_revoked, is_unavailable, is_idle}
use tenex_edge.Table.{find}
use tenex_edge.Table.Reads.{find-upsert_self}
use tenex_edge.Store.{Store, session_is}
use tenex_edge.Store.Result.{ok, err, active_runtime}
use tenex_edge.Store.Sessions.{
  RegisterSession, AdmittedRuntimeFacts, validate_runtime_facts, next_generation, new_session,
  renew_session, write_reservation, grant_route_and_initialize_standing, revive_handle,
  reserve_session_with_facts, get_session,
}

-- A reservation that succeeds passed the guards, and wrote what the transaction writes.
pub reserve_inversion :
    (r : RegisterSession) (facts : AdmittedRuntimeFacts) (s t : Store) (g : ℕ)
    → reserve_session_with_facts r facts s ≡ ok (t, g)
    → (next_generation (find (session_is r.pubkey) s.sessions) ≡ ok g)
      × (write_reservation r facts g s ≡ t)
unfolding reserve_session_with_facts
reserve_inversion r facts s t g h = (ground arith, ground arith)

-- The row of the pubkey after the reservation.
abbrev reserved_row : RegisterSession → AdmittedRuntimeFacts → ℕ → Option Session → Session
reserved_row r facts g none = new_session r facts g
reserved_row r facts g (some old) = renew_session r facts g old

reserved_row_lem :
    (r : RegisterSession) (facts : AdmittedRuntimeFacts) (g : ℕ) (o : Option Session)
    → (elim o [ none ↦ new_session r facts g | some x ↦ renew_session r facts g x ])
      ≡ reserved_row r facts g o
reserved_row_lem r facts g none = refl
reserved_row_lem r facts g (some x) = refl

-- A runtime of generation `g` that has just begun.
abbrev pub IsFreshlyRunning : ℕ → Session → Type 0
IsFreshlyRunning g b =
    (is_running b.runtime_state ≡ true)
    × (b.runtime_generation ≡ g)
    × (is_unavailable b.presentation_state ≡ true)
    × (is_idle b.work_state ≡ true)
    × (is_revoked b.recovery_state ≡ false)

routed-sessions :
    (r : RegisterSession) (b : Bool) (s : Store)
    → (if b then s else grant_route_and_initialize_standing r s).sessions ≡ s.sessions
unfolding grant_route_and_initialize_standing
routed-sessions r true s = refl
routed-sessions r false s = refl

written_row :
    (r : RegisterSession) (facts : AdmittedRuntimeFacts) (g : ℕ) (s : Store)
    → get_session r.pubkey (write_reservation r facts g s)
      ≡ some (reserved_row r facts g (find (session_is r.pubkey) s.sessions))
unfolding get_session write_reservation revive_handle new_session renew_session
written_row r facts g s =
    ap (find (session_is r.pubkey)) (routed-sessions r (trim r.channel_h == "") _)
    ∙ find-upsert_self (session_is r.pubkey) (new_session r facts g) (renew_session r facts g)
        s.sessions (eq_refl r.pubkey) (λ x. refl)
    ∙ ap some (reserved_row_lem r facts g (find (session_is r.pubkey) s.sessions))

fresh_running :
    (r : RegisterSession) (facts : AdmittedRuntimeFacts) (g : ℕ) (o : Option Session)
    → next_generation o ≡ ok g
    → IsFreshlyRunning g (reserved_row r facts g o)
unfolding new_session renew_session next_generation is_running is_unavailable is_idle is_revoked
fresh_running r facts g none h = (refl, refl, refl, refl, refl)
fresh_running r facts g (some old) h = (refl, refl, refl, refl, ground arith)

running_excludes :
    (b : Session)
    → is_running b.runtime_state ≡ true
    → next_generation (some b) ≡ err active_runtime
unfolding next_generation is_running is_stopped
running_excludes b h = ground arith

running_refuses :
    (r : RegisterSession) (facts : AdmittedRuntimeFacts) (t : Store) (b : Session)
    → (trim r.pubkey == "") ≡ false
    → validate_runtime_facts r facts ≡ ok tt
    → get_session r.pubkey t ≡ some b
    → is_running b.runtime_state ≡ true
    → reserve_session_with_facts r facts t ≡ err active_runtime
unfolding reserve_session_with_facts get_session
running_refuses r facts t b named valid found runs =
    rw (named, valid, found, running_excludes b runs) refl

-- A reservation that succeeds leaves its session running the new generation, presenting nothing, idle
-- and not revoked. From there a second reservation for the same pubkey, valid as it may be in itself, is
-- refused because a runtime is active: a session has one incarnation at a time.
pub sole_incarnation :
    (r r' : RegisterSession) (facts facts' : AdmittedRuntimeFacts) (s t : Store) (g : ℕ)
    → reserve_session_with_facts r facts s ≡ ok (t, g)
    → r'.pubkey ≡ r.pubkey
    → (trim r'.pubkey == "") ≡ false
    → validate_runtime_facts r' facts' ≡ ok tt
    → ((b : Session) × (get_session r.pubkey t ≡ some b) × IsFreshlyRunning g b)
      × (reserve_session_with_facts r' facts' t ≡ err active_runtime)
sole_incarnation r r' facts facts' s t g done same named valid =
    let (next, written) = reserve_inversion r facts s t g done in
    let b = reserved_row r facts g (find (session_is r.pubkey) s.sessions) in
    let found : get_session r.pubkey t ≡ some b =
      sym (ap (get_session r.pubkey) written) ∙ written_row r facts g s in
    let starts = fresh_running r facts g (find (session_is r.pubkey) s.sessions) next in
    (
      (b, found, starts),
      running_refuses r' facts' t b named valid (ap (λ k. get_session k t) same ∙ found) starts.0,
    )
