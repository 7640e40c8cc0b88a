-- ===== src/Store/Step/Revoked.antt =====
-- A revoked session can never be launched again, and a live one cannot be launched twice.
use tenex_edge.Base.{ℕ, ◌≡◌, ◌≢◌, true, some, arith}
use tenex_edge.Session.{Session, is_revoked}
use tenex_edge.Store.{Store}
use tenex_edge.Store.Result.{ok}
use tenex_edge.Store.Sessions.{
  RegisterSession, AdmittedRuntimeFacts, get_session, next_generation, reserve_session_with_facts,
}
use tenex_edge.Store.Step.{Reach}
use tenex_edge.Store.Step.Invariant.{IsSound, session_history}
use tenex_edge.Store.Sessions.Incarnation.{reserve_inversion}

next_generation-revoked :
    (a : Session) (g : ℕ) → is_revoked a.recovery_state ≡ true → next_generation (some a) ≢ ok g
unfolding next_generation
next_generation-revoked a g h = ground arith

-- Once the recovery authority of a stored session is revoked, no reservation for its pubkey ever
-- succeeds again, whatever steps run in between.
pub revoked_never_reserved :
    (r : RegisterSession) (facts : AdmittedRuntimeFacts) {s t : Store} (a : Session) (u : Store)
    (g : ℕ)
    → IsSound s
    → get_session r.pubkey s ≡ some a
    → is_revoked a.recovery_state ≡ true
    → Reach s t
    → reserve_session_with_facts r facts t ≢ ok (u, g)
unfolding get_session
revoked_never_reserved r facts {s} {t} a u g sound found revoked reach = λ done.
    let (b, later, follows) = session_history r.pubkey a sound reach found in
    let (next, written) = reserve_inversion r facts t u g done in
    next_generation-revoked b g (ground (arith, follows.revocation_final)) (rw later at next)
