-- ===== src/Store/Step/Invariant.antt =====
-- What every reachable store satisfies, and how each of its sessions got where it is.
use tenex_edge.Base.{String, ◌≡◌, ap, ◌==◌, some, All}
use tenex_edge.Session.{Session}
use tenex_edge.Table.Rows.{Evolves, Evolves-refl, Evolves-trans, find-Evolves}
use tenex_edge.Store.{Store, empty, session_is}
use tenex_edge.Store.Sessions.{get_session}
use tenex_edge.Store.Coherence.{IsCoherent}
use tenex_edge.Store.Step.{Step, Reach, here, next}
use tenex_edge.Store.Step.Follows.{Follows, Follows-refl, Follows-trans}
use tenex_edge.Store.Step.Change.{HasSessionKeys, Change-IsCoherent, Change-Evolves, Change-keys}
use tenex_edge.Store.Step.Sessions.{Step-Change}

-- One row for each pubkey, and every row coherent.
pub record IsSound (s : Store) : Type 0 where
  pub keys : HasSessionKeys s.sessions
  pub coherent : All IsCoherent s.sessions

pub IsSound-empty : IsSound empty
IsSound-empty = record { keys = tt; coherent = tt }

pub Step-IsSound : {s t : Store} → Step s t → IsSound s → IsSound t
Step-IsSound st h = record {
  keys = Change-keys (Step-Change st) h.keys;
  coherent = Change-IsCoherent (Step-Change st) h.coherent;
}

-- From a sound store, whatever steps run and in whatever order, the store stays sound: each
-- pubkey has one session row, the idle deadline is armed on running, headless, idle sessions alone
-- and ten minutes after they fell idle, no session works unless it runs, a stopped session presents
-- nothing, and a stop reason is recorded on exactly the sessions that do not run.
pub Reach-IsSound : {s t : Store} → IsSound s → Reach s t → IsSound t
Reach-IsSound h here = h
Reach-IsSound h (next r st) = Step-IsSound st (Reach-IsSound h r)

Reach-Evolves : {s t : Store} → IsSound s → Reach s t → Evolves Follows s.sessions t.sessions
Reach-Evolves {s} h here = Evolves-refl Follows Follows-refl s.sessions
Reach-Evolves {s} {t} h (next {t = m} r st) =
    Evolves-trans Follows Follows-trans s.sessions m.sessions t.sessions (Reach-Evolves h r)
      (Change-Evolves (Step-Change st) (Reach-IsSound h r).keys)

-- From a sound store, a session that is stored stays stored, whatever steps run. Its lifecycle
-- epoch, runtime generation, turn count and busy time never fall, nor does its attachment epoch
-- within a generation; its runtime state or generation differs only where the lifecycle epoch has
-- advanced, so that a fence on that epoch sees every transition; and a revocation is final.
pub session_history :
    (pk : String) {s t : Store} (a : Session)
    → IsSound s
    → Reach s t
    → get_session pk s ≡ some a
    → (b : Session) × (get_session pk t ≡ some b) × Follows a b
unfolding get_session
session_history pk {s} {t} a h r found =
    find-Evolves Follows (session_is pk) s.sessions t.sessions a
      (λ x y f. ap (λ k. k == pk) f.same_pubkey) (Reach-Evolves h r) found
