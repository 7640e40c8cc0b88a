-- ===== src/Store/Step/Admission.antt =====
-- Reservations, admissions and joins change the table of sessions in one of the ways of Change.
use tenex_edge.Base.{
  ℕ, String, ◌≡◌, sym, ◌∙◌, ap, inl, inr, Bool, true, false, Option-cases, List, arith, ◌==◌, trim,
  if◌then◌else◌,
}
use tenex_edge.Session.{Session, StopReason}
use tenex_edge.Table.{find}
use tenex_edge.Store.{Store, session_is}
use tenex_edge.Store.Result.{ok}
use tenex_edge.Store.Sessions.{
  RegisterSession, AdmittedRuntimeFacts, next_generation, write_reservation,
}
use tenex_edge.Store.Stopping.{stop_row}
use tenex_edge.Store.Standing.{mark_session_standing_member_if_running, owns_lifecycle}
use tenex_edge.Store.Routes.{
  ConfirmedAdmissionCommit, PendingAdmissionOutcome, cleanup, newer, committed,
  schedule_cleanup_in_transaction, finish_admission_outcome,
}
use tenex_edge.Store.Lifecycle.{disarm_row}
use tenex_edge.Store.Coherence.{stop_row-IsCoherent, disarm_row-IsCoherent}
use tenex_edge.Store.Step.Follows.{stop_row-Follows, disarm_row-Follows}
use mathlib.Core.Path.{subst}
use tenex_edge.Store.Step.Change.{RowChange, Change, same, reserved}

-- Either branch.
pub if-Change :
    {t : List Session} (b : Bool) (x y : Store)
    → Change t x.sessions
    → Change t y.sessions
    → Change t (if b then x else y).sessions
if-Change true x y h k = h
if-Change false x y h k = k

pub if-Change_pair {ℓ} :
    {A : Type ℓ} {t : List Session} (b : Bool) (x y : Store × A)
    → Change t x.0.sessions
    → Change t y.0.sessions
    → Change t (if b then x else y).0.sessions
if-Change_pair true x y h k = h
if-Change_pair false x y h k = k

pub written-Change :
    (r : RegisterSession) (facts : AdmittedRuntimeFacts) (s : Store) (g : ℕ)
    → next_generation (find (session_is r.pubkey) s.sessions) ≡ ok g
    → Change s.sessions (write_reservation r facts g s).sessions
unfolding write_reservation
written-Change r facts s g h =
    if-Change (trim r.channel_h == "") _ _ (reserved r facts g h) (reserved r facts g h)

pub stopped_change :
    (reason : StopReason) (at : ℕ) (r : Session) → RowChange r (stop_row reason at r)
stopped_change reason at r = record {
  follows = stop_row-Follows reason at r;
  coherent = λ c. stop_row-IsCoherent reason at r;
}

pub disarmed_change : (r : Session) → RowChange r (disarm_row r)
disarmed_change r = record { follows = disarm_row-Follows r; coherent = disarm_row-IsCoherent r }

-- Settling the outcome of an admission writes nothing.
pub finish_keeps :
    (pk channel : String) (p : Store × PendingAdmissionOutcome) (u : Store)
    (c : ConfirmedAdmissionCommit)
    → finish_admission_outcome pk channel p ≡ ok (u, c)
    → p.0 ≡ u
unfolding finish_admission_outcome
finish_keeps pk channel (v, newer) u c h = cc h
finish_keeps pk channel (v, cleanup) u c h = ground arith

pub schedule-Change :
    (pk channel : String) (epoch now : ℕ) (s : Store)
    → Change s.sessions (schedule_cleanup_in_transaction pk channel epoch now s).0.sessions
unfolding schedule_cleanup_in_transaction
schedule-Change pk channel epoch now s = if-Change_pair _ _ _ same same

-- Both ways to end an admission: commit, or schedule the cleanup.
pub admit-Change :
    (pk channel : String) (epoch now : ℕ) (s t : Store) (c : ConfirmedAdmissionCommit) (b : Bool)
    (x : Store)
    → (if b
        then ok (x, committed)
        else finish_admission_outcome pk channel
            (schedule_cleanup_in_transaction pk channel epoch now s))
      ≡ ok (t, c)
    → x.sessions ≡ s.sessions
    → Change s.sessions t.sessions
admit-Change pk channel epoch now s t c true x h e =
    let written : x ≡ t = cc h in
    subst (Change s.sessions) (sym e ∙ ap (λ (w : Store). w.sessions) written) same
admit-Change pk channel epoch now s t c false x h e =
    subst (λ (w : Store). Change s.sessions w.sessions)
      (finish_keeps pk channel (schedule_cleanup_in_transaction pk channel epoch now s) t c h)
      (schedule-Change pk channel epoch now s)

pub join-Change :
    (pk channel : String) (epoch now : ℕ) (s : Store)
    → Change s.sessions (mark_session_standing_member_if_running pk channel epoch now s).0.sessions
unfolding mark_session_standing_member_if_running
join-Change pk channel epoch now s =
    elim (Option-cases (find (owns_lifecycle pk epoch) s.sessions)) [
      | inl stale ↦ rw (stale, mark_session_standing_member_if_running) same
      | inr (owner, found) ↦ rw (found, mark_session_standing_member_if_running) same
    ]
