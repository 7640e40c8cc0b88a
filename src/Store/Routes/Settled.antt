-- ===== src/Store/Routes/Settled.antt =====
-- Every confirmed relay admission is settled: committed, scheduled for cleanup, or superseded.
use tenex_edge.Base.{
  ◌∙◌, ap, ℕ, String, ◌≡◌, refl, ◌⊎◌, inl, inr, true, false, Bool-cases, some, eq_refl,
}
use tenex_edge.Table.{exists, upsert}
use tenex_edge.Table.Upserts.{exists-upsert_self, upserted}
use tenex_edge.Store.{Store, SessionStanding, route_is, standing_is, is_member, is_retained}
use tenex_edge.Store.Result.{ok}
use tenex_edge.Store.Standing.{get_session_standing, member_row, new_member}
use tenex_edge.Store.Routes.{
  cleanup, schedule_cleanup_in_transaction, finish_admission_outcome, ConfirmedAdmissionCommit,
  committed, cleanup_due, superseded, cleanup_row, new_cleanup, is_newer_member, owns_runtime,
  admitted_route, commit_admission, commit_confirmed_session_admission, has_session_route,
}

-- The admission is in force: the route is granted, and the standing is member for the lifecycle.
pub record IsAdmitted (pk channel : String) (epoch : ℕ) (t : Store) : Type 0 where
  pub routed : has_session_route pk channel t ≡ true
  pub row : SessionStanding
  pub found : get_session_standing pk channel t ≡ some row
  pub is_member_row : is_member row.state ≡ true
  pub same_epoch : row.session_lifecycle_epoch ≡ epoch

-- The admission is undone at once: the standing is retained, and due for removal since `now`.
pub record IsCleanupDue (pk channel : String) (epoch now : ℕ) (t : Store) (row : SessionStanding)
    : Type 0 where
  pub found : get_session_standing pk channel t ≡ some row
  pub is_retained_row : is_retained row.state ≡ true
  pub due : row.retain_until ≡ now
  pub same_epoch : row.session_lifecycle_epoch ≡ epoch

commit-IsAdmitted :
    (pk channel : String) (epoch now : ℕ) (s : Store)
    → IsAdmitted pk channel epoch (commit_admission pk channel epoch now s)
unfolding has_session_route get_session_standing is_member
commit-IsAdmitted pk channel epoch now s =
    let (row, found, holds) =
      upserted
        (λ (r : SessionStanding). (is_member r.state ≡ true) × (r.session_lifecycle_epoch ≡ epoch))
        (standing_is pk channel) (new_member pk channel epoch now) (member_row epoch now)
        s.session_standing (rw (eq_refl pk, eq_refl channel) refl) (λ x. refl) (refl, refl)
        (λ x. (refl, refl)) in
    record {
      routed =
          exists-upsert_self (route_is pk channel) (admitted_route pk channel now)
            (λ r. record r { granted_at = now }) s.session_channels
            (rw (eq_refl pk, eq_refl channel) refl) (λ x. refl);
      row = row;
      found = found;
      is_member_row = holds.0;
      same_epoch = holds.1;
    }

-- The store that scheduling the cleanup leaves.
abbrev with_cleanup : String → String → ℕ → ℕ → Store → Store
with_cleanup pk channel epoch now s = record s {
  session_standing =
      upsert (standing_is pk channel) (new_cleanup pk channel epoch now) (cleanup_row epoch now)
        s.session_standing;
}

scheduled :
    (pk channel : String) (epoch now : ℕ) (s : Store)
    → exists (is_newer_member pk channel epoch) s.session_standing ≡ false
    → schedule_cleanup_in_transaction pk channel epoch now s
      ≡ (with_cleanup pk channel epoch now s, cleanup)
unfolding schedule_cleanup_in_transaction
scheduled pk channel epoch now s free = rw free refl

finished :
    (pk channel : String) (t : Store) (row : SessionStanding)
    → get_session_standing pk channel t ≡ some row
    → finish_admission_outcome pk channel (t, cleanup) ≡ ok (t, cleanup_due row)
unfolding finish_admission_outcome
finished pk channel t row found = rw (found, finish_admission_outcome) refl

scheduled-IsCleanupDue :
    (pk channel : String) (epoch now : ℕ) (s : Store)
    → exists (is_newer_member pk channel epoch) s.session_standing ≡ false
    → (t : Store) × (row : SessionStanding) × (finish_admission_outcome pk channel
          (schedule_cleanup_in_transaction pk channel epoch now s)
        ≡ ok (t, cleanup_due row))
      × IsCleanupDue pk channel epoch now t row
unfolding get_session_standing is_retained
scheduled-IsCleanupDue pk channel epoch now s free =
    let (row, found, holds) =
      upserted
        (λ (r : SessionStanding).
          (is_retained r.state ≡ true)
          × (r.retain_until ≡ now)
          × (r.session_lifecycle_epoch ≡ epoch))
        (standing_is pk channel) (new_cleanup pk channel epoch now) (cleanup_row epoch now)
        s.session_standing (rw (eq_refl pk, eq_refl channel) refl) (λ x. refl) (refl, refl, refl)
        (λ x. (refl, refl, refl)) in
    (
      with_cleanup pk channel epoch now s,
      row,
      ap (finish_admission_outcome pk channel) (scheduled pk channel epoch now s free)
          ∙ finished pk channel (with_cleanup pk channel epoch now s) row found,
      record { found = found; is_retained_row = holds.0; due = holds.1; same_epoch = holds.2 },
    )

-- Committing a confirmed admission never fails, and settles it in one of three ways. Where the runtime
-- generation and lifecycle that asked for it still own the session, it is committed: the route is
-- granted and the standing is member for that lifecycle. Where they do not, it is superseded and
-- nothing is written if another lifecycle's membership stands, and is otherwise retained as due for
-- removal at once, with the row that is reported.
pub admission_settles :
    (pk channel : String) (g epoch now : ℕ) (s : Store)
    → (t : Store) × (c : ConfirmedAdmissionCommit) × (commit_confirmed_session_admission pk channel
          g epoch now s
        ≡ ok (t, c))
      × (((exists (owns_runtime pk g epoch) s.sessions ≡ true)
            × (c ≡ committed)
            × IsAdmitted pk channel epoch t)
          ⊎ ((exists (owns_runtime pk g epoch) s.sessions ≡ false)
              × (exists (is_newer_member pk channel epoch) s.session_standing ≡ true)
              × (c ≡ superseded)
              × (t ≡ s))
          ⊎ ((exists (owns_runtime pk g epoch) s.sessions ≡ false)
              × (exists (is_newer_member pk channel epoch) s.session_standing ≡ false)
              × ((row : SessionStanding) × (c ≡ cleanup_due row)
                  × IsCleanupDue pk channel epoch now t row)))
unfolding commit_confirmed_session_admission
admission_settles pk channel g epoch now s =
    elim (Bool-cases (exists (owns_runtime pk g epoch) s.sessions)) [
      | inl owner ↦ (
        commit_admission pk channel epoch now s,
        committed,
        rw owner refl,
        inl (owner, refl, commit-IsAdmitted pk channel epoch now s),
      )
      | inr stale ↦
          elim (Bool-cases (exists (is_newer_member pk channel epoch) s.session_standing)) [
            | inl other ↦ (
              s,
              superseded,
              rw stale (rw (schedule_cleanup_in_transaction, other) refl),
              inr (inl (stale, other, refl, refl)),
            )
            | inr free ↦
                let (t, row, settled, due) = scheduled-IsCleanupDue pk channel epoch now s free in
                (t, cleanup_due row, rw stale settled, inr (inr (stale, free, (row, refl, due))))
          ]
    ]
