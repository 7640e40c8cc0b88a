-- ===== src/Tests/Admissions.antt =====
-- Reservations and relay admissions.
use tenex_edge.Base.{◌∷◌, [], some, ◌≡◌, ◌⊎◌, refl, true, false, trim}
use tenex_edge.Harness
use tenex_edge.Session.{Session}
use tenex_edge.Table.{find, exists}
use tenex_edge.Store.{retained, Store, SessionStanding, empty}
use tenex_edge.Store.Result.{ok, err, active_runtime}
use tenex_edge.Store.Sessions.{
  validate_runtime_facts, provenance_facts, launch_facts, hook_facts, is_unknown_harness,
  next_generation, write_reservation, reserve_session_with_facts, get_session,
}
use tenex_edge.Store.Sessions.Incarnation.{IsFreshlyRunning, sole_incarnation}
use tenex_edge.Store.Routes.{
  ConfirmedAdmissionCommit, committed, superseded, cleanup_due, commit_confirmed_session_admission,
  owns_runtime, is_newer_member,
}
use tenex_edge.Store.Routes.Settled.{IsAdmitted, IsCleanupDue, admission_settles}
use tenex_edge.Store.Standing.{mark_session_standing_member_if_running}
use tenex_edge.Tests.Data.{registration, launch, fresh, with_session}

abbrev launched : Store
launched = write_reservation registration launch 1 empty

sole_incarnation_example :
    ((b : Session) × (get_session "alice" launched ≡ some b) × IsFreshlyRunning 1 b)
    × (reserve_session_with_facts registration launch launched ≡ err active_runtime)
unfolding reserve_session_with_facts validate_runtime_facts provenance_facts launch_facts hook_facts
    is_unknown_harness next_generation find trim Harness.from_str Harness.as_str Harness.is_unknown
sole_incarnation_example =
    sole_incarnation registration registration launch launch empty launched 1 refl refl refl refl

-- The lifecycle 1 of the session is its current one.
admission_settles_example :
    (t : Store) × (c : ConfirmedAdmissionCommit) × (commit_confirmed_session_admission "alice"
        "room" 1 1 200
        (with_session fresh)
      ≡ ok (t, c))
    × (((exists (owns_runtime "alice" 1 1) (with_session fresh).sessions ≡ true)
          × (c ≡ committed)
          × IsAdmitted "alice" "room" 1 t)
        ⊎ ((exists (owns_runtime "alice" 1 1) (with_session fresh).sessions ≡ false)
            × (exists (is_newer_member "alice" "room" 1) (with_session fresh).session_standing
                ≡ true)
            × (c ≡ superseded)
            × (t ≡ with_session fresh))
        ⊎ ((exists (owns_runtime "alice" 1 1) (with_session fresh).sessions ≡ false)
            × (exists (is_newer_member "alice" "room" 1) (with_session fresh).session_standing
                ≡ false)
            × ((row : SessionStanding) × (c ≡ cleanup_due row)
                × IsCleanupDue "alice" "room" 1 200 t row)))
admission_settles_example = admission_settles "alice" "room" 1 1 200 (with_session fresh)

-- A retained standing that a timer read under the epoch 4.
abbrev standing : SessionStanding
standing = record {
  pubkey = "alice";
  channel_h = "room";
  state = retained;
  retain_until = 150;
  standing_epoch = 4;
  session_lifecycle_epoch = 1;
  updated_at = 90;
}

abbrev retained_store : Store
retained_store = record (with_session fresh) { session_standing = standing ∷ [] }

abbrev joined : Store
joined = (mark_session_standing_member_if_running "alice" "room" 1 140 retained_store).0
