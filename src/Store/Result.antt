-- ===== src/Store/Result.antt =====
-- The `bail!` messages of src/state/, and `anyhow::Result`. Failures of SQLite itself are not modelled.
use tenex_edge.Base.{Bool, true, false, ◌≡◌}

pub data Error : Type 0 where
  empty_pubkey missing_observed_harness unknown_observed_harness mismatched_observed_harness : Error
  unknown_transport launch_forbids_claimed launch_requires_bundle launch_requires_transport : Error
  hook_requires_claimed unknown_claimed_harness hook_forbids_bundle unknown_provenance : Error
  active_runtime recovery_revoked generation_exhausted no_row : Error
  unknown_locator_kind locator_without_session unknown_pubkey already_owns_locator : Error
  constraint_failed actor_changed actor_stopping no_intent : Error
  parent_cycle parent_chain_too_deep ambiguous_prefix : Error
  empty_session_name invalid_session_name name_in_use uses_other_name : Error
  handle_space_exhausted signer_changed no_handle_lease finish_as_started empty_message_id : Error

pub data Result {ℓ} (A : Type ℓ) : Type ℓ where
  err : Error → Result A
  ok : A → Result A

infixl 10 ◌>>=◌ ◌>>◌
-- The `?` of Rust: an error leaves the function.
abbrev pub ◌>>=◌ {ℓ κ} : {A : Type ℓ} {B : Type κ} (m : Result A) (k : A → Result B) → Result B
err e >>= k = err e
ok value >>= k = k value

abbrev pub ◌>>◌ {κ} : {B : Type κ} (m : Result (Unit {0})) (k : Result B) → Result B
err e >> k = err e
ok _ >> k = k

-- `if b { bail!(…) }`
abbrev pub fail_if : Bool → Error → Result (Unit {0})
fail_if true e = err e
fail_if false e = ok tt

-- What stands behind a check that passed.
pub past_check {ℓ} :
    {A : Type ℓ} (check : Result (Unit {0})) (k : Result A) (t : A) → (check >> k) ≡ ok t → k ≡ ok t
past_check (ok u) k t h = h
past_check (err e) k t h = cc h

pub behind_check {ℓ} :
    {A : Type ℓ} (check : Result (Unit {0})) (x t : A) → (check >> ok x) ≡ ok t → x ≡ t
behind_check check x t h = let same = past_check check (ok x) t h in cc same
