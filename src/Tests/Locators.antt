-- ===== src/Tests/Locators.antt =====
-- Locators at concrete inputs.
use tenex_edge.Base.{String, ◌≡◌, true, refl, [], ◌∷◌}
use tenex_edge.Session.{Session, is_revoked}
use tenex_edge.Table.{find, exists, update}
use tenex_edge.Store.{Store}
use tenex_edge.Store.Result.{ok}
use tenex_edge.Store.Locators.{claim_native_resume_locator, claim_unowned, new_locator, make_ready}
use tenex_edge.Store.Locators.Claiming.{native_claims_converge}
use tenex_edge.Store.Locators.Unique.{HasLocatorKeys}
use tenex_edge.Store.Step.{Step, here, next}
use tenex_edge.Store.Step.Locators.{Reach-HasLocatorKeys}
use tenex_edge.Tests.Data.{resting, with_session}

abbrev bob : Session
bob = record resting { pubkey = "bob" }

abbrev two_sessions : Store
two_sessions = record (with_session resting) { sessions = resting ∷ bob ∷ [] }

-- Alice's session claims the harness's thread.
abbrev claimed : Store
claimed = record two_sessions {
  sessions = make_ready true "alice" two_sessions.sessions;
  session_locators = new_locator "codex" "native_resume" "thread" "alice" 0 700 ∷ [];
}

claimed_by_alice :
    claim_native_resume_locator "alice" "codex" "thread" 700 two_sessions ≡ ok (claimed, "alice")
unfolding claim_native_resume_locator claim_unowned find exists is_revoked update
claimed_by_alice = refl

answered_alice :
    claim_native_resume_locator "bob" "codex" "thread" 710 claimed ≡ ok (claimed, "alice")
unfolding claim_native_resume_locator claim_unowned find exists is_revoked update
answered_alice = refl

abbrev alice_key : String
alice_key = "alice"

native_claims_converge_example : (alice_key ≡ alice_key) × (claimed ≡ claimed)
native_claims_converge_example =
    native_claims_converge "alice" "bob" "codex" "thread" 700 710 two_sessions claimed claimed
      "alice" "alice" claimed_by_alice answered_alice

Reach-HasLocatorKeys_example : HasLocatorKeys claimed.session_locators
Reach-HasLocatorKeys_example = Reach-HasLocatorKeys {s = two_sessions} tt (
    next
      (next here (Step.claim_native "alice" "codex" "thread" 700 claimed "alice" claimed_by_alice))
      (Step.claim_native "bob" "codex" "thread" 710 claimed "alice" answered_alice))
