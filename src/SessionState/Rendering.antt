-- ===== src/SessionState/Rendering.antt =====
-- What the product states promise: the text form, the observer's view of a lease.
use tenex_edge.Base.{
  ℕ, ◌≤◌, ◌<◌, String, ◌≡◌, refl, ◌↔◌, ◌⊎◌, Bool, true, false, some, arith, eq_iff, u64_max,
}
use tenex_edge.SessionState.{
  SessionState, working, idle, suspended, offline, classify, as_str, parse, is_live,
  semantic_change_at,
}

parse-as_str : (s : SessionState) → parse (as_str s) ≡ some s
unfolding parse as_str
parse-as_str working = refl
parse-as_str idle = refl
parse-as_str suspended = refl
parse-as_str offline = refl

as_str_of_parse : (value : String) (s : SessionState) → parse value ≡ some s → value ≡ as_str s
unfolding parse as_str
as_str_of_parse value s h = ground (
  arith,
  eq_iff value "working",
  eq_iff value "idle",
  eq_iff value "suspended",
  eq_iff value "offline",
)

-- A text parses to a state exactly when it is the text form of that state.
pub parse_iff : (value : String) (s : SessionState) → (parse value ≡ some s) ↔ (value ≡ as_str s)
parse_iff value s = (as_str_of_parse value s, λ e. rw e (parse-as_str s))

-- The one user-facing state is decided by liveness first, then by work, then by automatic delivery,
-- and each of the four states arises from exactly one combination of these facts.
classify_iff :
    (live busy automatic : Bool)
    → ((classify live busy automatic ≡ offline) ↔ (live ≡ false))
      × ((classify live busy automatic ≡ working) ↔ ((live ≡ true) × (busy ≡ true)))
      × ((classify live busy automatic ≡ idle)
          ↔ ((live ≡ true) × (busy ≡ false) × (automatic ≡ true)))
      × ((classify live busy automatic ≡ suspended)
          ↔ ((live ≡ true) × (busy ≡ false) × (automatic ≡ false)))
unfolding classify
classify_iff live busy automatic = ground arith

-- The time from which an observer shows a session in its state lies between its last change and the
-- present, and it is past the expiry of the lease exactly where the last change is, or where a live
-- state's lease has run out.
pub semantic_change_at_lem :
    (s : SessionState) (updated_at expiration now : ℕ)
    → updated_at ≤ now
    → now ≤ u64_max
    → (updated_at ≤ semantic_change_at s updated_at expiration now)
      × (semantic_change_at s updated_at expiration now ≤ now)
      × ((expiration < semantic_change_at s updated_at expiration now)
          ↔ ((expiration < updated_at) ⊎ ((is_live s ≡ true) × (expiration < now))))
unfolding semantic_change_at
semantic_change_at_lem s updated_at expiration now past bounded =
    (ground arith, ground arith, (λ h. ground arith, λ h. ground arith))
