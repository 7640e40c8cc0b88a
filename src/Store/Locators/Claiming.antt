-- ===== src/Store/Locators/Claiming.antt =====
-- Two sessions that claim one native resume locator agree on its owner.
use tenex_edge.Base.{
  ℕ, String, ◌≡◌, refl, sym, inl, inr, Bool-cases, some, none, List, [], ◌∷◌, ◌++◌, arith, eq_refl,
}
use tenex_edge.Table.{find}
use tenex_edge.Store.{Store, SessionLocator}
use tenex_edge.Store.Result.{ok}
use tenex_edge.Store.Locators.{
  locator_is, locator_native_resume, new_locator, claim_native_resume_locator,
}
use tenex_edge.Store.Locators.Inversion.{claim_inversion, claim_unowned_inversion}

find_appended :
    (harness value pk : String) (now : ℕ) (t : List SessionLocator)
    → find (locator_is harness locator_native_resume value) t ≡ none
    → find
        (locator_is harness locator_native_resume value)
        (t ++ new_locator harness locator_native_resume value pk 0 now ∷ [])
      ≡ some (new_locator harness locator_native_resume value pk 0 now)
unfolding find
find_appended harness value pk now [] free = rw (eq_refl harness, eq_refl value) refl
find_appended harness value pk now (x ∷ t) free =
    elim (Bool-cases (locator_is harness locator_native_resume value x)) [
      | inl hit ↦ ground (arith, free, hit)
      | inr miss ↦ rw miss (find_appended harness value pk now t (rw miss at free))
    ]

-- Who a claim that succeeded names as the owner, the store it leaves names too.
pub owner_stored :
    (pk harness native_resume : String) (now : ℕ) (s t : Store) (owner : String)
    → claim_native_resume_locator pk harness native_resume now s ≡ ok (t, owner)
    → (l : SessionLocator) × (find
          (locator_is harness locator_native_resume native_resume)
          t.session_locators
        ≡ some l)
      × (l.pubkey ≡ owner)
owner_stored pk harness native_resume now s t owner h =
    let (r, stored, allowed, how) = claim_inversion pk harness native_resume now s t owner h in
    elim how [
      | inl (l, owned, names, kept) ↦ (l, rw kept owned, sym names)
      | inr (free, claimed) ↦
          let w = claim_unowned_inversion pk harness native_resume now s t owner claimed in
          (
            new_locator harness locator_native_resume native_resume pk 0 now,
            rw (w.4) (find_appended harness native_resume pk now s.session_locators free),
            sym w.1,
          )
    ]

-- Where two sessions claim one native resume locator of a harness, one after the other, and both
-- claims succeed, the second names the same owner as the first and writes nothing.
pub native_claims_converge :
    (pk pk2 harness native_resume : String) (now later : ℕ) (s t u : Store) (owner owner2 : String)
    → claim_native_resume_locator pk harness native_resume now s ≡ ok (t, owner)
    → claim_native_resume_locator pk2 harness native_resume later t ≡ ok (u, owner2)
    → (owner2 ≡ owner) × (u ≡ t)
native_claims_converge pk pk2 harness native_resume now later s t u owner owner2 h k =
    let (l, there, named) = owner_stored pk harness native_resume now s t owner h in
    let (r, stored, allowed, how) = claim_inversion pk2 harness native_resume later t u owner2 k in
    elim how [
      | inl (m, owned, names, kept) ↦ (ground (arith, there, owned, named, names), kept)
      | inr (free, claimed) ↦ ground (arith, there, free)
    ]
