-- ===== src/Store/Locators/Inversion.antt =====
-- What a locator operation that succeeds has checked, and what it wrote.
use tenex_edge.Base.{
  ℕ, String, ◌≡◌, inl, inr, Bool, true, false, ◌&&◌, Option-cases, none, some, arith, ◌⊎◌, ◌==◌,
  ◌++◌, ◌∷◌, [],
}
use tenex_edge.Session.{Session, is_revoked}
use tenex_edge.Table.{find, exists}
use tenex_edge.Store.{Store, SessionLocator, session_is}
use tenex_edge.Store.Result.{ok}
use tenex_edge.Store.Locators.{
  is_native, write_session_locator, put_session_locator, validate_locator_kind, locator_is,
  locator_native_resume, claim_native_resume_locator, claim_unowned, make_ready, new_locator,
  set_native_resume_locator,
}

pub put_inversion :
    (harness kind value pk : String) (at : ℕ) (s t : Store)
    → put_session_locator harness kind value pk at s ≡ ok t
    → (r : Session) × (find (session_is pk) s.sessions ≡ some r)
      × ((is_native kind && is_revoked r.recovery_state) ≡ false)
      × (write_session_locator harness kind value pk at r s ≡ t)
unfolding put_session_locator validate_locator_kind
put_inversion harness kind value pk at s t h =
    elim (Option-cases (find (session_is pk) s.sessions)) [
      | inl missing ↦ ground (arith, missing)
      | inr (r, found) ↦ (r, found, ground (arith, found), ground (arith, found))
    ]

pub set_inversion :
    (pk harness native_resume : String) (now : ℕ) (s t : Store)
    → set_native_resume_locator pk harness native_resume now s ≡ ok t
    → put_session_locator harness locator_native_resume native_resume pk now s ≡ ok t
unfolding set_native_resume_locator
set_inversion pk harness native_resume now s t h = ground arith

-- The session has no native resume locator yet.
abbrev pub owns_native : String → SessionLocator → Bool
owns_native pk l = l.pubkey == pk && is_native l.locator_kind

pub claim_unowned_inversion :
    (pk harness native_resume : String) (now : ℕ) (s t : Store) (owner : String)
    → claim_unowned pk harness native_resume now s ≡ ok (t, owner)
    → (exists (owns_native pk) s.session_locators ≡ false)
      × (owner ≡ pk)
      × (t.inbox ≡ s.inbox)
      × (t.sessions ≡ make_ready true pk s.sessions)
      × (t.session_locators
          ≡ s.session_locators
            ++ new_locator harness locator_native_resume native_resume pk 0 now ∷ [])
unfolding claim_unowned
claim_unowned_inversion pk harness native_resume now s t owner h = ground arith

-- Either the locator has an owner, and nothing is written, or the session becomes its owner.
pub claim_inversion :
    (pk harness native_resume : String) (now : ℕ) (s t : Store) (owner : String)
    → claim_native_resume_locator pk harness native_resume now s ≡ ok (t, owner)
    → (r : Session) × (find (session_is pk) s.sessions ≡ some r)
      × (is_revoked r.recovery_state ≡ false)
      × (((l : SessionLocator) × (find
                (locator_is harness locator_native_resume native_resume)
                s.session_locators
              ≡ some l)
            × (owner ≡ l.pubkey)
            × (t ≡ s))
          ⊎ ((find (locator_is harness locator_native_resume native_resume) s.session_locators
                ≡ none)
              × (claim_unowned pk harness native_resume now s ≡ ok (t, owner))))
unfolding claim_native_resume_locator
claim_inversion pk harness native_resume now s t owner h =
    elim (Option-cases (find (session_is pk) s.sessions)) [
      | inl missing ↦ ground (arith, missing)
      | inr (r, found) ↦
          elim (Option-cases
            (find (locator_is harness locator_native_resume native_resume) s.session_locators)) [
              | inl free ↦ ground (arith, found, free)
              | inr (l, owned) ↦ ground (arith, found, owned)
            ]
    ]
