-- ===== src/Store/Step/Actors.antt =====
-- Locators and MCP actors change the table of sessions in the ways of Change, and the inbox not at
-- all.
use mathlib.Core.Path.{subst}
use tenex_edge.Base.{
  ℕ, String, ◌≡◌, refl, sym, ap, inl, inr, Bool, true, false, not, ◌&&◌, List, some, arith, ◌==◌,
}
use tenex_edge.Session.{Session, is_revoked}
use tenex_edge.Table.{find}
use tenex_edge.Table.Rows.{Evolves-update, find-Evolves}
use tenex_edge.Store.{Store, session_is}
use tenex_edge.Store.Result.{ok}
use tenex_edge.Store.Locators.{
  is_delivery_path, has_endpoint, is_native, is_resting_generation, touch_state, make_ready,
  write_session_locator, put_session_locator, claim_native_resume_locator,
}
use tenex_edge.Store.Locators.Inversion.{put_inversion, claim_inversion, claim_unowned_inversion}
use tenex_edge.Store.Step.Change.{Change, same, rows, found, after}

pub touch_state-Change :
    (b : Bool) (pk : String) (generation at : ℕ) (t : List Session)
    → Change t (touch_state b pk generation at t)
touch_state-Change true pk generation at t =
    rows _ _ (λ r hit. record { follows = ground arith; coherent = λ c. ground arith })
touch_state-Change false pk generation at t = same

-- Binding a native resume locator to a session that is not revoked makes it ready.
make_ready-Change :
    (b : Bool) (pk : String) (t : List Session)
    → ((r : Session) → find (session_is pk) t ≡ some r → (b && is_revoked r.recovery_state) ≡ false)
    → Change t (make_ready b pk t)
unfolding is_revoked
make_ready-Change true pk t h =
    found pk _ (λ r hit. ground (arith, h r hit)) (λ r. refl) (λ r c. ground arith)
make_ready-Change false pk t h = same

-- Touching a session's state leaves the recovery of the row that is found.
touched_recovery :
    (b : Bool) (pk : String) (generation at : ℕ) (t : List Session) (r r2 : Session)
    → find (session_is pk) t ≡ some r
    → find (session_is pk) (touch_state b pk generation at t) ≡ some r2
    → r2.recovery_state ≡ r.recovery_state
touched_recovery true pk generation at t r r2 here there =
    let F = λ (x y : Session). (y.pubkey ≡ x.pubkey) × (y.recovery_state ≡ x.recovery_state) in
    let (b, hit, kept) =
      find-Evolves F (session_is pk) t (touch_state true pk generation at t) r
        (λ x y f. ap (λ k. k == pk) f.0)
        (Evolves-update F (λ x. (refl, refl)) (is_resting_generation pk generation)
          (λ x. record x { state_changed_at = at }) t (λ x p. (refl, refl)))
        here in
    ground (arith, hit, there, kept)
touched_recovery false pk generation at t r r2 here there = ground (arith, here, there)

write-Change :
    (harness kind value pk : String) (at : ℕ) (r : Session) (s : Store)
    → find (session_is pk) s.sessions ≡ some r
    → (is_native kind && is_revoked r.recovery_state) ≡ false
    → Change s.sessions (write_session_locator harness kind value pk at r s).sessions
unfolding write_session_locator
write-Change harness kind value pk at r s here allowed =
    let adds_path =
      is_delivery_path kind
      && not (has_endpoint pk harness kind r.runtime_generation s.session_locators) in
    after (touch_state-Change _ pk r.runtime_generation at s.sessions) (
      make_ready-Change (is_native kind) pk _ (λ r2 there.
        rw (touched_recovery adds_path pk r.runtime_generation at s.sessions r r2 here there)
          allowed))

pub put-Change :
    (harness kind value pk : String) (at : ℕ) (s t : Store)
    → put_session_locator harness kind value pk at s ≡ ok t
    → Change s.sessions t.sessions
put-Change harness kind value pk at s t h =
    let (r, here, allowed, written) = put_inversion harness kind value pk at s t h in
    rw (← written) (write-Change harness kind value pk at r s here allowed)

pub put_inbox :
    (harness kind value pk : String) (at : ℕ) (s t : Store)
    → put_session_locator harness kind value pk at s ≡ ok t
    → t.inbox ≡ s.inbox
unfolding write_session_locator
put_inbox harness kind value pk at s t h =
    let (r, here, allowed, written) = put_inversion harness kind value pk at s t h in
    ap (λ (w : Store). w.inbox) (sym written)

pub claim-Change :
    (pk harness native_resume : String) (now : ℕ) (s t : Store) (owner : String)
    → claim_native_resume_locator pk harness native_resume now s ≡ ok (t, owner)
    → Change s.sessions t.sessions
claim-Change pk harness native_resume now s t owner h =
    let (r, here, allowed, how) = claim_inversion pk harness native_resume now s t owner h in
    elim how [
      | inl (l, owned, names, kept) ↦ rw kept same
      | inr (free, claimed) ↦
          let w = claim_unowned_inversion pk harness native_resume now s t owner claimed in
          subst (Change s.sessions) (sym w.3) (
            make_ready-Change true pk s.sessions (λ r2 there. ground (arith, here, there, allowed)))
    ]

pub claim_inbox :
    (pk harness native_resume : String) (now : ℕ) (s t : Store) (owner : String)
    → claim_native_resume_locator pk harness native_resume now s ≡ ok (t, owner)
    → t.inbox ≡ s.inbox
claim_inbox pk harness native_resume now s t owner h =
    let (r, here, allowed, how) = claim_inversion pk harness native_resume now s t owner h in
    elim how [
      | inl (l, owned, names, kept) ↦ ap (λ (w : Store). w.inbox) kept
      | inr (free, claimed) ↦
          (claim_unowned_inversion pk harness native_resume now s t owner claimed).2
    ]
