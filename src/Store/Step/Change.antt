-- ===== src/Store/Step/Change.antt =====
-- The ways in which an operation changes the table of sessions.
use tenex_edge.Base.{
  ap, ◌==◌, ℕ, String, ◌≡◌, refl, Bool, true, false, some, List, [], ◌∷◌, ◌++◌, All, All-append,
  arith,
}
use tenex_edge.Session.{Session}
use tenex_edge.Table.{find, exists, update, upsert}
use tenex_edge.Table.Keys.{HasKeys, update-HasKeys, upsert-HasKeys, append-HasKeys, All-of_exists}
use tenex_edge.Table.Rows.{
  All-update, All-upsert, Evolves, Evolves-refl, Evolves-update, Evolves-upsert_found,
  Evolves-update_found, Evolves-append, Evolves-trans,
}
use text.Mathlib.TextEquality.{eq_iff}
use tenex_edge.Store.{session_is}
use tenex_edge.Store.Result.{ok}
use tenex_edge.Store.Sessions.{
  RegisterSession, AdmittedRuntimeFacts, new_session, renew_session, next_generation,
}
use tenex_edge.Store.Coherence.{IsCoherent, new_session-IsCoherent, renew_session-IsCoherent}
use tenex_edge.Store.Step.Follows.{Follows, Follows-refl, Follows-trans, renew_session-Follows}

pub record RowChange (a b : Session) : Type 0 where
  pub follows : Follows a b
  pub coherent : IsCoherent a → IsCoherent b

abbrev pub same_session : Session → Session → Bool
same_session a b = session_is b.pubkey a

-- The primary key of `sessions`.
abbrev pub HasSessionKeys : List Session → Type 0
HasSessionKeys = HasKeys same_session

pub data Change : List Session → List Session → Type 0 where
  same : {t : List Session} → Change t t
  rows :
      {t : List Session} (p : Session → Bool) (f : Session → Session)
      → ((r : Session) → p r ≡ true → RowChange r (f r))
      → Change t (update p f t)
  reserved :
      {t : List Session} (r : RegisterSession) (facts : AdmittedRuntimeFacts) (generation : ℕ)
      → next_generation (find (session_is r.pubkey) t) ≡ ok generation
      → Change t (
          upsert
            (session_is r.pubkey)
            (new_session r facts generation)
            (renew_session r facts generation)
            t)
  -- an update of the one row of a key, whose checks the operation made on that row
  found :
      {t : List Session} (pk : String) (f : Session → Session)
      → ((r : Session) → find (session_is pk) t ≡ some r → Follows r (f r))
      → ((r : Session) → (f r).pubkey ≡ r.pubkey)
      → ((r : Session) → IsCoherent r → IsCoherent (f r))
      → Change t (update (session_is pk) f t)
  -- a row of a new key
  added :
      {t : List Session} (r : Session)
      → exists (session_is r.pubkey) t ≡ false
      → IsCoherent r
      → Change t (t ++ r ∷ [])
  after : {t u v : List Session} → Change t u → Change u v → Change t v

-- Two rows with the key that a statement names have the same key.
pub session_is-same :
    (pk : String) (a b : Session)
    → session_is pk a ≡ true
    → session_is pk b ≡ true
    → same_session a b ≡ true
session_is-same pk a b h k =
    ground (arith, eq_iff a.pubkey pk, eq_iff b.pubkey pk, eq_iff a.pubkey b.pubkey)

pub Change-keys : {t u : List Session} → Change t u → HasSessionKeys t → HasSessionKeys u
unfolding new_session renew_session
Change-keys same k = k
Change-keys {t} (rows p f step) k =
    update-HasKeys same_session p f t
      (λ a b hit. ap (λ k. k == b.pubkey) (step a hit).follows.same_pubkey)
      (λ a b hit. ap (λ k. a.pubkey == k) (step b hit).follows.same_pubkey) k
Change-keys {t} (reserved r facts g e) k =
    upsert-HasKeys same_session (session_is r.pubkey) (new_session r facts g)
      (renew_session r facts g) t (λ x. refl) (λ a b hit. refl) (λ a b hit. refl) k
Change-keys {t} (found pk f step key step_coherent) k =
    update-HasKeys same_session (session_is pk) f t (λ a b hit. ap (λ k. k == b.pubkey) (key a))
      (λ a b hit. ap (λ k. a.pubkey == k) (key b)) k
Change-keys {t} (added r new c) k =
    append-HasKeys same_session r t k
      (All-of_exists same_session (session_is r.pubkey) r t (λ x. refl) new)
Change-keys {t} (after c d) k = Change-keys d (Change-keys c k)

pub Change-IsCoherent : {t u : List Session} → Change t u → All IsCoherent t → All IsCoherent u
Change-IsCoherent same h = h
Change-IsCoherent {t} (rows p f step) h =
    All-update IsCoherent p f t (λ r hit c. (step r hit).coherent c) h
Change-IsCoherent {t} (reserved r facts g e) h =
    All-upsert IsCoherent (session_is r.pubkey) (new_session r facts g) (renew_session r facts g) t
      (new_session-IsCoherent r facts g) (λ x hit c. renew_session-IsCoherent r facts g x) h
Change-IsCoherent {t} (found pk f step key step_coherent) h =
    All-update IsCoherent (session_is pk) f t (λ r hit c. step_coherent r c) h
Change-IsCoherent {t} (added r new c) h = All-append IsCoherent t (r ∷ []) h (c, tt)
Change-IsCoherent {t} (after c d) h = Change-IsCoherent d (Change-IsCoherent c h)

pub Change-Evolves : {t u : List Session} → Change t u → HasSessionKeys t → Evolves Follows t u
Change-Evolves {t} same k = Evolves-refl Follows Follows-refl t
Change-Evolves {t} (rows p f step) k =
    Evolves-update Follows Follows-refl p f t (λ r hit. (step r hit).follows)
Change-Evolves {t} (reserved r facts g e) k =
    Evolves-upsert_found Follows Follows-refl same_session (session_is r.pubkey)
      (new_session r facts g) (renew_session r facts g) t (session_is-same r.pubkey) k
      (λ a found. renew_session-Follows r facts g a (rw found at e))
Change-Evolves {t} (found pk f step key step_coherent) k =
    Evolves-update_found Follows Follows-refl same_session (session_is pk) f t (session_is-same pk)
      k step
Change-Evolves {t} (added r new c) k = Evolves-append Follows Follows-refl t (r ∷ [])
Change-Evolves {t} (after {u = m} {v = u} c d) k =
    Evolves-trans Follows Follows-trans t m u (Change-Evolves c k)
      (Change-Evolves d (Change-keys c k))
