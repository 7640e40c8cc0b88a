-- ===== src/Store/WorkStart/OneShot.antt =====
-- Taking every open hand-off of a recipient leaves none: each is handed out once.
use tenex_edge.Base.{
  ℕ, String, ◌≡◌, refl, ◌∙◌, ap, inl, inr, Bool, true, false, not, ◌&&◌, ◌||◌, ◌==◌, Bool-cases,
  none, List, [], ◌∷◌, arith, All, eq_refl, eq_iff,
}
use tenex_edge.Table.{find, exists, select, update}
use tenex_edge.Table.Order.{place, sort_by}
use tenex_edge.Table.Rows.{All-update}
use tenex_edge.Table.Idle.{All-none_after}
use tenex_edge.Store.{Store, EventClaim, is_claim_pending}
use tenex_edge.Store.WorkStart.{
  WorkStartClaim, claim_key, is_open_claim, complete_claim, staged_order, claims_of, candidates_for,
  candidates, complete_each, take_work_start_claims_for_events,
}

module _ {ℓ} {R : Type ℓ} (le : R → R → Bool) (q : R → Bool) where
  exists-place : (r : R) (t : List R) → exists q (place le r t) ≡ (q r || exists q t)
  unfolding exists place
  exists-place r [] = refl
  exists-place r (x ∷ t) = ground (arith, exists-place r t)

  exists-sort_by : (t : List R) → exists q (sort_by le t) ≡ exists q t
  unfolding exists sort_by
  exists-sort_by [] = refl
  exists-sort_by (r ∷ t) = exists-place r (sort_by le t) ∙ ap (λ b. q r || b) (exists-sort_by t)

-- `claim_key=?1 AND state='pending'`
abbrev is_open : String → EventClaim → Bool
is_open key r = r.claim_key == key && is_claim_pending r.state

abbrev names : String → WorkStartClaim → Bool
names event_id c = c.event_id == event_id

-- Two facts of every row.
All-both {ℓ} :
    {R : Type ℓ} (P Q S : R → Type 0) (t : List R)
    → ((r : R) → P r → Q r → S r)
    → All P t
    → All Q t
    → All S t
All-both P Q S [] join h k = tt
All-both P Q S (x ∷ t) join h k = (join x h.0 k.0, All-both P Q S t join h.1 k.1)

module _ (key : String) (now : ℕ) where
  -- Completing the claim of an event closes the rows that it names.
  named_closed :
      (c : WorkStartClaim) (t : List EventClaim)
      → All
          (λ r. (is_open key r && names r.event_id c) ≡ false)
          (update (is_open_claim c.event_id key) (complete_claim now) t)
  unfolding is_claim_pending
  named_closed c t =
      All-none_after (λ r. is_open key r && names r.event_id c) (is_open_claim c.event_id key)
        (complete_claim now) t (λ r hit. ground arith)
        (λ r miss. ground (arith, eq_iff r.event_id c.event_id, eq_iff c.event_id r.event_id))

  -- What no completion can undo, every later one keeps.
  complete_each-All :
      (P : EventClaim → Type 0) (cs : List WorkStartClaim) (t : List EventClaim)
      → ((r : EventClaim) → P (complete_claim now r))
      → All P t
      → All P (complete_each cs key now t).0
  unfolding complete_each
  complete_each-All P [] t closed h = h
  complete_each-All P (c ∷ cs) t closed h =
      complete_each-All P cs (update (is_open_claim c.event_id key) (complete_claim now) t) closed
        (All-update P (is_open_claim c.event_id key) (complete_claim now) t (λ r hit k. closed r) h)

  -- No row is open that a candidate names.
  complete_each-closes :
      (cs : List WorkStartClaim) (t : List EventClaim)
      → All
          (λ r. (is_open key r && exists (names r.event_id) cs) ≡ false)
          (complete_each cs key now t).0
  unfolding complete_each exists is_claim_pending
  complete_each-closes [] t = closed_all t
    where
      closed_all : (u : List EventClaim) → All (λ r. (is_open key r && false) ≡ false) u
      closed_all [] = tt
      closed_all (x ∷ u) = (ground arith, closed_all u)
  complete_each-closes (c ∷ cs) t =
      let u = update (is_open_claim c.event_id key) (complete_claim now) t in
      All-both (λ r. (is_open key r && names r.event_id c) ≡ false)
        (λ r. (is_open key r && exists (names r.event_id) cs) ≡ false)
        (λ r. (is_open key r && (names r.event_id c || exists (names r.event_id) cs)) ≡ false)
        (complete_each cs key now u).0 (λ r h k. ground arith)
        (complete_each-All (λ r. (is_open key r && names r.event_id c) ≡ false) cs u
          (λ r. ground arith) (named_closed c t))
        (complete_each-closes cs u)

  -- Rows that are closed stay closed, and an open one is named by a candidate.
  complete_each-named :
      (E : String → Bool) (cs : List WorkStartClaim) (t : List EventClaim)
      → All (λ r. (is_open key r && not (E r.event_id)) ≡ false) t
      → All (λ r. (is_open key r && not (E r.event_id)) ≡ false) (complete_each cs key now t).0
  unfolding is_claim_pending
  complete_each-named E cs t h =
      complete_each-All (λ r. (is_open key r && not (E r.event_id)) ≡ false) cs t
        (λ r. ground arith) h

-- Every open row is among the selected ones.
open_selected :
    (key : String) (E : String → Bool) (t : List EventClaim)
    → ((e : String) → exists (λ r. r.event_id == e) (select (is_open key) t) ≡ true → E e ≡ true)
    → All (λ r. (is_open key r && not (E r.event_id)) ≡ false) t
unfolding select exists
open_selected key E [] within = tt
open_selected key E (x ∷ t) within = elim (Bool-cases (is_open key x)) [
  | inl opened ↦
      let here : E x.event_id ≡ true = within x.event_id (rw (opened, eq_refl x.event_id) refl) in
      (
        rw (opened, here) refl,
        open_selected key E t (λ e h. within e (rw (opened, h) (ground arith))),
      )
  | inr closed ↦ (rw closed refl, open_selected key E t (λ e h. within e (rw (closed, h) refl)))
]

exists-claims_of :
    (e : String) (t : List EventClaim)
    → exists (names e) (claims_of t) ≡ exists (λ r. r.event_id == e) t
unfolding exists
exists-claims_of e [] = refl
exists-claims_of e (x ∷ t) = ap (λ b. x.event_id == e || b) (exists-claims_of e t)

named_when_open :
    (key : String) (t : List EventClaim)
    → All (λ r. (is_open key r && not (exists (names r.event_id) (candidates [] key t))) ≡ false) t
unfolding candidates
named_when_open key t =
    open_selected key (λ e. exists (names e) (candidates [] key t)) t
      (λ e h.
        exists-claims_of e (sort_by staged_order (select (is_open key) t))
        ∙ exists-sort_by staged_order (λ r. r.event_id == e) (select (is_open key) t)
        ∙ h)

-- After every candidate was completed, no row is open.
none_open :
    (key : String) (now : ℕ) (t : List EventClaim)
    → All (λ r. is_open key r ≡ false) (complete_each (candidates [] key t) key now t).0
none_open key now t =
    let cs = candidates [] key t in
    All-both (λ r. (is_open key r && exists (names r.event_id) cs) ≡ false)
      (λ r. (is_open key r && not (exists (names r.event_id) cs)) ≡ false)
      (λ r. is_open key r ≡ false) (complete_each cs key now t).0 (λ r h k. ground arith)
      (complete_each-closes key now cs t)
      (complete_each-named key now (λ e. exists (names e) cs) cs t (named_when_open key t))

closed_select :
    (key : String) (t : List EventClaim)
    → All (λ r. is_open key r ≡ false) t
    → select (is_open key) t ≡ []
unfolding select
closed_select key [] h = refl
closed_select key (x ∷ t) h = rw (h.0, closed_select key t h.1) refl

closed_find :
    (ev key : String) (t : List EventClaim)
    → All (λ r. is_open key r ≡ false) t
    → find (is_open_claim ev key) t ≡ none
unfolding find
closed_find ev key [] h = refl
closed_find ev key (x ∷ t) h =
    let misses : is_open_claim ev key x ≡ false = ground (arith, h.0) in
    rw misses (closed_find ev key t h.1)

closed_candidates :
    (ids : List String) (key : String) (t : List EventClaim)
    → All (λ r. is_open key r ≡ false) t
    → candidates_for ids key t ≡ []
unfolding candidates_for
closed_candidates [] key t h = refl
closed_candidates (ev ∷ ids) key t h =
    rw (closed_find ev key t h, candidates_for) (closed_candidates ids key t h)

no_candidates :
    (ids : List String) (key : String) (t : List EventClaim)
    → All (λ r. is_open key r ≡ false) t
    → candidates ids key t ≡ []
unfolding candidates sort_by
no_candidates [] key t h = ap (λ u. claims_of (sort_by staged_order u)) (closed_select key t h)
no_candidates (ev ∷ ids) key t h = closed_candidates (ev ∷ ids) key t h

-- In the store that a recipient leaves by taking every open hand-off, taking again hands out nothing,
-- whether it asks for all of them or for the ones of given events, and at whatever time.
pub work_taken_once :
    (target : String) (ids : List String) (now now' : ℕ) (s : Store)
    → (take_work_start_claims_for_events target ids now'
        (take_work_start_claims_for_events target [] now s).0).1
      ≡ []
unfolding take_work_start_claims_for_events complete_each
work_taken_once target ids now now' s =
    let t =
      (complete_each (candidates [] (claim_key target) s.event_claims) (claim_key target) now
        s.event_claims).0 in
    ap (λ cs. (complete_each cs (claim_key target) now' t).1)
      (no_candidates ids (claim_key target) t (none_open (claim_key target) now s.event_claims))
