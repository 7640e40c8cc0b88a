-- ===== src/Store/Handles/Leases.antt =====
-- Whose lease an allocation may touch.
use tenex_edge.Base.{
  ℕ, ◌-◌, String, ◌≡◌, refl, inl, inr, Bool, true, false, ◌&&◌, ◌||◌, Bool-cases, Option,
  Option-cases, none, some, List, [], ◌∷◌, ◌==◌, ltb, arith, eq_iff, eq_refl, is_some,
}
use tenex_edge.Session.{Session}
use tenex_edge.Table.{find, delete}
use tenex_edge.Table.Rows.{All-find}
use tenex_edge.Table.Keys.{HasKeys}
use tenex_edge.Table.Reads.{find-append, find_one}
use tenex_edge.Store.{HandleLease}
use tenex_edge.Store.Handles.{
  handle_is, lease_is_of, is_occupied, offer, handle_lease_grace_secs, live_lease, lease_handle,
}

-- The primary key, and the unique column `pubkey`.
abbrev pub same_lease : HandleLease → HandleLease → Bool
same_lease a b = a.handle == b.handle || a.pubkey == b.pubkey

abbrev pub HasLeaseKeys : List HandleLease → Type 0
HasLeaseKeys = HasKeys same_lease

-- A lease that may not be taken: it is live, its session runs, or it is within its grace.
abbrev pub is_held : ℕ → List Session → HandleLease → Bool
is_held now sessions l =
    is_occupied sessions l || ltb (now - l.last_active_at) handle_lease_grace_secs

module _ {ℓ} {R : Type ℓ} (q p : R → Bool) where
  none_left : (t : List R) → find q t ≡ none → find q (delete p t) ≡ none
  unfolding find delete
  none_left [] h = refl
  none_left (x ∷ t) h = ground (arith, h, none_left t)

  -- Deleting rows that do not include the one that is found.
  find-delete_found :
      (t : List R) (r : R) → find q t ≡ some r → p r ≡ false → find q (delete p t) ≡ some r
  unfolding find delete
  find-delete_found [] r h k = cc h
  find-delete_found (x ∷ t) r h k = elim (Bool-cases (q x)) [
    | inl hit ↦ ground (arith, h, hit, k)
    | inr miss ↦ ground (arith, miss, find-delete_found t r (rw miss at h) k)
  ]

-- Two leases that are found and have one handle are one lease.
one_lease :
    (a b : String) (t : List HandleLease) (l m : HandleLease)
    → HasLeaseKeys t
    → find (lease_is_of a) t ≡ some l
    → find (handle_is b) t ≡ some m
    → handle_is b l ≡ true
    → l ≡ m
unfolding find
one_lease a b [] l m k f g e = cc f
one_lease a b (x ∷ t) l m k f g e = elim (Bool-cases (lease_is_of a x)) [
  | inl of_a ↦ elim (Bool-cases (handle_is b x)) [
    | inl has_b ↦ ground (arith, f, g, of_a, has_b)
    | inr not_b ↦ ground (arith, f, of_a, e, not_b)
  ]
  | inr not_a ↦ elim (Bool-cases (handle_is b x)) [
    | inl has_b ↦
        let apart : same_lease x l ≡ false =
          All-find (λ y. same_lease x y ≡ false) (lease_is_of a) t l k.0 (rw not_a at f) in
        ground
          (arith, apart, has_b, e, eq_iff x.handle b, eq_iff l.handle b, eq_iff x.handle l.handle)
    | inr not_b ↦ one_lease a b t l m k.1 (rw not_a at f) (rw not_b at g) e
  ]
]

-- A lease that may not be taken is not what an offer gives up.
pub offer_spares :
    (now : ℕ) (h : String) (sessions : List Session) (t : List HandleLease) (other : String)
    (l : HandleLease) (o : Option String)
    → HasLeaseKeys t
    → find (lease_is_of other) t ≡ some l
    → is_held now sessions l ≡ true
    → offer now sessions (find (handle_is h) t) ≡ some o
    → (is_some o && handle_is h l) ≡ false
unfolding offer
offer_spares now h sessions t other l none k f held offered = refl
offer_spares now h sessions t other l (some p) k f held offered =
    elim (Option-cases (find (handle_is h) t)) [
      | inl free ↦ ground (arith, free, offered)
      | inr (m, taken) ↦ elim (Bool-cases (handle_is h l)) [
        | inl same ↦ ground (arith, taken, offered, held, one_lease other h t l m k f taken same)
        | inr apart ↦ apart
      ]
    ]

-- Leasing a handle keeps every lease of another pubkey but the reclaimed one.
pub lease_keeps :
    (h pubkey agent_slug : String) (now : ℕ) (t : List HandleLease) (other : String)
    (l : HandleLease) (o : Option String)
    → find (lease_is_of other) t ≡ some l
    → (is_some o && handle_is h l) ≡ false
    → find (lease_is_of other) (lease_handle h o pubkey agent_slug now t) ≡ some l
unfolding lease_handle
lease_keeps h pubkey agent_slug now t other l none f spared =
    ground (arith, f, find-append (lease_is_of other) t (live_lease h pubkey agent_slug now ∷ []))
lease_keeps h pubkey agent_slug now t other l (some p) f spared = ground (
  arith,
  find-delete_found (lease_is_of other) (handle_is h) t l f spared,
  find-append (lease_is_of other) (delete (handle_is h) t)
      (live_lease h pubkey agent_slug now ∷ []),
)

-- The lease that an allocation leaves to the pubkey it is for.
pub own_lease :
    (h pubkey agent_slug : String) (now : ℕ) (t : List HandleLease) (o : Option String)
    → find (lease_is_of pubkey) t ≡ none
    → find (lease_is_of pubkey) (lease_handle h o pubkey agent_slug now t)
      ≡ some (live_lease h pubkey agent_slug now)
unfolding lease_handle
own_lease h pubkey agent_slug now t none f = ground (
  arith,
  f,
  eq_refl pubkey,
  find-append (lease_is_of pubkey) t (live_lease h pubkey agent_slug now ∷ []),
  find_one (lease_is_of pubkey) (live_lease h pubkey agent_slug now),
)
own_lease h pubkey agent_slug now t (some p) f = ground (
  arith,
  none_left (lease_is_of pubkey) (handle_is h) t f,
  eq_refl pubkey,
  find-append (lease_is_of pubkey) (delete (handle_is h) t)
      (live_lease h pubkey agent_slug now ∷ []),
  find_one (lease_is_of pubkey) (live_lease h pubkey agent_slug now),
)
