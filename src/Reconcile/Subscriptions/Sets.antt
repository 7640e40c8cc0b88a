-- ===== src/Reconcile/Subscriptions/Sets.antt =====
-- Which keys the sets of the reconciler hold.
use tenex_edge.Base.{
  ℕ, true, false, ◌&&◌, ◌||◌, not, ◌≡◌, ◌==◌, refl, eq_refl, sym, ◌∙◌, inl, inr, Bool-cases,
  Option-cases, none, List, [], ◌∷◌, arith,
}
use tenex_edge.Table.{find, exists, delete}
use tenex_edge.Table.Reads.{exists-find, find_holds}
use tenex_edge.Reconcile.Subscriptions.{
  SubKey, same_key, Owners, SubscriptionReconciler, contains, contains_key, insert_key, add_owner,
  sub_id, confirm_open, confirm_close,
}
use tenex_edge.Reconcile.Subscriptions.Keys.{same_key_eq, sub_id-injective}

pub contains-insert :
    (x key : SubKey) (set : List SubKey)
    → contains x (insert_key key set) ≡ (same_key x key || contains x set)
unfolding insert_key exists
contains-insert x key [] = refl
contains-insert x key (k ∷ set) = elim (Bool-cases (same_key key k)) [
  | inl same ↦ let e : key ≡ k = same_key_eq key k same in rw same (rw (← e) (ground arith))
  | inr other ↦ ground (arith, other, contains-insert x key set)
]

pub contains_key-add :
    (x key : SubKey) (owners : Owners)
    → contains_key x (add_owner key owners) ≡ (same_key x key || contains_key x owners)
unfolding add_owner exists
contains_key-add x key [] = refl
contains_key-add x key (e ∷ owners) = elim (Bool-cases (same_key key e.0)) [
  | inl same ↦ let k : key ≡ e.0 = same_key_eq key e.0 same in rw same (rw (← k) (ground arith))
  | inr other ↦ ground (arith, other, contains_key-add x key owners)
]

contains-delete :
    (x key : SubKey) (set : List SubKey)
    → contains x (delete (same_key key) set) ≡ (contains x set && not (same_key x key))
unfolding delete exists
contains-delete x key [] = refl
contains-delete x key (k ∷ set) = elim (Bool-cases (same_key key k)) [
  | inl same ↦
      let e : key ≡ k = same_key_eq key k same in
      rw same (rw (← e) (ground (arith, contains-delete x key set)))
  | inr other ↦ elim (Bool-cases (same_key x key)) [
    | inl hit ↦
        let e : x ≡ key = same_key_eq x key hit in
        let misses : same_key x k ≡ false = rw e other in
        ground (arith, other, hit, misses, contains-delete x key set)
    | inr miss ↦ ground (arith, other, miss, contains-delete x key set)
  ]
]

-- A desired key is found by its id.
id_there :
    (key : SubKey) (owners : Owners)
    → contains_key key owners ≡ true
    → exists (λ e. sub_id e.0 == sub_id key) owners ≡ true
unfolding exists
id_there key [] h = cc h
id_there key (e ∷ owners) h = elim (Bool-cases (same_key key e.0)) [
  | inl same ↦
      let k : key ≡ e.0 = same_key_eq key e.0 same in
      rw (← k) (ground (arith, eq_refl (sub_id key)))
  | inr other ↦ ground (arith, id_there key owners (rw other at h))
]

-- A key whose id is not found is not held.
none_there :
    (x key : SubKey) (set : List SubKey)
    → find (λ k. sub_id k == sub_id key) set ≡ none
    → contains x set ≡ (contains x set && not (same_key x key))
unfolding find exists
none_there x key [] h = refl
none_there x key (k ∷ set) h = elim (Bool-cases (sub_id k == sub_id key)) [
  | inl hit ↦ ground (arith, hit, h)
  | inr miss ↦ elim (Bool-cases (same_key x key)) [
    | inl is ↦
        let e : x ≡ key = same_key_eq x key is in
        elim (Bool-cases (same_key x k)) [
          | inl both ↦
              let f : x ≡ k = same_key_eq x k both in
              let same : k ≡ key = sym f ∙ e in
              let ids : (sub_id k == sub_id key) ≡ true = rw same (eq_refl (sub_id key)) in
              ground (arith, ids, miss)
          | inr apart ↦ ground (arith, is, apart, none_there x key set (rw miss at h))
        ]
    | inr other ↦ ground (arith, other)
  ]
]

-- Confirming an opening of a desired key holds that key as well, and nothing else.
pub confirm_open_lem :
    (x key : SubKey) (r : SubscriptionReconciler)
    → contains_key key r.desired_owners ≡ true
    → (contains x (confirm_open (sub_id key) r).applied ≡ (same_key x key || contains x r.applied))
      × ((confirm_open (sub_id key) r).desired_owners ≡ r.desired_owners)
unfolding confirm_open
confirm_open_lem x key r there =
    elim (Option-cases (find (λ e. sub_id e.0 == sub_id key) r.desired_owners)) [
      | inl unknown ↦ ground (
        arith,
        unknown,
        id_there key r.desired_owners there,
        exists-find (λ (e : SubKey × ℕ). sub_id e.0 == sub_id key) r.desired_owners,
      )
      | inr (e, found) ↦
          let same : e.0 ≡ key =
            sub_id-injective e.0 key (
              find_holds (λ (e : SubKey × ℕ). sub_id e.0 == sub_id key) r.desired_owners e found) in
          rw (confirm_open, found) (rw same (contains-insert x key r.applied), refl)
    ]

-- Confirming a closing of a key holds that key no more, and every other as before.
pub confirm_close_lem :
    (x key : SubKey) (r : SubscriptionReconciler)
    → (contains x (confirm_close (sub_id key) r).applied
        ≡ (contains x r.applied && not (same_key x key)))
      × ((confirm_close (sub_id key) r).desired_owners ≡ r.desired_owners)
unfolding confirm_close
confirm_close_lem x key r = elim (Option-cases (find (λ k. sub_id k == sub_id key) r.applied)) [
  | inl unknown ↦ ground (arith, unknown, none_there x key r.applied unknown)
  | inr (k, found) ↦
      let same : k ≡ key =
        sub_id-injective k key (find_holds (λ k. sub_id k == sub_id key) r.applied k found) in
      rw (confirm_close, found) (rw same (contains-delete x key r.applied), refl)
]
