-- ===== src/Reconcile/Subscriptions/Plans.antt =====
-- Planning, and confirming what was planned.
use tenex_edge.Base.{
  sym, ◌++◌, ℕ, true, false, ◌&&◌, ◌||◌, not, ◌≡◌, refl, ap, ◌∙◌, inl, inr, Bool-cases,
  Option-cases, some, List, [], ◌∷◌, ◌++◌, arith, All, is_some,
}
use tenex_edge.Table.{exists}
use tenex_edge.Reconcile.Subscriptions.{
  sub_key, channel_h, CoverageSnapshot, plan, desired_owners, SubKey, same_key, Owners,
  SubscriptionReconciler, SubEffect, open_query, contains, contains_key, sub_id, sub_query,
  open_effect, open_effects, close_effects, confirm_open, confirm_close, confirm,
}
use tenex_edge.Reconcile.Subscriptions.Keys.{same_key_refl, same_key_eq}
use tenex_edge.Reconcile.Subscriptions.Sets.{confirm_open_lem, confirm_close_lem}

-- Every effect of a plan is confirmed, in order.
abbrev pub confirm_all : List SubEffect → SubscriptionReconciler → SubscriptionReconciler
confirm_all [] r = r
confirm_all (effect ∷ rest) r = confirm_all rest (confirm effect r)

confirm_all-append :
    (es fs : List SubEffect) (r : SubscriptionReconciler)
    → confirm_all (es ++ fs) r ≡ confirm_all fs (confirm_all es r)
confirm_all-append [] fs r = refl
confirm_all-append (e ∷ es) fs r = confirm_all-append es fs (confirm e r)

-- The key has a query: opening it does not panic.
abbrev pub HasQuery : SubKey → Type 0
HasQuery key = is_some (sub_query key) ≡ true

-- What opening the missing keys of `owners` holds afterwards.
Opened : List SubKey → Owners → SubscriptionReconciler → SubscriptionReconciler → SubKey → Type 0
Opened applied owners r t x =
    contains x t.applied
    ≡ (contains x r.applied || contains_key x owners && not (contains x applied))

contains-same :
    (x k : SubKey) (set : List SubKey) → same_key x k ≡ true → contains x set ≡ contains k set
contains-same x k set h = ap (λ (y : SubKey). contains y set) (same_key_eq x k h)

contains_key-same :
    (x k : SubKey) (owners : Owners)
    → same_key x k ≡ true
    → contains_key x owners ≡ contains_key k owners
contains_key-same x k owners h = ap (λ (y : SubKey). contains_key y owners) (same_key_eq x k h)

-- The first of the desired keys, and the rest.
opens_one :
    (applied : List SubKey) (e : SubKey × ℕ) (owners : Owners) (r : SubscriptionReconciler)
    (es : List SubEffect)
    → HasQuery e.0
    → open_effects applied owners ≡ some es
    → (contains e.0 applied ≡ false)
    → (f : SubEffect) × (open_effects applied (e ∷ owners) ≡ some (f ∷ es))
      × (confirm f r ≡ confirm_open (sub_id e.0) r)
unfolding open_effects open_effect confirm
opens_one applied e owners r es query rest missing = elim (Option-cases (sub_query e.0)) [
  | inl panics ↦ ground (arith, panics, query)
  | inr (q, is) ↦ (open_query (sub_id e.0) q, ground (arith, is, rest, missing), refl)
]

opens_step :
    (applied : List SubKey) (e : SubKey × ℕ) (owners : Owners) (r : SubscriptionReconciler)
    (f : SubEffect) (es : List SubEffect) (x : SubKey)
    → confirm f r ≡ confirm_open (sub_id e.0) r
    → contains_key e.0 r.desired_owners ≡ true
    → contains e.0 applied ≡ false
    → Opened applied owners
        (confirm_open (sub_id e.0) r)
        (confirm_all es (confirm_open (sub_id e.0) r))
        x
    → Opened applied (e ∷ owners) r (confirm_all (f ∷ es) r) x
unfolding Opened exists
opens_step applied e owners r f es x does wanted missing held = ground (
  arith,
  held,
  (confirm_open_lem x e.0 r wanted).0,
  missing,
  contains-same x e.0 applied,
  ap (λ (t : SubscriptionReconciler). contains x (confirm_all es t).applied) does,
)

opens_kept :
    (e : SubKey × ℕ) (r : SubscriptionReconciler) (f : SubEffect) (es : List SubEffect)
    → confirm f r ≡ confirm_open (sub_id e.0) r
    → contains_key e.0 r.desired_owners ≡ true
    → (confirm_all es (confirm_open (sub_id e.0) r)).desired_owners
      ≡ (confirm_open (sub_id e.0) r).desired_owners
    → (confirm_all (f ∷ es) r).desired_owners ≡ r.desired_owners
opens_kept e r f es does wanted kept =
    ap (λ (t : SubscriptionReconciler). (confirm_all es t).desired_owners) does
    ∙ kept
    ∙ (confirm_open_lem e.0 e.0 r wanted).1

opens_confirmed :
    (applied : List SubKey) (owners : Owners) (r : SubscriptionReconciler)
    → All (λ e. HasQuery e.0) owners
    → ((x : SubKey) → contains_key x owners ≡ true → contains_key x r.desired_owners ≡ true)
    → (es : List SubEffect) × (open_effects applied owners ≡ some es)
      × ((confirm_all es r).desired_owners ≡ r.desired_owners)
      × ((x : SubKey) → Opened applied owners r (confirm_all es r) x)
unfolding open_effects Opened exists
opens_confirmed applied [] r queries within = ([], refl, refl, λ x. ground arith)
opens_confirmed applied (e ∷ owners) r queries within = elim (Bool-cases (contains e.0 applied)) [
  | inl there ↦
      let (es, planned, kept, held) =
        opens_confirmed applied owners r queries.1 (λ x h. within x (ground (arith, h))) in
      (
        es,
        ground (arith, planned, there),
        kept,
        λ x. ground (arith, held x, there, contains-same x e.0 applied),
      )
  | inr missing ↦
      let wanted = within e.0 (ground (arith, same_key_refl e.0)) in
      let same = (confirm_open_lem e.0 e.0 r wanted).1 in
      let (es, planned, kept, held) =
        opens_confirmed applied owners (confirm_open (sub_id e.0) r) queries.1
          (λ x h. rw same (within x (ground (arith, h)))) in
      let (f, now, does) = opens_one applied e owners r es queries.0 planned missing in
      (
        f ∷ es,
        now,
        opens_kept e r f es does wanted kept,
        λ x. opens_step applied e owners r f es x does wanted missing (held x),
      )
]

closes_confirmed :
    (x : SubKey) (desired : Owners) (applied : List SubKey) (r : SubscriptionReconciler)
    → (contains x (confirm_all (close_effects desired applied) r).applied
        ≡ (contains x r.applied && not (contains x applied && not (contains_key x desired))))
      × ((confirm_all (close_effects desired applied) r).desired_owners ≡ r.desired_owners)
unfolding close_effects confirm exists
closes_confirmed x desired [] r = (ground arith, refl)
closes_confirmed x desired (k ∷ applied) r = elim (Bool-cases (contains_key k desired)) [
  | inl wanted ↦
      let rest = closes_confirmed x desired applied r in
      rw wanted (ground (arith, rest.0, wanted, contains_key-same x k desired), rest.1)
  | inr unwanted ↦
      let first = confirm_close_lem x k r in
      let rest = closes_confirmed x desired applied (confirm_close (sub_id k) r) in
      rw unwanted
        (ground (arith, rest.0, first.0, unwanted, contains_key-same x k desired), rest.1 ∙ first.1)
]

-- Where every desired key is held, nothing is opened, and where every held key is desired, nothing is
-- closed.
opens_none :
    (applied : List SubKey) (owners : Owners)
    → ((x : SubKey) → contains_key x owners ≡ true → contains x applied ≡ true)
    → open_effects applied owners ≡ some []
unfolding open_effects exists
opens_none applied [] held = refl
opens_none applied (e ∷ owners) held = ground (
  arith,
  opens_none applied owners (λ x h. held x (ground (arith, h))),
  held e.0 (ground (arith, same_key_refl e.0)),
)

closes_none :
    (desired : Owners) (applied : List SubKey)
    → ((x : SubKey) → contains x applied ≡ true → contains_key x desired ≡ true)
    → close_effects desired applied ≡ []
unfolding close_effects exists
closes_none desired [] wanted = refl
closes_none desired (k ∷ applied) wanted = ground (
  arith,
  closes_none desired applied (λ x h. wanted x (ground (arith, h))),
  wanted k (ground (arith, same_key_refl k)),
)

-- The store of a plan.
abbrev pub planned : CoverageSnapshot → SubscriptionReconciler → SubscriptionReconciler
planned snapshot r = record r { desired_owners = desired_owners snapshot }

plan_opens :
    (snapshot : CoverageSnapshot) (r : SubscriptionReconciler) (opens : List SubEffect)
    → open_effects r.applied (desired_owners snapshot) ≡ some opens
    → plan snapshot r
      ≡ some (planned snapshot r, opens ++ close_effects (desired_owners snapshot) r.applied)
unfolding plan
plan_opens snapshot r opens h = rw h refl

effects_kept :
    (desired : Owners) (applied : List SubKey) (r : SubscriptionReconciler) (opens : List SubEffect)
    → (confirm_all opens r).desired_owners ≡ desired
    → (confirm_all (opens ++ close_effects desired applied) r).desired_owners ≡ desired
effects_kept desired applied r opens kept =
    ap (λ (t : SubscriptionReconciler). t.desired_owners)
      (confirm_all-append opens (close_effects desired applied) r)
    ∙ (closes_confirmed (sub_key channel_h "") desired applied (confirm_all opens r)).1
    ∙ kept

effects_held :
    (desired : Owners) (applied : List SubKey) (r : SubscriptionReconciler) (opens : List SubEffect)
    (x : SubKey)
    → r.applied ≡ applied
    → Opened applied desired r (confirm_all opens r) x
    → contains x (confirm_all (opens ++ close_effects desired applied) r).applied
      ≡ contains_key x desired
unfolding Opened
effects_held desired applied r opens x same held =
    ap (λ (t : SubscriptionReconciler). contains x t.applied)
      (confirm_all-append opens (close_effects desired applied) r)
    ∙ ground (
      arith,
      held,
      ap (contains x) same,
      (closes_confirmed x desired applied (confirm_all opens r)).0,
    )

-- Where opening never panics, a plan exists, and once all its effects are confirmed the keys that are
-- held are the desired ones.
pub plan_holds :
    (snapshot : CoverageSnapshot) (r : SubscriptionReconciler)
    → All (λ e. HasQuery e.0) (desired_owners snapshot)
    → (es : List SubEffect) × (plan snapshot r ≡ some (planned snapshot r, es))
      × ((confirm_all es (planned snapshot r)).desired_owners ≡ desired_owners snapshot)
      × ((x : SubKey)
          → contains x (confirm_all es (planned snapshot r)).applied
            ≡ contains_key x (desired_owners snapshot))
plan_holds snapshot r queries =
    let (opens, is, kept, held) =
      opens_confirmed r.applied (desired_owners snapshot) (planned snapshot r) queries (λ x h. h) in
    (
      opens ++ close_effects (desired_owners snapshot) r.applied,
      plan_opens snapshot r opens is,
      effects_kept (desired_owners snapshot) r.applied (planned snapshot r) opens kept,
      λ x.
          effects_held (desired_owners snapshot) r.applied (planned snapshot r) opens x refl
            (held x),
    )

-- A plan over exactly the desired keys has no effect.
pub plan_rests :
    (snapshot : CoverageSnapshot) (r : SubscriptionReconciler)
    → r.desired_owners ≡ desired_owners snapshot
    → ((x : SubKey) → contains x r.applied ≡ contains_key x (desired_owners snapshot))
    → plan snapshot r ≡ some (r, [])
plan_rests snapshot r same held =
    plan_opens snapshot r [] (opens_none r.applied (desired_owners snapshot) (λ x h. held x ∙ h))
    ∙ rw (closes_none (desired_owners snapshot) r.applied (λ x h. sym (held x) ∙ h)) (rw same refl)
