-- ===== src/Store/Step/Keeps.antt =====
-- The writes of the inbox keep what was recorded in it and is not old.
use tenex_edge.Base.{
  ℕ, ◌≤◌, String, ◌≡◌, refl, ◌∙◌, inl, inr, Bool, true, false, ◌&&◌, ◌||◌, ◌=?◌, leb, arith,
  Bool-cases, List, [], ◌∷◌, if◌then◌else◌,
}
use tenex_edge.Table.{exists, update, insert_or_ignore, delete}
use tenex_edge.Table.Idle.{exists-update_grows, exists-append, exists-delete_other}
use tenex_edge.Store.{Store, InboxRow, inbox_is}
use tenex_edge.Store.Delivery.{claim_each, reenqueue_each, inject_each, consume_each, deliver_row}
use tenex_edge.Store.Retention.{is_old_inbox}

-- The row of an event for a recipient, where it is not delivered or was at `from` or later.
abbrev pub is_recent : ℕ → String → String → InboxRow → Bool
is_recent from ev tgt r = inbox_is ev tgt r && (r.delivered_at =? 0 || leb from r.delivered_at)

-- Every event that `t` holds for a recipient, and that is not old, `u` holds for it so.
abbrev pub Keeps : ℕ → List InboxRow → List InboxRow → Type 0
Keeps from t u =
    (ev tgt : String)
    → exists (is_recent from ev tgt) t ≡ true
    → exists (is_recent from ev tgt) u ≡ true

module _ (from : ℕ) where
  pub Keeps-refl : (t : List InboxRow) → Keeps from t t
  Keeps-refl t = λ ev tgt h. h

  pub Keeps-trans : (t u v : List InboxRow) → Keeps from t u → Keeps from u v → Keeps from t v
  Keeps-trans t u v h k = λ ev tgt e. k ev tgt (h ev tgt e)

  pub Keeps-update :
      (p : InboxRow → Bool) (f : InboxRow → InboxRow) (t : List InboxRow)
      → ((ev tgt : String) (r : InboxRow)
          → p r ≡ true
          → is_recent from ev tgt r ≡ true
          → is_recent from ev tgt (f r) ≡ true)
      → Keeps from t (update p f t)
  Keeps-update p f t same =
      λ ev tgt h. exists-update_grows (is_recent from ev tgt) p f t (same ev tgt) h

  pub Keeps-deliver :
      (p : InboxRow → Bool) (now : ℕ) (t : List InboxRow)
      → from ≤ now
      → Keeps from t (update p (deliver_row now) t)
  Keeps-deliver p now t later =
      Keeps-update p (deliver_row now) t (λ ev tgt r hit h. ground (arith, h, later))

  pub Keeps-insert :
      (q : InboxRow → Bool) (r : InboxRow) (t : List InboxRow)
      → Keeps from t (insert_or_ignore q r t)
  unfolding insert_or_ignore
  Keeps-insert q r t = λ ev tgt h. elim (Bool-cases (exists q t)) [
    | inl old ↦ rw old h
    | inr new ↦ rw (new, exists-append (is_recent from ev tgt) t (r ∷ []), h) refl
  ]

  -- Pruning before a time spares what was delivered at it or later.
  pub Keeps-prune :
      (before : ℕ) (t : List InboxRow)
      → before ≤ from
      → Keeps from t (delete (is_old_inbox before) t)
  unfolding is_old_inbox
  Keeps-prune before t early = λ ev tgt h.
      exists-delete_other (is_recent from ev tgt) (is_old_inbox before) t
        (λ r hit. ground (arith, hit, early))
      ∙ h

  pub Keeps-claim_each :
      (ids : List String) (tgt : String) (now : ℕ) (t : List InboxRow)
      → from ≤ now
      → Keeps from t (claim_each ids tgt now t).0
  unfolding claim_each
  Keeps-claim_each [] tgt now t later = Keeps-refl t
  Keeps-claim_each (ev ∷ ids) tgt now t later =
      Keeps-trans t _ _ (Keeps-deliver _ now t later) (Keeps-claim_each ids tgt now _ later)

  pub Keeps-reenqueue_each :
      (ids : List String) (tgt : String) (t : List InboxRow)
      → Keeps from t (reenqueue_each ids tgt t)
  unfolding reenqueue_each
  Keeps-reenqueue_each [] tgt t = Keeps-refl t
  Keeps-reenqueue_each (ev ∷ ids) tgt t =
      Keeps-trans t _ _ (Keeps-update _ _ t (λ e g r hit h. ground (arith, h)))
        (Keeps-reenqueue_each ids tgt _)

  pub Keeps-inject_each :
      (ids : List String) (tgt : String) (t : List InboxRow) → Keeps from t (inject_each ids tgt t)
  unfolding inject_each
  Keeps-inject_each [] tgt t = Keeps-refl t
  Keeps-inject_each (ev ∷ ids) tgt t =
      Keeps-trans t _ _ (Keeps-update _ _ t (λ e g r hit h. h)) (Keeps-inject_each ids tgt _)

  pub Keeps-consume_each :
      (ids : List String) (tgt : String) (t : List InboxRow) → Keeps from t (consume_each ids tgt t)
  unfolding consume_each
  Keeps-consume_each [] tgt t = Keeps-refl t
  Keeps-consume_each (ev ∷ ids) tgt t =
      Keeps-trans t _ _ (Keeps-update _ _ t (λ e g r hit h. h)) (Keeps-consume_each ids tgt _)

  -- Either branch.
  pub if-Keeps :
      (t : List InboxRow) (b : Bool) (x y : Store)
      → Keeps from t x.inbox
      → Keeps from t y.inbox
      → Keeps from t (if b then x else y).inbox
  if-Keeps t true x y h k = h
  if-Keeps t false x y h k = k

  pub if-Keeps_pair {ℓ} :
      {A : Type ℓ} (t : List InboxRow) (b : Bool) (x y : Store × A)
      → Keeps from t x.0.inbox
      → Keeps from t y.0.inbox
      → Keeps from t (if b then x else y).0.inbox
  if-Keeps_pair t true x y h k = h
  if-Keeps_pair t false x y h k = k
