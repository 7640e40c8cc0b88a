-- ===== src/Store/Delivery/Handout.antt =====
-- Claiming the pending messages of a recipient hands out what was pending, and hands it out once.
use mathlib.Core.List.{map}
use tenex_edge.Base.{ℕ, String, ◌≡◌, refl, ◌∙◌, ap, Bool, false, List, [], ◌∷◌, arith, ◌==◌, eq_iff}
use tenex_edge.Table.{select, returning}
use tenex_edge.Table.Reads.{select-update_none}
use tenex_edge.Table.Order.{place, sort_by, IsSorted, sort_by-IsSorted}
use tenex_edge.Table.Idle.{select-update_other}
use tenex_edge.Store.{Store, InboxRow, is_pending}
use tenex_edge.Store.Inbox.{created_order, is_pending_for, peek_pending_for_pubkey}
use tenex_edge.Store.Delivery.{deliver_row, claim_pending_for_pubkey}

module _ {ℓ} {R : Type ℓ} (p : R → Bool) (f : R → R) where
  returning-select : (t : List R) → returning p f t ≡ map f (select p t)
  unfolding returning select
  returning-select [] = refl
  returning-select (x ∷ t) = ground (arith, returning-select t)

module _ {ℓ} {R : Type ℓ} (le : R → R → Bool) (f : R → R)
    (keeps : (a b : R) → le (f a) (f b) ≡ le a b) where
  place-map : (r : R) (t : List R) → place le (f r) (map f t) ≡ map f (place le r t)
  unfolding place
  place-map r [] = refl
  place-map r (x ∷ t) = ground (arith, keeps r x, place-map r t)

  sort_by-map : (t : List R) → sort_by le (map f t) ≡ map f (sort_by le t)
  unfolding sort_by
  sort_by-map [] = refl
  sort_by-map (r ∷ t) = rw (sort_by-map t) (place-map r (sort_by le t))

created_order-IsSorted : (t : List InboxRow) → IsSorted created_order (sort_by created_order t)
unfolding created_order
created_order-IsSorted =
    sort_by-IsSorted created_order (λ a b h. ground arith) (λ a b c h k. ground arith)

handed_out :
    (target : String) (now : ℕ) (s : Store)
    → (claim_pending_for_pubkey target now s).1
      ≡ map (deliver_row now) (peek_pending_for_pubkey target s)
unfolding claim_pending_for_pubkey peek_pending_for_pubkey
handed_out target now s =
    ap (sort_by created_order) (returning-select (is_pending_for target) (deliver_row now) s.inbox)
    ∙ sort_by-map created_order (deliver_row now) (λ a b. refl)
        (select (is_pending_for target) s.inbox)

none_pending :
    (target : String) (now : ℕ) (s : Store)
    → peek_pending_for_pubkey target (claim_pending_for_pubkey target now s).0 ≡ []
unfolding claim_pending_for_pubkey peek_pending_for_pubkey is_pending_for is_pending sort_by
none_pending target now s =
    ap (sort_by created_order)
      (select-update_none (is_pending_for target) (deliver_row now) s.inbox (λ r. ground arith))

others_kept :
    (target other : String) (now : ℕ) (s : Store)
    → (other == target) ≡ false
    → peek_pending_for_pubkey other (claim_pending_for_pubkey target now s).0
      ≡ peek_pending_for_pubkey other s
unfolding claim_pending_for_pubkey peek_pending_for_pubkey is_pending_for is_pending
others_kept target other now s apart = ap (sort_by created_order) (
    select-update_other (is_pending_for other) (is_pending_for target) (deliver_row now) s.inbox
      (λ r hit. ground (arith, eq_iff r.target_pubkey target, eq_iff r.target_pubkey other))
      (λ r hit. ground arith))

peek-IsSorted :
    (target : String) (s : Store) → IsSorted created_order (peek_pending_for_pubkey target s)
unfolding peek_pending_for_pubkey
peek-IsSorted target s = created_order-IsSorted (select (is_pending_for target) s.inbox)

-- A claim hands out exactly the messages that are pending for the recipient, oldest first, each
-- marked delivered at the time of the claim. Nothing is pending for the recipient after it, a second
-- claim hands out nothing, and what is pending for any other recipient stays as it was.
pub claim_hands_out_once :
    (target other : String) (now now' : ℕ) (s : Store)
    → (other == target) ≡ false
    → ((claim_pending_for_pubkey target now s).1
        ≡ map (deliver_row now) (peek_pending_for_pubkey target s))
      × IsSorted created_order (peek_pending_for_pubkey target s)
      × (peek_pending_for_pubkey target (claim_pending_for_pubkey target now s).0 ≡ [])
      × ((claim_pending_for_pubkey target now' (claim_pending_for_pubkey target now s).0).1 ≡ [])
      × (peek_pending_for_pubkey other (claim_pending_for_pubkey target now s).0
          ≡ peek_pending_for_pubkey other s)
claim_hands_out_once target other now now' s apart = (
  handed_out target now s,
  peek-IsSorted target s,
  none_pending target now s,
  handed_out target now' (claim_pending_for_pubkey target now s).0
      ∙ ap (map (deliver_row now')) (none_pending target now s),
  others_kept target other now s apart,
)
