-- ===== src/Reconcile/Subscriptions/Keys.antt =====
-- Keys, and the ids that the daemon knows their queries by.
use tenex_edge.Base.{
  String, true, ◌≡◌, ◌==◌, ◌=?◌, refl, ◌⊎◌, arith, eq_iff, eq_refl, concat, append-diverges,
  diverges, append-cancel, inl, inr,
}
use tenex_edge.Reconcile.Subscriptions.{
  Space, global_kind, channel_h, group_state_d, pubkey_p, profile_author, rank, SubKey, same_key,
  id_prefix, sub_id,
}

same_rank : (a b : Space) → (rank a =? rank b) ≡ true → a ≡ b
same_rank a b h = ground (arith, h)

pub same_key_refl : (k : SubKey) → same_key k k ≡ true
same_key_refl k = ground (arith, eq_refl k.entity)

pub same_key_eq : (a b : SubKey) → same_key a b ≡ true → a ≡ b
same_key_eq a b h = ground (arith, h, same_rank a.space b.space, eq_iff a.entity b.entity)

prefixes : (a b : Space) → (a ≡ b) ⊎ (diverges (id_prefix a) (id_prefix b) ≡ true)
prefixes global_kind global_kind = inl refl
prefixes channel_h channel_h = inl refl
prefixes group_state_d group_state_d = inl refl
prefixes pubkey_p pubkey_p = inl refl
prefixes profile_author profile_author = inl refl
prefixes _ _ = inr refl

same_space : (a b : Space) (s t : String) → concat (id_prefix a) s ≡ concat (id_prefix b) t → a ≡ b
same_space a b s t e = elim (prefixes a b) [
  | inl same ↦ same
  | inr apart ↦ absurd (append-diverges (id_prefix a) (id_prefix b) s t apart e)
]

-- An id names one key.
pub sub_id-injective : (a b : SubKey) → (sub_id a == sub_id b) ≡ true → a ≡ b
unfolding sub_id
sub_id-injective a b h =
    let ids = (eq_iff (sub_id a) (sub_id b)).0 h in
    let space = same_space a.space b.space a.entity b.entity ids in
    let entity = append-cancel (id_prefix b.space) a.entity b.entity (rw space at ids) in
    ground (arith, space, entity)
