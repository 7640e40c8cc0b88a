-- ===== src/Relay/Channels/Roots.antt =====
-- Which channels are roots, and which stand below one.
use tenex_edge.Base.{
  ℕ, ◌<◌, String, ◌≡◌, ◌=?◌, ◌==◌, inl, inr, not, Bool-cases, List, eq_iff, eq_refl, arith,
}
use tenex_edge.Relay.{Channel}
use tenex_edge.Relay.Channels.{is_root_channel, is_subchannel, max_channel_parent_depth}
use tenex_edge.Relay.Channels.Ancestry.{Ancestry, top, child, one_length, root_channel_of_exact}
use tenex_edge.Store.Result.{ok}

root_is_top : {t : List Channel} {h r : String} {n : ℕ} → Ancestry t h n r → Ancestry t r 0 r
root_is_top (top c a b) = top c a b
root_is_top (child c a b rest) = root_is_top rest

own_root : {t : List Channel} {h r : String} {n : ℕ} → Ancestry t h n r → (r == h) ≡ (n =? 0)
own_root {h} (top c a b) = eq_refl h
own_root {h} {r} (child c a b rest) = elim (Bool-cases (r == h)) [
  | inl same ↦
      ground (arith, same, one_length ((eq_iff r h).0 same) (root_is_top rest) (child c a b rest))
  | inr other ↦ ground (arith, other)
]

-- A channel whose chain of parents ends after fewer than sixteen links is a root exactly where the
-- chain has no link, and a subchannel exactly where it has one.
root_or_below :
    (t : List Channel) (h r : String) (n : ℕ)
    → Ancestry t h n r
    → n < max_channel_parent_depth
    → (is_root_channel h t ≡ ok (n =? 0)) × (is_subchannel h t ≡ ok (not (n =? 0)))
unfolding is_root_channel is_subchannel
root_or_below t h r n a few =
    let found = root_channel_of_exact t h r n a in ground (arith, found, few, own_root a)
