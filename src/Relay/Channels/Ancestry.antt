-- ===== src/Relay/Channels/Ancestry.antt =====
-- The walk to the root against the ancestry of channels as a relation: a channel's chain of parents
-- ends at its root after a number of links.
use mathlib.Core.Path.{subst}
use tenex_edge.Base.{
  ℕ, zero, suc, ◌<◌, String, ◌≡◌, refl, sym, ◌∙◌, ap, inl, inr, true, false, Bool-cases,
  Option-cases, some, List, [], ◌∷◌, ◌==◌, ltb, eq_iff, arith, All, if◌then◌else◌,
}
use tenex_edge.Table.{find}
use tenex_edge.Relay.{Channel}
use tenex_edge.Relay.Channels.{
  channel_is, get_channel, channel_parent, is_seen, walk_to_root, root_channel_of,
  max_channel_parent_depth,
}
use tenex_edge.Store.Result.{ok, err, parent_chain_too_deep}

-- `Ancestry t h n r`: every channel on the way is stored, and after `n` links to a parent the chain
-- that starts at `h` ends at the top-level channel `r`.
pub data Ancestry (t : List Channel) : String → ℕ → String → Type 0 where
  top :
      {h : String} (c : Channel)
      → find (channel_is h) t ≡ some c
      → (c.parent == "") ≡ true
      → Ancestry t h 0 h
  child :
      {h r : String} {n : ℕ} (c : Channel)
      → find (channel_is h) t ≡ some c
      → (c.parent == "") ≡ false
      → Ancestry t c.parent n r
      → Ancestry t h (suc n) r

same_found :
    (t : List Channel) {h k : String} {c d : Channel}
    → h ≡ k
    → find (channel_is h) t ≡ some c
    → find (channel_is k) t ≡ some d
    → c ≡ d
same_found t {h} {k} {c} {d} e a b = let both : some c ≡ some d = sym a ∙ (rw e b) in cc both

-- A chain has one length.
pub one_length :
    {t : List Channel} {h k r r2 : String} {n m : ℕ}
    → h ≡ k
    → Ancestry t h n r
    → Ancestry t k m r2
    → n ≡ m
one_length e (top c a b) (top d a2 b2) = refl
one_length {t} e (top c a b) (child d a2 b2 rest) = ground (arith, same_found t e a a2, b, b2)
one_length {t} e (child c a b rest) (top d a2 b2) = ground (arith, same_found t e a a2, b, b2)
one_length {t} e (child c a b rest) (child d a2 b2 rest2) =
    ap suc (one_length (ap (λ (x : Channel). x.parent) (same_found t e a a2)) rest rest2)

stored :
    {t : List Channel} {h r : String} {n : ℕ}
    → Ancestry t h n r
    → (c : Channel) × (find (channel_is h) t ≡ some c)
stored (top c a b) = (c, a)
stored (child c a b rest) = (c, a)

-- Every channel of `seen` is further from its root than `n` links.
abbrev pub Further : List Channel → ℕ → String → Type 0
Further t n h = (m : ℕ) × (r : String) × Ancestry t h m r × (n < m)

unseen :
    {t : List Channel} {h r : String} {n : ℕ} (seen : List String)
    → Ancestry t h n r
    → All (Further t n) seen
    → is_seen h seen ≡ false
unfolding is_seen
unseen [] a further = refl
unseen {h} (x ∷ seen) a further =
    let (m, r2, b, longer) = further.0 in
    elim (Bool-cases (x == h)) [
      | inl same ↦ ground (arith, longer, one_length ((eq_iff x h).0 same) b a)
      | inr other ↦ rw other (unseen seen a further.1)
    ]

nearer :
    (t : List Channel) (n : ℕ) (seen : List String)
    → All (Further t (suc n)) seen
    → All (Further t n) seen
nearer t n [] further = tt
nearer t n (x ∷ seen) further =
    let (m, r, b, longer) = further.0 in
    ((m, r, b, omega (arith, longer)), nearer t n seen further.1)

ltb-suc : (m d : ℕ) → ltb (suc m) (suc d) ≡ ltb m d
ltb-suc m d = ground arith

walk_ends :
    (t : List Channel) (depth : ℕ) (seen : List String) (h : String) (c : Channel)
    → is_seen h seen ≡ false
    → find (channel_is h) t ≡ some c
    → (c.parent == "") ≡ true
    → walk_to_root (suc depth) seen h t ≡ ok (some h)
unfolding walk_to_root channel_parent
walk_ends t depth seen h c new found root = ground (arith, new, found, root)

walk_climbs :
    (t : List Channel) (depth : ℕ) (seen : List String) (h : String) (c d : Channel)
    → is_seen h seen ≡ false
    → find (channel_is h) t ≡ some c
    → (c.parent == "") ≡ false
    → find (channel_is c.parent) t ≡ some d
    → walk_to_root (suc depth) seen h t ≡ walk_to_root depth (h ∷ seen) c.parent t
unfolding walk_to_root channel_parent get_channel
walk_climbs t depth seen h c d new found below above = ground (arith, new, found, below, above)

-- On a chain that ends, the walk follows it until the depth is used up.
pub walk_follows :
    {t : List Channel} {h r : String} {n : ℕ} (depth : ℕ) (seen : List String)
    → Ancestry t h n r
    → All (Further t n) seen
    → walk_to_root depth seen h t ≡ (if ltb n depth then ok (some r) else err parent_chain_too_deep)
unfolding walk_to_root channel_parent get_channel
walk_follows {n} zero seen a further = ground arith
walk_follows {t} {h} (suc depth) seen (top c a b) further =
    walk_ends t depth seen h c (unseen seen (top c a b) further) a b ∙ ground arith
walk_follows {t} {h} {r} {n} (suc depth) seen (child {n = m} c a b rest) further =
    let (d, found) = stored rest in
    walk_climbs t depth seen h c d (unseen seen (child c a b rest) further) a b found
    ∙ rw (ltb-suc m depth) (
        walk_follows depth (h ∷ seen) rest
          ((suc m, r, child c a b rest, omega arith), nearer t m seen further))

-- Where a channel's chain of parents ends, `root_channel_of` answers with its root if there are fewer
-- than sixteen links to it, and fails with the depth error if there are sixteen or more: also at
-- sixteen, which the text of the error ("exceeds 16 links") leaves out.
pub root_channel_of_exact :
    (t : List Channel) (h r : String) (n : ℕ)
    → Ancestry t h n r
    → root_channel_of h t
      ≡ (if ltb n max_channel_parent_depth then ok (some r) else err parent_chain_too_deep)
unfolding root_channel_of get_channel
root_channel_of_exact t h r n a =
    let (c, found) = stored a in
    rw (root_channel_of, found) (walk_follows max_channel_parent_depth [] a tt)

walk_sound :
    (t : List Channel) (depth : ℕ) (seen : List String) (h r : String)
    → walk_to_root depth seen h t ≡ ok (some r)
    → (n : ℕ) × (n < depth) × Ancestry t h n r
unfolding walk_to_root channel_parent get_channel
walk_sound t zero seen h r e = cc e
walk_sound t (suc depth) seen h r e = elim (Bool-cases (is_seen h seen)) [
  | inl again ↦ ground (arith, again, e)
  | inr new ↦ elim (Option-cases (find (channel_is h) t)) [
    | inl unknown ↦ ground (arith, new, unknown, e)
    | inr (c, found) ↦ elim (Bool-cases (c.parent == "")) [
      | inl root ↦
          let same : ok (some h) ≡ ok (some r) =
            sym (walk_ends t depth seen h c new found root) ∙ e in
          (0, omega arith, subst (Ancestry t h 0) (cc same) (top c found root))
      | inr below ↦ elim (Option-cases (find (channel_is c.parent) t)) [
        | inl orphan ↦ ground (arith, new, found, below, orphan, e)
        | inr (d, above) ↦
            let (n, few, a) =
              walk_sound t depth (h ∷ seen) c.parent r
                (sym (walk_climbs t depth seen h c d new found below above) ∙ e) in
            (suc n, omega (arith, few), child c found below a)
      ]
    ]
  ]
]

-- A root that `root_channel_of` answers with is the root of the channel's chain of parents, and there
-- are fewer than sixteen links to it.
pub root_channel_of_sound :
    (t : List Channel) (h r : String)
    → root_channel_of h t ≡ ok (some r)
    → (n : ℕ) × (n < max_channel_parent_depth) × Ancestry t h n r
unfolding root_channel_of get_channel
root_channel_of_sound t h r e = elim (Option-cases (find (channel_is h) t)) [
  | inl unknown ↦ ground (arith, unknown, e)
  | inr (c, found) ↦ walk_sound t max_channel_parent_depth [] h r (rw (root_channel_of, found) at e)
]
