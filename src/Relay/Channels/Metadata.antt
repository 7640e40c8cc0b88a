-- ===== src/Relay/Channels/Metadata.antt =====
-- Materialized metadata: one row for each channel, one channel for each name within a parent, and the
-- newest metadata wins.
use tenex_edge.Base.{
  ℕ, String, ◌≡◌, ◌⊎◌, ◌<◌, Option, ◌==◌, ◌&&◌, ◌||◌, not, refl, ap, sym, ◌∙◌, inl, inr, true,
  false, Option-cases, none, some, List, [], ◌∷◌, ◌++◌, arith, eq_refl, eq_iff, eq_comm, leb, All,
  if◌then◌else◌, Bool,
}
use tenex_edge.Table.{find, exists, update}
use tenex_edge.Table.Keys.{HasKeys, append-HasKeys, All-pass_by_key}
use tenex_edge.Table.Written.{IsClear, taken-HasKeys}
use tenex_edge.Table.Reads.{
  find_fails, find_one, find-update, find-append, exists-find, find_holds, count_positive,
}
use tenex_edge.Relay.{Channel}
use tenex_edge.Relay.Channels.{
  channel_is, is_named, new_channel, renew_channel, upsert_channel, get_channel,
}
use tenex_edge.Store.Result.{ok}

-- The primary key, and the unique index over `(parent, name)`.
abbrev pub same_channel : Channel → Channel → Bool
same_channel a b = a.channel_h == b.channel_h || a.parent == b.parent && a.name == b.name

abbrev pub HasChannelKeys : List Channel → Type 0
HasChannelKeys = HasKeys same_channel

-- A row that neither has the channel's id nor its name stands apart from the channel.
abbrev is_newer : String → ℕ → Channel → Bool
is_newer h at c = channel_is h c && leb c.created_at at

apart :
    (h name about parent : String) (at : ℕ) (c : Channel)
    → channel_is h c ≡ false
    → (is_named parent name c && not (channel_is h c)) ≡ false
    → (same_channel c (new_channel h name about parent at) ≡ false)
      × (same_channel (new_channel h name about parent at) c ≡ false)
apart h name about parent at c other free =
    rw (eq_comm h c.channel_h, eq_comm parent c.parent, eq_comm name c.name)
      (ground (arith, other, free))

All-IsClear :
    (h name about parent : String) (at : ℕ) (t : List Channel)
    → exists (λ c. is_named parent name c && not (channel_is h c)) t ≡ false
    → All (λ c. (channel_is h c && not (leb c.created_at at)) ≡ false) t
    → IsClear same_channel (is_newer h at) (new_channel h name about parent at) t
unfolding exists
All-IsClear h name about parent at [] free newest = tt
All-IsClear h name about parent at (c ∷ t) free newest = (
  λ miss. apart h name about parent at c (ground (arith, newest.0, miss)) (ground (arith, free)),
  All-IsClear h name about parent at t (ground (arith, free)) newest.1,
)

by_id :
    (h : String) (a b : Channel)
    → channel_is h a ≡ true
    → channel_is h b ≡ true
    → same_channel a b ≡ true
by_id h a b x y =
    ground (arith, x, y, eq_iff a.channel_h h, eq_iff b.channel_h h, eq_iff a.channel_h b.channel_h)

none_of_id :
    (h name about parent : String) (at : ℕ) (t : List Channel)
    → exists (channel_is h) t ≡ false
    → exists (λ c. is_named parent name c && not (channel_is h c)) t ≡ false
    → All (λ c. same_channel c (new_channel h name about parent at) ≡ false) t
unfolding exists
none_of_id h name about parent at [] new free = tt
none_of_id h name about parent at (c ∷ t) new free = (
  (apart h name about parent at c (ground (arith, new)) (ground (arith, free))).0,
  none_of_id h name about parent at t (ground (arith, new)) (ground (arith, free)),
)

renewed :
    (h name about parent : String) (at : ℕ) (t : List Channel)
    → HasChannelKeys t
    → exists (is_newer h at) t ≡ true
    → exists (λ c. is_named parent name c && not (channel_is h c)) t ≡ false
    → HasChannelKeys (update (is_newer h at) (renew_channel name about parent at) t)
renewed h name about parent at t k newer free =
    taken-HasKeys same_channel (is_newer h at) (new_channel h name about parent at)
      (renew_channel name about parent at)
      (λ a b x y. by_id h a b (ground (arith, x)) (ground (arith, y)))
      (λ a b x. let e : a.channel_h ≡ h = (eq_iff a.channel_h h).0 (ground (arith, x)) in rw e refl)
      (λ a b x. let e : b.channel_h ≡ h = (eq_iff b.channel_h h).0 (ground (arith, x)) in rw e refl)
      t k
      (All-IsClear h name about parent at t free (
        All-pass_by_key same_channel (channel_is h) (λ c. leb c.created_at at) t (by_id h) k
          (count_positive (is_newer h at) t newer)))

-- What accepted metadata writes: nothing, the known channel's row, or a new row.
upsert_inversion :
    (h name about parent : String) (at : ℕ) (t u : List Channel)
    → upsert_channel h name about parent at t ≡ ok u
    → ((exists (channel_is h) t ≡ true) × (exists (is_newer h at) t ≡ false) × (u ≡ t))
      ⊎ ((exists (λ c. is_named parent name c && not (channel_is h c)) t ≡ false)
          × (((exists (channel_is h) t ≡ true)
                × (exists (is_newer h at) t ≡ true)
                × (u ≡ update (is_newer h at) (renew_channel name about parent at) t))
              ⊎ ((exists (channel_is h) t ≡ false)
                  × (u ≡ t ++ new_channel h name about parent at ∷ []))))
unfolding upsert_channel
upsert_inversion h name about parent at t u e = ground (arith, e)

-- Metadata that is accepted keeps one row for each channel and one channel for each name within a
-- parent.
pub upsert_channel-HasChannelKeys :
    (h name about parent : String) (at : ℕ) (t u : List Channel)
    → HasChannelKeys t
    → upsert_channel h name about parent at t ≡ ok u
    → HasChannelKeys u
upsert_channel-HasChannelKeys h name about parent at t u k e =
    elim (upsert_inversion h name about parent at t u e) [
      | inl (old, older, kept) ↦ rw kept k
      | inr (free, inl (old, newer, written)) ↦
          rw written (renewed h name about parent at t k newer free)
      | inr (free, inr (new, written)) ↦ rw written (
          append-HasKeys same_channel (new_channel h name about parent at) t k
            (none_of_id h name about parent at t new free))
    ]

-- The metadata that a channel has once metadata of the time `at` was accepted.
abbrev newest : String → String → String → String → ℕ → Option Channel → Channel
newest h name about parent at none = new_channel h name about parent at
newest h name about parent at (some c) =
    if leb c.created_at at then renew_channel name about parent at c else c

stored_after :
    (h name about parent : String) (at : ℕ) (t u : List Channel)
    → upsert_channel h name about parent at t ≡ ok u
    → find (channel_is h) u ≡ some (newest h name about parent at (find (channel_is h) t))
stored_after h name about parent at t u e = elim (upsert_inversion h name about parent at t u e) [
  | inl (old, older, kept) ↦ elim (Option-cases (find (channel_is h) t)) [
    | inl unknown ↦ ground (arith, old, unknown, exists-find (channel_is h) t)
    | inr (c, found) ↦ ground (
      arith,
      kept,
      found,
      find_holds (channel_is h) t c found,
      find_fails (channel_is h) (is_newer h at) t c found older,
    )
  ]
  | inr (free, inl (old, newer, written)) ↦ elim (Option-cases (find (channel_is h) t)) [
    | inl unknown ↦ ground (arith, old, unknown, exists-find (channel_is h) t)
    | inr (c, found) ↦ ground (
      arith,
      written,
      found,
      find_holds (channel_is h) t c found,
      find-update (channel_is h) (is_newer h at) (renew_channel name about parent at) t (λ r. refl),
    )
  ]
  | inr (free, inr (new, written)) ↦ ground (
    arith,
    written,
    new,
    exists-find (channel_is h) t,
    eq_refl h,
    find-append (channel_is h) t (new_channel h name about parent at ∷ []),
    find_one (channel_is h) (new_channel h name about parent at),
  )
]

newest_converges :
    (h name about parent name2 about2 parent2 : String) (at at2 : ℕ) (o : Option Channel)
    → at < at2
    → newest h name2 about2 parent2 at2 (some (newest h name about parent at o))
      ≡ newest h name about parent at (some (newest h name2 about2 parent2 at2 o))
newest_converges h name about parent name2 about2 parent2 at at2 none before =
    ground (arith, before)
newest_converges h name about parent name2 about2 parent2 at at2 (some c) before =
    ground (arith, before)

-- Two pieces of metadata of a channel, of different times, leave the same row of it in whichever
-- order they are accepted.
pub metadata_converges :
    (h name about parent name2 about2 parent2 : String) (at at2 : ℕ) (t u v x y : List Channel)
    → at < at2
    → upsert_channel h name about parent at t ≡ ok u
    → upsert_channel h name2 about2 parent2 at2 u ≡ ok v
    → upsert_channel h name2 about2 parent2 at2 t ≡ ok x
    → upsert_channel h name about parent at x ≡ ok y
    → get_channel h v ≡ get_channel h y
unfolding get_channel
metadata_converges h name about parent name2 about2 parent2 at at2 t u v x y before a b c d =
    let first = stored_after h name about parent at t u a in
    let second = stored_after h name2 about2 parent2 at2 u v b in
    let third = stored_after h name2 about2 parent2 at2 t x c in
    let fourth = stored_after h name about parent at x y d in
    second
    ∙ rw (first, third)
        (ap some (
          newest_converges h name about parent name2 about2 parent2 at at2 (find (channel_is h) t)
            before))
    ∙ sym fourth
