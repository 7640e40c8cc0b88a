-- ===== src/Reconcile/Subscriptions/Coverage.antt =====
-- Which channels the daemon covers once a plan is carried out.
use tenex_edge.Base.{
  String, Bool, false, ◌&&◌, ◌||◌, not, ◌≡◌, ◌==◌, ◌=?◌, refl, ap, ◌∙◌, inl, inr, Bool-cases, some,
  List, [], ◌∷◌, arith, eq_iff, eq_comm, All,
}
use tenex_edge.Table.{exists, select}
use tenex_edge.Reconcile.Subscriptions.{
  Space, global_kind, channel_h, group_state_d, pubkey_p, profile_author, rank, SubKey, sub_key,
  same_key, key_lt, Owners, SubscriptionReconciler, SubEffect, CoverageSnapshot, contains_key,
  member, difference, add_owner, add_channel_owner, add_channels, add_sessions, add_each,
  desired_owners, sub_query, parse_u16, parse_digits, plan, covers_channel, kind_group_put_user,
}
use tenex_edge.Reconcile.Subscriptions.Sets.{contains_key-add}
use tenex_edge.Reconcile.Subscriptions.Plans.{
  confirm_all, HasQuery, planned, plan_holds, plan_rests,
}

-- A channel that is not archived, and is the daemon's or a session's.
abbrev pub wants_channel : String → CoverageSnapshot → Bool
wants_channel channel s =
    not (member channel s.archived_channels)
    && (member channel s.daemon_channels || exists (member channel) s.sessions)

member-difference :
    (x : String) (set other : List String)
    → member x (difference set other) ≡ (member x set && not (member x other))
unfolding select exists
member-difference x [] other = refl
member-difference x (y ∷ set) other = elim (Bool-cases (y == x)) [
  | inl same ↦
      ground
        (arith, same, member-difference x set other, ap (λ z. member z other) ((eq_iff y x).0 same))
  | inr apart ↦ ground (arith, apart, member-difference x set other)
]

channels_key :
    (c : String) (channels : List String) (owners : Owners)
    → contains_key (sub_key channel_h c) (add_channels channels owners)
      ≡ (member c channels || contains_key (sub_key channel_h c) owners)
unfolding add_channels add_channel_owner exists
channels_key c [] owners = refl
channels_key c (x ∷ channels) owners = ground (
  arith,
  channels_key c channels (add_channel_owner x owners),
  eq_comm c x,
  contains_key-add (sub_key channel_h c) (sub_key group_state_d x)
      (add_owner (sub_key channel_h x) owners),
  contains_key-add (sub_key channel_h c) (sub_key channel_h x) owners,
)

sessions_key :
    (c : String) (archived : List String) (sessions : List (List String)) (owners : Owners)
    → contains_key (sub_key channel_h c) (add_sessions archived sessions owners) ≡ (
        not (member c archived) && exists (member c) sessions
        || contains_key (sub_key channel_h c) owners)
unfolding add_sessions exists
sessions_key c archived [] owners = ground arith
sessions_key c archived (x ∷ sessions) owners = ground (
  arith,
  sessions_key c archived sessions (add_channels (difference x archived) owners),
  channels_key c (difference x archived) owners,
  member-difference c x archived,
)

-- The other spaces hold no channel.
each_key :
    (c : String) (space : Space) (set : List String) (owners : Owners)
    → (rank channel_h =? rank space) ≡ false
    → contains_key (sub_key channel_h c) (add_each space set owners)
      ≡ contains_key (sub_key channel_h c) owners
unfolding add_each
each_key c space [] owners other = refl
each_key c space (x ∷ set) owners other = ground (
  arith,
  each_key c space set (add_owner (sub_key space x) owners) other,
  other,
  contains_key-add (sub_key channel_h c) (sub_key space x) owners,
)

-- Every key that an owner may have has a query.
All-add_owner :
    (key : SubKey) (owners : Owners)
    → HasQuery key
    → All (λ e. HasQuery e.0) owners
    → All (λ e. HasQuery e.0) (add_owner key owners)
unfolding add_owner
All-add_owner key [] q h = (q, tt)
All-add_owner key (e ∷ owners) q h = elim (Bool-cases (same_key key e.0)) [
  | inl same ↦ rw same h
  | inr other ↦ elim (Bool-cases (key_lt key e.0)) [
    | inl first ↦ rw (other, first) (q, h)
    | inr later ↦ rw (other, later) (h.0, All-add_owner key owners q h.1)
  ]
]

All-add_channels :
    (channels : List String) (owners : Owners)
    → All (λ e. HasQuery e.0) owners
    → All (λ e. HasQuery e.0) (add_channels channels owners)
unfolding add_channels add_channel_owner sub_query
All-add_channels [] owners h = h
All-add_channels (x ∷ channels) owners h = All-add_channels channels _ (
    All-add_owner (sub_key group_state_d x) (add_owner (sub_key channel_h x) owners) refl
      (All-add_owner (sub_key channel_h x) owners refl h))

All-add_sessions :
    (archived : List String) (sessions : List (List String)) (owners : Owners)
    → All (λ e. HasQuery e.0) owners
    → All (λ e. HasQuery e.0) (add_sessions archived sessions owners)
unfolding add_sessions
All-add_sessions archived [] owners h = h
All-add_sessions archived (x ∷ sessions) owners h =
    All-add_sessions archived sessions _ (All-add_channels (difference x archived) owners h)

All-add_each :
    (space : Space) (set : List String) (owners : Owners)
    → ((x : String) → HasQuery (sub_key space x))
    → All (λ e. HasQuery e.0) owners
    → All (λ e. HasQuery e.0) (add_each space set owners)
unfolding add_each
All-add_each space [] owners q h = h
All-add_each space (x ∷ set) owners q h =
    All-add_each space set _ q (All-add_owner (sub_key space x) owners (q x) h)

desired_queries : (s : CoverageSnapshot) → All (λ e. HasQuery e.0) (desired_owners s)
unfolding desired_owners sub_query parse_u16 parse_digits
desired_queries s =
    All-add_each profile_author s.profile_pubkeys _ (λ x. refl)
      (All-add_each pubkey_p s.addressed_pubkeys _ (λ x. refl)
        (All-add_sessions s.archived_channels s.sessions _ (
          All-add_channels (difference s.daemon_channels s.archived_channels) _
            (All-add_owner (sub_key global_kind kind_group_put_user) [] refl tt))))

global_no_channel :
    (c : String)
    → contains_key (sub_key channel_h c) (add_owner (sub_key global_kind kind_group_put_user) [])
      ≡ false
unfolding add_owner exists
global_no_channel c = refl

desired_channel :
    (c : String) (s : CoverageSnapshot)
    → contains_key (sub_key channel_h c) (desired_owners s) ≡ wants_channel c s
unfolding desired_owners
desired_channel c s =
    let global = add_owner (sub_key global_kind kind_group_put_user) [] in
    let daemon = add_channels (difference s.daemon_channels s.archived_channels) global in
    let sessions = add_sessions s.archived_channels s.sessions daemon in
    ground (
      arith,
      each_key c profile_author s.profile_pubkeys (add_each pubkey_p s.addressed_pubkeys sessions)
          refl,
      each_key c pubkey_p s.addressed_pubkeys sessions refl,
      sessions_key c s.archived_channels s.sessions daemon,
      channels_key c (difference s.daemon_channels s.archived_channels) global,
      member-difference c s.daemon_channels s.archived_channels,
      global_no_channel c,
    )

-- Planning never panics, whatever the reconciler holds, and once every effect of the plan is confirmed,
-- the daemon covers exactly the channels that are not archived and are its own or a session's, and
-- planning again for the same snapshot has no effect.
pub plan_settles :
    (snapshot : CoverageSnapshot) (r : SubscriptionReconciler) (channel : String)
    → (t : SubscriptionReconciler) × (effects : List SubEffect) × (plan snapshot r
        ≡ some (t, effects))
      × (covers_channel channel (confirm_all effects t) ≡ wants_channel channel snapshot)
      × (plan snapshot (confirm_all effects t) ≡ some (confirm_all effects t, []))
unfolding covers_channel
plan_settles snapshot r channel =
    let (effects, is, kept, held) = plan_holds snapshot r (desired_queries snapshot) in
    (
      planned snapshot r,
      effects,
      is,
      held (sub_key channel_h channel) ∙ desired_channel channel snapshot,
      plan_rests snapshot (confirm_all effects (planned snapshot r)) kept held,
    )
