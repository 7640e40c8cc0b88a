-- ===== src/Relay/Members/Snapshots.antt =====
-- What a roster that is taken makes of a channel's admins and members.
use tenex_edge.Base.{
  ℕ, String, Bool, true, false, ◌&&◌, ◌||◌, ◌≡◌, ◌==◌, refl, ◌∙◌, inl, inr, Bool-cases, List, [],
  ◌∷◌, arith, eq_iff, eq_refl, All, ltb, if◌then◌else◌,
}
use tenex_edge.Table.{exists, delete, upsert}
use tenex_edge.Table.Idle.{
  exists-append, exists_one, exists-update, exists-upsert_hit, exists-upsert_other,
  exists-delete_all, exists-delete_other,
}
use tenex_edge.Relay.Members.{
  ChannelMember, Rosters, member_is, set_is, of_role, new_member, upsert_member_row, upsert_each,
  replace_role, replace_channel_admins, replace_channel_members, is_channel_admin,
  is_channel_member,
}

abbrev admin_is : String → String → ChannelMember → Bool
admin_is h pk m = member_is h pk m && m.role == "admin"

-- The pubkey stands in a roster.
abbrev pub is_listed : String → List String → Bool
is_listed pk roster = exists (λ x. x == pk) roster

apart :
    (h pk x : String) (m : ChannelMember)
    → (x == pk) ≡ false
    → member_is h x m ≡ true
    → member_is h pk m ≡ false
apart h pk x m other hit = ground (arith, other, hit, eq_iff m.pubkey x)

admin_upserted :
    (h pk x : String) (at : ℕ) (t : List ChannelMember)
    → exists (admin_is h pk) (upsert_member_row h "admin" x at t)
      ≡ (x == pk || exists (admin_is h pk) t)
unfolding upsert_member_row
admin_upserted h pk x at t = elim (Bool-cases (x == pk)) [
  | inl same ↦
      let e : x ≡ pk = (eq_iff x pk).0 same in
      ground (
        arith,
        same,
        exists-upsert_hit (admin_is h pk) (member_is h x) (new_member h x "admin" at)
            (λ m. record m { role = "admin"; updated_at = at }) t (ground (arith, same, eq_refl h))
            (λ m hit. rw (← e) (ground (arith, hit))),
      )
  | inr other ↦ ground (
    arith,
    other,
    exists-upsert_other (admin_is h pk) (member_is h x) (new_member h x "admin" at)
        (λ m. record m { role = "admin"; updated_at = at }) t (ground (arith, other))
        (λ m hit. ground (arith, apart h pk x m other hit))
        (λ m hit. ground (arith, apart h pk x m other hit)),
  )
]

admin_kept :
    (h pk x : String) (at : ℕ) (t : List ChannelMember)
    → exists (admin_is h pk) (upsert_member_row h "member" x at t) ≡ exists (admin_is h pk) t
unfolding upsert_member_row upsert
admin_kept h pk x at t =
    let f = λ (m : ChannelMember). record m { updated_at = at } in
    ground (
      arith,
      exists-update (admin_is h pk) (member_is h x) f t (λ r. refl),
      exists-append (admin_is h pk) t (new_member h x "member" at ∷ []),
      exists_one (admin_is h pk) (new_member h x "member" at),
    )

member_upserted :
    (h pk x : String) (at : ℕ) (t : List ChannelMember)
    → exists (member_is h pk) (upsert_member_row h "member" x at t)
      ≡ (x == pk || exists (member_is h pk) t)
unfolding upsert_member_row
member_upserted h pk x at t = elim (Bool-cases (x == pk)) [
  | inl same ↦
      let e : x ≡ pk = (eq_iff x pk).0 same in
      ground (
        arith,
        same,
        exists-upsert_hit (member_is h pk) (member_is h x) (new_member h x "member" at)
            (λ m. record m { updated_at = at }) t (ground (arith, same, eq_refl h))
            (λ m hit. rw (← e) hit),
      )
  | inr other ↦ ground (
    arith,
    other,
    exists-upsert_other (member_is h pk) (member_is h x) (new_member h x "member" at)
        (λ m. record m { updated_at = at }) t (ground (arith, other))
        (λ m hit. apart h pk x m other hit) (λ m hit. apart h pk x m other hit),
  )
]

admins_listed :
    (h pk : String) (roster : List String) (at : ℕ) (t : List ChannelMember)
    → exists (admin_is h pk) (upsert_each h "admin" roster at t)
      ≡ (is_listed pk roster || exists (admin_is h pk) t)
unfolding upsert_each exists
admins_listed h pk [] at t = refl
admins_listed h pk (x ∷ roster) at t = ground (
  arith,
  admins_listed h pk roster at (upsert_member_row h "admin" x at t),
  admin_upserted h pk x at t,
)

admins_kept :
    (h pk : String) (roster : List String) (at : ℕ) (t : List ChannelMember)
    → exists (admin_is h pk) (upsert_each h "member" roster at t) ≡ exists (admin_is h pk) t
unfolding upsert_each
admins_kept h pk [] at t = refl
admins_kept h pk (x ∷ roster) at t =
    admins_kept h pk roster at (upsert_member_row h "member" x at t) ∙ admin_kept h pk x at t

members_listed :
    (h pk : String) (roster : List String) (at : ℕ) (t : List ChannelMember)
    → exists (member_is h pk) (upsert_each h "member" roster at t)
      ≡ (is_listed pk roster || exists (member_is h pk) t)
unfolding upsert_each exists
members_listed h pk [] at t = refl
members_listed h pk (x ∷ roster) at t = ground (
  arith,
  members_listed h pk roster at (upsert_member_row h "member" x at t),
  member_upserted h pk x at t,
)

-- A roster of this role that is newer than `at` was taken before.
abbrev pub is_stale : String → String → ℕ → Rosters → Bool
is_stale h role at r = exists (λ m. set_is h role m && ltb at m.updated_at) r.sets

-- Every row has one of the two roles.
abbrev pub HasRoles : List ChannelMember → Type 0
HasRoles = All (λ m. (m.role == "admin" || m.role == "member") ≡ true)

one_role : (role : String) → (role == "admin") ≡ true → (role == "member") ≡ false
one_role role h = let e : role ≡ "admin" = (eq_iff role "admin").0 h in rw e refl

left_are_admins :
    (h pk : String) (t : List ChannelMember)
    → HasRoles t
    → exists (member_is h pk) (delete (of_role h "member") t) ≡ exists (admin_is h pk) t
unfolding exists delete
left_are_admins h pk [] roles = refl
left_are_admins h pk (m ∷ t) roles =
    ground (arith, roles.0, left_are_admins h pk t roles.1, one_role m.role)

-- In a table whose rows have one of the two roles: a roster of admins that is older than the last
-- one of admins leaves the admins of its channel as they were, and after any other one they are
-- those that it lists. A roster of members that is older than the last one of members leaves the
-- members as they were, and after any other one they are those that it lists and the admins. A
-- roster of members never changes the admins.
pub roster_taken :
    (h pk : String) (roster : List String) (at : ℕ) (r : Rosters)
    → HasRoles r.members
    → (is_channel_admin h pk (replace_channel_admins h roster at r)
        ≡ (if is_stale h "admin" at r then is_channel_admin h pk r else is_listed pk roster))
      × (is_channel_member h pk (replace_channel_members h roster at r) ≡ (
          if is_stale h "member" at r
          then is_channel_member h pk r
          else is_listed pk roster || is_channel_admin h pk r))
      × (is_channel_admin h pk (replace_channel_members h roster at r) ≡ is_channel_admin h pk r)
unfolding is_channel_admin is_channel_member replace_channel_admins replace_channel_members
    replace_role
roster_taken h pk roster at r roles =
    let others = delete (of_role h "member") r.members in
    (
      ground (
        arith,
        admins_listed h pk roster at (delete (of_role h "admin") r.members),
        exists-delete_all (admin_is h pk) (of_role h "admin") r.members
            (λ m hit. ground (arith, hit)),
      ),
      ground (arith, members_listed h pk roster at others, left_are_admins h pk r.members roles),
      ground (
        arith,
        admins_kept h pk roster at others,
        exists-delete_other (admin_is h pk) (of_role h "member") r.members
            (λ m hit. ground (arith, hit, one_role m.role)),
      ),
    )
