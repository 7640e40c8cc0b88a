-- ===== src/Relay/Members.antt =====
-- src/state/members.rs: who may speak in a channel and who manages it, as the relay's rosters say.
pub mod Snapshots
use tenex_edge.Base.{
  ℕ, String, Bool, true, false, ◌&&◌, ◌||◌, not, Option, none, some, List, [], ◌∷◌, ◌==◌, ltb, leb,
  if◌then◌else◌, text_lt, text_le, map_option,
}
use tenex_edge.Table.{find, exists, select, delete, upsert, count}
use tenex_edge.Table.Order.{sort_by}

-- A row of `relay_channel_members`; the role is `admin` or `member`.
pub record ChannelMember : Type 0 where
  pub channel_h : String
  pub pubkey : String
  pub role : String
  pub updated_at : ℕ

-- A row of `relay_channel_member_sets`: the time of the roster that was taken last.
pub record ChannelMemberSet : Type 0 where
  pub channel_h : String
  pub role : String
  pub updated_at : ℕ

pub record Rosters : Type 0 where
  pub members : List ChannelMember
  pub sets : List ChannelMemberSet

abbrev pub member_is : String → String → ChannelMember → Bool
member_is channel_h pubkey m = m.channel_h == channel_h && m.pubkey == pubkey

abbrev pub set_is : String → String → ChannelMemberSet → Bool
set_is channel_h role m = m.channel_h == channel_h && m.role == role

abbrev pub of_role : String → String → ChannelMember → Bool
of_role channel_h role m = m.channel_h == channel_h && m.role == role

abbrev pub new_member : String → String → String → ℕ → ChannelMember
new_member channel_h pubkey role updated_at = record {
  channel_h = channel_h;
  pubkey = pubkey;
  role = role;
  updated_at = updated_at;
}

-- One row: an admin's supersedes a member's, and a member's keeps an admin's role.
unfoldable pub upsert_member_row :
    String → String → String → ℕ → List ChannelMember → List ChannelMember
upsert_member_row channel_h role pubkey updated_at t =
    if role == "admin"
    then upsert (member_is channel_h pubkey) (new_member channel_h pubkey "admin" updated_at)
        (λ m. record m { role = "admin"; updated_at = updated_at }) t
    else upsert (member_is channel_h pubkey) (new_member channel_h pubkey "member" updated_at)
        (λ m. record m { updated_at = updated_at }) t

-- `for pk in pubkeys`
unfoldable pub upsert_each :
    String → String → List String → ℕ → List ChannelMember → List ChannelMember
unfolding upsert_member_row
upsert_each channel_h role [] updated_at t = t
upsert_each channel_h role (pk ∷ pubkeys) updated_at t =
    upsert_each channel_h role pubkeys updated_at (upsert_member_row channel_h role pk updated_at t)

unfoldable pub replace_role : String → String → List String → ℕ → Rosters → Rosters
unfolding upsert_each
replace_role channel_h role pubkeys updated_at r =
    if exists (λ m. set_is channel_h role m && ltb updated_at m.updated_at) r.sets
    then r
    else record {
      sets =
          upsert (set_is channel_h role)
            (record { channel_h = channel_h; role = role; updated_at = updated_at })
            (λ m. record m { updated_at = updated_at }) r.sets;
      members =
          upsert_each channel_h role pubkeys updated_at (delete (of_role channel_h role) r.members);
    }

unfoldable pub replace_channel_admins : String → List String → ℕ → Rosters → Rosters
unfolding replace_role
replace_channel_admins channel_h admins updated_at r =
    replace_role channel_h "admin" admins updated_at r

unfoldable pub replace_channel_members : String → List String → ℕ → Rosters → Rosters
unfolding replace_role
replace_channel_members channel_h members updated_at r =
    replace_role channel_h "member" members updated_at r

unfoldable pub is_channel_admin : String → String → Rosters → Bool
is_channel_admin channel_h pubkey r =
    exists (λ m. member_is channel_h pubkey m && m.role == "admin") r.members

unfoldable pub is_channel_member : String → String → Rosters → Bool
is_channel_member channel_h pubkey r = exists (member_is channel_h pubkey) r.members

-- `COUNT(DISTINCT role)` of the two roles is 2.
unfoldable pub has_channel_membership_snapshot : String → Rosters → Bool
has_channel_membership_snapshot channel_h r =
    exists (set_is channel_h "admin") r.sets && exists (set_is channel_h "member") r.sets

unfoldable pub channel_member_sets : String → Rosters → List ChannelMemberSet
channel_member_sets channel_h r =
    sort_by (λ a b. text_le a.role b.role) (select (λ m. m.channel_h == channel_h) r.sets)

-- `ORDER BY role, pubkey`
abbrev pub role_order : ChannelMember → ChannelMember → Bool
role_order a b = text_lt a.role b.role || a.role == b.role && text_le a.pubkey b.pubkey

unfoldable pub list_channel_members : String → Rosters → List ChannelMember
list_channel_members channel_h r =
    sort_by role_order (select (λ m. m.channel_h == channel_h) r.members)

-- `SELECT channel_h … ORDER BY channel_h`
abbrev pub channels_of : List ChannelMember → List String
channels_of [] = []
channels_of (m ∷ t) = m.channel_h ∷ channels_of t

unfoldable pub list_channels_where_member : String → Rosters → List String
list_channels_where_member pubkey r =
    sort_by text_le (channels_of (select (λ m. m.pubkey == pubkey) r.members))

unfoldable pub upsert_channel_member : String → String → String → ℕ → Rosters → Rosters
unfolding upsert_member_row
upsert_channel_member channel_h pubkey role updated_at r = record r {
  members = upsert_member_row channel_h role pubkey updated_at r.members;
}

unfoldable pub remove_channel_member : String → String → Rosters → Rosters × Bool
remove_channel_member channel_h pubkey r = (
  record r { members = delete (member_is channel_h pubkey) r.members },
  ltb 0 (count (member_is channel_h pubkey) r.members),
)

unfoldable pub list_channels_where_admin : String → Rosters → List String
list_channels_where_admin pubkey r =
    sort_by text_le (channels_of (select (λ m. m.pubkey == pubkey && m.role == "admin") r.members))

unfoldable pub count_channel_members : String → Rosters → ℕ
count_channel_members channel_h r = count (λ m. m.channel_h == channel_h) r.members
