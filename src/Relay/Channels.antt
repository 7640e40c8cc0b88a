-- ===== src/Relay/Channels.antt =====
-- src/state/channels.rs: the metadata of channels, their ancestry, and the names that are reserved
-- while the relay has not confirmed their channel.
pub mod Ancestry
pub mod Resolution
pub mod Archived
pub mod Roots
pub mod Metadata
use tenex_edge.Base.{
  ℕ, zero, suc, String, Bool, true, false, ◌&&◌, ◌||◌, not, Option, none, some, List, [], ◌∷◌, ◌++◌,
  ◌==◌, leb, ltb, if◌then◌else◌, trim, concat, map_option, text_le, starts_with, take_chars,
}
use tenex_edge.Table.{find, exists, select, update, insert_or_ignore}
use tenex_edge.Table.Order.{sort_by}
use tenex_edge.Relay.{Channel, ResolutionIntent}
use tenex_edge.Store.Result.{
  Result, ok, err, ◌>>=◌, ◌>>◌, fail_if, constraint_failed, parent_cycle, parent_chain_too_deep,
  no_intent,
}

abbrev pub max_channel_parent_depth : ℕ
max_channel_parent_depth = 16

abbrev pub channel_about_max_chars : ℕ
channel_about_max_chars = 80

abbrev pub archived_channel_about_prefix : String
archived_channel_about_prefix = "[ARCHIVED]"

unfoldable pub is_archived_channel_about : String → Bool
is_archived_channel_about about = starts_with archived_channel_about_prefix about

unfoldable pub archived_channel_about : String → String
unfolding is_archived_channel_about
archived_channel_about about = take_chars channel_about_max_chars (
    if is_archived_channel_about about
    then about
    else if trim about == ""
    then archived_channel_about_prefix
    else concat archived_channel_about_prefix (concat " " about))

unfoldable pub is_archived : Channel → Bool
unfolding is_archived_channel_about
is_archived c = is_archived_channel_about c.about

abbrev pub channel_is : String → Channel → Bool
channel_is channel_h c = c.channel_h == channel_h

-- The columns of the unique index over `(parent, name)`.
abbrev pub is_named : String → String → Channel → Bool
is_named parent name c = c.parent == parent && c.name == name

abbrev pub new_channel : String → String → String → String → ℕ → Channel
new_channel channel_h name about parent created_at = record {
  channel_h = channel_h;
  name = name;
  about = about;
  parent = parent;
  created_at = created_at;
  updated_at = created_at;
}

abbrev pub renew_channel : String → String → String → ℕ → Channel → Channel
renew_channel name about parent created_at c = record c {
  name = name;
  about = about;
  parent = parent;
  created_at = created_at;
  updated_at = created_at;
}

-- `upsert_channel`: a known channel takes metadata that is not older than what it has. The name is
-- unique within the parent, and the statement fails where another channel has it.
unfoldable pub upsert_channel :
    String → String → String → String → ℕ → List Channel → Result (List Channel)
upsert_channel channel_h name about parent created_at t =
    let taken = exists (λ c. is_named parent name c && not (channel_is channel_h c)) t in
    if exists (channel_is channel_h) t
    then (if exists (λ c. channel_is channel_h c && leb c.created_at created_at) t
        then (if taken
            then err constraint_failed
            else ok (
                update (λ c. channel_is channel_h c && leb c.created_at created_at)
                  (renew_channel name about parent created_at) t))
        else ok t)
    else if taken
    then err constraint_failed
    else ok (t ++ new_channel channel_h name about parent created_at ∷ [])

unfoldable pub get_channel : String → List Channel → Option Channel
get_channel channel_h t = find (channel_is channel_h) t

unfoldable pub channel_id_for_name : String → String → List Channel → Option String
channel_id_for_name parent name t =
    map_option (λ (c : Channel). c.channel_h) (find (is_named parent name) t)

unfoldable pub channel_parent : String → List Channel → Option String
channel_parent channel_h t = map_option (λ (c : Channel). c.parent) (find (channel_is channel_h) t)

unfoldable pub is_archived_channel : String → List Channel → Bool
unfolding get_channel is_archived
is_archived_channel channel_h t = elim (get_channel channel_h t) [
  | none ↦ false
  | some c ↦ is_archived c
]

-- `ORDER BY channel_h`
unfoldable pub list_root_channels : List Channel → List Channel
list_root_channels t =
    sort_by (λ a b. text_le a.channel_h b.channel_h) (select (λ c. c.parent == "") t)

-- `seen.insert` fails
unfoldable pub is_seen : String → List String → Bool
is_seen channel_h [] = false
is_seen channel_h (x ∷ seen) = x == channel_h || is_seen channel_h seen

-- The loop of `root_channel_of`: what is left of the depth, the channels seen, the current one.
unfoldable pub walk_to_root : ℕ → List String → String → List Channel → Result (Option String)
unfolding is_seen channel_parent get_channel
walk_to_root zero seen cur t = err parent_chain_too_deep
walk_to_root (suc depth) seen cur t = elim (is_seen cur seen) [
  | true ↦ err parent_cycle
  | false ↦ elim (channel_parent cur t) [
    | none ↦ ok none
    | some parent ↦ elim (parent == "") [
      | true ↦ ok (some cur)
      | false ↦ elim (get_channel parent t) [
        | none ↦ ok none
        | some _ ↦ walk_to_root depth (cur ∷ seen) parent t
      ]
    ]
  ]
]

unfoldable pub root_channel_of : String → List Channel → Result (Option String)
unfolding get_channel walk_to_root
root_channel_of channel_h t = elim (get_channel channel_h t) [
  | none ↦ ok none
  | some _ ↦ walk_to_root max_channel_parent_depth [] channel_h t
]

-- `.map(…).unwrap_or(false)`
abbrev pub holds_of : (String → Bool) → Option String → Bool
holds_of test none = false
holds_of test (some root) = test root

unfoldable pub is_root_channel : String → List Channel → Result Bool
unfolding root_channel_of
is_root_channel channel_h t = do
  root ← root_channel_of channel_h t
  ok (holds_of (λ r. r == channel_h) root)

unfoldable pub is_subchannel : String → List Channel → Result Bool
unfolding root_channel_of
is_subchannel channel_h t = do
  root ← root_channel_of channel_h t
  ok (holds_of (λ r. not (r == channel_h)) root)

abbrev pub intent_is : String → String → ResolutionIntent → Bool
intent_is parent name i = i.parent == parent && i.name == name

unfoldable pub channel_resolution_intent : String → String → List ResolutionIntent → Option String
channel_resolution_intent parent name t =
    map_option (λ (i : ResolutionIntent). i.channel_h) (find (intent_is parent name) t)

unfoldable pub reserve_channel_resolution_intent :
    String → String → String → ℕ → List ResolutionIntent → Result (List ResolutionIntent × String)
unfolding channel_resolution_intent
reserve_channel_resolution_intent parent name proposed_channel_h now t =
    let u =
      insert_or_ignore (intent_is parent name)
        (record { parent = parent; name = name; channel_h = proposed_channel_h; created_at = now })
        t in
    elim (channel_resolution_intent parent name u) [
      | none ↦ err no_intent
      | some channel_h ↦ ok (u, channel_h)
    ]
