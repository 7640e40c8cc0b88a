-- ===== src/Tests/Relay.antt =====
-- Channels and relay events at concrete inputs.
use tenex_edge.Base.{ℕ, ◌<◌, String, ◌≡◌, refl, true, some, List, [], ◌∷◌, arith, count_chars, ◌≤◌}
use tenex_edge.Table.{find, exists, update, insert_or_ignore}
use tenex_edge.Relay.{Channel, RelayEvent}
use tenex_edge.Relay.Channels.{
  new_channel, upsert_channel, get_channel, root_channel_of, walk_to_root, is_seen, channel_parent,
  channel_resolution_intent, reserve_channel_resolution_intent, archived_channel_about,
  is_archived_channel_about, channel_about_max_chars,
}
use tenex_edge.Relay.Channels.Ancestry.{
  Ancestry, top, child, root_channel_of_exact, root_channel_of_sound,
}
use tenex_edge.Relay.Channels.Archived.{archived_channel_about_lem}
use tenex_edge.Relay.Channels.Metadata.{
  HasChannelKeys, upsert_channel-HasChannelKeys, metadata_converges,
}
use tenex_edge.Relay.Channels.Resolution.{reservation_agrees, more, none_yet, new_intent}
use tenex_edge.Relay.Events.{insert_event, is_addressable, is_replaceable}
use tenex_edge.Relay.Events.Replacement.{HasEventKeys, same_coordinate, insert_event-HasEventKeys}
use tenex_edge.Relay.Events.Newest.{replacement_converges}
use tenex_edge.Store.Result.{ok}

abbrev root : Channel
root = new_channel "root" "Work" "" "" 10

abbrev task : Channel
task = new_channel "task" "Task" "" "root" 20

abbrev channels : List Channel
channels = root ∷ task ∷ []

task-Ancestry : Ancestry channels "task" 1 "root"
unfolding find
task-Ancestry = child task refl refl (top root refl refl)

root_channel_of_exact_example : root_channel_of "task" channels ≡ ok (some "root")
root_channel_of_exact_example = root_channel_of_exact channels "task" "root" 1 task-Ancestry

root_channel_of_sound_example : (n : ℕ) × (n < 16) × Ancestry channels "task" n "root"
unfolding root_channel_of get_channel walk_to_root is_seen channel_parent find
root_channel_of_sound_example = root_channel_of_sound channels "task" "root" refl

archived_channel_about_lem_example :
    (is_archived_channel_about (archived_channel_about "old plans") ≡ true)
    × (count_chars (archived_channel_about "old plans") ≤ channel_about_max_chars)
    × (archived_channel_about (archived_channel_about "old plans")
        ≡ archived_channel_about "old plans")
archived_channel_about_lem_example = archived_channel_about_lem "old plans"

-- The root is renamed at 30 and again at 40.
abbrev once : List Channel
once = new_channel "root" "Office" "" "" 30 ∷ task ∷ []

abbrev twice : List Channel
twice = new_channel "root" "Studio" "" "" 40 ∷ task ∷ []

upsert_channel-HasChannelKeys_example : HasChannelKeys once
unfolding upsert_channel exists update
upsert_channel-HasChannelKeys_example =
    upsert_channel-HasChannelKeys "root" "Office" "" "" 30 channels once ((refl, tt), (tt, tt)) refl

metadata_converges_example : get_channel "root" twice ≡ get_channel "root" twice
unfolding upsert_channel exists update
metadata_converges_example =
    metadata_converges "root" "Office" "" "" "Studio" "" "" 30 40 channels once twice twice twice
      (omega arith) refl refl refl refl

-- Two sessions start in a channel that is not there yet.
reservation_agrees_example :
    reserve_channel_resolution_intent "root" "notes" "h2" 60
      (new_intent "root" "notes" "h1" 50 ∷ new_intent "root" "other" "h3" 55 ∷ [])
    ≡ ok (new_intent "root" "notes" "h1" 50 ∷ new_intent "root" "other" "h3" 55 ∷ [], "h1")
unfolding reserve_channel_resolution_intent channel_resolution_intent find insert_or_ignore exists
reservation_agrees_example =
    reservation_agrees "root" "notes" "h1" "h2" 50 60 [] (new_intent "root" "notes" "h1" 50 ∷ [])
      (new_intent "root" "notes" "h1" 50 ∷ new_intent "root" "other" "h3" 55 ∷ []) "h1" refl
      (more "root" "other" "h3" 55 "h3" none_yet refl)

abbrev contacts : String → ℕ → String → RelayEvent
contacts id at content = record {
  id = id;
  kind = 3;
  pubkey = "alice";
  created_at = at;
  channel_h = "";
  d_tag = "";
  content = content;
  tags_json = "[]";
}

insert_event-HasEventKeys_example :
    HasEventKeys (insert_event (contacts "e2" 20 "") (contacts "e1" 10 "" ∷ [])).0
insert_event-HasEventKeys_example =
    insert_event-HasEventKeys (contacts "e2" 20 "") (contacts "e1" 10 "" ∷ []) (tt, tt)

replacement_converges_example :
    find
      (λ e. same_coordinate e (contacts "e2" 20 "bob"))
      (insert_event (contacts "e2" 20 "bob") (insert_event (contacts "e1" 10 "") []).0).0
    ≡ find
        (λ e. same_coordinate e (contacts "e2" 20 "bob"))
        (insert_event (contacts "e1" 10 "") (insert_event (contacts "e2" 20 "bob") []).0).0
unfolding is_addressable is_replaceable exists
replacement_converges_example =
    replacement_converges (contacts "e1" 10 "") (contacts "e2" 20 "bob") [] tt refl (omega arith)
      refl refl
