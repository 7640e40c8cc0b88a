-- ===== src/Relay/Events.antt =====
-- src/state/events.rs: the cache of relay events, which applies NIP-01 replacement as it inserts.
pub mod Replacement
pub mod Newest
use tenex_edge.Base.{
  ℕ, String, Bool, true, false, ◌&&◌, ◌||◌, not, Option, none, some, List, [], ◌∷◌, ◌==◌, ◌=?◌, ltb,
  leb, if◌then◌else◌, text_lt, text_le, take,
}
use Prim.Native.String.{len}
use tenex_edge.Table.{find, exists, select, delete, insert_or_ignore, count}
use tenex_edge.Table.Order.{sort_by}
use tenex_edge.Relay.{RelayEvent}
use tenex_edge.Store.Result.{Result, ok, err, ambiguous_prefix}

unfoldable pub is_addressable : ℕ → Bool
is_addressable kind = leb 30000 kind && ltb kind 40000

unfoldable pub is_replaceable : ℕ → Bool
is_replaceable kind = kind =? 0 || kind =? 3 || leb 10000 kind && ltb kind 20000

abbrev pub event_is : String → RelayEvent → Bool
event_is id e = e.id == id

-- The rows that an addressable event replaces, and those that a replaceable one does.
abbrev pub at_address : RelayEvent → RelayEvent → Bool
at_address ev e = e.kind =? ev.kind && e.pubkey == ev.pubkey && e.d_tag == ev.d_tag

abbrev pub of_author : RelayEvent → RelayEvent → Bool
of_author ev e = e.kind =? ev.kind && e.pubkey == ev.pubkey

-- The last statement, and whether it stored a row.
unfoldable pub insert_row : RelayEvent → List RelayEvent → List RelayEvent × Bool
insert_row ev t = (insert_or_ignore (event_is ev.id) ev t, not (exists (event_is ev.id) t))

-- One coordinate: a cached event that is not older wins, else all of them make room.
unfoldable pub replace_row :
    (RelayEvent → Bool) → RelayEvent → List RelayEvent → List RelayEvent × Bool
unfolding insert_row
replace_row same ev t =
    if exists (λ e. same e && leb ev.created_at e.created_at) t
    then (t, false)
    else insert_row ev (delete same t)

unfoldable pub insert_event : RelayEvent → List RelayEvent → List RelayEvent × Bool
unfolding is_addressable is_replaceable insert_row replace_row
insert_event ev t =
    if is_addressable ev.kind
    then replace_row (at_address ev) ev t
    else if is_replaceable ev.kind
    then replace_row (of_author ev) ev t
    else insert_row ev t

unfoldable pub get_event : String → List RelayEvent → Option RelayEvent
get_event id t = find (event_is id) t

unfoldable pub has_event : String → List RelayEvent → Bool
has_event id t = exists (event_is id) t

-- No row, one row, or too many.
abbrev pub at_most_one : List RelayEvent → Result (Option RelayEvent)
at_most_one [] = ok none
at_most_one (e ∷ []) = ok (some e)
at_most_one (e ∷ e2 ∷ _) = err ambiguous_prefix

-- `get_event_by_prefix`; `glob` is SQLite's `id GLOB prefix || '*'`.
unfoldable pub get_event_by_prefix :
    (String → String → Bool) → String → List RelayEvent → Result (Option RelayEvent)
unfolding get_event
get_event_by_prefix glob prefix t =
    if leb 64 (len prefix)
    then ok (get_event prefix t)
    else at_most_one (take 2 (select (λ e. glob prefix e.id) t))

-- `ORDER BY created_at ASC, id ASC`
abbrev pub oldest_first : RelayEvent → RelayEvent → Bool
oldest_first a b =
    ltb a.created_at b.created_at || a.created_at =? b.created_at && text_le a.id b.id

-- `ORDER BY created_at DESC, id DESC`
abbrev pub newest_first : RelayEvent → RelayEvent → Bool
newest_first a b =
    ltb b.created_at a.created_at || a.created_at =? b.created_at && text_le b.id a.id

unfoldable pub chat_for_channel : String → ℕ → ℕ → List RelayEvent → List RelayEvent
chat_for_channel channel_h since limit t =
    take limit
      (sort_by oldest_first (select (λ e. e.channel_h == channel_h && ltb since e.created_at) t))

-- Behind a cursor of a time and an id.
abbrev pub is_after : ℕ → String → RelayEvent → Bool
is_after after_created_at after_id e =
    ltb after_created_at e.created_at || e.created_at =? after_created_at && text_lt after_id e.id

unfoldable pub chat_for_channel_after : String → ℕ → String → ℕ → List RelayEvent → List RelayEvent
chat_for_channel_after channel_h after_created_at after_id limit t = take limit (
    sort_by oldest_first
      (select (λ e. e.channel_h == channel_h && is_after after_created_at after_id e) t))

unfoldable pub count_channel_events_before : String → ℕ → List RelayEvent → ℕ
count_channel_events_before channel_h before t =
    count (λ e. e.channel_h == channel_h && e.kind =? 9 && ltb e.created_at before) t

unfoldable pub events_by_kind : ℕ → ℕ → List RelayEvent → List RelayEvent
events_by_kind kind limit t = take limit (sort_by newest_first (select (λ e. e.kind =? kind) t))
