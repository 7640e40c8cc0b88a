-- ===== src/Relay/Events/Replacement.antt =====
-- One row for each event id, and one for each coordinate of a replaceable event.
use tenex_edge.Base.{
  ◌≡◌, ◌&&◌, ◌||◌, refl, inl, inr, Bool, false, Bool-cases, List, [], ◌∷◌, arith, All,
  if◌then◌else◌, leb,
}
use tenex_edge.Table.{exists, delete, insert_or_ignore}
use tenex_edge.Table.Keys.{HasKeys, append-HasKeys, delete-HasKeys}
use tenex_edge.Relay.{RelayEvent}
use tenex_edge.Relay.Events.{
  is_addressable, is_replaceable, event_is, at_address, of_author, insert_row, replace_row,
  insert_event,
}

-- Two events that NIP-01 does not let stand together.
abbrev pub same_coordinate : RelayEvent → RelayEvent → Bool
same_coordinate a b =
    if is_addressable b.kind
    then at_address b a
    else if is_replaceable b.kind
    then of_author b a
    else false

abbrev pub same_event : RelayEvent → RelayEvent → Bool
same_event a b = event_is b.id a || same_coordinate a b

abbrev pub HasEventKeys : List RelayEvent → Type 0
HasEventKeys = HasKeys same_event

apart :
    (ev : RelayEvent) (t : List RelayEvent)
    → exists (event_is ev.id) t ≡ false
    → All (λ e. same_coordinate e ev ≡ false) t
    → All (λ e. same_event e ev ≡ false) t
unfolding exists
apart ev [] new clear = tt
apart ev (e ∷ t) new clear =
    (ground (arith, new, clear.0), apart ev t (ground (arith, new)) clear.1)

insert_row-HasEventKeys :
    (ev : RelayEvent) (t : List RelayEvent)
    → HasEventKeys t
    → All (λ e. same_coordinate e ev ≡ false) t
    → HasEventKeys (insert_row ev t).0
unfolding insert_row insert_or_ignore
insert_row-HasEventKeys ev t k clear = elim (Bool-cases (exists (event_is ev.id) t)) [
  | inl old ↦ rw old k
  | inr new ↦ rw new (append-HasKeys same_event ev t k (apart ev t new clear))
]

cleared :
    (ev : RelayEvent) (same : RelayEvent → Bool) (t : List RelayEvent)
    → ((e : RelayEvent) → same_coordinate e ev ≡ same e)
    → All (λ e. same_coordinate e ev ≡ false) (delete same t)
unfolding delete
cleared ev same [] is = tt
cleared ev same (e ∷ t) is = elim (Bool-cases (same e)) [
  | inl gone ↦ rw gone (cleared ev same t is)
  | inr stays ↦ rw stays (ground (arith, is e, stays), cleared ev same t is)
]

replace_row-HasEventKeys :
    (ev : RelayEvent) (same : RelayEvent → Bool) (t : List RelayEvent)
    → ((e : RelayEvent) → same_coordinate e ev ≡ same e)
    → HasEventKeys t
    → HasEventKeys (replace_row same ev t).0
unfolding replace_row
replace_row-HasEventKeys ev same t is k =
    elim (Bool-cases (exists (λ e. same e && leb ev.created_at e.created_at) t)) [
      | inl newer ↦ rw newer k
      | inr older ↦ rw older (
          insert_row-HasEventKeys ev (delete same t) (delete-HasKeys same_event same t k)
            (cleared ev same t is))
    ]

plain_clear :
    (ev : RelayEvent) (t : List RelayEvent)
    → is_addressable ev.kind ≡ false
    → is_replaceable ev.kind ≡ false
    → All (λ e. same_coordinate e ev ≡ false) t
plain_clear ev [] a b = tt
plain_clear ev (e ∷ t) a b = (rw (a, b) refl, plain_clear ev t a b)

-- Inserting an event keeps one row for each id, and one for each coordinate of an addressable or
-- replaceable event: its kind and author, and its d tag if it is addressable.
pub insert_event-HasEventKeys :
    (ev : RelayEvent) (t : List RelayEvent) → HasEventKeys t → HasEventKeys (insert_event ev t).0
unfolding insert_event
insert_event-HasEventKeys ev t k = elim (Bool-cases (is_addressable ev.kind)) [
  | inl address ↦
      rw address (replace_row-HasEventKeys ev (at_address ev) t (λ e. rw address refl) k)
  | inr other ↦ elim (Bool-cases (is_replaceable ev.kind)) [
    | inl author ↦
        rw (other, author)
          (replace_row-HasEventKeys ev (of_author ev) t (λ e. rw (other, author) refl) k)
    | inr plain ↦ rw (other, plain) (insert_row-HasEventKeys ev t k (plain_clear ev t other plain))
  ]
]
