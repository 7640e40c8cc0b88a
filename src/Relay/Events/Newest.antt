-- ===== src/Relay/Events/Newest.antt =====
-- Which event of a coordinate is kept.
use tenex_edge.Base.{
  ◌∙◌, sym, ap, ◌<◌, ◌≡◌, ◌&&◌, not, refl, inl, inr, Bool, true, Bool-cases, Option-cases, Option,
  none, some, List, [], ◌∷◌, arith, eq_iff, eq_refl, false, if◌then◌else◌, leb,
}
use tenex_edge.Table.{find, exists, delete, insert_or_ignore}
use tenex_edge.Table.Keys.{exists_by_key}
use tenex_edge.Table.Idle.{exists_one, exists-append, exists-delete}
use tenex_edge.Table.Reads.{find-append, find_one, find-delete_self}
use tenex_edge.Relay.{RelayEvent}
use tenex_edge.Relay.Events.{
  is_addressable, is_replaceable, event_is, insert_row, replace_row, insert_event, at_address,
  of_author,
}
use tenex_edge.Relay.Events.Replacement.{
  same_event, same_coordinate, HasEventKeys, insert_event-HasEventKeys,
}

-- No event of another coordinate has this event's id.
abbrev pub is_id_free : (RelayEvent → Bool) → RelayEvent → List RelayEvent → Bool
is_id_free same ev t = not (exists (λ e. event_is ev.id e && not (same e)) t)

-- Of the cached event and the new one, the one that stays.
abbrev winner : RelayEvent → Option RelayEvent → RelayEvent
winner ev none = ev
winner ev (some old) = if leb ev.created_at old.created_at then old else ev

winner_converges :
    (a b : RelayEvent) (o : Option RelayEvent)
    → a.created_at < b.created_at
    → winner b (some (winner a o)) ≡ winner a (some (winner b o))
winner_converges a b none before = ground (arith, before)
winner_converges a b (some c) before = ground (arith, before)

module _ (same : RelayEvent → Bool)
    (keyed : (a b : RelayEvent) → same a ≡ true → same b ≡ true → same_event a b ≡ true) where
  -- After the deletion no row has the event's id.
  id_gone :
      (ev : RelayEvent) (t : List RelayEvent)
      → is_id_free same ev t ≡ true
      → exists (event_is ev.id) (delete same t) ≡ false
  unfolding exists delete
  id_gone ev [] free = refl
  id_gone ev (e ∷ t) free = ground (arith, free, id_gone ev t (ground (arith, free)))

  -- The row that is found decides whether some row of the coordinate is not older.
  newer_found :
      (ev old : RelayEvent) (t : List RelayEvent)
      → HasEventKeys t
      → find same t ≡ some old
      → exists (λ e. same e && leb ev.created_at e.created_at) t ≡ leb ev.created_at old.created_at
  newer_found ev old t k found =
      exists_by_key same_event same (λ e. leb ev.created_at e.created_at) t old keyed k found

  newer_none :
      (ev : RelayEvent) (t : List RelayEvent)
      → find same t ≡ none
      → exists (λ e. same e && leb ev.created_at e.created_at) t ≡ false
  unfolding find exists
  newer_none ev [] none_there = refl
  newer_none ev (e ∷ t) none_there = ground (arith, none_there, newer_none ev t)

  replaced :
      (ev : RelayEvent) (t : List RelayEvent)
      → HasEventKeys t
      → same ev ≡ true
      → is_id_free same ev t ≡ true
      → find same (replace_row same ev t).0 ≡ some (winner ev (find same t))
  unfolding replace_row insert_row insert_or_ignore
  replaced ev t k at free = elim (Option-cases (find same t)) [
    | inl new ↦ ground (
      arith,
      at,
      new,
      newer_none ev t new,
      id_gone ev t free,
      find-append same (delete same t) (ev ∷ []),
      find_one same ev,
      find-delete_self same same t (λ r h. h),
    )
    | inr (old, found) ↦ ground (
      arith,
      at,
      found,
      newer_found ev old t k found,
      id_gone ev t free,
      find-append same (delete same t) (ev ∷ []),
      find_one same ev,
      find-delete_self same same t (λ r h. h),
    )
  ]

  -- An event of the coordinate leaves the ids of other events free.
  still_free :
      (ev other : RelayEvent) (t : List RelayEvent)
      → same ev ≡ true
      → is_id_free same other t ≡ true
      → is_id_free same other (replace_row same ev t).0 ≡ true
  unfolding replace_row insert_row insert_or_ignore
  still_free ev other t at free =
      elim (Bool-cases (exists (λ e. same e && leb ev.created_at e.created_at) t)) [
        | inl newer ↦ ground (arith, newer, free)
        | inr older ↦ elim (Bool-cases (exists (event_is ev.id) (delete same t))) [
          | inl there ↦ ground (arith, older, there, gone)
          | inr new ↦ ground (
            arith,
            older,
            new,
            gone,
            at,
            exists-append stranger (delete same t) (ev ∷ []),
            exists_one stranger ev,
          )
        ]
      ]
    where
      stranger : RelayEvent → Bool
      stranger e = event_is other.id e && not (same e)

      gone : exists stranger (delete same t) ≡ false
      gone = exists-delete stranger same t (ground (arith, free))

  -- In either order, the same event of the coordinate stays.
  orders_agree :
      (a b : RelayEvent) (t : List RelayEvent)
      → a.created_at < b.created_at
      → same a ≡ true
      → same b ≡ true
      → is_id_free same a t ≡ true
      → is_id_free same b t ≡ true
      → HasEventKeys t
      → HasEventKeys (replace_row same a t).0
      → HasEventKeys (replace_row same b t).0
      → find same (replace_row same b (replace_row same a t).0).0
        ≡ find same (replace_row same a (replace_row same b t).0).0
  orders_agree a b t before at_a at_b free_a free_b k k_a k_b =
      replaced b (replace_row same a t).0 k_a at_b (still_free a b t at_a free_b)
      ∙ rw (replaced a t k at_a free_a, replaced b t k at_b free_b)
          (ap some (winner_converges a b (find same t) before))
      ∙ sym (replaced a (replace_row same b t).0 k_b at_a (still_free b a t at_b free_a))

replace_row-ext :
    (p q : RelayEvent → Bool) (ev : RelayEvent) (t : List RelayEvent)
    → ((e : RelayEvent) → p e ≡ q e)
    → replace_row p ev t ≡ replace_row q ev t
replace_row-ext p q ev t h = λ i. replace_row (λ e. h e i) ev t

agree_address :
    (a b : RelayEvent)
    → at_address b a ≡ true
    → (a.kind ≡ b.kind) × (a.pubkey ≡ b.pubkey) × (a.d_tag ≡ b.d_tag)
agree_address a b h = ground (arith, h, eq_iff a.pubkey b.pubkey, eq_iff a.d_tag b.d_tag)

agree_author : (a b : RelayEvent) → of_author b a ≡ true → (a.kind ≡ b.kind) × (a.pubkey ≡ b.pubkey)
agree_author a b h = ground (arith, h, eq_iff a.pubkey b.pubkey)

insert_address :
    (a : RelayEvent) (t : List RelayEvent)
    → is_addressable a.kind ≡ true
    → insert_event a t ≡ replace_row (at_address a) a t
unfolding insert_event
insert_address a t h = rw h refl

insert_author :
    (a : RelayEvent) (t : List RelayEvent)
    → is_addressable a.kind ≡ false
    → is_replaceable a.kind ≡ true
    → insert_event a t ≡ replace_row (of_author a) a t
unfolding insert_event
insert_author a t h k = rw (h, k) refl

-- An event is replaced within the coordinate that it shares.
insert_same :
    (a b : RelayEvent) (t : List RelayEvent)
    → same_coordinate a b ≡ true
    → insert_event a t ≡ replace_row (λ e. same_coordinate e b) a t
unfolding insert_event
insert_same a b t h = elim (Bool-cases (is_addressable b.kind)) [
  | inl address ↦
      let (kind, pubkey, d_tag) = agree_address a b (rw address at h) in
      insert_address a t (rw kind address)
      ∙ replace_row-ext (at_address a) (λ e. same_coordinate e b) a t
          (λ e. rw (kind, pubkey, d_tag, address) refl)
  | inr other ↦ elim (Bool-cases (is_replaceable b.kind)) [
    | inl author ↦
        let (kind, pubkey) = agree_author a b (rw (other, author) at h) in
        insert_author a t (rw kind other) (rw kind author)
        ∙ replace_row-ext (of_author a) (λ e. same_coordinate e b) a t
            (λ e. rw (kind, pubkey, other, author) refl)
    | inr plain ↦ ground (arith, h, other, plain)
  ]
]

in_one :
    (b x y : RelayEvent)
    → same_coordinate x b ≡ true
    → same_coordinate y b ≡ true
    → same_event x y ≡ true
in_one b x y h k = elim (Bool-cases (is_addressable b.kind)) [
  | inl address ↦
      let (kind, pubkey, d_tag) = agree_address x b (rw address at h) in
      let (kind2, pubkey2, d_tag2) = agree_address y b (rw address at k) in
      ground (
        arith,
        address,
        kind,
        pubkey,
        d_tag,
        kind2,
        pubkey2,
        d_tag2,
        eq_refl b.pubkey,
        eq_refl b.d_tag,
      )
  | inr other ↦ elim (Bool-cases (is_replaceable b.kind)) [
    | inl author ↦
        let (kind, pubkey) = agree_author x b (rw (other, author) at h) in
        let (kind2, pubkey2) = agree_author y b (rw (other, author) at k) in
        ground (arith, other, author, kind, pubkey, kind2, pubkey2, eq_refl b.pubkey)
    | inr plain ↦ ground (arith, h, other, plain)
  ]
]

own_coordinate : (a b : RelayEvent) → same_coordinate a b ≡ true → same_coordinate b b ≡ true
own_coordinate a b h = ground (arith, h, eq_refl b.pubkey, eq_refl b.d_tag)

-- Where two events of one replaceable coordinate have different times, the same event of it is cached
-- after they are inserted in either order, in a cache with one row for each id and coordinate that
-- has neither's id under another coordinate.
pub replacement_converges :
    (a b : RelayEvent) (t : List RelayEvent)
    → HasEventKeys t
    → same_coordinate a b ≡ true
    → a.created_at < b.created_at
    → is_id_free (λ e. same_coordinate e b) a t ≡ true
    → is_id_free (λ e. same_coordinate e b) b t ≡ true
    → find (λ e. same_coordinate e b) (insert_event b (insert_event a t).0).0
      ≡ find (λ e. same_coordinate e b) (insert_event a (insert_event b t).0).0
replacement_converges a b t k h before free_a free_b =
    let own = own_coordinate a b h in
    let k_a = insert_event-HasEventKeys a t k in
    let k_b = insert_event-HasEventKeys b t k in
    rw
      (
        insert_same b b (insert_event a t).0 own,
        insert_same a b (insert_event b t).0 h,
        insert_same a b t h,
        insert_same b b t own,
      )
      (orders_agree (λ e. same_coordinate e b) (in_one b) a b t before h own free_a free_b k
        (rw (insert_same a b t h) at k_a) (rw (insert_same b b t own) at k_b))
