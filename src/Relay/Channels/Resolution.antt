-- ===== src/Relay/Channels/Resolution.antt =====
-- Names that are reserved for channels the relay has not confirmed.
use tenex_edge.Base.{ℕ, String, ◌≡◌, inl, inr, Option-cases, some, List, arith, eq_refl}
use tenex_edge.Table.{find, insert_or_ignore}
use tenex_edge.Table.Reads.{find-insert_or_ignore, exists-find}
use tenex_edge.Relay.{ResolutionIntent}
use tenex_edge.Relay.Channels.{
  intent_is, channel_resolution_intent, reserve_channel_resolution_intent,
}
use tenex_edge.Store.Result.{ok}

abbrev pub new_intent : String → String → String → ℕ → ResolutionIntent
new_intent parent name channel_h now = record {
  parent = parent;
  name = name;
  channel_h = channel_h;
  created_at = now;
}

-- Any number of reservations.
pub data Reserves (t : List ResolutionIntent) : List ResolutionIntent → Type 0 where
  none_yet : Reserves t t
  more :
      {u v : List ResolutionIntent} (parent name proposed : String) (now : ℕ) (h : String)
      → Reserves t u
      → reserve_channel_resolution_intent parent name proposed now u ≡ ok (v, h)
      → Reserves t v

-- The row that a reservation leaves for its name.
reserved_row :
    (parent name h : String) (now : ℕ) (t : List ResolutionIntent)
    → (i : ResolutionIntent) × (find
          (intent_is parent name)
          (insert_or_ignore (intent_is parent name) (new_intent parent name h now) t)
        ≡ some i)
reserved_row parent name h now t = elim (Option-cases (find (intent_is parent name) t)) [
  | inl new ↦ (
    new_intent parent name h now,
    ground (
      arith,
      new,
      exists-find (intent_is parent name) t,
      eq_refl parent,
      eq_refl name,
      find-insert_or_ignore (intent_is parent name) (intent_is parent name)
          (new_intent parent name h now) t,
    ),
  )
  | inr (i, old) ↦ (
    i,
    ground (
      arith,
      old,
      exists-find (intent_is parent name) t,
      find-insert_or_ignore (intent_is parent name) (intent_is parent name)
          (new_intent parent name h now) t,
    ),
  )
]

reserved_ok :
    (parent name h : String) (now : ℕ) (t : List ResolutionIntent) (i : ResolutionIntent)
    → find
        (intent_is parent name)
        (insert_or_ignore (intent_is parent name) (new_intent parent name h now) t)
      ≡ some i
    → reserve_channel_resolution_intent parent name h now t
      ≡ ok (insert_or_ignore (intent_is parent name) (new_intent parent name h now) t, i.channel_h)
unfolding reserve_channel_resolution_intent channel_resolution_intent
reserved_ok parent name h now t i found = ground (arith, found)

-- Where the name has a row, reserving it writes nothing and answers with the row's channel.
reserved_again :
    (parent name h : String) (now : ℕ) (t : List ResolutionIntent) (i : ResolutionIntent)
    → find (intent_is parent name) t ≡ some i
    → reserve_channel_resolution_intent parent name h now t ≡ ok (t, i.channel_h)
unfolding reserve_channel_resolution_intent channel_resolution_intent insert_or_ignore
reserved_again parent name h now t i found =
    ground (arith, found, exists-find (intent_is parent name) t)

-- A reservation keeps the row of every name that has one.
row_kept :
    (p n parent name h : String) (now : ℕ) (t : List ResolutionIntent) (i : ResolutionIntent)
    → find (intent_is p n) t ≡ some i
    → find
        (intent_is p n)
        (insert_or_ignore (intent_is parent name) (new_intent parent name h now) t)
      ≡ some i
row_kept p n parent name h now t i found = ground (
  arith,
  found,
  find-insert_or_ignore (intent_is p n) (intent_is parent name) (new_intent parent name h now) t,
)

written :
    (parent name h : String) (now : ℕ) (t u : List ResolutionIntent) (g : String)
    → reserve_channel_resolution_intent parent name h now t ≡ ok (u, g)
    → insert_or_ignore (intent_is parent name) (new_intent parent name h now) t ≡ u
written parent name h now t u g e =
    let (i, found) = reserved_row parent name h now t in
    ground (arith, reserved_ok parent name h now t i found, e)

kept_by_all :
    (p n : String) {t u : List ResolutionIntent} (i : ResolutionIntent)
    → Reserves t u
    → find (intent_is p n) t ≡ some i
    → find (intent_is p n) u ≡ some i
kept_by_all p n i none_yet found = found
kept_by_all p n i (more {u = m} {v = v} parent name h now g before e) found =
    rw (← written parent name h now m v g e)
      (row_kept p n parent name h now m i (kept_by_all p n i before found))

-- After a reservation of a name within a parent, whatever reservations follow it, a later one of the
-- same name succeeds, answers with the channel that the first one answered with, whatever it
-- proposes, and writes nothing.
pub reservation_agrees :
    (parent name first second : String) (now later : ℕ) (t u v : List ResolutionIntent) (h : String)
    → reserve_channel_resolution_intent parent name first now t ≡ ok (u, h)
    → Reserves u v
    → reserve_channel_resolution_intent parent name second later v ≡ ok (v, h)
reservation_agrees parent name first second now later t u v h e between =
    let (i, found) = reserved_row parent name first now t in
    let answer = reserved_ok parent name first now t i found in
    let there = rw (written parent name first now t u h e) at found in
    ground (
      arith,
      answer,
      e,
      reserved_again parent name second later v i (kept_by_all parent name i between there),
    )
