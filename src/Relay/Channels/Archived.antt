-- ===== src/Relay/Channels/Archived.antt =====
-- The description of an archived channel.
use tenex_edge.Base.{
  String, ◌≤◌, ◌≡◌, ◌==◌, refl, ◌∙◌, inl, inr, true, Bool-cases, arith, trim, concat, starts_with,
  take_chars, count_chars, count_chars-take, starts_with-take, starts_with-append, take_chars-take,
  if◌then◌else◌,
}
use tenex_edge.Relay.Channels.{
  is_archived_channel_about, archived_channel_about, archived_channel_about_prefix,
  channel_about_max_chars,
}

-- What is cut starts with the prefix.
marked : String → String
marked about =
    if is_archived_channel_about about
    then about
    else if trim about == ""
    then archived_channel_about_prefix
    else concat archived_channel_about_prefix (concat " " about)

marked_starts : (about : String) → starts_with archived_channel_about_prefix (marked about) ≡ true
unfolding marked is_archived_channel_about
marked_starts about = elim (Bool-cases (starts_with archived_channel_about_prefix about)) [
  | inl already ↦ rw already already
  | inr plain ↦ elim (Bool-cases (trim about == "")) [
    | inl blank ↦ rw (plain, blank) (starts_with-append archived_channel_about_prefix "")
    | inr text ↦
        rw (plain, text) (starts_with-append archived_channel_about_prefix (concat " " about))
  ]
]

archived_as_is :
    (about : String)
    → starts_with archived_channel_about_prefix about ≡ true
    → archived_channel_about about ≡ take_chars channel_about_max_chars about
unfolding is_archived_channel_about archived_channel_about
archived_as_is about already = rw already refl

-- The description that archiving writes is that of an archived channel, has at most eighty
-- characters, and is what archiving it again writes.
pub archived_channel_about_lem :
    (about : String)
    → (is_archived_channel_about (archived_channel_about about) ≡ true)
      × (count_chars (archived_channel_about about) ≤ channel_about_max_chars)
      × (archived_channel_about (archived_channel_about about) ≡ archived_channel_about about)
unfolding is_archived_channel_about archived_channel_about marked count_chars
archived_channel_about_lem about =
    let starts =
      starts_with-take channel_about_max_chars archived_channel_about_prefix (marked about)
        (omega arith) (marked_starts about) in
    (
      starts,
      count_chars-take channel_about_max_chars (marked about),
      archived_as_is (archived_channel_about about) starts
          ∙ take_chars-take channel_about_max_chars (marked about),
    )
