-- ===== src/Relay/Reactions.antt =====
-- src/state/reactions.rs: the reactions to messages, which are read beside the messages they are on.
use tenex_edge.Base.{
  ℕ, String, Bool, ◌&&◌, ◌||◌, not, none, some, List, [], ◌∷◌, ◌==◌, ◌=?◌, ltb, if◌then◌else◌,
  text_le, take,
}
use tenex_edge.Table.{find, exists, insert_or_ignore}
use tenex_edge.Table.Order.{sort_by}
use tenex_edge.Relay.Messages.{Message, Messages, message_is}

-- A row of `relay_reactions`.
pub record Reaction : Type 0 where
  pub reaction_id : String
  pub target_message_id : String
  pub channel_h : String
  pub reactor_pubkey : String
  pub emoji : String
  pub created_at : ℕ

pub record ReactionRow : Type 0 where
  pub reaction_id : String
  pub target_message_id : String
  pub channel_h : String
  pub reactor_pubkey : String
  pub emoji : String
  pub created_at : ℕ
  pub target_body : String

abbrev pub reaction_is : String → Reaction → Bool
reaction_is reaction_id r = r.reaction_id == reaction_id

unfoldable pub upsert_reaction : Reaction → List Reaction → List Reaction × Bool
upsert_reaction r t =
    (insert_or_ignore (reaction_is r.reaction_id) r t, not (exists (reaction_is r.reaction_id) t))

abbrev pub reaction_row : Reaction → Message → ReactionRow
reaction_row r m = record {
  reaction_id = r.reaction_id;
  target_message_id = r.target_message_id;
  channel_h = r.channel_h;
  reactor_pubkey = r.reactor_pubkey;
  emoji = r.emoji;
  created_at = r.created_at;
  target_body = m.body;
}

-- `FROM relay_reactions r JOIN messages m ON m.message_id = r.target_message_id WHERE p`: an id names
-- one message.
unfoldable pub join_target :
    (Reaction → Message → Bool) → List Message → List Reaction → List ReactionRow
join_target p messages [] = []
join_target p messages (r ∷ t) =
    let rest = join_target p messages t in
    elim (find (message_is r.target_message_id) messages) [
      | none ↦ rest
      | some m ↦ if p r m then reaction_row r m ∷ rest else rest
    ]

abbrev pub oldest_first : ReactionRow → ReactionRow → Bool
oldest_first a b =
    ltb a.created_at b.created_at
    || a.created_at =? b.created_at && text_le a.reaction_id b.reaction_id

abbrev pub newest_first : ReactionRow → ReactionRow → Bool
newest_first a b =
    ltb b.created_at a.created_at
    || a.created_at =? b.created_at && text_le b.reaction_id a.reaction_id

unfoldable pub reactions_on_authored_after :
    String → ℕ → ℕ → Messages → List Reaction → List ReactionRow
unfolding join_target
reactions_on_authored_after author_pubkey since limit m t = take limit (
    sort_by oldest_first (
      join_target
        (λ r target.
          target.author_pubkey == author_pubkey
          && ltb since r.created_at
          && not (r.reactor_pubkey == author_pubkey))
        m.rows t))

unfoldable pub recent_reactions_for_channel :
    String → ℕ → ℕ → Messages → List Reaction → List ReactionRow
unfolding join_target
recent_reactions_for_channel channel_h since limit m t = take limit (
    sort_by newest_first
      (join_target (λ r target. r.channel_h == channel_h && ltb since r.created_at) m.rows t))
