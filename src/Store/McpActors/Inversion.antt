-- ===== src/Store/McpActors/Inversion.antt =====
-- What an operation on an MCP actor's session that succeeds has checked, and what it wrote.
use tenex_edge.Base.{ℕ, String, ◌≡◌, inl, inr, false, Option-cases, some, arith, ◌++◌, ◌∷◌, []}
use tenex_edge.Session.{Session, is_stopping, is_revoked}
use tenex_edge.Table.{find, exists}
use tenex_edge.Store.{Store, session_is}
use tenex_edge.Store.Result.{ok}
use tenex_edge.Store.Routes.{grant_session_route}
use tenex_edge.Store.McpActors.{
  actor_session, reserve_mcp_actor_session, write_activation, activate_mcp_actor,
}

pub reserve_actor_inversion :
    (pk agent_slug channel : String) (now : ℕ) (s t : Store)
    → reserve_mcp_actor_session pk agent_slug channel now s ≡ ok t
    → (exists (session_is pk) s.sessions ≡ false)
      × (grant_session_route pk channel now
            (record s { sessions = s.sessions ++ actor_session pk agent_slug channel now ∷ [] })
          ≡ t)
unfolding reserve_mcp_actor_session
reserve_actor_inversion pk agent_slug channel now s t h = ground arith

pub activate_inversion :
    (actor_key pk : String) (now : ℕ) (s t : Store)
    → activate_mcp_actor actor_key pk now s ≡ ok t
    → (r : Session) × (find (session_is pk) s.sessions ≡ some r)
      × (is_stopping r.runtime_state ≡ false)
      × (is_revoked r.recovery_state ≡ false)
      × (write_activation actor_key pk now s ≡ t)
unfolding activate_mcp_actor
activate_inversion actor_key pk now s t h = elim (Option-cases (find (session_is pk) s.sessions)) [
  | inl missing ↦ ground (arith, missing)
  | inr (r, found) ↦ (r, found, ground (arith, found), ground (arith, found), ground (arith, found))
]
