-- ===== src/Store/Step/Callers.antt =====
-- Clearing locators and running MCP actors: what they change of the sessions, and that they leave
-- the inbox.
use mathlib.Core.Path.{subst}
use tenex_edge.Base.{
  List, ℕ, String, ◌≡◌, refl, sym, ap, Bool, true, false, arith, ◌==◌, trim, if◌then◌else◌,
}
use tenex_edge.Session.{is_running, Session, is_ready, is_stopping, is_revoked, is_stopped}
use tenex_edge.Store.{Store}
use tenex_edge.Store.Result.{behind_check, ok}
use tenex_edge.Store.Routes.{grant_session_route}
use tenex_edge.Store.Coherence.{IsCoherent}
use tenex_edge.Store.Locators.{
  clear_locator_kind, clear_runtime_locator_if_generation, clear_session_locator_kind, is_native,
  validate_locator_kind,
}
use tenex_edge.Store.McpActors.{
  actor_session, activated_row, write_activation, reserve_mcp_actor_session, activate_mcp_actor,
  bind_mcp_actor,
}
use tenex_edge.Store.McpActors.Inversion.{reserve_actor_inversion, activate_inversion}
use tenex_edge.Store.Step.Follows.{Follows}
use tenex_edge.Store.Step.Change.{Change, same, rows, found, added}
use tenex_edge.Store.Step.Admission.{if-Change}
use tenex_edge.Store.Step.Actors.{touch_state-Change}

actor_session-IsCoherent :
    (pk agent_slug channel : String) (now : ℕ)
    → IsCoherent (actor_session pk agent_slug channel now)
unfolding actor_session is_running
actor_session-IsCoherent pk agent_slug channel now = ground arith

activated_row-Follows :
    (now : ℕ) (r : Session)
    → is_stopping r.runtime_state ≡ false
    → is_revoked r.recovery_state ≡ false
    → Follows r (activated_row now r)
unfolding activated_row is_stopping is_stopped
activated_row-Follows now r moving allowed = ground arith

activated_row-IsCoherent : (now : ℕ) (r : Session) → IsCoherent (activated_row now r)
unfolding activated_row is_running
activated_row-IsCoherent now r = ground arith

pub reserve_actor-Change :
    (pk agent_slug channel : String) (now : ℕ) (s t : Store)
    → reserve_mcp_actor_session pk agent_slug channel now s ≡ ok t
    → Change s.sessions t.sessions
unfolding grant_session_route actor_session
reserve_actor-Change pk agent_slug channel now s t h =
    let (fresh, written) = reserve_actor_inversion pk agent_slug channel now s t h in
    let row =
      added (actor_session pk agent_slug channel now) fresh
        (actor_session-IsCoherent pk agent_slug channel now) in
    rw (← written) (if-Change (trim channel == "") _ _ row row)

pub reserve_actor_inbox :
    (pk agent_slug channel : String) (now : ℕ) (s t : Store)
    → reserve_mcp_actor_session pk agent_slug channel now s ≡ ok t
    → t.inbox ≡ s.inbox
unfolding grant_session_route
reserve_actor_inbox pk agent_slug channel now s t h =
    let (fresh, written) = reserve_actor_inversion pk agent_slug channel now s t h in
    rw (← written) (ground arith)

pub activate-Change :
    (actor_key pk : String) (now : ℕ) (s t : Store)
    → activate_mcp_actor actor_key pk now s ≡ ok t
    → Change s.sessions t.sessions
unfolding write_activation activated_row
activate-Change actor_key pk now s t h =
    let (r, here, moving, allowed, written) = activate_inversion actor_key pk now s t h in
    rw (← written) (
      found pk (activated_row now)
        (λ x hit.
          activated_row-Follows now x (ground (arith, here, hit, moving))
            (ground (arith, here, hit, allowed)))
        (λ x. refl) (λ x c. activated_row-IsCoherent now x))

pub activate_inbox :
    (actor_key pk : String) (now : ℕ) (s t : Store)
    → activate_mcp_actor actor_key pk now s ≡ ok t
    → t.inbox ≡ s.inbox
unfolding write_activation
activate_inbox actor_key pk now s t h =
    let (r, here, moving, allowed, written) = activate_inversion actor_key pk now s t h in
    ap (λ (w : Store). w.inbox) (sym written)

pub bind_actor_keeps :
    (actor_key actor_kind pk : String) (now : ℕ) (s : Store)
    → ((bind_mcp_actor actor_key actor_kind pk now s).0.sessions ≡ s.sessions)
      × ((bind_mcp_actor actor_key actor_kind pk now s).0.inbox ≡ s.inbox)
      × ((bind_mcp_actor actor_key actor_kind pk now s).0.session_locators ≡ s.session_locators)
unfolding bind_mcp_actor
bind_actor_keeps actor_key actor_kind pk now s = ground arith

if-Change_rows :
    {t : List Session} (b : Bool) (x y : List Session)
    → Change t x
    → Change t y
    → Change t (if b then x else y)
if-Change_rows true x y h k = h
if-Change_rows false x y h k = k

-- Of the clearings, one makes a session pending again and one moves its `state_changed_at`.
pub clear_kind-Change :
    (pk kind : String) (s t : Store)
    → clear_locator_kind pk kind s ≡ ok t
    → Change s.sessions t.sessions × (t.inbox ≡ s.inbox)
unfolding clear_locator_kind is_ready is_revoked
clear_kind-Change pk kind s t h =
    let written = behind_check (validate_locator_kind kind) _ t h in
    subst (λ (w : Store). Change s.sessions w.sessions × (w.inbox ≡ s.inbox)) written
      (
        if-Change_rows (is_native kind) _ _
            (rows _ _ (λ r hit. record { follows = ground arith; coherent = λ c. ground arith }))
            same,
        refl,
      )

pub clear_runtime-Change :
    (pk kind : String) (generation now : ℕ) (s t : Store) (b : Bool)
    → clear_runtime_locator_if_generation pk kind generation now s ≡ ok (t, b)
    → Change s.sessions t.sessions × (t.inbox ≡ s.inbox)
unfolding clear_runtime_locator_if_generation
clear_runtime-Change pk kind generation now s t b h =
    let written = behind_check (validate_locator_kind kind) _ (t, b) h in
    subst (λ (w : Store × Bool). Change s.sessions w.0.sessions × (w.0.inbox ≡ s.inbox)) written
      (touch_state-Change _ pk generation now s.sessions, refl)

pub clear_session_kind-Change :
    (pk harness kind : String) (s t : Store)
    → clear_session_locator_kind pk harness kind s ≡ ok t
    → (t.sessions ≡ s.sessions) × (t.inbox ≡ s.inbox)
unfolding clear_session_locator_kind validate_locator_kind
clear_session_kind-Change pk harness kind s t h = (ground arith, ground arith)
