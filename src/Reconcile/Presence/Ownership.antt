-- ===== src/Reconcile/Presence/Ownership.antt =====
-- src/reconcile/status/mod.rs: the operations of the reconciler. A runtime generation owns the presence
-- of a session, and only the owner changes it.
use tenex_edge.Base.{
  ℕ, ◌/◌, String, Bool, Option, none, some, List, [], ◌∷◌, ◌==◌, ◌=?◌, leb, saturating_add,
  if◌then◌else◌,
}
use tenex_edge.Reconcile.Presence.{
  PresenceSnapshot, PresenceProjection, PublishedPresence, StatusReconciler, StatusEffect,
  StatusOutcome, publish, expire, opened, changed, renewed, command_of, to_status, same_command,
}

unfoldable pub renewal_arm_at : ℕ → StatusReconciler → ℕ
renewal_arm_at now r = now / r.renewal_secs

unfoldable pub empty_outcome : String → StatusReconciler → StatusOutcome
empty_outcome pubkey r = record { effects = []; revision = r.revision; pubkey = some pubkey }

-- `outcome`: the revision counts the outcomes of operations that were not ignored
abbrev pub outcome :
    String → List StatusEffect → StatusReconciler → StatusReconciler × StatusOutcome
outcome pubkey effects r = (
  record r { revision = saturating_add r.revision 1 },
  record { effects = effects; revision = saturating_add r.revision 1; pubkey = some pubkey },
)

-- `sessions.insert`, and a write through `owned_mut`
abbrev pub put : String → PublishedPresence → StatusReconciler → StatusReconciler
put pubkey presence r = record r {
  sessions = λ k. if k == pubkey then some presence else r.sessions k;
}

-- `sessions.remove`
abbrev pub remove : String → StatusReconciler → StatusReconciler
remove pubkey r = record r { sessions = λ k. if k == pubkey then none else r.sessions k }

-- `owned_mut`, and the same `filter` in `revoke`
abbrev pub filter_generation : ℕ → Option PublishedPresence → Option PublishedPresence
filter_generation generation none = none
filter_generation generation (some presence) =
    if presence.generation =? generation then some presence else none

unfoldable pub owned : String → ℕ → StatusReconciler → Option PublishedPresence
owned pubkey generation r = filter_generation generation (r.sessions pubkey)

unfoldable pub is_taken : ℕ → Option PublishedPresence → Bool
is_taken generation none = Bool.false
is_taken generation (some current) = leb generation current.generation

unfoldable pub open_presence :
    String → ℕ → PresenceSnapshot → ℕ → StatusReconciler → StatusReconciler × StatusOutcome
unfolding is_taken renewal_arm_at to_status command_of empty_outcome
open_presence pubkey generation snapshot now r =
    let presence : PublishedPresence = record {
      generation = generation;
      snapshot = snapshot;
      live = Bool.true;
      renewal_arm = renewal_arm_at now r;
    } in
    let status = to_status (command_of pubkey presence) r.ttl_secs now Bool.false in
    if is_taken generation (r.sessions pubkey)
    then (r, empty_outcome pubkey r)
    else outcome pubkey (publish status opened ∷ []) (put pubkey presence r)

unfoldable pub reconcile :
    String → ℕ → PresenceProjection → ℕ → StatusReconciler → StatusReconciler × StatusOutcome
unfolding owned to_status command_of same_command empty_outcome
reconcile pubkey generation projection now r = elim (owned pubkey generation r) [
  | none ↦ (r, empty_outcome pubkey r)
  | some presence ↦
      let written = record presence {
        snapshot = record presence.snapshot { projection = projection };
        live = Bool.true;
      } in
      let after = command_of pubkey written in
      let effects =
        if same_command after (command_of pubkey presence)
        then []
        else publish (to_status after r.ttl_secs now Bool.false) changed ∷ [] in
      outcome pubkey effects (put pubkey written r)
]

unfoldable pub renew : String → ℕ → ℕ → StatusReconciler → StatusReconciler × StatusOutcome
unfolding owned renewal_arm_at to_status command_of empty_outcome
renew pubkey generation now r = elim (owned pubkey generation r) [
  | none ↦ (r, empty_outcome pubkey r)
  | some presence ↦
      let written = record presence { renewal_arm = renewal_arm_at now r } in
      let status = to_status (command_of pubkey written) r.ttl_secs now Bool.false in
      if presence.renewal_arm =? renewal_arm_at now r
      then (r, empty_outcome pubkey r)
      else outcome pubkey (publish status renewed ∷ []) (put pubkey written r)
]

unfoldable pub close : String → ℕ → ℕ → StatusReconciler → StatusReconciler × StatusOutcome
unfolding owned to_status command_of empty_outcome
close pubkey generation now r = elim (owned pubkey generation r) [
  | none ↦ (r, empty_outcome pubkey r)
  | some presence ↦
      let written = record presence { live = Bool.false } in
      let status = to_status (command_of pubkey written) r.ttl_secs now Bool.false in
      if presence.live
      then outcome pubkey (publish status changed ∷ []) (put pubkey written r)
      else (r, empty_outcome pubkey r)
]

unfoldable pub revoke : String → ℕ → ℕ → StatusReconciler → StatusReconciler × StatusOutcome
unfolding owned to_status command_of empty_outcome
revoke pubkey generation now r = elim (owned pubkey generation r) [
  | none ↦ (r, empty_outcome pubkey r)
  | some presence ↦
      outcome pubkey (expire (to_status (command_of pubkey presence) r.ttl_secs now Bool.true) ∷ [])
        (remove pubkey r)
]
