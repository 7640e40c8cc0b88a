-- ===== src/Store/Handles/Allocation.antt =====
-- What an allocation of a handle may touch, and when it fails.
use tenex_edge.Base.{
  Bool, ◌&&◌, not, ℕ, ◌<◌, String, ◌≡◌, inl, inr, false, Option-cases, none, some, ◌==◌, arith,
}
use tenex_edge.Table.{find}
use tenex_edge.Store.{Store}
use tenex_edge.Store.Result.{Error, err, handle_space_exhausted}
use tenex_edge.Store.Handles.{lease_is_of, allocate_handle_in, handle_for_pubkey, search_handle}
use tenex_edge.Store.Handles.Codenames.{candidate_count}
use tenex_edge.Store.Handles.Search.{search_exhausted, offer_at}
use tenex_edge.Store.Handles.Leases.{is_held}

-- Another pubkey's lease that is live, or whose session runs, or that was active in the last seven
-- days.
abbrev pub is_protected : ℕ → String → String → Store → Bool
is_protected now pubkey other s = elim (find (lease_is_of other) s.handle_leases) [
  | none ↦ false
  | some l ↦ not (other == pubkey) && is_held now s.sessions l
]

-- An allocation fails only where the pubkey has no lease and none of the candidates is on offer, and
-- then with the error that says so.
pub allocation_exhausted :
    (seed_hash : String → ℕ) (pubkey agent_slug : String) (now k : ℕ) (s : Store) (e : Error)
    → allocate_handle_in seed_hash pubkey agent_slug now s ≡ err e
    → k < candidate_count
    → (e ≡ handle_space_exhausted)
      × (find (lease_is_of pubkey) s.handle_leases ≡ none)
      × (offer_at (seed_hash pubkey) k agent_slug now s ≡ none)
unfolding allocate_handle_in handle_for_pubkey
allocation_exhausted seed_hash pubkey agent_slug now k s e h few =
    elim (Option-cases (find (lease_is_of pubkey) s.handle_leases)) [
      | inr (l, found) ↦ ground (arith, found, h)
      | inl new ↦
          elim (Option-cases
            (search_handle candidate_count 0 (seed_hash pubkey) agent_slug now s)) [
              | inr (found, is) ↦ ground (arith, new, is, h)
              | inl full ↦ (
                ground (arith, new, full, h),
                new,
                search_exhausted candidate_count 0 (seed_hash pubkey) agent_slug now s k full
                    (omega arith) (omega (arith, few)),
              )
            ]
    ]
