-- ===== src/Tests/Handles.antt =====
-- Handles at concrete inputs.
use tenex_edge.Base.{ℕ, String, none, [], ◌∷◌}
use tenex_edge.Store.{Store, HandleLease, empty}
use tenex_edge.Store.Handles.{HandleAllocation, live_lease}

-- A hash with which every search starts at the first word.
abbrev zero_hash : String → ℕ
zero_hash text = 0

abbrev bob_lease : HandleLease
bob_lease = live_lease "amber-codex" "bob" "codex" 50

abbrev leased : Store
leased = record empty { handle_leases = bob_lease ∷ [] }

abbrev allocated : Store
allocated = record empty {
  handle_leases = bob_lease ∷ live_lease "atlas-codex" "alice" "codex" 60 ∷ [];
}

abbrev atlas : HandleAllocation
atlas = record { handle = "atlas-codex"; reclaimed_pubkey = none }
