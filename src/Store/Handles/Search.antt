-- ===== src/Store/Handles/Search.antt =====
-- What the search for a handle finds, and when it finds nothing.
use tenex_edge.Base.{
  ℕ, zero, suc, ◌+◌, ◌<◌, ◌≤◌, String, ◌≡◌, sym, ◌∙◌, inl, inr, Option, Option-cases, none, some,
  ◌=?◌, Bool-cases, arith,
}
use tenex_edge.Table.{find}
use tenex_edge.Store.{Store}
use tenex_edge.Store.Handles.{handle_is, offer, session_handle, search_handle}
use tenex_edge.Store.Handles.Codenames.{candidate}

-- The offer that is made for the candidate at an index.
abbrev pub offer_at : ℕ → ℕ → String → ℕ → Store → Option (Option String)
offer_at seed index agent_slug now s =
    offer now s.sessions
      (find (handle_is (session_handle agent_slug (candidate seed index))) s.handle_leases)

search_step :
    (fuel index seed : ℕ) (agent_slug : String) (now : ℕ) (s : Store)
    → offer_at seed index agent_slug now s ≡ none
    → search_handle (suc fuel) index seed agent_slug now s
      ≡ search_handle fuel (index + 1) seed agent_slug now s
unfolding search_handle
search_step fuel index seed agent_slug now s h = ground (arith, h)

search_hit :
    (fuel index seed : ℕ) (agent_slug : String) (now : ℕ) (s : Store) (o : Option String)
    → offer_at seed index agent_slug now s ≡ some o
    → search_handle (suc fuel) index seed agent_slug now s
      ≡ some (session_handle agent_slug (candidate seed index), o)
unfolding search_handle
search_hit fuel index seed agent_slug now s o h = ground (arith, h)

found_offer :
    (seed index : ℕ) (agent_slug : String) (now : ℕ) (s : Store) (h : String) (p o : Option String)
    → offer_at seed index agent_slug now s ≡ some p
    → session_handle agent_slug (candidate seed index) ≡ h
    → p ≡ o
    → offer now s.sessions (find (handle_is h) s.handle_leases) ≡ some o
found_offer seed index agent_slug now s h p o free same_handle same_offer =
    rw (← same_handle, ← same_offer) free

-- The handle that is found is on offer.
pub search_inversion :
    (fuel index seed : ℕ) (agent_slug : String) (now : ℕ) (s : Store) (h : String)
    (o : Option String)
    → search_handle fuel index seed agent_slug now s ≡ some (h, o)
    → offer now s.sessions (find (handle_is h) s.handle_leases) ≡ some o
unfolding search_handle
search_inversion zero index seed agent_slug now s h o e = cc e
search_inversion (suc fuel) index seed agent_slug now s h o e =
    elim (Option-cases (offer_at seed index agent_slug now s)) [
      | inl taken ↦
          search_inversion fuel (index + 1) seed agent_slug now s h o
            (sym (search_step fuel index seed agent_slug now s taken) ∙ e)
      | inr (p, free) ↦
          let both : some (session_handle agent_slug (candidate seed index), p) ≡ some (h, o) =
            sym (search_hit fuel index seed agent_slug now s p free) ∙ e in
          found_offer seed index agent_slug now s h p o free (cc both) (cc both)
    ]

-- Where nothing is found, no candidate is on offer.
pub search_exhausted :
    (fuel index seed : ℕ) (agent_slug : String) (now : ℕ) (s : Store) (k : ℕ)
    → search_handle fuel index seed agent_slug now s ≡ none
    → index ≤ k
    → k < index + fuel
    → offer_at seed k agent_slug now s ≡ none
unfolding search_handle
search_exhausted zero index seed agent_slug now s k e low high = absurd (omega (arith, low, high))
search_exhausted (suc fuel) index seed agent_slug now s k e low high =
    elim (Option-cases (offer_at seed index agent_slug now s)) [
      | inl taken ↦ elim (Bool-cases (k =? index)) [
        | inl same ↦ let e2 : k ≡ index = ground (arith, same) in rw e2 taken
        | inr other ↦
            search_exhausted fuel (index + 1) seed agent_slug now s k
              (sym (search_step fuel index seed agent_slug now s taken) ∙ e)
              (ground (arith, low, other)) (omega (arith, high))
      ]
      | inr (p, free) ↦
          let no : none ≡ some (session_handle agent_slug (candidate seed index), p) =
            sym e ∙ search_hit fuel index seed agent_slug now s p free in
          cc no
    ]
