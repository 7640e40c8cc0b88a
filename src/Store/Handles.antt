-- ===== src/Store/Handles.antt =====
-- src/state/handle_leases.rs and handle_leases/allocation.rs: the names that sessions are known by.
-- The standard library's hash is a parameter.
pub mod Codenames
pub mod Search
pub mod Leases
pub mod Allocation
use Prim.Native.Char.{code}
use tenex_edge.Base.{
  ℕ, zero, suc, ◌+◌, ◌-◌, ◌*◌, String, Bool, true, false, ◌&&◌, ◌||◌, not, Option, none, some, List,
  [], ◌∷◌, ◌++◌, ◌==◌, ◌=?◌, ltb, if◌then◌else◌, trim, concat, ends_with, all_chars,
  is_ascii_alphanumeric, trim_at_signs, map_option, is_some,
}
use tenex_edge.Session.{Session, is_running}
use tenex_edge.Table.{find, exists, update, delete, insert_or_ignore}
use tenex_edge.Store.{Store, HandleLease, SessionSigner, session_is}
use tenex_edge.Store.Result.{
  Result, ok, err, ◌>>=◌, ◌>>◌, fail_if, empty_session_name, invalid_session_name, name_in_use,
  uses_other_name, handle_space_exhausted, signer_changed, no_handle_lease,
}
use tenex_edge.Store.Handles.Codenames.{candidate, candidate_count}

abbrev pub handle_lease_grace_secs : ℕ
handle_lease_grace_secs = 7 * 24 * 60 * 60

pub record HandleAllocation : Type 0 where
  pub handle : String
  pub reclaimed_pubkey : Option String

abbrev pub handle_is : String → HandleLease → Bool
handle_is handle l = l.handle == handle

abbrev pub lease_is_of : String → HandleLease → Bool
lease_is_of pubkey l = l.pubkey == pubkey

-- src/idref.rs
unfoldable pub session_handle : String → String → String
session_handle agent_slug session =
    let slug = trim agent_slug in
    let name = trim session in
    if name == ""
    then slug
    else if slug == ""
    then name
    else if ends_with (concat "-" slug) name
    then name
    else concat name (concat "-" slug)

unfoldable pub custom_handle : String → String → Result String
unfolding session_handle
custom_handle agent_slug name =
    let name = trim name in
    if name == ""
    then err empty_session_name
    else if not (all_chars (λ c. is_ascii_alphanumeric c || code c =? 45 || code c =? 95) name)
    then err invalid_session_name
    else ok (session_handle agent_slug name)

-- `lease.live=1 OR EXISTS(… runtime_state='running')`
unfoldable pub is_occupied : List Session → HandleLease → Bool
unfolding is_running
is_occupied sessions l =
    l.live || exists (λ r. session_is l.pubkey r && is_running r.runtime_state) sessions

unfoldable pub ensure_custom_handle_available : String → String → Store → Result (Unit {0})
unfolding custom_handle is_occupied
ensure_custom_handle_available agent_slug name s = do
  handle ← custom_handle agent_slug name
  fail_if (exists (λ l. handle_is handle l && is_occupied s.sessions l) s.handle_leases) name_in_use

unfoldable pub handle_for_pubkey : String → Store → Option String
handle_for_pubkey pubkey s =
    map_option (λ (l : HandleLease). l.handle) (find (lease_is_of pubkey) s.handle_leases)

unfoldable pub pubkey_for_handle : String → Store → Option String
pubkey_for_handle handle s =
    map_option (λ (l : HandleLease). l.pubkey)
      (find (handle_is (trim_at_signs (trim handle))) s.handle_leases)

-- A candidate's handle: taken, or free, or free once its owner's lease is deleted.
unfoldable pub offer : ℕ → List Session → Option HandleLease → Option (Option String)
unfolding is_occupied
offer now sessions none = some none
offer now sessions (some l) =
    if is_occupied sessions l || ltb (now - l.last_active_at) handle_lease_grace_secs
    then none
    else some (some l.pubkey)

-- The loop over the candidates: `fuel` of them are left, and `index` is the next one.
unfoldable pub search_handle : ℕ → ℕ → ℕ → String → ℕ → Store → Option (String × Option String)
unfolding offer session_handle candidate
search_handle zero index seed agent_slug now s = none
search_handle (suc fuel) index seed agent_slug now s =
    elim (offer now s.sessions
      (find (handle_is (session_handle agent_slug (candidate seed index))) s.handle_leases)) [
        | none ↦ search_handle fuel (index + 1) seed agent_slug now s
        | some reclaimed ↦ some (session_handle agent_slug (candidate seed index), reclaimed)
      ]

abbrev pub live_lease : String → String → String → ℕ → HandleLease
live_lease handle pubkey agent_slug now = record {
  handle = handle;
  pubkey = pubkey;
  agent_slug = agent_slug;
  leased_at = now;
  last_active_at = now;
  live = true;
}

-- The `DELETE` of the lease that is reclaimed, and the `INSERT`.
unfoldable pub lease_handle :
    String → Option String → String → String → ℕ → List HandleLease → List HandleLease
lease_handle handle reclaimed pubkey agent_slug now t =
    (if is_some reclaimed then delete (handle_is handle) t else t)
    ++ live_lease handle pubkey agent_slug now ∷ []

-- The pubkey has a lease already.
unfoldable pub renew_lease : String → ℕ → Store → Store
renew_lease pubkey now s = record s {
  handle_leases =
      update (lease_is_of pubkey) (λ l. record l { live = true; last_active_at = now })
        s.handle_leases;
}

unfoldable pub allocate_handle_in :
    (String → ℕ) → String → String → ℕ → Store → Result (Store × HandleAllocation)
unfolding handle_for_pubkey renew_lease search_handle lease_handle
allocate_handle_in seed_hash pubkey agent_slug now s = elim (handle_for_pubkey pubkey s) [
  | some handle ↦ ok (renew_lease pubkey now s, record { handle = handle; reclaimed_pubkey = none })
  | none ↦ elim (search_handle candidate_count 0 (seed_hash pubkey) agent_slug now s) [
    | none ↦ err handle_space_exhausted
    | some (handle, reclaimed) ↦ ok (
      record s {
        handle_leases = lease_handle handle reclaimed pubkey agent_slug now s.handle_leases;
      },
      record { handle = handle; reclaimed_pubkey = reclaimed },
    )
  ]
]

-- Who has the handle: nobody, a live session, or a dead one, whose lease makes room.
unfoldable pub custom_offer : List Session → Option HandleLease → Option (Option String)
unfolding is_occupied
custom_offer sessions none = some none
custom_offer sessions (some l) = if is_occupied sessions l then none else some (some l.pubkey)

unfoldable pub allocate_custom_handle_in :
    String → String → String → ℕ → Store → Result (Store × HandleAllocation)
unfolding custom_handle handle_for_pubkey renew_lease custom_offer lease_handle
allocate_custom_handle_in pubkey agent_slug name now s = do
  handle ← custom_handle agent_slug name
  elim (handle_for_pubkey pubkey s) [
    | some existing ↦
        if not (existing == handle)
        then err uses_other_name
        else ok (renew_lease pubkey now s, record { handle = existing; reclaimed_pubkey = none })
    | none ↦ elim (custom_offer s.sessions (find (handle_is handle) s.handle_leases)) [
      | none ↦ err name_in_use
      | some reclaimed ↦ ok (
        record s {
          handle_leases = lease_handle handle reclaimed pubkey agent_slug now s.handle_leases;
        },
        record { handle = handle; reclaimed_pubkey = reclaimed },
      )
    ]
  ]

-- `match session_name`
unfoldable pub allocate_in :
    (String → ℕ) → String → String → Option String → ℕ → Store → Result (Store × HandleAllocation)
unfolding allocate_handle_in allocate_custom_handle_in
allocate_in seed_hash pubkey agent_slug none now s =
    allocate_handle_in seed_hash pubkey agent_slug now s
allocate_in seed_hash pubkey agent_slug (some name) now s =
    allocate_custom_handle_in pubkey agent_slug name now s

-- src/state/session_signers.rs
unfoldable pub session_signer_salt : String → Store → Option String
session_signer_salt pubkey s =
    map_option (λ (g : SessionSigner). g.signer_salt)
      (find (λ g. g.pubkey == pubkey) s.session_signers)

unfoldable pub is_derived_session_pubkey : String → Store → Bool
unfolding session_signer_salt
is_derived_session_pubkey pubkey s = is_some (session_signer_salt pubkey s)

-- `INSERT OR IGNORE`, and the test of what is stored.
unfoldable pub store_signer : String → String → Store → Result Store
unfolding session_signer_salt
store_signer pubkey signer_salt s =
    let t = record s {
      session_signers =
          insert_or_ignore (λ g. g.pubkey == pubkey)
            (record { pubkey = pubkey; signer_salt = signer_salt }) s.session_signers;
    } in
    elim (session_signer_salt pubkey t) [
      | none ↦ err signer_changed
      | some stored ↦ if not (stored == signer_salt) then err signer_changed else ok t
    ]

-- `reserve_derived_identity`, whose salt is drawn at random and whose key is derived by the caller; an
-- error rolls the transaction back.
unfoldable pub reserve_derived_identity {ℓ} :
    {T : Type ℓ}
    → (String → ℕ)
    → String
    → Option String
    → ℕ
    → String
    → (String → Result (T × String))
    → Store
    → Result (Store × T × String × HandleAllocation)
unfolding store_signer allocate_in
reserve_derived_identity seed_hash agent_slug session_name now signer_salt derive s = do
  derived ← derive signer_salt
  t ← store_signer derived.1 signer_salt s
  allocated ← allocate_in seed_hash derived.1 agent_slug session_name now t
  ok (allocated.0, derived.0, derived.1, allocated.1)
