-- ===== src/Store/Locators/Unique.antt =====
-- The unique indexes of `session_locators` (src/state/schema/ddl.rs): a locator's value names one
-- row, a session has one native resume locator, and one locator of a kind for a harness.
use tenex_edge.Base.{
  ℕ, String, ◌≡◌, none, ◌++◌, refl, inl, inr, Bool, true, false, ◌&&◌, ◌||◌, Bool-cases, List, [],
  ◌∷◌, arith, ◌==◌, All, eq_comm, eq_iff, eq_refl,
}
use tenex_edge.Table.{find, exists, delete}
use tenex_edge.Table.Written.{IsClear, written-HasKeys}
use tenex_edge.Table.Keys.{HasKeys, append-HasKeys, delete-HasKeys}
use tenex_edge.Store.{SessionLocator}
use tenex_edge.Store.Locators.{
  locator_native_resume, is_native, locator_is, new_locator, is_replaced, write_locator,
}

abbrev pub same_value : SessionLocator → SessionLocator → Bool
same_value a b = locator_is b.harness b.locator_kind b.locator_value a

-- Two rows that the indexes do not let stand together.
abbrev pub same_locator : SessionLocator → SessionLocator → Bool
same_locator a b =
    same_value a b
    || a.pubkey == b.pubkey
      && (is_native a.locator_kind && is_native b.locator_kind
          || a.harness == b.harness && a.locator_kind == b.locator_kind)

abbrev pub HasLocatorKeys : List SessionLocator → Type 0
HasLocatorKeys = HasKeys same_locator

kept_clear :
    (harness kind value pk : String) (generation at : ℕ) (x : SessionLocator)
    → is_replaced pk harness kind x ≡ false
    → locator_is harness kind value x ≡ false
    → (same_locator x (new_locator harness kind value pk generation at) ≡ false)
      × (same_locator (new_locator harness kind value pk generation at) x ≡ false)
kept_clear harness kind value pk generation at x stays miss =
    rw
      (
        eq_comm pk x.pubkey,
        eq_comm harness x.harness,
        eq_comm kind x.locator_kind,
        eq_comm value x.locator_value,
      )
      (ground (arith, stays, miss, eq_iff x.locator_kind kind))

replaced-IsClear :
    (harness kind value pk : String) (generation at : ℕ) (t : List SessionLocator)
    → IsClear same_locator
        (locator_is harness kind value)
        (new_locator harness kind value pk generation at)
        (delete (is_replaced pk harness kind) t)
unfolding delete
replaced-IsClear harness kind value pk generation at [] = tt
replaced-IsClear harness kind value pk generation at (x ∷ t) =
    elim (Bool-cases (is_replaced pk harness kind x)) [
      | inl gone ↦ rw gone (replaced-IsClear harness kind value pk generation at t)
      | inr stays ↦ rw stays (
        λ miss. kept_clear harness kind value pk generation at x stays miss,
        replaced-IsClear harness kind value pk generation at t,
      )
    ]

same_by_value :
    {harness kind value : String} (a b : SessionLocator)
    → (a.harness ≡ harness) × (a.locator_kind ≡ kind) × (a.locator_value ≡ value)
    → (b.harness ≡ harness) × (b.locator_kind ≡ kind) × (b.locator_value ≡ value)
    → same_locator a b ≡ true
same_by_value {harness} {kind} {value} a b x y =
    rw (x.0, x.1, x.2, y.0, y.1, y.2, eq_refl harness, eq_refl kind, eq_refl value) refl

the_value :
    (harness kind value : String) (a : SessionLocator)
    → locator_is harness kind value a ≡ true
    → (a.harness ≡ harness) × (a.locator_kind ≡ kind) × (a.locator_value ≡ value)
the_value harness kind value a hit =
    ground
      (arith, eq_iff a.harness harness, eq_iff a.locator_kind kind, eq_iff a.locator_value value)

pub write_locator-HasLocatorKeys :
    (harness kind value pk : String) (generation at : ℕ) (t : List SessionLocator)
    → HasLocatorKeys t
    → HasLocatorKeys (write_locator harness kind value pk generation at t)
unfolding write_locator
write_locator-HasLocatorKeys harness kind value pk generation at t h =
    written-HasKeys same_locator (locator_is harness kind value)
      (new_locator harness kind value pk generation at)
      (λ l. record l { pubkey = pk; runtime_generation = generation; created_at = at })
      (λ a b x y.
        same_by_value a b (the_value harness kind value a x) (the_value harness kind value b y))
      (λ a b hit. let (u, v, w) = the_value harness kind value a hit in rw (u, v, w) refl)
      (λ a b hit. let (u, v, w) = the_value harness kind value b hit in rw (u, v, w) refl)
      (delete (is_replaced pk harness kind) t)
      (delete-HasKeys same_locator (is_replaced pk harness kind) t h)
      (replaced-IsClear harness kind value pk generation at t)

native_apart :
    (harness value pk : String) (at : ℕ) (t : List SessionLocator)
    → find (locator_is harness locator_native_resume value) t ≡ none
    → exists (λ l. l.pubkey == pk && is_native l.locator_kind) t ≡ false
    → All (λ x. same_locator x (new_locator harness locator_native_resume value pk 0 at) ≡ false) t
unfolding find exists
native_apart harness value pk at [] f e = tt
native_apart harness value pk at (x ∷ t) f e = (
  ground (arith, f, e, eq_iff x.locator_kind locator_native_resume),
  native_apart harness value pk at t (ground (arith, f)) (ground (arith, e)),
)

-- A native resume locator that no row has, for a session that has none.
pub append_native-HasLocatorKeys :
    (harness value pk : String) (at : ℕ) (t : List SessionLocator)
    → HasLocatorKeys t
    → find (locator_is harness locator_native_resume value) t ≡ none
    → exists (λ l. l.pubkey == pk && is_native l.locator_kind) t ≡ false
    → HasLocatorKeys (t ++ new_locator harness locator_native_resume value pk 0 at ∷ [])
append_native-HasLocatorKeys harness value pk at t h free none_owned =
    append-HasKeys same_locator (new_locator harness locator_native_resume value pk 0 at) t h
      (native_apart harness value pk at t free none_owned)
