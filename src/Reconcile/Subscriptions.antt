-- ===== src/Reconcile/Subscriptions.antt =====
-- src/reconcile/subscriptions/mod.rs: which live queries the daemon holds. A BTreeSet is the list of its
-- elements and a BTreeMap that of its entries, in the order of the keys.
pub mod Keys
pub mod Sets
pub mod Plans
pub mod Coverage
use Prim.Native.Char.{code}
use tenex_edge.Base.{
  ℕ, ◌+◌, ◌*◌, ◌-◌, String, Bool, ◌&&◌, ◌||◌, not, Option, none, some, List, [], ◌∷◌, ◌++◌, ◌==◌,
  ◌=?◌, ltb, leb, if◌then◌else◌, text_lt, concat, map_option,
}
use tenex_edge.Table.{find, exists, select, delete}

-- src/fabric/nip29/wire.rs
abbrev pub kind_group_put_user : String
kind_group_put_user = "9000"

pub record SubscriptionQuery : Type 0 where
  pub kinds : List ℕ
  pub authors : List String
  pub tag : Option (String × String)

pub data SubEffect : Type 0 where
  open_query : String → SubscriptionQuery → SubEffect
  close_query : String → SubEffect
  replace_query : String → SubscriptionQuery → SubEffect

-- The values of `sessions`, each the channels of a session.
pub record CoverageSnapshot : Type 0 where
  pub daemon_channels : List String
  pub addressed_pubkeys : List String
  pub profile_pubkeys : List String
  pub archived_channels : List String
  pub sessions : List (List String)

pub data Space : Type 0 where
  global_kind channel_h group_state_d pubkey_p profile_author : Space

-- The order that is derived.
abbrev pub rank : Space → ℕ
rank global_kind = 0
rank channel_h = 1
rank group_state_d = 2
rank pubkey_p = 3
rank profile_author = 4

pub record SubKey : Type 0 where
  pub space : Space
  pub entity : String

abbrev pub sub_key : Space → String → SubKey
sub_key space entity = record { space = space; entity = entity }

abbrev pub same_key : SubKey → SubKey → Bool
same_key a b = rank a.space =? rank b.space && a.entity == b.entity

abbrev pub key_lt : SubKey → SubKey → Bool
key_lt a b =
    ltb (rank a.space) (rank b.space) || rank a.space =? rank b.space && text_lt a.entity b.entity

abbrev pub Owners : Type 0
Owners = List (SubKey × ℕ)

pub record SubscriptionReconciler : Type 0 where
  pub applied : List SubKey
  pub desired_owners : Owners

abbrev pub contains : SubKey → List SubKey → Bool
contains key set = exists (same_key key) set

abbrev pub contains_key : SubKey → Owners → Bool
contains_key key owners = exists (λ e. same_key key e.0) owners

-- `BTreeSet::insert`
unfoldable pub insert_key : SubKey → List SubKey → List SubKey
insert_key key [] = key ∷ []
insert_key key (k ∷ set) =
    let rest = insert_key key set in
    if same_key key k then k ∷ set else if key_lt key k then key ∷ k ∷ set else k ∷ rest

-- `*owners.entry(key).or_default() += 1`
unfoldable pub add_owner : SubKey → Owners → Owners
add_owner key [] = (key, 1) ∷ []
add_owner key (e ∷ owners) =
    let rest = add_owner key owners in
    if same_key key e.0
    then (e.0, e.1 + 1) ∷ owners
    else if key_lt key e.0
    then (key, 1) ∷ e ∷ owners
    else e ∷ rest

unfoldable pub add_channel_owner : String → Owners → Owners
unfolding add_owner
add_channel_owner channel owners =
    add_owner (sub_key group_state_d channel) (add_owner (sub_key channel_h channel) owners)

abbrev pub member : String → List String → Bool
member x set = exists (λ y. y == x) set

-- `BTreeSet::difference`
abbrev pub difference : List String → List String → List String
difference set other = select (λ x. not (member x other)) set

unfoldable pub add_channels : List String → Owners → Owners
add_channels [] owners = owners
add_channels (channel ∷ rest) owners = add_channels rest (add_channel_owner channel owners)

unfoldable pub add_sessions : List String → List (List String) → Owners → Owners
add_sessions archived [] owners = owners
add_sessions archived (channels ∷ rest) owners =
    add_sessions archived rest (add_channels (difference channels archived) owners)

unfoldable pub add_each : Space → List String → Owners → Owners
add_each space [] owners = owners
add_each space (entity ∷ rest) owners =
    add_each space rest (add_owner (sub_key space entity) owners)

unfoldable pub desired_owners : CoverageSnapshot → Owners
desired_owners s = add_each profile_author s.profile_pubkeys (
    add_each pubkey_p s.addressed_pubkeys (
      add_sessions s.archived_channels s.sessions (
        add_channels (difference s.daemon_channels s.archived_channels)
          (add_owner (sub_key global_kind kind_group_put_user) []))))

abbrev pub id_prefix : Space → String
id_prefix global_kind = "mosaico-global-kind-"
id_prefix channel_h = "mosaico-h-"
id_prefix group_state_d = "mosaico-gstate-"
id_prefix pubkey_p = "mosaico-p-"
id_prefix profile_author = "mosaico-profile-"

unfoldable pub sub_id : SubKey → String
sub_id key = concat (id_prefix key.space) key.entity

-- The decimal digits of a `u16`; more than that, or another character, is an error.
unfoldable pub parse_digits : ℕ → String → Option ℕ
parse_digits acc String.[] = some acc
parse_digits acc (String.◌∷◌ c s) =
    let next = acc * 10 + (code c - 48) in
    let rest = parse_digits next s in
    if leb 48 (code c) && leb (code c) 57 && leb next 65535 then rest else none

-- `str::parse::<u16>`
unfoldable pub parse_u16 : String → Option ℕ
unfolding parse_digits
parse_u16 String.[] = none
parse_u16 (String.◌∷◌ c s) =
    if code c =? 43
    then (if s == "" then none else parse_digits 0 s)
    else parse_digits 0 (String.◌∷◌ c s)

-- `expect` panics where the result is none.
unfoldable pub sub_query : SubKey → Option SubscriptionQuery
unfolding parse_u16
sub_query key = elim key.space [
  | global_kind ↦
      map_option (λ kind. record { kinds = kind ∷ []; authors = []; tag = none })
        (parse_u16 key.entity)
  | channel_h ↦ some (record { kinds = 9 ∷ 30315 ∷ []; authors = []; tag = some ("h", key.entity) })
  | group_state_d ↦
      some
        (record { kinds = 39000 ∷ 39001 ∷ 39002 ∷ []; authors = []; tag = some ("d", key.entity) })
  | pubkey_p ↦ some (record { kinds = 9 ∷ []; authors = []; tag = some ("p", key.entity) })
  | profile_author ↦ some (record { kinds = 0 ∷ []; authors = key.entity ∷ []; tag = none })
]

unfoldable pub open_effect : SubKey → Option SubEffect
unfolding sub_query sub_id
open_effect key = map_option (open_query (sub_id key)) (sub_query key)

-- The loop over the desired keys, which panics where `open_effect` does.
unfoldable pub open_effects : List SubKey → Owners → Option (List SubEffect)
unfolding open_effect
open_effects applied [] = some []
open_effects applied (e ∷ desired) = elim (open_effects applied desired) [
  | none ↦ none
  | some rest ↦
      if contains e.0 applied
      then some rest
      else map_option (λ effect. effect ∷ rest) (open_effect e.0)
]

unfoldable pub close_effects : Owners → List SubKey → List SubEffect
unfolding sub_id
close_effects desired [] = []
close_effects desired (key ∷ applied) =
    let rest = close_effects desired applied in
    if contains_key key desired then rest else close_query (sub_id key) ∷ rest

unfoldable pub plan :
    CoverageSnapshot → SubscriptionReconciler → Option (SubscriptionReconciler × List SubEffect)
unfolding desired_owners open_effects close_effects
plan snapshot r =
    let desired = desired_owners snapshot in
    map_option
      (λ opens. (record r { desired_owners = desired }, opens ++ close_effects desired r.applied))
      (open_effects r.applied desired)

-- A confirmed opening.
unfoldable pub confirm_open : String → SubscriptionReconciler → SubscriptionReconciler
unfolding insert_key sub_id
confirm_open id r = elim (find (λ e. sub_id e.0 == id) r.desired_owners) [
  | none ↦ r
  | some e ↦ record r { applied = insert_key e.0 r.applied }
]

-- A confirmed closing.
unfoldable pub confirm_close : String → SubscriptionReconciler → SubscriptionReconciler
unfolding sub_id
confirm_close id r = elim (find (λ key. sub_id key == id) r.applied) [
  | none ↦ r
  | some key ↦ record r { applied = delete (same_key key) r.applied }
]

unfoldable pub confirm : SubEffect → SubscriptionReconciler → SubscriptionReconciler
unfolding confirm_open confirm_close
confirm (open_query id query) r = confirm_open id r
confirm (replace_query id query) r = confirm_open id r
confirm (close_query id) r = confirm_close id r

unfoldable pub covers_channel : String → SubscriptionReconciler → Bool
covers_channel channel r = contains (sub_key channel_h channel) r.applied
