-- ===== src/Idref.antt =====
-- src/idref.rs: how agents are addressed in text, and how such a text is read.
pub mod Labels
use Prim.Native.Char.{Char, code}
use Prim.Native.String
use Prim.Native.String.{len}
use tenex_edge.Base.{
  String, Bool, true, false, ◌&&◌, ◌||◌, not, Option, none, some, ◌==◌, ◌=?◌, leb, if◌then◌else◌,
  trim, concat, starts_with, all_chars, take_chars,
}

pub data Ref : Type 0 where
  agent : (slug host : String) → Ref
  pubkey : String → Ref
  token : String → Ref

pub record AgentBackendRef : Type 0 where
  pub slug : String
  pub backend : Option String

unfoldable pub agent_label : String → String → String
agent_label slug host =
    let host_text = trim host in
    if host_text == "" then slug else concat slug (concat "@" host_text)

unfoldable pub agent_ref_from : String → String → String → String
unfolding agent_label
agent_ref_from slug host local_host =
    let host_text = trim host in
    if host_text == "" || host_text == trim local_host then slug else agent_label slug host_text

unfoldable pub event_short_id : String → String
event_short_id id = take_chars 8 id

-- `str::rsplit_once('@')`
unfoldable pub rsplit_once : String → Option (String × String)
rsplit_once String.[] = none
rsplit_once (String.◌∷◌ c s) = elim (rsplit_once s) [
  | none ↦ if code c =? 64 then some ("", s) else none
  | some (before, after) ↦ some (String.◌∷◌ c before, after)
]

unfoldable pub parse_agent_backend_ref : String → Option AgentBackendRef
unfolding rsplit_once
parse_agent_backend_ref text =
    let spec = trim text in
    if spec == "" then none else elim (rsplit_once spec) [
      | none ↦ some (record { slug = spec; backend = none })
      | some (slug, backend) ↦
          if not (trim slug == "") && not (trim backend == "")
          then some (record { slug = trim slug; backend = some (trim backend) })
          else none
    ]

-- `char::is_ascii_hexdigit`
unfoldable pub is_ascii_hexdigit : Char → Bool
is_ascii_hexdigit c =
    (leb 48 (code c) && leb (code c) 57)
    || (leb 65 (code c) && leb (code c) 70)
    || (leb 97 (code c) && leb (code c) 102)

unfoldable pub is_pubkey : String → Bool
unfolding is_ascii_hexdigit
is_pubkey s = (len s =? 64 && all_chars is_ascii_hexdigit s) || starts_with "npub1" s

-- What is left of `parse_ref` for a text that names no agent on a backend.
unfoldable pub parse_name : String → Ref
unfolding is_pubkey
parse_name t = if is_pubkey t then pubkey t else token t

unfoldable pub parse_ref : String → Ref
unfolding rsplit_once parse_name
parse_ref text =
    let t = trim text in
    elim (rsplit_once t) [
      | none ↦ parse_name t
      | some (slug, host) ↦
          if not (trim slug == "") && not (trim host == "")
          then agent (trim slug) (trim host)
          else parse_name t
    ]
