-- ===== src/Harness/Names.antt =====
-- The text form of a harness.
use tenex_edge.Base.{String, ◌≡◌, refl, ◌↔◌, false, arith, eq_iff}
use tenex_edge.Harness.{
  Harness, claude_code, codex, opencode, grok, goose, hermes, unknown, as_str, from_str, is_unknown,
}

from_str-as_str : (h : Harness) → from_str (as_str h) ≡ h
unfolding from_str as_str
from_str-as_str claude_code = refl
from_str-as_str codex = refl
from_str-as_str opencode = refl
from_str-as_str grok = refl
from_str-as_str goose = refl
from_str-as_str hermes = refl
from_str-as_str unknown = refl

from_str-known : (s : String) (h : Harness) → is_unknown h ≡ false → from_str s ≡ h → s ≡ as_str h
unfolding from_str as_str is_unknown
from_str-known s h known e = ground (
  arith,
  eq_iff s "claude-code",
  eq_iff s "codex",
  eq_iff s "opencode",
  eq_iff s "grok",
  eq_iff s "goose",
  eq_iff s "hermes",
)

-- Every harness reads back from its text, and a text reads as a known harness exactly when it is the
-- text of that harness: no other spelling is taken for one.
pub harness_names :
    (s : String) (h : Harness)
    → is_unknown h ≡ false
    → (from_str (as_str h) ≡ h) × ((from_str s ≡ h) ↔ (s ≡ as_str h))
harness_names s h known =
    (from_str-as_str h, (from_str-known s h known, λ e. rw e (from_str-as_str h)))
