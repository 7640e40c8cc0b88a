-- ===== src/Base/Chars.antt =====
-- Prefixes and lengths of texts.
use Prim.Native.Nat.{ℕ, zero, suc, ◌≤◌}
use Prim.Native.Char.{Char, code}
use Prim.Native.String
use Prim.Native.String.append
use Prim.Native.String.{String}
use mathlib.Core.Path.{◌≡◌, ◌∙◌, sym, refl, ap}
use mathlib.Core.Bool.{Bool, true, false}
use native.Mathlib.Omega.{arith}
use tenex_edge.Base.Tests.{◌=?◌, if◌then◌else◌}
use tenex_edge.Base.Text.{starts_with, take_chars, count_chars}

-- Taking characters bounds the length, keeps a prefix that fits, and takes nothing the second time.
pub count_chars-take : (n : ℕ) (s : String) → count_chars (take_chars n s) ≤ n
unfolding take_chars count_chars
count_chars-take zero s = omega arith
count_chars-take (suc n) String.[] = omega arith
count_chars-take (suc n) (String.◌∷◌ c s) = omega (arith, count_chars-take n s)

pub starts_with-take :
    (n : ℕ) (p s : String)
    → count_chars p ≤ n
    → starts_with p s ≡ true
    → starts_with p (take_chars n s) ≡ true
unfolding take_chars count_chars starts_with
starts_with-take n String.[] s fits h = refl
starts_with-take n (String.◌∷◌ c p) String.[] fits h = cc h
starts_with-take zero (String.◌∷◌ c p) (String.◌∷◌ d s) fits h = absurd (omega (arith, fits))
starts_with-take (suc n) (String.◌∷◌ c p) (String.◌∷◌ d s) fits h =
    ground (arith, h, starts_with-take n p s (omega (arith, fits)) (ground (arith, h)))

pub take_chars-take : (n : ℕ) (s : String) → take_chars n (take_chars n s) ≡ take_chars n s
unfolding take_chars
take_chars-take zero s = refl
take_chars-take (suc n) String.[] = refl
take_chars-take (suc n) (String.◌∷◌ c s) = ap (String.◌∷◌ c) (take_chars-take n s)

eq_code : (c : Char) → (code c =? code c) ≡ true
eq_code c = ground arith

pub starts_with-append : (p s : String) → starts_with p (String.◌++◌ p s) ≡ true
unfolding starts_with
starts_with-append String.[] s = refl
starts_with-append (String.◌∷◌ c p) s =
    rw (append.cons c p s) (ground (arith, starts_with-append p s))

-- Texts that differ at a character before either ends.
abbrev pub diverges : String → String → Bool
diverges String.[] q = false
diverges (String.◌∷◌ c p) String.[] = false
diverges (String.◌∷◌ c p) (String.◌∷◌ d q) =
    let rest = diverges p q in if code c =? code d then rest else true

pub append-diverges :
    (p q s t : String) → diverges p q ≡ true → String.◌++◌ p s ≡ String.◌++◌ q t → ⊥
append-diverges String.[] q s t h e = cc h
append-diverges (String.◌∷◌ c p) String.[] s t h e = cc h
append-diverges (String.◌∷◌ c p) (String.◌∷◌ d q) s t h e =
    let both : String.◌∷◌ c (String.◌++◌ p s) ≡ String.◌∷◌ d (String.◌++◌ q t) =
      sym (append.cons c p s) ∙ e ∙ append.cons d q t in
    let heads : c ≡ d = cc both in append-diverges p q s t (ground (arith, h, heads)) (cc both)

pub append-cancel : (p s t : String) → String.◌++◌ p s ≡ String.◌++◌ p t → s ≡ t
append-cancel String.[] s t e = sym (append.nil s) ∙ e ∙ append.nil t
append-cancel (String.◌∷◌ c p) s t e =
    let both : String.◌∷◌ c (String.◌++◌ p s) ≡ String.◌∷◌ c (String.◌++◌ p t) =
      sym (append.cons c p s) ∙ e ∙ append.cons c p t in
    append-cancel p s t (cc both)
