-- ===== src/Store/Handles/Codenames.antt =====
-- The codenames of src/state/handle_leases.rs, over the words of src/util.rs: a word, a word and a
-- number, or two words and a number, each tier from where the hash says.
use tenex_edge.Base.{
  ℕ, zero, suc, ◌+◌, ◌-◌, ◌*◌, ◌/◌, ◌%◌, String, List, [], ◌∷◌, ◌++◌, ltb, concat, if◌then◌else◌,
}

abbrev pub code_words_a : List String
code_words_a =
    "amber" ∷ "atlas" ∷ "birch" ∷ "cedar" ∷ "clay" ∷ "comet" ∷ "coral" ∷ "dawn" ∷ "ember" ∷ "flint"
    ∷ "gale" ∷ "hazel" ∷ "indigo" ∷ "ivy" ∷ "jet" ∷ "juno" ∷ "kite" ∷ "lark" ∷ "lumen" ∷ "maple"
    ∷ "nova" ∷ "onyx" ∷ "opal" ∷ "pearl" ∷ "quill" ∷ "quinn" ∷ "reed" ∷ "sable" ∷ "slate" ∷ "tide"
    ∷ "willow" ∷ "zephyr" ∷ []

abbrev pub code_words_b : List String
code_words_b =
    "arrow" ∷ "bravo" ∷ "canyon" ∷ "cliff" ∷ "delta" ∷ "drift" ∷ "echo" ∷ "falcon" ∷ "fjord"
    ∷ "grove" ∷ "harbor" ∷ "haven" ∷ "kilo" ∷ "lima" ∷ "meadow" ∷ "mesa" ∷ "orbit" ∷ "pace" ∷ "peak"
    ∷ "quest" ∷ "range" ∷ "ridge" ∷ "river" ∷ "shore" ∷ "sierra" ∷ "spark" ∷ "summit" ∷ "tango"
    ∷ "trail" ∷ "vale" ∷ "wave" ∷ "yonder" ∷ []

-- `words[i]`, of an index within the list
abbrev pub word_at : List String → ℕ → String
word_at [] i = ""
word_at (w ∷ words) zero = w
word_at (w ∷ words) (suc i) = word_at words i

abbrev pub digits : List String
digits = "0" ∷ "1" ∷ "2" ∷ "3" ∷ "4" ∷ "5" ∷ "6" ∷ "7" ∷ "8" ∷ "9" ∷ []

-- `{:03}`, of a number below 1000
abbrev pub three_digits : ℕ → String
three_digits n =
    concat (word_at digits (n / 100 % 10))
      (concat (word_at digits (n / 10 % 10)) (word_at digits (n % 10)))

-- `u64::rotate_left`
abbrev pub rotate_left : ℕ → ℕ → ℕ → ℕ
rotate_left seed up down = (seed * up) % 18446744073709551616 + seed / down

-- The element of `rotated(len, seed)` at an offset.
abbrev pub rotated : ℕ → ℕ → ℕ → ℕ
rotated len seed offset = (seed % len + offset) % len

abbrev pub tier1_len : ℕ
tier1_len = 64

abbrev pub tier2_len : ℕ
tier2_len = 64 * 1000

abbrev pub tier3_len : ℕ
tier3_len = 32 * 32 * 1000

abbrev pub candidate_count : ℕ
candidate_count = tier1_len + tier2_len + tier3_len

unfoldable pub numbered_word : ℕ → String
numbered_word i =
    concat (word_at (code_words_a ++ code_words_b) (i / 1000))
      (concat "-" (three_digits (i % 1000)))

unfoldable pub numbered_pair : ℕ → String
numbered_pair i =
    let pair = i / 1000 in
    concat (word_at code_words_a (pair / 32)) (
      concat "-" (concat (word_at code_words_b (pair % 32)) (concat "-" (three_digits (i % 1000)))))

-- The candidate at an index: 2 ^ 17 and 2 ^ 33 are what the hash is rotated by.
unfoldable pub candidate : ℕ → ℕ → String
unfolding numbered_word numbered_pair
candidate seed index =
    if ltb index tier1_len
    then word_at (code_words_a ++ code_words_b) (rotated tier1_len seed index)
    else if ltb index (tier1_len + tier2_len)
    then numbered_word
        (rotated tier2_len (rotate_left seed 131072 140737488355328) (index - tier1_len))
    else numbered_pair (
        rotated tier3_len (rotate_left seed 8589934592 2147483648)
          (index - (tier1_len + tier2_len)))
