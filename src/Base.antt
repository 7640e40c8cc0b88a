-- ===== src/Base.antt =====
-- The names that the other modules share: the libraries', passed on, the Boolean tests and the
-- saturating operations of Rust's `u64`.
mod Tests
mod Words
mod Lists
mod Text
mod Chars
pub use Tests.*
pub use Words.*
pub use Lists.*
unfoldable pub use Text.{
  is_whitespace, trim_start, trim_end, trim, starts_with, take_chars, count_chars, ends_with,
  all_chars, is_ascii_alphanumeric, trim_at_signs,
}
pub use Chars.{
  diverges, append-diverges, append-cancel, starts_with-append, count_chars-take, starts_with-take,
  take_chars-take,
}
pub use Text.{text_lt, text_le, concat, eq_comm}
pub use Prim.Native.Nat.{ℕ, zero, suc, ◌+◌, ◌-◌, ◌*◌, ◌/◌, ◌%◌, ◌≤◌, ◌<◌, min, max}
pub use Prim.Native.String.{String}
pub use mathlib.Core.Path.{◌≡◌, refl, sym, ap, ◌∙◌}
pub use mathlib.Core.Logic.{◌≢◌, ◌↔◌, ◌⊎◌, inl, inr}
pub use mathlib.Core.Bool.{Bool, true, false, ◌&&◌, ◌||◌, not}
pub use mathlib.Core.Option.{Option, none, some}
pub use mathlib.Core.List.{List, [], ◌∷◌, ◌++◌}
pub use native.Mathlib.Omega.{arith}
pub use text.Mathlib.Text.{◌==◌}
pub use text.Mathlib.TextEquality.{eq_iff}
pub use text.Mathlib.TextPositions.{eq_refl}
