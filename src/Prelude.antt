-- ===== src/Prelude.antt =====
-- The names that the other modules share: the libraries', passed on, and those of the children:
-- Boolean tests, lists over the native numbers, texts as bytes (std::string, std::string_view) and
-- dictionaries (std::unordered_map).
mod Tests
mod Lists
mod Texts
mod Dicts
mod Totals
mod Int
unfoldable pub use Tests.{test_below}
pub use Tests.*
pub use Lists.*
unfoldable pub use Texts.{text_eq, has, find_byte}
unfoldable pub use Dicts.{find, assign}
pub use Texts.*
pub use Dicts.*
unfoldable pub use Totals.{count, remove}
pub use Totals.*
pub use Int.*
pub use Prim.Native.Nat.{ℕ, zero, suc, min, max, ◌^◌, ◌+◌, ◌-◌, ◌*◌, ◌/◌, ◌%◌, ◌≤◌, ◌<◌}
pub use Prim.Native.String.{String}
pub use mathlib.Core.Path.{◌≡◌, refl, sym, ap, ◌∙◌, subst, ◌≡⟨◌⟩◌, ◌∎}
pub use mathlib.Core.Logic.{◌≢◌, ◌↔◌, ◌⊎◌, inl, inr}
pub use mathlib.Core.Bool.{Bool, true, false, not, ◌&&◌, ◌||◌}
pub use mathlib.Core.Option.{Option, none, some, some-injective}
pub use mathlib.Core.List.{List, [], ◌∷◌, ◌++◌, map, append_assoc, append-nil}
pub use native.Mathlib.Omega.{arith}
