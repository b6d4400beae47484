-- ===== src/Prelude.antt =====
-- The names that all modules share: the libraries', passed on, Boolean tests, and tables of rows.
mod Tests
mod Lists
pub mod Rows
pub use Tests.*
pub use Lists.*
pub use Prim.Native.Nat.{ℕ, zero, suc, ◌+◌, ◌-◌, ◌*◌, ◌/◌, ◌%◌, ◌^◌, ◌≤◌, ◌<◌}
pub use mathlib.Core.Path.{◌≡◌, refl, sym, ap, ◌∙◌}
pub use mathlib.Core.Logic.{◌≢◌, ◌↔◌, ◌⊎◌, inl, inr}
pub use mathlib.Core.Bool.{Bool, true, false, not, ◌&&◌, ◌||◌}
pub use mathlib.Core.Option.{Option, none, some}
pub use mathlib.Core.List.{List, [], ◌∷◌, ◌++◌, map}
pub use native.Mathlib.Omega.{arith}
unfoldable pub use native.Mathlib.Decide.{ℕ_discrete}

-- A text that the program only compares, stores and passes on (an identifier, a digest, a token),
-- by its number in a listing, in byte order, of the texts in play.
abbrev pub Text : Type 0
Text = ℕ

-- A text that the program cuts, by its characters.
abbrev pub Message : Type 0
Message = List ℕ
