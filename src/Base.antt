-- ===== src/Base.antt =====
-- What every module shares: the libraries' names passed on, and the operations of JavaScript's
-- values, arrays, strings and plain objects that the battle service uses.
mod Tests
mod Lists
mod Texts
mod Dicts
mod Sort
mod Keys
pub use Tests.*
pub use Lists.*
pub use Texts.*
unfoldable pub use Texts.{text_discrete}
pub use Dicts.*
pub use Sort.*
pub use Keys.*
unfoldable pub use Sort.{sort, insert_sorted}
pub use Prim.Native.Nat.{ℕ, zero, suc, ◌+◌, ◌-◌, ◌*◌, ◌/◌, ◌%◌, ◌^◌, ◌≤◌, ◌<◌}
pub use mathlib.Core.Path.{◌≡◌, refl, sym, ap, ◌∙◌, subst}
pub use mathlib.Core.Logic.{◌≢◌, ◌↔◌, ◌⊎◌, inl, inr}
pub use mathlib.Core.Bool.{Bool, true, false, not, ◌&&◌, ◌||◌}
pub use mathlib.Core.Option.{Option, none, some}
pub use mathlib.Core.List.{List, [], ◌∷◌, ◌++◌, map}
pub use native.Mathlib.Omega.{arith}
unfoldable pub use native.Mathlib.Decide.{ℕ_discrete}
