-- ===== src/Prelude.antt =====
-- The names that all modules share: the libraries' own, passed on, and the helpers of the children
-- (Boolean tests, lists over the native numbers, integers, texts).
pub mod Tests
pub mod Lists
pub mod Int
pub mod Text
pub mod Cuts
pub use Tests.*
pub use Lists.*
pub use Int.*
pub use Text.*
unfoldable pub use Cuts.*
pub use Prim.Native.Nat.{ℕ, zero, suc, ◌+◌, ◌-◌, ◌*◌, ◌/◌, ◌%◌, ◌^◌, ◌≤◌, ◌<◌}
pub use Prim.Native.String.{String}
pub use mathlib.Core.Path.{◌≡◌, refl, sym, ap, subst, ◌∙◌}
pub use mathlib.Core.Logic.{◌≢◌, ◌↔◌, ◌⊎◌, inl, inr}
pub use mathlib.Core.Bool.{Bool, true, false, not, ◌&&◌, ◌||◌}
pub use mathlib.Core.Option.{Option, none, some}
pub use mathlib.Core.List.{List, [], ◌∷◌, ◌++◌, map, map-append, append_assoc, Memᴰ}
pub use native.Mathlib.Omega.{arith}
