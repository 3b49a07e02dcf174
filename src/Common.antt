-- ===== src/Common.antt =====
-- The names that the other modules share: the libraries', passed on, and those of four children.
mod Tests
mod Lists
mod Int
mod Text
pub use Tests.*
pub use Lists.{length, length-append, update, hit, count-append, count-snoc, total-update}
pub use Lists.{total-push, total-eq-zero, sum-ge, total}
unfoldable pub use Lists.{count, sum}
pub use Int.{ℤ, pos, negsuc, ltb_ℤ, leb_ℤ, eq_ℤ, int32, eq_ℤ-sound}
unfoldable pub use Int.{inc, dec}
pub use Text.*
pub use Prim.Native.Nat.{ℕ, zero, suc, ◌+◌, ◌-◌, ◌*◌, ◌/◌, ◌%◌, ◌^◌, ◌≤◌, ◌<◌}
pub use mathlib.Core.Path.{◌≡◌, refl, sym, ap, ◌∙◌, fun_ext}
pub use mathlib.Core.Logic.{◌≢◌, ◌↔◌, ◌⊎◌, inl, inr}
pub use mathlib.Core.Bool.{Bool, true, false, not, ◌&&◌, ◌||◌}
pub use mathlib.Core.Option.{Option, none, some}
pub use mathlib.Core.List.{List, [], ◌∷◌, ◌++◌, map, append_assoc, append-nil}
pub use native.Mathlib.Omega.{arith}
