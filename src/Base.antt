-- ===== src/Base.antt =====
-- The names that the other modules share: the libraries', passed on, and those of the children.
mod Tests
mod Lists
mod Int
mod Memory
pub use Memory.{memcpy-parts, memcpy-in_range, memcpy-read, memcpy-memcpy}
pub use Tests.*
pub use Lists.{
  length, get_elem?, take, drop, length-append, length-take, length-drop, take-append, drop-append,
  All, All-map, All-append, length-tabulate, memcpy-zero, length-memcpy, take-memcpy, codes,
}
unfoldable pub use Lists.{memcpy}
pub use Lists.{tabulate}
pub use Int.{ℤ, pos, negsuc, minus_one, eq_int, is_nonneg, IsInt, eq_int_iff, eq_int_refl}
pub use Int.{to_int-IsInt, to_int-small}
unfoldable pub use Int.{to_int, int_shr, low_byte}
pub use Prim.Native.Nat.{ℕ, zero, suc, ◌+◌, ◌-◌, ◌*◌, ◌/◌, ◌%◌, ◌^◌, ◌≤◌, ◌<◌}
pub use Prim.Native.String.{String}
pub use mathlib.Core.Path.{◌≡◌, refl, sym, ap, ◌∙◌}
pub use mathlib.Core.Logic.{◌≢◌, ◌↔◌, ◌⊎◌, inl, inr}
pub use mathlib.Core.Bool.{Bool, true, false, ◌&&◌, ◌||◌, not}
pub use mathlib.Core.Option.{Option, none, some}
pub use mathlib.Core.List.{List, [], ◌∷◌, ◌++◌, map}
pub use native.Mathlib.Omega.{arith}
