-- ===== src/Prelude.antt =====
-- The names that the other modules share: the libraries', passed on, and those of its children.
mod Tests
mod Lists
mod Octets
mod Map
mod Parts
mod Integers
pub use Tests.*
pub use Lists.*
pub use Integers.{ℤ, to_int64-pos, to_int64-negsuc}
unfoldable pub use Integers.{◌+ℤ◌, to_int64}
unfoldable pub use Octets.{Bytes, bytes_eq, bytes_lt, le_bytes, le_value, slice, c_string, IsText}
pub use Octets.{
  bytes_eq_iff, bytes_eq_refl, length-le_bytes, le_value-le_bytes, slice-append_left, slice_skip,
  slice_whole, c_string_skip, c_string_whole, c_string_end,
}
pub use Parts.{concat, total, length-concat, slice-concat, c_string-concat, slice_inside}
pub use Map.{Key}
unfoldable pub use Map.{
  ℕ-key, Bytes-key, lookup, erase, place, insert, assign, contains, IsMap, Each,
}
pub use Map.{
  lookup-erase, lookup-erase_self, lookup-insert, lookup-insert_self, lookup-assign,
  contains-eq_true, contains-eq_false, erase-IsMap, insert-IsMap, assign-IsMap, erase-Each,
  insert-Each, assign-Each, lookup-Each, assign_absent, Each-mono, Each-lookup,
}
pub use Prim.Native.Nat.{ℕ, zero, suc, ◌+◌, ◌-◌, ◌*◌, ◌/◌, ◌%◌, ◌^◌, ◌≤◌, ◌<◌}
pub use mathlib.Core.Path.{◌≡◌, refl, sym, ap, ap₂, subst, ◌∙◌}
pub use mathlib.Core.Logic.{◌≢◌, ◌↔◌, ◌⊎◌, inl, inr}
pub use mathlib.Core.Bool.{Bool, true, false, not, ◌&&◌, ◌||◌}
pub use mathlib.Core.Option.{Option, none, some}
pub use mathlib.Core.List.{List, [], ◌∷◌, ◌++◌, map}
pub use native.Mathlib.Omega.{arith}
