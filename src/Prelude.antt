-- ===== src/Prelude.antt =====
-- The names that the other modules share: the libraries', passed on, and those of the children:
-- Boolean tests, lists measured by native numbers, membership in a list, and Go's strings.
mod Tests
mod Lists
mod Members
mod Results
mod Text
mod Logic
pub use Tests.*
pub use Lists.*
pub use Members.*
pub use Results.*
pub use Logic.*
unfoldable pub use Text.{str_eq, str_lt, contains_byte, cut}
pub use Text.{
  Str, Cut, str_eq_iff, str_eq_refl, str_eq_sym, str_lt_irrefl, str_lt_trans, str_lt_total,
  str_lt_asym, cut-append, cut-rejoin,
}
pub use Prim.Native.Nat.{ℕ, zero, suc, ◌+◌, ◌-◌, ◌*◌, ◌/◌, ◌%◌, ◌^◌, ◌≤◌, ◌<◌}
pub use mathlib.Core.Path.{◌≡◌, refl, sym, ap, ap₂, subst, ◌∙◌}
pub use mathlib.Core.Logic.{◌≢◌, ◌↔◌, ◌⊎◌, inl, inr}
pub use mathlib.Core.Bool.{Bool, true, false, not, ◌&&◌, ◌||◌}
pub use mathlib.Core.Option.{Option, none, some}
pub use mathlib.Core.List.{List, [], ◌∷◌, ◌++◌, map, append-nil, append_assoc, Memᴰ}
pub use native.Mathlib.Omega.{arith}
