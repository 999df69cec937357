-- ===== src/Base.antt =====
-- The names that every module shares: the libraries', passed on, and the helpers of the children.
mod Tests
mod Lists
mod Results
mod Sort
pub use Tests.*
pub use Lists.*
pub use Results.{Result, ok, err, ◌>>=◌, ◌>>◌, guard, map_err, Result-cases, bind-ok, guard-ok}
unfoldable pub use Results.{collect}
unfoldable pub use Sort.{insert_by, sort_by}
pub use Prim.Native.Nat.{ℕ, zero, suc, ◌+◌, ◌-◌, ◌*◌, ◌/◌, ◌%◌, ◌^◌, ◌≤◌, ◌<◌}
pub use Prim.Native.String.{String}
pub use mathlib.Core.Path.{◌≡◌, refl, sym, ap, subst, ◌∙◌}
pub use mathlib.Core.Logic.{◌≢◌, ◌↔◌, ◌⊎◌, inl, inr, ite, if_pos, if_neg}
pub use mathlib.Core.Bool.{Bool, true, false, not, ◌&&◌, ◌||◌}
pub use mathlib.Core.Option.{Option, none, some}
pub use mathlib.Core.List.{List, [], ◌∷◌, ◌++◌, map}
pub use native.Mathlib.Omega.{arith}
unfoldable pub use native.Mathlib.Decide.{dec_lt, ℕ_discrete}
