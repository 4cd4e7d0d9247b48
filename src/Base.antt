-- ===== src/Base.antt =====
-- Shared vocabulary: library names passed on, Boolean tests, results, lists and tables of rows.
mod Tests
mod Results
mod Lists
mod Table
mod Clears
mod Sort
mod Text
pub use Tests.*
pub use Results.{
  Fault, unavailable, canceled, deadline_exceeded, Error, no_rows, no_capacity, queue_full,
  wait_timeout, worker_full, fault, uncertain_commit, Result, ok, err, Result-cases,
}
pub use Lists.*
pub use Table.*
pub use Clears.*
unfoldable pub use Sort.*
unfoldable pub use Text.*
pub use Prim.Native.Nat.{ℕ, zero, suc, ◌+◌, ◌-◌, ◌*◌, ◌/◌, ◌%◌, ◌^◌, ◌≤◌, ◌<◌}
pub use mathlib.Core.Path.{◌≡◌, refl, sym, ap, ◌∙◌, subst}
pub use mathlib.Core.Logic.{◌≢◌, ◌↔◌, ◌⊎◌, inl, inr}
pub use mathlib.Core.Bool.{Bool, true, false, not, ◌&&◌, ◌||◌}
pub use mathlib.Core.Option.{Option, none, some}
pub use mathlib.Core.List.{List, [], ◌∷◌, ◌++◌, map}
pub use native.Mathlib.Omega.{arith}
