-- ===== src/Base.antt =====
-- What the modules share: the library's names in use, bytes and text, lists and maps, and the
-- result of a Go call.
mod Tests
pub mod Results
pub mod Calls
mod Lists
mod Maps
mod Text
mod Int
pub use Tests.*
pub use Lists.*
pub use Text.*
pub use Maps.*
pub use Int.*
pub use Results.*
unfoldable pub use Tests.{eqb}
unfoldable pub use Text.{split2, contains, trim_cons, trim_right}
unfoldable pub use Maps.{lookup, insert, erase}
pub use Prim.Native.Nat.{ℕ, zero, suc, ◌+◌, ◌-◌, ◌*◌, ◌/◌, ◌%◌, ◌^◌, ◌≤◌, ◌<◌}
pub use mathlib.Core.Path.{◌≡◌, refl, sym, ap, ◌∙◌, fun_ext}
pub use mathlib.Core.Logic.{◌≢◌, ◌↔◌, ◌⊎◌, inl, inr}
pub use mathlib.Core.Bool.{Bool, true, false, not, ◌&&◌, ◌||◌}
pub use mathlib.Core.Option.{Option, none, some}
pub use mathlib.Core.List.{List, [], ◌∷◌, ◌++◌, map, append-nil, append_assoc}
pub use native.Mathlib.Omega.{arith}
