-- ===== src/Base.antt =====
-- The names that every module shares: the libraries', passed on, and those of the children.
-- `Tests` has Boolean tests, `Lists` lists over the native numbers, `SyncMap` Go's maps and sync.Map.
mod Tests
mod Lists
mod SyncMap
pub use Tests.*
pub use Lists.*
unfoldable pub use SyncMap.{Map, load, store, delete, load_or_store, present}
pub use SyncMap.{
  load-store, load-delete, length-store, load_or_store-load, map_laws, load-store_self,
}
pub use SyncMap.{DistinctKeys, store-DistinctKeys, All-store, All-load, All-self}
pub use Prim.Native.Nat.{ℕ, zero, suc, ◌+◌, ◌-◌, ◌*◌, ◌/◌, ◌%◌, ◌^◌, ◌≤◌, ◌<◌, bit_xor}
pub use mathlib.Core.Path.{◌≡◌, refl, sym, ap, subst, ◌∙◌}
pub use mathlib.Core.Logic.{◌≢◌, ◌↔◌, ◌⊎◌, inl, inr, ite, if_pos, if_neg}
pub use mathlib.Core.Bool.{Bool, true, false, not, ◌&&◌, ◌||◌}
pub use mathlib.Core.Option.{Option, none, some}
pub use mathlib.Core.List.{List, [], ◌∷◌, ◌++◌, map}
pub use native.Mathlib.Omega.{arith}
unfoldable pub use native.Mathlib.Decide.{dec_lt, dec_le, ℕ_discrete}

-- Strings, hashes and identifiers are sequences of bytes.
abbrev pub Bytes : Type 0
Bytes = List ℕ

unfoldable pub Bytes-discrete : Discrete Bytes
Bytes-discrete = hlevel ℕ_discrete
