-- ===== src/Lmdb.antt =====
-- The `lmdb` package and the sub-databases opened by storage/lmdb.js, behind an interface.
mod Sorted
mod Interface
mod Laws
pub mod Memory
pub use Sorted.{
  Key, nat_key, text_key, Above, IsSorted, lookup-upsert, lookup-without, upsert-IsSorted,
  without-IsSorted, eq_refl, sorted-lookup,
}
unfoldable pub use Sorted.{lookup, upsert, without}
pub use Interface.{Table}
pub use Laws.{get-put, get-remove, get-put_self, range-get}
