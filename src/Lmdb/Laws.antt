-- ===== src/Lmdb/Laws.antt =====
-- Reads after writes of one sub-database.
use canvas_stored.Prelude.{◌≡◌, none, some, if◌then◌else◌, All, All-map}
use canvas_stored.Lmdb.Sorted.{Key, lookup-upsert, lookup-without, eq_refl, sorted-lookup}
use canvas_stored.Lmdb.Interface.{Table}

module _ {K V : Type 0} {o : Key K} (t : Table o V) where
  pub get-put :
      (d : t.Db) (k j : K) (v : V)
      → t.get (t.put d k v) j ≡ (if o.eq k j then some v else t.get d j)
  get-put d k j v = rw t.get-range (rw t.range-put (rw lookup-upsert (rw t.get-range)))

  pub get-remove :
      (d : t.Db) (k j : K) → t.get (t.remove d k) j ≡ (if o.eq k j then none else t.get d j)
  get-remove d k j = rw t.get-range (rw t.range-remove (rw lookup-without (rw t.get-range)))

  pub get-put_self : (d : t.Db) (k : K) (v : V) → t.get (t.put d k v) k ≡ some v
  get-put_self d k v = rw get-put (rw (eq_refl o k))

  -- Each row of `getRange({})` is the one that `get` reads.
  pub range-get : (d : t.Db) → All (λ row. t.get d row.0 ≡ some row.1) (t.range d)
  range-get d =
      All-map (t.range d) (λ row e. rw t.get-range e)
        (sorted-lookup o (t.range d) (t.range-IsSorted d))
