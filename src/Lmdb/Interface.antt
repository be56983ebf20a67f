-- ===== src/Lmdb/Interface.antt =====
-- One sub-database of an LMDB environment, as the sources use it.
use canvas_stored.Prelude.{◌≡◌, Option, List}
use canvas_stored.Lmdb.Sorted.{Key, lookup, upsert, without, IsSorted}

-- A sub-database behaves as the list of its entries in key order: `getRange({})` is that list,
-- `get` finds a key in it, `putSync` and `removeSync` change the one entry.
pub record Table {K : Type 0} (o : Key K) (V : Type 0) : Type 1 where
  pub Db : Type 0
  pub get : Db → K → Option V
  pub put : Db → K → V → Db
  pub remove : Db → K → Db
  pub range : Db → List (K × V)
  pub get-range : (d : Db) (k : K) → get d k ≡ lookup o k (range d)
  pub range-put : (d : Db) (k : K) (v : V) → range (put d k v) ≡ upsert o k v (range d)
  pub range-remove : (d : Db) (k : K) → range (remove d k) ≡ without o k (range d)
  pub range-IsSorted : (d : Db) → IsSorted o (range d)
