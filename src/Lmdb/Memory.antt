-- ===== src/Lmdb/Memory.antt =====
-- A table held in memory: the interface can be met, and the other modules run their examples on it.
use canvas_stored.Prelude.{refl, [], List}
use canvas_stored.Lmdb.Sorted.{
  Key, lookup, upsert, without, IsSorted, upsert-IsSorted, without-IsSorted,
}
use canvas_stored.Lmdb.Interface.{Table}

abbrev pub Sorted : {K : Type 0} → Key K → Type 0 → Type 0
Sorted {K} o V = (l : List (K × V)) × IsSorted o l

abbrev pub in_memory : {K : Type 0} (o : Key K) (V : Type 0) → Table o V
in_memory o V = record {
  Db = Sorted o V;
  get = λ d k. lookup o k d.0;
  put = λ d k v. (upsert o k v d.0, upsert-IsSorted o k v d.0 d.1);
  remove = λ d k. (without o k d.0, without-IsSorted o k d.0 d.1);
  range = λ d. d.0;
  get-range = λ d k. refl;
  range-put = λ d k v. refl;
  range-remove = λ d k. refl;
  range-IsSorted = λ d. d.1;
}

abbrev pub no_rows : {K : Type 0} (o : Key K) (V : Type 0) → Sorted o V
no_rows o V = ([], tt)
