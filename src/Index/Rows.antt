-- ===== src/Index/Rows.antt =====
-- src/index/index.js: the rows of the sub-databases and the fields of the index.
use canvas_stored.Prelude.{ℕ, ◌++◌, Option, List, Text, codes}
use canvas_stored.Lmdb.{Table, nat_key, text_key}

pub record Location : Type 0 where
  pub backend : Text
  pub key : Text
  pub size : Option ℕ
  pub mtime : Option ℕ

-- The fields of an entry that the index itself reads and writes.
pub record Meta : Type 0 where
  pub id : Text
  pub size : Option ℕ
  pub sha256 : Option Text
  pub locations : List Location
  pub modified : ℕ
  pub created : ℕ

pub data Op : Type 0 where
  put_op delete_op rename_op : Op

-- An entry of the change log, without its number and its time.
pub record Change : Type 0 where
  pub backend : Text
  pub op : Op
  pub key : Text
  pub from : Option Text
  pub id : Text
  pub size : Option ℕ
  pub mtime : Option ℕ
  pub origin : Option Text

pub record Logged : Type 0 where
  pub seq : ℕ
  pub time : ℕ
  pub change : Change

-- `${loc.backend}:${loc.key}`
unfoldable pub path_key : Location → Text
path_key loc = loc.backend ++ (codes ":" ++ loc.key)

pub record Index (mt : Table text_key Meta) (pt : Table text_key Text) (ct : Table nat_key Logged)
    (st : Table text_key ℕ) : Type 0 where
  pub metas : mt.Db
  pub paths : pt.Db
  pub changes : ct.Db
  pub counters : st.Db
  pub seq : ℕ
  pub pending : List Logged
  pub appends : ℕ
