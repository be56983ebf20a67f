-- ===== src/Trash/Listing.antt =====
-- src/trash.js: `importLegacy` and `list`. The digest that names an old deletion and the order of
-- `localeCompare` are parameters.
use canvas_stored.Prelude.{
  ℕ, zero, suc, ◌++◌, min, max, Bool, true, false, not, ◌||◌, Option, none, some, List, [], ◌∷◌,
  Text, codes, text_eq, same, is_some, or_else, length, ltb, ◌==◌, if◌then◌else◌,
}
use canvas_stored.Lmdb.{Table, text_key}
use canvas_stored.Index.Listing.{rest_of}
use canvas_stored.Trash.Types.{
  file, active, Item, Row, mark_row, legacy_key, items_of, Answer, answer, fails,
}
use canvas_stored.Trash.Rows.{save}
use canvas_stored.Trash.Restore.{Looks, get}

-- What `importLegacy` reads of a retained entry.
pub record Retained : Type 0 where
  pub sha256 : Text
  pub size : Option ℕ
  pub mime_type : Option Text
  pub keys : List Text
  pub legacy_keys : Option (List Text)
  pub has_version : Bool
  pub last_at : ℕ
  pub legacy_at : Option ℕ

-- `legacyKeys ?? (trashVersion ? [] : keys)`
abbrev pub legacy_addresses : Retained → List Text
legacy_addresses r = or_else r.legacy_keys (if r.has_version then [] else r.keys)

abbrev pub legacy_time : Retained → ℕ
legacy_time r = or_else r.legacy_at r.last_at

unfoldable pub legacy_item : Text → Text → Text → Retained → Item
legacy_item id backend key r = record {
  id = id;
  backend = backend;
  key = key;
  kind = file;
  sha256 = some r.sha256;
  size = r.size;
  mime_type = r.mime_type;
  mtime = none;
  reason = none;
  deleted_at = legacy_time r;
  state = active;
  manual = false;
  recovery_ready = false;
  quarantined = false;
  legacy = true;
  cache_key = none;
  restored_at = none;
  discarded_at = none;
}

-- `Math.max(1, Math.min(1000, Number(limit) || 200))`
unfoldable pub limit_of : ℕ → ℕ
limit_of limit = max 1 (min 1000 (if limit == 0 then 200 else limit))

abbrev pub take_items : ℕ → List Item → List Item
take_items zero items = []
take_items (suc n) [] = []
take_items (suc n) (item ∷ items) = item ∷ take_items n items

-- `page.at(-1).id`
abbrev pub last_id : List Item → Option Text
last_id [] = none
last_id (item ∷ []) = some item.id
last_id (item ∷ (next ∷ items)) = last_id (next ∷ items)

pub record Page : Type 0 where
  pub items : List Item
  pub cursor : Option Text

-- A stable sort by `localeCompare` of the ids.
module _ (locale_lt : Text → Text → Bool) where
  unfoldable pub insert : Item → List Item → List Item
  insert item [] = item ∷ []
  insert item (other ∷ items) =
      let rest = insert item items in
      if locale_lt other.id item.id then other ∷ rest else item ∷ (other ∷ items)

  unfoldable pub sort : List Item → List Item
  unfolding insert
  sort [] = []
  sort (item ∷ items) = insert item (sort items)

  unfoldable pub page_of : ℕ → List Item → Page
  page_of limit items = record {
    items = take_items limit items;
    cursor = if ltb limit (length items) then last_id (take_items limit items) else none;
  }

  -- `cursor && id.localeCompare(cursor) <= 0`
  unfoldable pub is_before : Option Text → Text → Bool
  is_before none id = false
  is_before (some []) id = false
  is_before (some (c ∷ cs)) id = not (locale_lt (c ∷ cs) id)

module _ (t : Table text_key Row) (days : ℕ) (legacy_id : Text → Text → Text → ℕ → Text) where
  -- One address of a retained entry, after the answer of `stat`. `false` ends the import.
  unfoldable pub import_looked : t.Db → Text → Text → Text → Retained → Answer Bool → Bool × t.Db
  unfolding save legacy_item
  import_looked d id backend key r fails = (false, d)
  import_looked d id backend key r (answer is_there) = (
    true,
    t.put (if is_there then d else save t d (legacy_item id backend key r)) (legacy_key id)
        mark_row,
  )

  unfoldable pub import_key :
      t.Db → Text → Retained → (Text → Answer Bool) → Option Text → Bool × t.Db
  unfolding import_looked
  import_key d backend r looks none = (true, d)
  import_key d backend r looks (some key) =
      let id = legacy_id backend key r.sha256 (legacy_time r) in
      if is_some (t.get d (legacy_key id))
      then (true, d)
      else import_looked d id backend key r (looks key)

  unfoldable pub import_keys :
      Text → Retained → (Text → Answer Bool) → List Text → t.Db → Bool × t.Db
  unfolding import_key
  import_keys backend r looks [] d = (true, d)
  import_keys backend r looks (address ∷ addresses) d =
      let step = import_key d backend r looks (rest_of (backend ++ codes ":") address) in
      let rest = import_keys backend r looks addresses step.1 in if step.0 then rest else step

  unfoldable pub import_all : Text → (Text → Answer Bool) → List Retained → t.Db → Bool × t.Db
  unfolding import_keys
  import_all backend looks [] d = (true, d)
  import_all backend looks (r ∷ rs) d =
      let step = import_keys backend r looks (legacy_addresses r) d in
      let rest = import_all backend looks rs step.1 in if step.0 then rest else step

  -- `importLegacy`; `retained` is what `listRetained` gives.
  unfoldable pub import_legacy :
      t.Db → Text → Bool → (Text → Answer Bool) → List Retained → Bool × t.Db
  unfolding import_all
  import_legacy d backend has_backend looks retained =
      if not has_backend || days == 0 then (true, d) else import_all backend looks retained d

  -- `if (item && item.reason !== 'overwrite') items.push(item)`
  unfoldable pub pushed : Option Item → List Item → List Item
  pushed none items = items
  pushed (some item) items =
      if same item.reason (some (codes "overwrite")) then items else item ∷ items

  abbrev pub pushed_first :
      Option (Option Item) → Option (List Item) × t.Db → t.Db → Option (List Item) × t.Db
  unfolding pushed
  pushed_first none rest d = (none, d)
  pushed_first (some got) (none, e) d = (none, e)
  pushed_first (some got) (some items, e) d = (some (pushed got items), e)

  -- The loop of `list` over the records that were read before it; `none` if a `get` throws.
  unfoldable pub collect :
      (Text → Text → Bool)
      → Text
      → Option Text
      → ℕ
      → (Text → Looks)
      → List Item
      → t.Db
      → Option (List Item) × t.Db
  unfolding is_before get
  collect locale_lt backend cursor now looks [] d = (some [], d)
  collect locale_lt backend cursor now looks (row ∷ rows) d =
      let got = get t days d backend row.id now (looks row.id) in
      let skipped = collect locale_lt backend cursor now looks rows d in
      let rest = collect locale_lt backend cursor now looks rows got.db in
      if not (text_eq row.backend backend) || is_before locale_lt cursor row.id
      then skipped
      else pushed_first got.result rest got.db

  abbrev pub paged : (Text → Text → Bool) → ℕ → Option (List Item) × t.Db → Option Page × t.Db
  unfolding sort page_of
  paged locale_lt limit (none, d) = (none, d)
  paged locale_lt limit (some items, d) = (some (page_of locale_lt limit (sort locale_lt items)), d)

  unfoldable pub list :
      (Text → Text → Bool)
      → t.Db
      → Text
      → Option Text
      → ℕ
      → ℕ
      → Bool
      → (Text → Answer Bool)
      → List Retained
      → (Text → Looks)
      → Option Page × t.Db
  unfolding collect import_legacy limit_of items_of
  list locale_lt d backend cursor limit now has_backend stats retained looks =
      let imported = import_legacy d backend has_backend stats retained in
      let page =
        paged locale_lt (limit_of limit)
          (collect locale_lt backend cursor now looks (items_of (t.range imported.1)) imported.1) in
      if imported.0 then page else (none, imported.1)
