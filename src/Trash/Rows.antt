-- ===== src/Trash/Rows.antt =====
-- src/trash.js: `prepare`, `finish`, `quarantine`, `hasReference` and `sweep`.
use canvas_stored.Prelude.{
  ℕ, ◌+◌, ◌*◌, ◌++◌, Bool, true, false, not, ◌&&◌, ◌||◌, Option, none, some, List, [], ◌∷◌, Text,
  codes, text_eq, truthy, same, any, is_some, leb, ◌==◌, if◌then◌else◌,
}
use canvas_stored.Lmdb.{Table, text_key}
use canvas_stored.Trash.Types.{
  Kind, file, directory, pending, active, Item, Row, item_row, mark_row, item_key, items_of,
  is_item_key, is_over, is_aside,
}

-- What `prepare` reads of the retained entry.
pub record Retained : Type 0 where
  pub sha256 : Option Text
  pub size : Option ℕ
  pub mime_type : Option Text

abbrev pub nothing_retained : Retained
nothing_retained = record { sha256 = none; size = none; mime_type = none }

abbrev retained_or : Option Retained → Retained
retained_or none = nothing_retained
retained_or (some r) = r

abbrev kind_of : Bool → Kind
kind_of true = directory
kind_of false = file

-- The record that `prepare` writes.
unfoldable pub prepared_item :
    Text → Text → Text → Option Retained → Bool → Option ℕ → Text → ℕ → Item
prepared_item id backend key retained is_dir mtime reason now = record {
  id = id;
  backend = backend;
  key = key;
  kind = kind_of is_dir;
  sha256 = (retained_or retained).sha256;
  size = (retained_or retained).size;
  mime_type = (retained_or retained).mime_type;
  mtime = mtime;
  reason = some reason;
  deleted_at = now;
  state = pending;
  manual = false;
  recovery_ready = false;
  quarantined = false;
  legacy = false;
  cache_key = none;
  restored_at = none;
  discarded_at = none;
}

-- `days * 86400000`
abbrev pub window_of : ℕ → ℕ
window_of days = days * 86400000

-- `!manual && now - deletedAt >= days * 86400000`.
unfoldable pub is_expired : ℕ → ℕ → Item → Bool
is_expired days now item = not item.manual && leb (item.deleted_at + window_of days) now

-- The test of `hasReference` on one record; `except` is the id that does not count.
unfoldable pub refers : Text → Text → Option Text → Item → Bool
refers sha except address item =
    not (text_eq item.id except)
    && (same item.sha256 (some sha)
        && (not (is_over item.state)
            && (not (truthy address)
                || same (some (item.backend ++ (codes ":" ++ item.key))) address)))

abbrev pub finished : Item → Item
finished item = record item { state = active }

module _ (t : Table text_key Row) where
  unfoldable pub save : t.Db → Item → t.Db
  save d item = t.put d (item_key item.id) (item_row item)

  unfoldable pub prepare :
      ℕ
      → t.Db
      → Text
      → Text
      → Text
      → Option Retained
      → Bool
      → Option ℕ
      → Text
      → ℕ
      → Option Item × t.Db
  unfolding save prepared_item
  prepare days d id backend key retained is_dir mtime reason now =
      let item = prepared_item id backend key retained is_dir mtime reason now in
      if days == 0 || not is_dir && not (is_some retained)
      then (none, d)
      else (some item, save d item)

  unfoldable pub finish : t.Db → Option Item → t.Db
  unfolding save
  finish d none = d
  finish d (some item) = save d (finished item)

  unfoldable pub quarantine : t.Db → Item → t.Db
  unfolding save
  quarantine d item = save d (record item { quarantined = true })

  unfoldable pub has_reference : t.Db → Text → Text → Option Text → Bool
  unfolding items_of refers
  has_reference d sha except address = any (refers sha except address) (items_of (t.range d))

  abbrev pub sweeps : ℕ → ℕ → Row → Bool
  sweeps days now (item_row item) = is_expired days now item
  sweeps days now mark_row = false

  -- One record that has expired: its key, its backend if that is there, whether
  -- `dropTrashedDirectory` goes through. `false` ends the loop with an error.
  unfoldable pub sweep_item : t.Db → Text → Row → (Text → Bool) → (Text → Bool) → Bool × t.Db
  sweep_item d key (item_row item) has_backend drops =
      if not (is_aside item)
      then (true, t.remove d key)
      else if not (has_backend item.backend)
      then (true, d)
      else if drops item.id
      then (true, t.remove d key)
      else (false, d)
  sweep_item d key mark_row has_backend drops = (true, d)

  unfoldable pub sweep_rows :
      ℕ → ℕ → (Text → Bool) → (Text → Bool) → List (Text × Row) → t.Db → Bool × t.Db
  unfolding sweep_item
  sweep_rows days now has_backend drops [] d = (true, d)
  sweep_rows days now has_backend drops ((key, row) ∷ rows) d =
      let swept = sweep_item d key row has_backend drops in
      let kept = sweep_rows days now has_backend drops rows d in
      let next = sweep_rows days now has_backend drops rows swept.1 in
      if not (is_item_key key) || not (sweeps days now row)
      then kept
      else if swept.0
      then next
      else swept

  unfoldable pub sweep : ℕ → ℕ → (Text → Bool) → (Text → Bool) → t.Db → Bool × t.Db
  unfolding sweep_rows
  sweep days now has_backend drops d = sweep_rows days now has_backend drops (t.range d) d
