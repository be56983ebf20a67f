-- ===== src/Stored/Retained.antt =====
-- src/index.js: `#retain`, `getRetained` and `discardTrashBytes`, over the table of the retained
-- entries and the records of the trash. The calls for one digest run after each other.
use canvas_stored.Prelude.{
  ℕ, Bool, true, false, not, ◌&&◌, ◌||◌, Option, none, some, List, [], any, keep, Text, codes,
  text_eq, truthy, or_else, if◌then◌else◌,
}
use canvas_stored.Lmdb.{Table, text_key}
use canvas_stored.Ledger.Rows.{lower_case}
use canvas_stored.Trash.Types.{Item, Row}
use canvas_stored.Trash.Rows.{prepare, has_reference, window_of, sweep}
use canvas_stored.Trash.Rows
use canvas_stored.Replicas.Types.{Tried, did, failed, failure}
use canvas_stored.Stored.Retention.{
  Entry, Content, Reason, version, deletion, has_text, address_of, list_or, retained_backend_names,
  retained_entry, Drop, drop_all,
}

-- A backend that keeps its displaced bytes, with its answer to `retain`: the size, if it kept them.
pub record Keeper : Type 0 where
  pub is_local : Bool
  pub keeps : Bool
  pub answer : Tried (Option (Option ℕ))

abbrev trash_info : Entry → Rows.Retained
trash_info e = record { sha256 = some e.sha256; size = e.size; mime_type = e.mime_type }

-- What a discard has done: whether it went through, which also is whether `finish` was called, and
-- the backends that were asked to drop the bytes.
pub record Discarded (D : Type 0) : Type 0 where
  pub finished : Bool
  pub asked : List Text
  pub entries : D

module _ (et : Table text_key Entry) (rt : Table text_key Row) where
  unfoldable pub get_retained : Bool → et.Db → Text → Option Entry
  get_retained enabled d sha = if enabled then et.get d (lower_case sha) else none

  -- The entry is written, and a deletion's record is prepared, before anything else is done.
  unfoldable pub record_retained :
      ℕ
      → List Text
      → et.Db
      → rt.Db
      → Text
      → Text
      → Text
      → Content
      → Option ℕ
      → Reason
      → Text
      → ℕ
      → (Option Entry × Option Item) × (et.Db × rt.Db)
  unfolding retained_entry prepare
  record_retained days names d r name key sha content kept version id now =
      let e = retained_entry names (et.get d sha) name key sha content kept version now in
      ((some e, none), (et.put d sha e, r))
  record_retained days names d r name key sha content kept deletion id now =
      let e = retained_entry names (et.get d sha) name key sha content kept deletion now in
      let prepared =
        prepare rt days r id name key (some (trash_info e)) false content.mtime (codes "delete")
          now in
      ((some e, prepared.0), (et.put d sha e, prepared.1))

  -- The answer of the backend's `retain`.
  unfoldable pub retain_answered :
      ℕ
      → List Text
      → et.Db
      → rt.Db
      → Text
      → Text
      → Text
      → Content
      → Tried (Option (Option ℕ))
      → Reason
      → Text
      → ℕ
      → Tried ((Option Entry × Option Item) × (et.Db × rt.Db))
  unfolding record_retained
  retain_answered days names d r name key sha content (failed f) reason id now =
      failed (failure (codes "RETAIN_FAILED"))
  retain_answered days names d r name key sha content (did none) reason id now =
      did ((none, none), (d, r))
  retain_answered days names d r name key sha content (did (some kept)) reason id now =
      did (record_retained days names d r name key sha content kept reason id now)

  -- `#retain`, where retention is on and there is an entry at the key; `keeper` is its backend.
  unfoldable pub retain :
      ℕ
      → List Text
      → et.Db
      → rt.Db
      → Text
      → Text
      → Content
      → Option Keeper
      → Reason
      → Text
      → ℕ
      → Tried ((Option Entry × Option Item) × (et.Db × rt.Db))
  unfolding retain_answered
  retain days names d r name key content none reason id now = did ((none, none), (d, r))
  retain days names d r name key content (some k) reason id now =
      if not (k.is_local && k.keeps) || not (truthy content.sha256)
      then did ((none, none), (d, r))
      else retain_answered days names d r name key (lower_case (or_else content.sha256 [])) content
          k.answer reason id now

  -- `keys`, of the entry whose deletion `item` is discarded.
  unfoldable pub keys_left : rt.Db → Text → Item → Entry → List Text
  keys_left r sha item e =
      let address = address_of item.backend item.key in
      let is_shared = has_reference rt r sha item.id (some address) in
      keep (λ k. not (text_eq k address) || (is_shared || has_text k (list_or e.version_keys [])))
        e.keys

  unfoldable pub keeps_bytes : rt.Db → Text → Item → Entry → Bool
  unfolding keys_left
  keeps_bytes r sha item e =
      any (λ k. true) (keys_left r sha item e) || has_reference rt r sha item.id none

  unfoldable pub discard_found :
      List Text → et.Db → rt.Db → Text → Item → (Text → Drop) → Option Entry → Discarded et.Db
  unfolding keeps_bytes drop_all
  discard_found names d r sha item drops none = record { finished = true; asked = []; entries = d }
  discard_found names d r sha item drops (some e) =
      let backends = retained_backend_names names (some e) in
      let ran = drop_all drops backends in
      if keeps_bytes r sha item e
      then record {
        finished = true;
        asked = [];
        entries =
            et.put d sha (record e { keys = keys_left r sha item e; backends = some backends });
      }
      else record {
        finished = ran.0;
        asked = ran.1;
        entries = if ran.0 then et.remove d sha else d;
      }

  unfoldable pub discard_trash_bytes :
      Bool → List Text → et.Db → rt.Db → Text → Item → (Text → Drop) → Discarded et.Db
  unfolding discard_found get_retained
  discard_trash_bytes enabled names d r sha item drops =
      discard_found names d r sha item drops (get_retained enabled d sha)
