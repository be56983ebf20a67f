-- ===== src/Tests/Displaced.antt =====
-- src/index.js: runs of the retained bytes.
use canvas_stored.Prelude.{◌≡◌, refl, true, false, none, some, List, [], ◌∷◌, Text, codes, is_some}
use canvas_stored.Lmdb.{Table, text_key, lookup, upsert}
use canvas_stored.Lmdb.Memory.{in_memory, no_rows}
use canvas_stored.Trash.Types.{Item, Row, item_row, item_key}
use canvas_stored.Ledger.Rows.{lower_case}
use canvas_stored.Trash.Rows.{prepared_item, has_reference}
use canvas_stored.Replicas.Types.{did}
use canvas_stored.Stored.Retention.{
  Entry, Content, version, Drop, dropped, address_of, retained_backend_names,
}
use canvas_stored.Stored.Retained.{Keeper, retain, discard_trash_bytes}
use canvas_stored.Stored.Sweeps.{sweep_retained}
use canvas_stored.Stored.Versions.{Saved, retain-discard_trash_bytes}
use canvas_stored.Stored.Waiting.{discard_trash_bytes-Waits}
use canvas_stored.Stored.Windows.{get-sweep_retained}

abbrev entries : Table text_key Entry
entries = in_memory text_key Entry

abbrev rows : Table text_key Row
rows = in_memory text_key Row

abbrev no_entries : entries.Db
no_entries = no_rows text_key Entry

abbrev no_items : rows.Db
no_items = no_rows text_key Row

abbrev names : List Text
names = codes "home" ∷ []

abbrev content : Content
content = record {
  id = some (codes "sha256:ab");
  size = some 3;
  mime_type = none;
  sha256 = some (codes "AB");
  mtime = some 7;
}

abbrev keeper : Keeper
keeper = record { is_local = true; keeps = true; answer = did (some (some 3)) }

retain-discard_trash_bytes_example :
    Saved entries rows (address_of (codes "home") (codes "a.txt")) (
      retain entries rows 30 names no_entries no_items
        (codes "home")
        (codes "a.txt")
        content
        (some keeper)
        version
        (codes "1")
        100)
retain-discard_trash_bytes_example =
    retain-discard_trash_bytes entries rows 30 names no_entries no_items (codes "home")
      (codes "a.txt") content (some keeper) (codes "1") 100

abbrev entry : Entry
entry = record {
  sha256 = codes "ab";
  backend = codes "home";
  size = some 3;
  mime_type = none;
  id = none;
  keys = codes "home:a.txt" ∷ [];
  backends = none;
  version_keys = none;
  first_at = some 100;
  last_at = some 100;
  trash_version = true;
  legacy_keys = none;
  legacy_at = none;
}

abbrev one_entry : entries.Db
one_entry = entries.put no_entries (codes "ab") entry

abbrev deletion_of : Text → Text → Item
deletion_of id key =
    prepared_item id (codes "home") key
      (some (record { sha256 = some (codes "ab"); size = some 3; mime_type = none })) false (some 7)
      (codes "delete") 100

abbrev discards : Text → Drop
discards name = dropped

abbrev two_items : rows.Db
two_items =
    rows.put
      (rows.put no_items (item_key (codes "1"))
        (item_row (deletion_of (codes "1") (codes "a.txt"))))
      (item_key (codes "2")) (item_row (deletion_of (codes "2") (codes "b.txt")))

discard_trash_bytes-Waits_example :
    ((discard_trash_bytes entries rows true names one_entry two_items
        (codes "ab")
        (deletion_of (codes "1") (codes "a.txt"))
        discards).asked
      ≡ [])
    × (is_some (
          entries.get
            (discard_trash_bytes entries rows true names one_entry two_items
              (codes "ab")
              (deletion_of (codes "1") (codes "a.txt"))
              discards).entries
            (codes "ab"))
        ≡ true)
unfolding lookup upsert prepared_item item_key
discard_trash_bytes-Waits_example =
    discard_trash_bytes-Waits entries rows names one_entry two_items (codes "ab")
      (deletion_of (codes "1") (codes "a.txt")) (deletion_of (codes "2") (codes "b.txt")) discards
      (refl, refl, refl) refl refl

-- The last deletion takes the bytes with it.
last_asked :
    (discard_trash_bytes entries rows true names one_entry no_items
      (codes "ab")
      (deletion_of (codes "1") (codes "a.txt"))
      discards).asked
    ≡ codes "home" ∷ []
unfolding discard_trash_bytes lookup upsert prepared_item lower_case has_reference
    retained_backend_names
last_asked = refl

get-sweep_retained_example :
    entries.get
      (sweep_retained entries rows 30 names
        (λ sha name. dropped)
        (λ name. true)
        (some 50)
        149
        one_entry
        no_items).0.entries
      (codes "ab")
    ≡ some entry
unfolding lookup upsert
get-sweep_retained_example =
    get-sweep_retained entries rows 30 names (λ sha name. dropped) (λ name. true) (some 50) 149
      one_entry no_items (codes "ab") entry refl refl
