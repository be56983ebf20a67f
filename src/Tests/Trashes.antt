-- ===== src/Tests/Trashes.antt =====
-- src/trash.js: runs.
use canvas_stored.Prelude.{
  ◌++◌, ◌≡◌, refl, true, false, Option, none, some, List, [], ◌∷◌, Text, codes, take_chars,
  if◌then◌else◌,
}
use canvas_stored.Lmdb.{Table, text_key, lookup, upsert}
use canvas_stored.Lmdb.Memory.{in_memory, no_rows}
use canvas_stored.Trash.Types.{
  restored, Item, Row, item_key, is_item_key, is_settled, Backend, answer, Reply, Ran, went_well,
  refused,
}
use canvas_stored.Trash.Rows.{save, sweep, is_expired}
use canvas_stored.Trash.Lifetime.{stored, IsKeyed, save-IsKeyed}
use canvas_stored.Trash.Restore.{Looks}
use canvas_stored.Trash.Remove.{
  removal_item, remove, uuid_of, is_digest, is_hex, is_protected, is_of, remove_again,
  remove_rooted, remove_seen, remove_absent, remove_recoverable, copy_first, copied, remove_bytes,
  remove_answered,
}
use canvas_stored.Trash.Discard.{discard_item, discarding_item}
use canvas_stored.Trash.Recoverable.{is_recoverable, remove-is_recoverable}
use canvas_stored.Trash.Settled.{perform_all, get_call, discard_call, perform_all-settled}
use canvas_stored.Trash.Interrupted.{discard_item-restore_item}
use canvas_stored.Trash.Repeated.{has_removed, remove-remove}
use canvas_stored.Trash.Restore
use canvas_stored.Trash.Remove
use canvas_stored.Trash.Discard

abbrev rows : Table text_key Row
rows = in_memory text_key Row

-- A stand-in for SHA-256: the text itself, filled up to 64 digits.
abbrev digest : Text → Text
digest text =
    take_chars 64 (text ++ codes "0000000000000000000000000000000000000000000000000000000000000000")

abbrev operation : Option Text
operation = some (codes "beef")

abbrev content : Text
content = codes "cafe"

abbrev blobs : Backend
blobs = record {
  can_delete = true;
  can_write = true;
  read_only = false;
  accepts_deletions = true;
  driver = codes "file";
}

abbrev removes : Remove.Answers
removes = record {
  root = answer (some true);
  stat = answer (some (record { size = some 4; modified = some 7 }));
  content = answer (some content);
  is_copied = true;
  removal = answer (went_well (codes "a"));
}

abbrev empty : rows.Db
empty = no_rows text_key Row

empty-IsKeyed : IsKeyed rows empty
unfolding lookup
empty-IsKeyed id item h = cc

remove-is_recoverable_example :
    is_recoverable digest
      (codes "home")
      (codes "a.txt")
      (digest content)
      false
      false
      (remove rows 30 digest empty
        (codes "home")
        (codes "a.txt")
        operation
        (some (digest content))
        (some blobs)
        removes
        100).calls
    ≡ true
unfolding lookup
remove-is_recoverable_example =
    remove-is_recoverable rows 30 digest empty (codes "home") (codes "a.txt") operation
      (some (digest content)) (some blobs) removes 100

abbrev first : Ran rows.Db Reply
first =
    remove rows 30 digest empty (codes "home") (codes "a.txt") operation (some (digest content))
      (some blobs) removes 100

first_removes : has_removed first.result ≡ true
unfolding lookup remove
first_removes = refl

remove-remove_example :
    ((remove rows 30 digest first.db
        (codes "home")
        (codes "a.txt")
        operation
        (some (digest content))
        (some blobs)
        removes
        200).calls
      ≡ [])
    × (has_removed
          (remove rows 30 digest first.db
            (codes "home")
            (codes "a.txt")
            operation
            (some (digest content))
            (some blobs)
            removes
            200).result
        ≡ true)
remove-remove_example =
    remove-remove rows 30 digest empty (codes "home") (codes "a.txt") operation
      (some (digest content)) (some blobs) removes removes 100 200 empty-IsKeyed first_removes

-- The record of a file that a hub's deletion removed.
abbrev record_of : Item
record_of =
    removal_item (codes "1") (codes "home") (codes "a.txt") (digest content)
      (record { size = some 4; modified = some 7 }) 100

abbrev gone : Item
gone = record record_of { state = restored; restored_at = some 150 }

abbrev is_there : Looks
is_there = record { has_directory = answer true; is_there = answer false }

abbrev fails_to_clear : Discard.Answers
fails_to_clear = record { is_dropped = true; is_cleared = false; is_discarded = true }

abbrev puts_back : Restore.Answers
puts_back = record {
  is_valid = true;
  content = answer content;
  is_there = answer false;
  has_info = true;
  reply = answer (went_well (codes "a"));
  is_refreshed = true;
  is_cleared = true;
  is_dropped = true;
}

abbrev holds : Item → rows.Db
holds item = save rows empty item

gone_there : stored rows (holds gone) (codes "1") ≡ some gone
unfolding lookup save upsert item_key removal_item
gone_there = refl

perform_all-settled_example :
    let d =
      perform_all rows 30 digest
        (get_call (codes "home") (codes "1") 200 is_there
          ∷ (discard_call (codes "home") (codes "1") (some blobs) fails_to_clear 300 ∷ []))
        (holds gone) in
    (stored rows d (codes "1") ≡ some gone)
    × ((Restore.get rows 30 d (codes "home") (codes "1") 400 is_there).result ≡ some none)
    × (Restore.restore_item rows 30 digest d
          (codes "home")
          (codes "1")
          (some blobs)
          is_there
          puts_back
          400
        ≡ record { db = d; calls = []; result = some (refused (codes "not-found")) })
    × ((discard_item rows d (codes "home") (codes "1") (some blobs) fails_to_clear 400).calls ≡ [])
perform_all-settled_example =
    perform_all-settled rows 30 digest
      (get_call (codes "home") (codes "1") 200 is_there
        ∷ (discard_call (codes "home") (codes "1") (some blobs) fails_to_clear 300 ∷ []))
      (holds gone) (codes "1") (codes "home") gone 400 is_there (some blobs) puts_back
      fails_to_clear (save-IsKeyed rows empty gone empty-IsKeyed) gone_there refl

discard_fails :
    (discard_item rows
      (holds record_of)
      (codes "home")
      (codes "1")
      (some blobs)
      fails_to_clear
      300).result
    ≡ none
unfolding lookup save discard_item upsert item_key removal_item
discard_fails = refl

discard_item-restore_item_example :
    let d =
      (discard_item rows
        (holds record_of)
        (codes "home")
        (codes "1")
        (some blobs)
        fails_to_clear
        300).db in
    (item : Item) × ((stored rows (holds record_of) (codes "1") ≡ some item)
      × ((stored rows d (codes "1") ≡ some (discarding_item item))
          × ((Restore.restore_item rows 30 digest d
                (codes "home")
                (codes "1")
                (some blobs)
                is_there
                puts_back
                400).calls
              ≡ [])))
discard_item-restore_item_example =
    discard_item-restore_item rows 30 digest (holds record_of) (codes "home") (codes "home")
      (codes "1") (some blobs) (some blobs) fails_to_clear puts_back is_there 300 400
      (save-IsKeyed rows empty record_of empty-IsKeyed) discard_fails

-- A record of `deletedAt` 0 that was not deleted by hand.
abbrev old : Item
old = record record_of { deleted_at = 0; manual = false }

old_swept : (sweep rows 1 86400000 (λ backend. true) (λ id. true) (holds old)).0 ≡ true
unfolding sweep save upsert is_item_key is_expired item_key removal_item
old_swept = refl

-- A record whose discard failed half way, after its copy was dropped from the cache: the same removal,
-- asked for again while the file is away, makes it active.
abbrev half : Item
half = record (discarding_item record_of) {
  id = uuid_of (digest (codes "beef"));
  recovery_ready = true;
}

abbrev state_of : Option Item → List Text
state_of none = []
state_of (some item) = (if is_settled item.state then codes "settled" else codes "open") ∷ []

half_before : state_of (stored rows (holds half) half.id) ≡ codes "open" ∷ []
unfolding lookup save upsert item_key removal_item uuid_of
half_before = refl

half_comes_back :
    state_of (
      stored rows
        (remove rows 30 digest
          (holds half)
          (codes "home")
          (codes "a.txt")
          operation
          (some (digest content))
          (some blobs)
          (record removes { stat = answer none })
          400).db
        half.id)
    ≡ codes "settled" ∷ []
unfolding lookup save upsert item_key removal_item uuid_of remove
half_comes_back = refl
