-- ===== src/Stored/Waiting.antt =====
-- src/index.js: that `discardTrashBytes` leaves the bytes of other deletions.
use mathlib.Core.Path.{subst}
use canvas_stored.Prelude.{
  ◌≡◌, refl, sym, ap, ◌∙◌, Bool, true, false, ◌||◌, Option, none, some, List, [], ◌∷◌, any, arith,
  Text, text_eq, text_eq_iff, same_iff, Bool-cases, inl, inr, is_some, if_intro,
}
use canvas_stored.Lmdb.{Table, text_key, get-put_self, lookup}
use canvas_stored.Trash.Types.{
  Item, Row, item_row, mark_row, item_key, is_item_key, is_over, items_of, item_in,
}
use canvas_stored.Trash.Rows.{refers, has_reference}
use canvas_stored.Stored.Retention.{Entry, Drop}
use canvas_stored.Stored.Retained.{
  Discarded, keys_left, keeps_bytes, discard_found, discard_trash_bytes,
}

-- A record among the rows that passes a test.
any-item_in :
    (p : Item → Bool) (row : Row) (item : Item) (items : List Item)
    → row ≡ item_row item
    → p item ≡ true
    → any p (item_in true row items) ≡ true
any-item_in p row item items e h =
    subst (λ w. any p (item_in true w items) ≡ true) (sym e) (ground (arith, h))

any-item_in_rest :
    (p : Item → Bool) (b : Bool) (row : Row) (items : List Item)
    → any p items ≡ true
    → any p (item_in b row items) ≡ true
any-item_in_rest p true (item_row item) items h = ground (arith, h)
any-item_in_rest p true mark_row items h = h
any-item_in_rest p false row items h = h

any-items_of :
    (p : Item → Bool) (rows : List (Text × Row)) (k : Text) (item : Item)
    → lookup text_key k rows ≡ some (item_row item)
    → is_item_key k ≡ true
    → p item ≡ true
    → any p (items_of rows) ≡ true
unfolding lookup items_of
any-items_of p [] k item h i f = absurd (ground (arith, h))
any-items_of p ((j, row) ∷ rows) k item h i f = elim (Bool-cases (text_eq j k)) [
  | inl t ↦
      subst (λ b. any p (item_in b row (items_of rows)) ≡ true)
        (sym (ap (λ x. is_item_key x) ((text_eq_iff j k).0 t) ∙ i))
        (any-item_in p row item (items_of rows) (ground (arith, h, t)) f)
  | inr n ↦
      any-item_in_rest p (is_item_key j) row (items_of rows)
        (any-items_of p rows k item (ground (arith, h, n)) i f)
]

-- A deletion that can still be brought back: its record is among the trash's, is not over, and has
-- the digest.
abbrev pub Waits : (rt : Table text_key Row) → rt.Db → Text → Item → Type 0
Waits rt r sha item =
    (rt.get r (item_key item.id) ≡ some (item_row item))
    × (item.sha256 ≡ some sha)
    × (is_over item.state ≡ false)

has_reference-Waits :
    (rt : Table text_key Row) (r : rt.Db) (sha except : Text) (item : Item)
    → Waits rt r sha item
    → text_eq item.id except ≡ false
    → has_reference rt r sha except none ≡ true
unfolding has_reference refers item_key is_item_key
has_reference-Waits rt r sha except item w n =
    any-items_of (refers sha except none) (rt.range r) (item_key item.id) item
      (sym (rt.get-range r (item_key item.id)) ∙ w.0) refl
      (ground (arith, n, w.2, (same_iff item.sha256 (some sha)).1 w.1))

discard_found-Waits :
    (et : Table text_key Entry) (rt : Table text_key Row) (names : List Text) (d : et.Db)
    (r : rt.Db) (sha : Text) (item : Item) (drops : Text → Drop) (o : Option Entry)
    → has_reference rt r sha item.id none ≡ true
    → is_some (et.get d sha) ≡ true
    → ((discard_found et rt names d r sha item drops o).asked ≡ [])
      × (is_some (et.get (discard_found et rt names d r sha item drops o).entries sha) ≡ true)
unfolding discard_found keeps_bytes
discard_found-Waits et rt names d r sha item drops none h s = (refl, s)
discard_found-Waits et rt names d r sha item drops (some e) h s =
    if_intro
      (λ (out : Discarded et.Db). (out.asked ≡ []) × (is_some (et.get out.entries sha) ≡ true))
      (any (λ k. true) (keys_left et rt r sha item e) || has_reference rt r sha item.id none)
      (λ g. (refl, ap (λ o. is_some o) (get-put_self et d sha _)))
      (λ g. absurd (ground (arith, g, h)))

-- Discarding a deletion while another one with the same digest can still be brought back asks no
-- backend to drop the bytes, and their entry stays.
pub discard_trash_bytes-Waits :
    (et : Table text_key Entry) (rt : Table text_key Row) (names : List Text) (d : et.Db)
    (r : rt.Db) (sha : Text) (item other : Item) (drops : Text → Drop)
    → Waits rt r sha other
    → text_eq other.id item.id ≡ false
    → is_some (et.get d sha) ≡ true
    → ((discard_trash_bytes et rt true names d r sha item drops).asked ≡ [])
      × (is_some (et.get (discard_trash_bytes et rt true names d r sha item drops).entries sha)
          ≡ true)
unfolding discard_trash_bytes
discard_trash_bytes-Waits et rt names d r sha item other drops w n s =
    discard_found-Waits et rt names d r sha item drops _
      (has_reference-Waits rt r sha item.id other w n) s
