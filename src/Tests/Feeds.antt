-- ===== src/Tests/Feeds.antt =====
-- src/index/index.js: runs of the index.
use canvas_stored.Prelude.{
  ℕ, ◌≡◌, ◌≤◌, ◌++◌, ◌⊎◌, max, refl, none, some, [], ◌∷◌, Text, codes, length, if◌then◌else◌,
}
use canvas_stored.Lmdb.{Table, nat_key, text_key, upsert, lookup}
use canvas_stored.Lmdb.Memory.{in_memory, no_rows}
use canvas_stored.Index.Rows.{Meta, Change, Logged, Index, put_op}
use canvas_stored.Index.Log.{append, append_fresh, after, changes}
use canvas_stored.Index.Entries.{Patch, Options, put, has_path, by_path, locations_of}
use canvas_stored.Index.Listing.{locations_by_backend}
use canvas_stored.Index.Paging.{entries, changes-append}
use canvas_stored.Index.Coalescing.{IsLogged, append-IsLogged}
use canvas_stored.Index.Paths.{get-put_index}

abbrev mt : Table text_key Meta
mt = in_memory text_key Meta

abbrev pt : Table text_key Text
pt = in_memory text_key Text

abbrev ct : Table nat_key Logged
ct = in_memory nat_key Logged

abbrev st : Table text_key ℕ
st = in_memory text_key ℕ

abbrev empty_index : Index mt pt ct st
empty_index = record {
  metas = no_rows text_key Meta;
  paths = no_rows text_key Text;
  changes = no_rows nat_key Logged;
  counters = no_rows text_key ℕ;
  seq = 0;
  pending = [];
  appends = 0;
}

abbrev added : Change
added = record {
  backend = codes "home";
  op = put_op;
  key = codes "a.txt";
  from = none;
  id = codes "sha256:aa";
  size = some 3;
  mtime = none;
  origin = none;
}

abbrev one_entry : Index mt pt ct st
one_entry = append_fresh mt pt ct st empty_index added 1

changes-append_example :
    let page = changes mt pt ct st one_entry none 0 10 in
    (entries none (after 0 (ct.range one_entry.changes))
      ≡ page.changes ++ entries none (after page.cursor (ct.range one_entry.changes)))
    × (length page.changes ≤ max 1 10)
    × ((max 1 10 ≤ length page.changes) ⊎ (after page.cursor (ct.range one_entry.changes) ≡ []))
unfolding changes append_fresh upsert
changes-append_example = changes-append mt pt ct st one_entry none 0 10 refl

append-IsLogged_example :
    IsLogged mt pt ct st one_entry added (append mt pt ct st one_entry added 2)
append-IsLogged_example = append-IsLogged mt pt ct st one_entry added 2

-- A file moves from one key to another.
abbrev moved : Patch
moved = record {
  size = none;
  sha256 = none;
  locations =
      some
        (record { backend = codes "home"; key = codes "b.txt"; size = some 3; mtime = none } ∷ []);
}

abbrev from_here : Options
from_here = record { origin = none; rename = none }

get-put_index_example :
    let (m, j) = put mt pt ct st empty_index (codes "sha256:aa") moved from_here 3 in
    pt.get j.paths (codes "home:b.txt") ≡ (
      if has_path (codes "home:b.txt") (by_path m.locations)
      then some (codes "sha256:aa")
      else if has_path
          (codes "home:b.txt")
          (by_path (locations_of (mt.get empty_index.metas (codes "sha256:aa"))))
      then none
      else pt.get empty_index.paths (codes "home:b.txt"))
get-put_index_example =
    get-put_index mt pt ct st empty_index (codes "sha256:aa") (codes "home:b.txt") moved from_here 3

-- Two files whose names differ in a full-width letter, U+FF21, and an emoji, U+1F600.
abbrev wide : Text
wide = b'a' ∷ 0xff21 ∷ []

abbrev emoji : Text
emoji = b'a' ∷ 0x1f600 ∷ []

abbrev two_files : Index mt pt ct st
two_files = record empty_index {
  paths =
      pt.put (pt.put empty_index.paths (codes "home:" ++ wide) (codes "sha256:aa"))
        (codes "home:" ++ emoji) (codes "sha256:bb");
}

-- Both are listed in one page, but a page of one is followed by an empty one.
two_files_listed :
    length (locations_by_backend mt pt ct st two_files (codes "home") [] none 2).0 ≡ 2
unfolding locations_by_backend upsert lookup
two_files_listed = refl

first_page_cursor :
    (locations_by_backend mt pt ct st two_files (codes "home") [] none 1).1 ≡ some wide
unfolding locations_by_backend upsert lookup
first_page_cursor = refl

second_page_empty :
    (locations_by_backend mt pt ct st two_files (codes "home") [] (some wide) 1).0 ≡ []
unfolding locations_by_backend upsert lookup
second_page_empty = refl
