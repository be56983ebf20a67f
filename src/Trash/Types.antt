-- ===== src/Trash/Types.antt =====
-- src/trash.js: the rows of the sub-database, the calls that change something, and their answers.
use canvas_stored.Prelude.{
  ℕ, ◌++◌, Bool, true, false, ◌||◌, Option, none, some, List, [], ◌∷◌, Text, codes, starts_with,
}

pub data Kind : Type 0 where
  file directory : Kind

pub data ItemState : Type 0 where
  pending active discarding restored discarded : ItemState

-- A record. A Boolean field that is absent is false.
pub record Item : Type 0 where
  pub id : Text
  pub backend : Text
  pub key : Text
  pub kind : Kind
  pub sha256 : Option Text
  pub size : Option ℕ
  pub mime_type : Option Text
  pub mtime : Option ℕ
  pub reason : Option Text
  pub deleted_at : ℕ
  pub state : ItemState
  pub manual : Bool
  pub recovery_ready : Bool
  pub quarantined : Bool
  pub legacy : Bool
  pub cache_key : Option Text
  pub restored_at : Option ℕ
  pub discarded_at : Option ℕ

-- A record, or the mark of an address that `importLegacy` has seen.
pub data Row : Type 0 where
  item_row : Item → Row
  mark_row : Row

unfoldable pub item_key : Text → Text
item_key id = codes "item:" ++ id

unfoldable pub legacy_key : Text → Text
legacy_key id = codes "legacy:" ++ id

abbrev pub as_item : Option Row → Option Item
as_item (some (item_row item)) = some item
as_item _ = none

-- `key.startsWith('item:')`
unfoldable pub is_item_key : Text → Bool
is_item_key key = starts_with (codes "item:") key

abbrev pub item_in : Bool → Row → List Item → List Item
item_in true (item_row item) items = item ∷ items
item_in _ row items = items

-- The records among the rows: those whose key starts with `item:`.
unfoldable pub items_of : List (Text × Row) → List Item
items_of [] = []
items_of ((key, row) ∷ rows) = item_in (is_item_key key) row (items_of rows)

abbrev pub is_directory : Kind → Bool
is_directory file = false
is_directory directory = true

abbrev pub is_restored : ItemState → Bool
is_restored restored = true
is_restored _ = false

abbrev pub is_discarded : ItemState → Bool
is_discarded discarded = true
is_discarded _ = false

abbrev pub is_discarding : ItemState → Bool
is_discarding discarding = true
is_discarding _ = false

abbrev pub is_pending : ItemState → Bool
is_pending pending = true
is_pending _ = false

-- `['restored', 'discarded'].includes(state)`
abbrev pub is_over : ItemState → Bool
is_over s = is_restored s || is_discarded s

-- `['active', 'restored', 'discarded'].includes(state)`
abbrev pub is_settled : ItemState → Bool
is_settled active = true
is_settled s = is_over s

-- `item.type === 'directory' || item.quarantined`: the bytes were moved aside.
abbrev pub is_aside : Item → Bool
is_aside item = is_directory item.kind || item.quarantined

-- What the trash reads of a backend.
pub record Backend : Type 0 where
  pub can_delete : Bool
  pub can_write : Bool
  pub read_only : Bool
  pub accepts_deletions : Bool
  pub driver : Text

-- What a call that is awaited gives: a value, or an error.
pub data Answer (A : Type 0) : Type 0 where
  answer : A → Answer A
  fails : Answer A

-- What a method replies; `state` is that of a record that is settled already.
pub record Reply : Type 0 where
  pub ok : Bool
  pub reason : Option Text
  pub id : Option Text
  pub state : Option ItemState
  pub missing : Bool
  pub already : Bool

-- The calls that change something, in the order in which they are made.
pub data Call : Type 0 where
  saved : Item → Call
  keep_copy : Option Text → Text → Call
  drop_copy : Option Text → Call
  remove_object : Text → Text → Text → Call
  restore_directory : Text → Text → Call
  restore_retained : Option Text → Text → Call
  put_copy : Text → Text → Call
  refresh_object : Text → Text → Call
  drop_directory : Text → Call
  discard_bytes : Item → Call

-- What a method leaves: the sub-database, its calls, and its result; `none` if it threw.
pub record Ran (D A : Type 0) : Type 0 where
  pub db : D
  pub calls : List Call
  pub result : Option A

abbrev pub returns : {D A : Type 0} → D → List Call → A → Ran D A
returns d calls a = record { db = d; calls = calls; result = some a }

abbrev pub threw : {D A : Type 0} → D → List Call → Ran D A
threw d calls = record { db = d; calls = calls; result = none }

abbrev pub refused : Text → Reply
refused reason = record {
  ok = false;
  reason = some reason;
  id = none;
  state = none;
  missing = false;
  already = false;
}

abbrev pub went_well : Text → Reply
went_well id = record {
  ok = true;
  reason = none;
  id = some id;
  state = none;
  missing = false;
  already = false;
}
