-- ===== src/Ledger/Methods.antt =====
-- src/sync/Ledger.js: the methods, as functions of the sub-database, the mirror's id and the time.
-- One that throws returns none.
use canvas_stored.Prelude.{
  ℕ, ◌++◌, Bool, true, false, not, ◌&&◌, Option, none, some, List, [], ◌∷◌, keep, Text, codes,
  text_lt, ◌==◌, if◌then◌else◌,
}
use canvas_stored.Lmdb.{Table, text_key}
use canvas_stored.Ledger.Rows.{
  Base, Skip, EngineState, Row, base_row, cursor_row, skip_row, state_row, Kind, base, cursor, skip,
  state, row_key, BaseInput, base_of, BasePatch, patched, merged_state,
}

-- The rows of one kind are read back as that kind.
abbrev pub as_base : Option Row → Option Base
as_base (some (base_row b)) = some b
as_base _ = none

abbrev pub as_cursor : Option Row → Option ℕ
as_cursor (some (cursor_row n)) = some n
as_cursor _ = none

abbrev pub as_skip : Option Row → Option Skip
as_skip (some (skip_row s)) = some s
as_skip _ = none

-- `getState() || {}`
abbrev pub as_state : Option Row → EngineState
as_state (some (state_row s)) = s
as_state _ = record { conflicts = none; reverted = none; last_sync_at = none }

abbrev pub is_present : Option Row → Bool
is_present none = false
is_present (some row) = true

-- `key.startsWith(head)` and `key.slice(head.length)` in one: the rest of the key behind the head.
abbrev pub after_head : Text → Text → Option Text
after_head [] key = some key
after_head (c ∷ cs) [] = none
after_head (c ∷ cs) (d ∷ ds) = let rest = after_head cs ds in if c == d then rest else none

-- The last character below the supplementary planes, U+FFFF, which ends a range.
abbrev pub top : Text
top = 65535 ∷ []

-- `getRange({ start, end })` is the part of the rows from `start` up to, and without, `end`.
unfoldable pub between : Text → Text → List (Text × Row) → List (Text × Row)
between start end rows = keep (λ row. not (text_lt row.0 start) && text_lt row.0 end) rows

-- One round of such a loop, by what is behind the head of the key.
abbrev pub yield_behind : Option Text → Row → List (Text × Row) → List (Text × Row)
yield_behind none row rows = rows
yield_behind (some rest) row rows = (rest, row) ∷ rows

-- The pairs that a loop over such a range yields, the head taken off the keys.
unfoldable pub behind : Text → List (Text × Row) → List (Text × Row)
behind head [] = []
behind head ((key, row) ∷ rows) = yield_behind (after_head head key) row (behind head rows)

module _ (t : Table text_key Row) where
  unfoldable pub get_base : t.Db → Text → Text → Option Base
  get_base d mirror key = as_base (t.get d (row_key base mirror (some key)))

  unfoldable pub put_base : t.Db → Text → Text → Base → t.Db
  put_base d mirror key b = t.put d (row_key base mirror (some key)) (base_row b)

  unfoldable pub set_base_to :
      t.Db → Text → Text → BaseInput → ℕ → Option Text → Option (Base × t.Db)
  unfolding put_base
  set_base_to d mirror key input now (some (c ∷ cs)) =
      let b = base_of (c ∷ cs) input now in some (b, put_base d mirror key b)
  set_base_to d mirror key input now _ = none

  unfoldable pub set_base : t.Db → Text → Text → BaseInput → ℕ → Option (Base × t.Db)
  unfolding set_base_to
  set_base d mirror key input now = set_base_to d mirror key input now input.sha256

  -- `removeBase` and `unskip` remove a row that is there, and say whether it was.
  unfoldable pub drop_row : t.Db → Text → Bool × t.Db
  drop_row d key = let had = is_present (t.get d key) in (had, if had then t.remove d key else d)

  unfoldable pub remove_base : t.Db → Text → Text → Bool × t.Db
  unfolding drop_row
  remove_base d mirror key = drop_row d (row_key base mirror (some key))

  unfoldable pub move_base_of :
      t.Db → Text → Text → Text → BasePatch → ℕ → Option Base → Option Base × t.Db
  move_base_of d mirror from to patch now none = (none, d)
  move_base_of d mirror from to patch now (some b) =
      let next = patched b patch now in
      (
        some next,
        t.put (t.remove d (row_key base mirror (some from))) (row_key base mirror (some to))
            (base_row next),
      )

  unfoldable pub move_base : t.Db → Text → Text → Text → BasePatch → ℕ → Option Base × t.Db
  unfolding move_base_of
  move_base d mirror from to patch now =
      move_base_of d mirror from to patch now (get_base d mirror from)

  unfoldable pub bases : t.Db → Text → Text → List (Text × Row)
  unfolding between behind
  bases d mirror prefix =
      let start = row_key base mirror (some prefix) in
      behind (row_key base mirror none ++ codes "/") (between start (start ++ top) (t.range d))

  unfoldable pub get_cursor : t.Db → Text → Option ℕ
  get_cursor d mirror = as_cursor (t.get d (row_key cursor mirror none))

  unfoldable pub set_cursor : t.Db → Text → ℕ → t.Db
  set_cursor d mirror seq = t.put d (row_key cursor mirror none) (cursor_row seq)

  unfoldable pub get_state : t.Db → Text → EngineState
  get_state d mirror = as_state (t.get d (row_key state mirror none))

  unfoldable pub set_state : t.Db → Text → EngineState → EngineState × t.Db
  set_state d mirror patch =
      let next = merged_state (get_state d mirror) patch in
      (next, t.put d (row_key state mirror none) (state_row next))

  unfoldable pub put_skip : t.Db → Text → Text → Text → ℕ → Skip × t.Db
  put_skip d mirror key reason now =
      let entry : Skip = record { reason = reason; time = now } in
      (entry, t.put d (row_key skip mirror (some key)) (skip_row entry))

  unfoldable pub unskip : t.Db → Text → Text → Bool × t.Db
  unfolding drop_row
  unskip d mirror key = drop_row d (row_key skip mirror (some key))

  unfoldable pub is_skipped : t.Db → Text → Text → Bool
  is_skipped d mirror key = is_present (t.get d (row_key skip mirror (some key)))

  unfoldable pub skips : t.Db → Text → List (Text × Row)
  unfolding between behind
  skips d mirror =
      let head = row_key skip mirror none ++ codes "/" in
      behind head (between head (head ++ top) (t.range d))

  -- The loop of `clear` over the rows of one kind.
  unfoldable pub remove_behind : Text → List (Text × Row) → t.Db → t.Db
  remove_behind head [] d = d
  remove_behind head ((key, row) ∷ rows) d =
      remove_behind head rows (elim (after_head head key) [ none ↦ d | some rest ↦ t.remove d key ])

  unfoldable pub clear_kind : Kind → t.Db → Text → t.Db
  unfolding remove_behind between
  clear_kind kind d mirror =
      let head = row_key kind mirror none ++ codes "/" in
      remove_behind head (between head (head ++ top) (t.range d)) d

  unfoldable pub clear : t.Db → Text → t.Db
  unfolding clear_kind
  clear d mirror =
      t.remove
        (t.remove (clear_kind skip (clear_kind base d mirror) mirror) (row_key cursor mirror none))
        (row_key state mirror none)
