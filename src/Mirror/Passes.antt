-- ===== src/Mirror/Passes.antt =====
-- src/sync/Mirror.js: `reconcileAll` and a round of `#reconcileDirty`. `read` is what the index and the
-- driver say of a key.
use canvas_stored.Prelude.{
  utf16, ℕ, ◌++◌, Bool, true, not, Option, none, some, List, [], ◌∷◌, map, Text, text_eq, text_lt,
  ◌==◌, any, if◌then◌else◌,
}
use canvas_stored.Lmdb.{Table, nat_key, text_key}
use canvas_stored.Keys.Normalize.{normalize_key}
use canvas_stored.Jobs.Types.{Job}
use canvas_stored.Ledger.Rows.{Row}
use canvas_stored.Ledger.Methods.{bases, get_cursor, set_cursor}
use canvas_stored.Mirror.Decide.{Decision}
use canvas_stored.Mirror.Engine.{Options, View, State}
use canvas_stored.Mirror.Reconcile.{reconcile_key}

unfoldable pub insert_key : Text → List Text → List Text
insert_key key [] = key ∷ []
insert_key key (k ∷ keys) =
    let rest = insert_key key keys in
    if text_lt (utf16 k) (utf16 key) then k ∷ rest else key ∷ k ∷ keys

-- `[...this.#dirty].sort()`
unfoldable pub sort_keys : List Text → List Text
unfolding insert_key
sort_keys [] = []
sort_keys (key ∷ keys) = insert_key key (sort_keys keys)

-- `Set.add` of each of some keys.
unfoldable pub add_keys : List Text → List Text → List Text
add_keys set [] = set
add_keys set (key ∷ keys) = add_keys (if any (text_eq key) set then set else set ++ (key ∷ [])) keys

-- `pending !== ledger.cursor`
abbrev pub moves : Option ℕ → ℕ → Bool
moves none n = true
moves (some m) n = not (m == n)

module _ (jt : Table nat_key Job) (dt : Table text_key ℕ) (rt : Table text_key Row) (opts : Options)
    (nfc : Text → Text) (picomatch : List Text → Text → Bool) (locally_ignored : Text → Bool) where
  abbrev E : Type 0
  E = State jt dt rt opts

  -- A key whose step throws is reported and passed over.
  abbrev pub passed : E → Option (Option Decision × E) → E
  passed e none = record e { last_error = some [] }
  passed e (some (d, e')) = e'

  -- The loop over a batch.
  unfoldable pub reconcile_batch : (Text → View) → ℕ → List Text → E → E
  reconcile_batch read now [] e = e
  reconcile_batch read now (key ∷ keys) e =
      reconcile_batch read now keys
        (passed e (reconcile_key jt dt rt opts nfc picomatch locally_ignored e key (read key) now))

  -- The feed position moves to the pending one.
  unfoldable pub move_cursor : Option ℕ → E → E
  move_cursor none e = e
  move_cursor (some n) e =
      if moves (get_cursor rt e.rows opts.id) n
      then record e { rows = set_cursor rt e.rows opts.id n }
      else e

  -- A round of `#reconcileDirty`.
  unfoldable pub reconcile_dirty : (Text → View) → Option ℕ → ℕ → E → E
  unfolding reconcile_batch move_cursor sort_keys
  reconcile_dirty read pending_cursor now e =
      move_cursor pending_cursor
        (reconcile_batch read now (sort_keys e.dirty) (record e { dirty = [] }))

  -- Every key that the listings of the two backends or the ledger know is dirty.
  unfoldable pub all_dirty : List Text → List Text → E → E
  unfolding add_keys
  all_dirty local_keys remote_keys e =
      let listed = map (λ k. normalize_key nfc (some k)) (local_keys ++ remote_keys) in
      let known = map (λ row. row.0) (bases rt e.rows opts.id []) in
      record e { dirty = add_keys e.dirty (add_keys (add_keys [] listed) known) }

  -- `reconcileAll`, for the keys that the listings gave.
  unfoldable pub reconcile_all : (Text → View) → List Text → List Text → Option ℕ → ℕ → E → E
  unfolding reconcile_dirty all_dirty
  reconcile_all read local_keys remote_keys pending_cursor now e =
      reconcile_dirty read pending_cursor now (all_dirty local_keys remote_keys e)
