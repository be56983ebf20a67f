-- ===== src/Trash/Discard.antt =====
-- src/trash.js: `discardItem`.
use canvas_stored.Prelude.{
  ℕ, ◌++◌, Bool, true, false, not, ◌&&◌, ◌||◌, Option, none, some, List, [], ◌∷◌, Text, codes,
  text_eq, is_some, if◌then◌else◌,
}
use canvas_stored.Lmdb.{Table, text_key}
use canvas_stored.Trash.Types.{
  discarding, discarded, Item, Row, item_key, as_item, is_directory, is_restored, is_discarded,
  Backend, Reply, Call, saved, drop_copy, drop_directory, discard_bytes, Ran, returns, threw,
  refused, went_well,
}
use canvas_stored.Trash.Rows.{save}

-- Whether `dropTrashedDirectory`, `cache.delete` and Stored's `discardTrashBytes` go through.
pub record Answers : Type 0 where
  pub is_dropped : Bool
  pub is_cleared : Bool
  pub is_discarded : Bool

abbrev pub can_delete : Option Backend → Bool
can_delete none = false
can_delete (some b) = b.can_delete

-- Whether a call of a backend that drops a directory is made, and goes through.
abbrev pub drop_call : Bool → Item → List Call
drop_call true item = drop_directory item.id ∷ []
drop_call false item = []

-- The calls that remove the bytes, and whether all of them go through.
unfoldable pub erase : Item → Answers → List Call × Bool
erase item answers =
    if is_some item.cache_key
    then (if item.quarantined && not answers.is_dropped then (drop_call true item, false) else (
      drop_call item.quarantined item ++ (drop_copy item.cache_key ∷ []),
      answers.is_cleared,
    ))
    else if is_directory item.kind
    then (drop_call true item, answers.is_dropped)
    else if item.quarantined && not answers.is_dropped
    then (drop_call true item, false)
    else (drop_call item.quarantined item ++ (discard_bytes item ∷ []), answers.is_discarded)

abbrev pub discarding_item : Item → Item
discarding_item item = record item { state = discarding }

abbrev pub discarded_item : Item → ℕ → Item
discarded_item item now = record item { state = discarded; discarded_at = some now }

module _ (t : Table text_key Row) where
  -- After the calls that remove the bytes; `finish` marks the record once they went through.
  unfoldable pub discard_erased : t.Db → Item → ℕ → List Call × Bool → Ran t.Db Reply
  unfolding save
  discard_erased d item now (calls, false) = threw d (saved (discarding_item item) ∷ calls)
  discard_erased d item now (calls, true) =
      returns (save t d (discarded_item item now))
        ((saved (discarding_item item) ∷ calls) ++ (saved (discarded_item item now) ∷ []))
        (went_well item.id)

  unfoldable pub discard_found :
      t.Db → Text → Option Backend → Answers → ℕ → Option Item → Ran t.Db Reply
  unfolding discard_erased erase save
  discard_found d backend found answers now none = returns d [] (refused (codes "not-found"))
  discard_found d backend found answers now (some item) =
      if not (text_eq item.backend backend) || is_restored item.state
      then returns d [] (refused (codes "not-found"))
      else if is_discarded item.state
      then returns d [] (record (went_well item.id) { already = true })
      else if not (can_delete found)
      then returns d [] (refused (codes "read-only-backend"))
      else discard_erased (save t d (discarding_item item)) item now (erase item answers)

  unfoldable pub discard_item : t.Db → Text → Text → Option Backend → Answers → ℕ → Ran t.Db Reply
  unfolding discard_found
  discard_item d backend id found answers now =
      discard_found d backend found answers now (as_item (t.get d (item_key id)))
