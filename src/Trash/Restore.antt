-- ===== src/Trash/Restore.antt =====
-- src/trash.js: `get` and `restoreItem` with `restorePinned`.
-- The answers to the calls that are awaited are arguments.
use canvas_stored.Prelude.{
  ℕ, ◌++◌, Bool, true, false, not, ◌&&◌, ◌||◌, Option, none, some, List, [], ◌∷◌, Text, codes,
  text_eq, same, is_some, ◌==◌, if◌then◌else◌,
}
use canvas_stored.Lmdb.{Table, text_key}
use canvas_stored.Trash.Types.{
  restored, Item, Row, item_key, as_item, is_over, is_pending, is_discarding, is_aside, Backend,
  Answer, answer, fails, Reply, Call, saved, drop_copy, restore_directory, restore_retained,
  put_copy, refresh_object, drop_directory, Ran, returns, threw, refused,
}
use canvas_stored.Trash.Rows.{save, finish, finished, is_expired}

-- The answers to `hasTrashedDirectory` and to `stat` (whether there is something).
pub record Looks : Type 0 where
  pub has_directory : Answer Bool
  pub is_there : Answer Bool

abbrev pub negated : Answer Bool → Answer Bool
negated (answer b) = answer (not b)
negated fails = fails

-- `deleted` of `get`.
unfoldable pub is_deleted : Item → Looks → Answer Bool
is_deleted item looks = if is_aside item then looks.has_directory else negated looks.is_there

-- The first test of `get`: whether it returns null before it looks at the backend.
unfoldable pub is_hidden : ℕ → Text → ℕ → Item → Bool
unfolding is_expired
is_hidden days backend now item =
    not (text_eq item.backend backend)
    || (is_over item.state || not item.manual && (days == 0 || is_expired days now item))

-- The answers to the calls of `restoreItem`: whether `validateTrashTarget`, `refreshObject`,
-- `cache.delete` and `dropTrashedDirectory` go through; the bytes that the cache has; whether
-- something is at the key; whether `getInfo` goes through; what the call that restores replies.
pub record Answers : Type 0 where
  pub is_valid : Bool
  pub content : Answer Text
  pub is_there : Answer Bool
  pub has_info : Bool
  pub reply : Answer Reply
  pub is_refreshed : Bool
  pub is_cleared : Bool
  pub is_dropped : Bool

abbrev pub driver_of : Option Backend → Text
driver_of none = []
driver_of (some b) = b.driver

abbrev pub can_write : Option Backend → Bool
can_write none = false
can_write (some b) = b.can_write && not b.read_only

-- `result.reason = 'precondition-failed'`
unfoldable pub with_reason : Item → Reply → Reply
with_reason item r =
    if item.quarantined && same r.reason (some (codes "target-exists"))
    then record r { reason = some (codes "precondition-failed") }
    else r

-- A call that restores the bytes, and its answer.
abbrev pub called : Call → Answer Reply → List Call × Answer Reply
called call a = (call ∷ [], a)

abbrev pub uncalled : Answer Reply → List Call × Answer Reply
uncalled a = ([], a)

-- `restorePinned` on a backend of the driver cacache, after the answer of `stat`.
unfoldable pub put_pinned : Item → Answers → Answer Bool → List Call × Answer Reply
put_pinned item answers fails = uncalled fails
put_pinned item answers (answer true) = uncalled (answer (refused (codes "precondition-failed")))
put_pinned item answers (answer false) =
    if not answers.has_info
    then uncalled fails
    else called (put_copy item.backend item.key) answers.reply

module _ (t : Table text_key Row) (days : ℕ) where
  -- `get` on a pending record, after its look at the backend.
  unfoldable pub get_looked : t.Db → Item → Answer Bool → Ran t.Db (Option Item)
  unfolding finish
  get_looked d item fails = threw d []
  get_looked d item (answer deleted) =
      if not deleted
      then returns d [] none
      else returns (finish t d (some item)) (saved (finished item) ∷ []) (some (finished item))

  unfoldable pub get_item : t.Db → Text → ℕ → Looks → Option Item → Ran t.Db (Option Item)
  unfolding get_looked is_deleted is_hidden
  get_item d backend now looks none = returns d [] none
  get_item d backend now looks (some item) =
      if is_hidden days backend now item
      then returns d [] none
      else if not (is_pending item.state)
      then returns d [] (some item)
      else if item.manual && not item.recovery_ready
      then returns d [] none
      else get_looked d item (is_deleted item looks)

  unfoldable pub get : t.Db → Text → Text → ℕ → Looks → Ran t.Db (Option Item)
  unfolding get_item
  get d backend id now looks = get_item d backend now looks (as_item (t.get d (item_key id)))

abbrev pub restored_item : Item → ℕ → Item
restored_item item now = record item { state = restored; restored_at = some now }

module _ (t : Table text_key Row) (days : ℕ) (sha256 : Text → Text) where
  -- `restorePinned`, once the cache's copy was read.
  unfoldable pub restore_read :
      Item → Option Backend → Answers → Answer Text → List Call × Answer Reply
  unfolding put_pinned
  restore_read item found answers fails = uncalled fails
  restore_read item found answers (answer bytes) =
      if not (same (some (sha256 bytes)) item.sha256)
      then uncalled (answer (refused (codes "recovery-content-changed")))
      else if text_eq (driver_of found) (codes "cacache")
      then put_pinned item answers answers.is_there
      else called (put_copy item.backend item.key) answers.reply

  unfoldable pub restore_pinned : Item → Option Backend → Answers → List Call × Answer Reply
  unfolding restore_read
  restore_pinned item found answers =
      if not (can_write found)
      then uncalled (answer (refused (codes "read-only-backend")))
      else restore_read item found answers answers.content

  -- The call by which the bytes come back.
  unfoldable pub bring_back : Item → Option Backend → Answers → List Call × Answer Reply
  unfolding restore_pinned
  bring_back item found answers =
      if is_some item.cache_key
      then restore_pinned item found answers
      else if is_aside item
      then called (restore_directory item.id item.key) answers.reply
      else called (restore_retained item.sha256 item.key) answers.reply

  -- What follows once the record is saved: the copy in the cache goes.
  unfoldable pub clear_copy : t.Db → Item → Answers → List Call → Reply → Ran t.Db Reply
  clear_copy d item answers calls r =
      let cleared = calls ++ (drop_copy item.cache_key ∷ []) in
      let dropped = cleared ++ (drop_directory item.id ∷ []) in
      if not (is_some item.cache_key)
      then returns d calls r
      else if not answers.is_cleared
      then threw d cleared
      else if not item.quarantined
      then returns d cleared r
      else if not answers.is_dropped
      then threw d dropped
      else returns d dropped r

  unfoldable pub record_restored : t.Db → Item → Answers → List Call → Reply → ℕ → Ran t.Db Reply
  unfolding clear_copy save
  record_restored d item answers calls r now =
      clear_copy (save t d (restored_item item now)) item answers
        (calls ++ (saved (restored_item item now) ∷ [])) r

  unfoldable pub restore_answered :
      t.Db → Item → Answers → ℕ → List Call × Answer Reply → Ran t.Db Reply
  unfolding record_restored with_reason
  restore_answered d item answers now (calls, fails) = threw d calls
  restore_answered d item answers now (calls, answer res) =
      let r = with_reason item res in
      let refreshed = calls ++ (refresh_object item.backend item.key ∷ []) in
      if not r.ok
      then returns d calls r
      else if not item.quarantined
      then record_restored d item answers calls r now
      else if not answers.is_refreshed
      then threw d refreshed
      else record_restored d item answers refreshed r now

  unfoldable pub restore_live : t.Db → Item → Option Backend → Answers → ℕ → Ran t.Db Reply
  unfolding restore_answered bring_back
  restore_live d item found answers now =
      if is_discarding item.state
      then returns d [] (refused (codes "deletion-pending"))
      else if not answers.is_valid
      then threw d []
      else restore_answered d item answers now (bring_back item found answers)

  -- `restoreItem` after `get`; what `get` wrote stays written.
  unfoldable pub restore_got :
      Ran t.Db (Option Item) → Option Backend → Answers → ℕ → Option (Option Item) → Ran t.Db Reply
  unfolding restore_live
  restore_got got found answers now none = threw got.db got.calls
  restore_got got found answers now (some none) =
      returns got.db got.calls (refused (codes "not-found"))
  restore_got got found answers now (some (some item)) =
      let ran = restore_live got.db item found answers now in
      record ran { calls = got.calls ++ ran.calls }

  unfoldable pub restore_item :
      t.Db → Text → Text → Option Backend → Looks → Answers → ℕ → Ran t.Db Reply
  unfolding restore_got get
  restore_item d backend id found looks answers now =
      let got = get t days d backend id now looks in restore_got got found answers now got.result
