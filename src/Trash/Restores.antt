-- ===== src/Trash/Restores.antt =====
-- src/trash.js: `get` and `restoreItem` change records by the steps of Lifetime only.
use canvas_stored.Prelude.{
  ℕ, ◌++◌, ◌≡◌, refl, Bool, true, false, Option, none, some, List, [], ◌∷◌, arith, Text,
}
use canvas_stored.Lmdb.{Table, text_key}
use canvas_stored.Trash.Types.{
  Item, Row, Answer, answer, fails, Reply, Call, Ran, Backend, refresh_object,
}
use canvas_stored.Trash.Rows.{save, finish, finished}
use canvas_stored.Trash.Lifetime.{
  stored, Evolves, start, IsKeyed, Live, step, step-Live, found-Live,
}
use canvas_stored.Trash.Restore.{
  Looks, get, get_item, get_looked, is_deleted, is_hidden, restore_item, restore_got, restore_live,
  restore_answered, record_restored, clear_copy, restored_item, with_reason, bring_back,
}
use canvas_stored.Trash.Restore

module _ (t : Table text_key Row) where
  -- What `get` leaves: the record that it returns is there, and not over.
  abbrev pub Leaves : t.Db → t.Db → Option (Option Item) → Type 0
  Leaves d e (some (some item)) = Live t d e item
  Leaves d e _ = Evolves t d e

  abbrev pub LeavesItem : t.Db → Ran t.Db (Option Item) → Type 0
  LeavesItem d ran = Leaves d ran.db ran.result

  get_looked-Leaves :
      (days : ℕ) (d : t.Db) (item : Item) (deleted : Answer Bool)
      → Live t d d item
      → LeavesItem d (get_looked t days d item deleted)
  unfolding get_looked finish
  get_looked-Leaves days d item fails l = start
  get_looked-Leaves days d item (answer true) l =
      step-Live t d d item (finished item) l (refl, (refl, (refl, (refl, refl)))) refl
  get_looked-Leaves days d item (answer false) l = start

  get_item-Leaves :
      (days : ℕ) (d : t.Db) (backend id : Text) (now : ℕ) (looks : Looks) (found : Option Item)
      → IsKeyed t d
      → stored t d id ≡ found
      → LeavesItem d (get_item t days d backend now looks found)
  unfolding get_item is_hidden
  get_item-Leaves days d backend id now looks none k h = start
  get_item-Leaves days d backend id now looks (some item) k h =
      let s : Evolves t d d = start in
      ground (
        arith,
        s,
        found-Live t d id item k h,
        get_looked-Leaves days d item (is_deleted item looks),
      )

  pub get-Leaves :
      (days : ℕ) (d : t.Db) (backend id : Text) (now : ℕ) (looks : Looks)
      → IsKeyed t d
      → LeavesItem d (get t days d backend id now looks)
  unfolding get
  get-Leaves days d backend id now looks k =
      get_item-Leaves days d backend id now looks (stored t d id) k refl

  abbrev pub Ends : t.Db → Ran t.Db Reply → Type 0
  Ends d ran = Evolves t d ran.db

  clear_copy-Ends :
      (days : ℕ) (sha256 : Text → Text) (d e : t.Db) (item : Item) (a : Restore.Answers)
      (calls : List Call) (r : Reply)
      → Evolves t d e
      → Ends d (clear_copy t days sha256 e item a calls r)
  unfolding clear_copy
  clear_copy-Ends days sha256 d e item a calls r s = ground (arith, s)

  record_restored-Ends :
      (days : ℕ) (sha256 : Text → Text) (d e : t.Db) (item : Item) (a : Restore.Answers)
      (calls : List Call) (r : Reply) (now : ℕ)
      → Live t d e item
      → Ends d (record_restored t days sha256 e item a calls r now)
  unfolding record_restored
  record_restored-Ends days sha256 d e item a calls r now l =
      clear_copy-Ends days sha256 d (save t e (restored_item item now)) item a _ r
        (step t d e item (restored_item item now) l (refl, (refl, (refl, (refl, refl)))))

  restore_answered-Ends :
      (days : ℕ) (sha256 : Text → Text) (d e : t.Db) (item : Item) (a : Restore.Answers) (now : ℕ)
      (back : List Call × Answer Reply)
      → Live t d e item
      → Ends d (restore_answered t days sha256 e item a now back)
  unfolding restore_answered
  restore_answered-Ends days sha256 d e item a now (calls, fails) l = l.steps
  restore_answered-Ends days sha256 d e item a now (calls, answer res) l = ground (
    arith,
    l.steps,
    record_restored-Ends days sha256 d e item a calls (with_reason item res) now l,
    record_restored-Ends days sha256 d e item a
        (calls ++ (refresh_object item.backend item.key ∷ [])) (with_reason item res) now l,
  )

  restore_live-Ends :
      (days : ℕ) (sha256 : Text → Text) (d e : t.Db) (item : Item) (found : Option Backend)
      (a : Restore.Answers) (now : ℕ)
      → Live t d e item
      → Ends d (restore_live t days sha256 e item found a now)
  unfolding restore_live
  restore_live-Ends days sha256 d e item found a now l = ground (
    arith,
    l.steps,
    restore_answered-Ends days sha256 d e item a now (bring_back t days sha256 item found a) l,
  )

  restore_got-Ends :
      (days : ℕ) (sha256 : Text → Text) (d : t.Db) (got : Ran t.Db (Option Item))
      (found : Option Backend) (a : Restore.Answers) (now : ℕ) (result : Option (Option Item))
      → Leaves d got.db result
      → Ends d (restore_got t days sha256 got found a now result)
  unfolding restore_got
  restore_got-Ends days sha256 d got found a now none l = l
  restore_got-Ends days sha256 d got found a now (some none) l = l
  restore_got-Ends days sha256 d got found a now (some (some item)) l =
      restore_live-Ends days sha256 d got.db item found a now l

  pub restore_item-Ends :
      (days : ℕ) (sha256 : Text → Text) (d : t.Db) (backend id : Text) (found : Option Backend)
      (looks : Looks) (a : Restore.Answers) (now : ℕ)
      → IsKeyed t d
      → Ends d (restore_item t days sha256 d backend id found looks a now)
  unfolding restore_item
  restore_item-Ends days sha256 d backend id found looks a now k =
      restore_got-Ends days sha256 d (get t days d backend id now looks) found a now _
        (get-Leaves days d backend id now looks k)
