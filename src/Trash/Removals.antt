-- ===== src/Trash/Removals.antt =====
-- src/trash.js: `discardItem` and `remove` change records by the steps of Lifetime only.
use canvas_stored.Prelude.{
  ℕ, ◌++◌, ◌≡◌, refl, Bool, true, false, Option, none, some, List, [], ◌∷◌, arith, Text,
  text_eq_refl, or_else,
}
use canvas_stored.Lmdb.{Table, text_key}
use canvas_stored.Trash.Types.{
  pending, Item, Row, is_over, is_settled, Answer, answer, fails, Reply, Call, Ran, Backend, saved,
  keep_copy, remove_object, ItemState, active, discarding, restored, discarded,
}
use canvas_stored.Trash.Rows.{save, finish, finished}
use canvas_stored.Trash.Lifetime.{
  stored, stored-save, Evolves, start, created, IsKeyed, Live, step, step-Live, found-Live,
}
use canvas_stored.Trash.Remove.{
  Stat, ready, is_of, is_digest, is_protected, uuid_of, removal_item, remove_answered, remove_bytes,
  copied, copy_first, remove_recoverable, remove_absent, remove_seen, remove_rooted, remove_again,
  remove,
}
use canvas_stored.Trash.Discard.{
  discard_item, discard_found, discard_erased, erase, discarding_item, discarded_item,
}
use canvas_stored.Trash.Remove
use canvas_stored.Trash.Discard

module _ (t : Table text_key Row) where
  abbrev Ends : t.Db → Ran t.Db Reply → Type 0
  Ends d ran = Evolves t d ran.db

  discard_erased-Ends :
      (d e : t.Db) (item : Item) (now : ℕ) (erased : List Call × Bool)
      → Live t d e (discarding_item item)
      → Ends d (discard_erased t e item now erased)
  unfolding discard_erased
  discard_erased-Ends d e item now (calls, false) l = l.steps
  discard_erased-Ends d e item now (calls, true) l =
      step t d e (discarding_item item) (discarded_item item now) l
        (refl, (refl, (refl, (refl, refl))))

  discard_live-Ends :
      (d : t.Db) (id : Text) (item : Item) (now : ℕ) (a : Discard.Answers)
      → IsKeyed t d
      → stored t d id ≡ some item
      → is_over item.state ≡ false
      → Ends d (discard_erased t (save t d (discarding_item item)) item now (erase item a))
  discard_live-Ends d id item now a k h n = discard_erased-Ends d _ item now (erase item a) (
      step-Live t d d item (discarding_item item) (found-Live t d id item k h n)
        (refl, (refl, (refl, (refl, refl)))) refl)

  discard_found-Ends :
      (d : t.Db) (backend id : Text) (found : Option Backend) (a : Discard.Answers) (now : ℕ)
      (item : Option Item)
      → IsKeyed t d
      → stored t d id ≡ item
      → Ends d (discard_found t d backend found a now item)
  unfolding discard_found
  discard_found-Ends d backend id found a now none k h = start
  discard_found-Ends d backend id found a now (some item) k h =
      let s : Evolves t d d = start in ground (arith, s, discard_live-Ends d id item now a k h)

  pub discard_item-Ends :
      (d : t.Db) (backend id : Text) (found : Option Backend) (a : Discard.Answers) (now : ℕ)
      → IsKeyed t d
      → Ends d (discard_item t d backend id found a now)
  unfolding discard_item
  discard_item-Ends d backend id found a now k =
      discard_found-Ends d backend id found a now (stored t d id) k refl

module _ (t : Table text_key Row) (days : ℕ) (sha256 : Text → Text) (backend key sha : Text) where
  abbrev Leads : t.Db → Ran t.Db Reply → Type 0
  Leads d ran = Evolves t d ran.db

  remove_answered-Leads :
      (d e : t.Db) (item : Item) (calls : List Call) (res : Answer Reply)
      → Live t d e item
      → Leads d (remove_answered t days sha256 e item calls res)
  unfolding remove_answered finish
  remove_answered-Leads d e item calls fails l = l.steps
  remove_answered-Leads d e item calls (answer res) l =
      ground
        (arith, l.steps, step t d e item (finished item) l (refl, (refl, (refl, (refl, refl)))))

  copy_first-Leads :
      (d e : t.Db) (item : Item) (a : Remove.Answers) (calls : List Call)
      (content : Answer (Option Text))
      → Live t d e item
      → Leads d (copy_first t days sha256 e sha item a calls content)
  unfolding copy_first copied remove_bytes
  copy_first-Leads d e item a calls fails l = l.steps
  copy_first-Leads d e item a calls (answer none) l = l.steps
  copy_first-Leads d e item a calls (answer (some bytes)) l =
      let l' : Live t d (save t e (ready item)) (ready item) =
        step-Live t d e item (ready item) l (refl, (refl, (refl, (refl, refl)))) l.is_live in
      ground (
        arith,
        l.steps,
        remove_answered-Leads d (save t e (ready item)) (ready item)
            (((calls ++ (keep_copy item.cache_key bytes ∷ [])) ++ (saved (ready item) ∷ []))
              ++ (remove_object item.backend item.key sha ∷ []))
            a.removal l',
      )

  remove_recoverable-Leads :
      (d : t.Db) (item : Item) (a : Remove.Answers)
      → Live t d (save t d item) item
      → Leads d (remove_recoverable t days sha256 d sha item a)
  unfolding remove_recoverable remove_bytes
  remove_recoverable-Leads d item a l = ground (
    arith,
    remove_answered-Leads d (save t d item) item
        (saved item ∷ (remove_object item.backend item.key sha ∷ [])) a.removal l,
    copy_first-Leads d (save t d item) item a (saved item ∷ []) a.content l,
  )

  -- The record that `remove` found, or will write.
  abbrev Found : t.Db → Text → Option Item → Type 0
  Found d id none = stored t d id ≡ none
  Found d id (some item) = Live t d d item

  remove_seen-Leads :
      (d : t.Db) (id : Text) (now : ℕ) (a : Remove.Answers) (item : Option Item)
      (stat : Answer (Option Stat))
      → Found d id item
      → Leads d (remove_seen t days sha256 d id backend key sha now a item stat)
  unfolding remove_seen remove_absent finish removal_item
  remove_seen-Leads d id now a item fails f = start
  remove_seen-Leads d id now a none (answer none) f = start
  remove_seen-Leads d id now a (some item) (answer none) f =
      ground
        (arith, f.steps, step t d d item (finished item) f (refl, (refl, (refl, (refl, refl)))))
  remove_seen-Leads d id now a none (answer (some stat)) f =
      let new = removal_item id backend key sha stat now in
      remove_recoverable-Leads d new a record {
        steps = created d new start f refl;
        here = rw stored-save (rw text_eq_refl refl);
        is_live = refl;
      }
  remove_seen-Leads d id now a (some item) (answer (some stat)) f =
      remove_recoverable-Leads d item a
        (step-Live t d d item item f (refl, (refl, (refl, (refl, refl)))) f.is_live)

  remove_rooted-Leads :
      (d : t.Db) (id : Text) (now : ℕ) (a : Remove.Answers) (item : Option Item)
      (root : Answer (Option Bool))
      → Found d id item
      → Leads d (remove_rooted t days sha256 d id backend key sha now a item root)
  unfolding remove_rooted
  remove_rooted-Leads d id now a item fails f = start
  remove_rooted-Leads d id now a item (answer root) f =
      let s : Evolves t d d = start in ground (arith, s, remove_seen-Leads d id now a item a.stat f)

  open_is_live : (s : ItemState) → is_settled s ≡ false → is_over s ≡ false
  open_is_live pending h = refl
  open_is_live active h = cc
  open_is_live discarding h = refl
  open_is_live restored h = cc
  open_is_live discarded h = cc

  remove_open-Leads :
      (d : t.Db) (id : Text) (now : ℕ) (a : Remove.Answers) (item : Item)
      → IsKeyed t d
      → stored t d id ≡ some item
      → is_settled item.state ≡ false
      → Leads d (remove_rooted t days sha256 d id backend key sha now a (some item) a.root)
  remove_open-Leads d id now a item k h n =
      remove_rooted-Leads d id now a (some item) a.root
        (found-Live t d id item k h (open_is_live item.state n))

  remove_again-Leads :
      (d : t.Db) (id : Text) (now : ℕ) (a : Remove.Answers) (item : Option Item)
      → IsKeyed t d
      → stored t d id ≡ item
      → Leads d (remove_again t days sha256 d id backend key sha now a item)
  unfolding remove_again
  remove_again-Leads d id now a none k h = remove_rooted-Leads d id now a none a.root h
  remove_again-Leads d id now a (some item) k h =
      let s : Evolves t d d = start in ground (arith, s, remove_open-Leads d id now a item k h)

module _ (t : Table text_key Row) (days : ℕ) (sha256 : Text → Text) where
  pub remove-Leads :
      (d : t.Db) (backend key : Text) (operation sha : Option Text) (found : Option Backend)
      (a : Remove.Answers) (now : ℕ)
      → IsKeyed t d
      → Evolves t d (remove t days sha256 d backend key operation sha found a now).db
  unfolding remove
  remove-Leads d backend key operation sha found a now k =
      let s : Evolves t d d = start in
      let id = uuid_of (sha256 (or_else operation [])) in
      ground (
        arith,
        s,
        remove_again-Leads t days sha256 backend key (or_else sha []) d id now a (stored t d id) k
            refl,
      )
