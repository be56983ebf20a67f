-- ===== src/Trash/Interrupted.antt =====
-- src/trash.js: a discard that fails half way, and a removal that is asked for again.
use canvas_stored.Prelude.{
  ℕ, ◌≡◌, refl, Bool, true, false, ◌⊎◌, inl, inr, Option, none, some, List, [], arith, Text,
  text_eq_refl,
}
use canvas_stored.Lmdb.{Table, text_key}
use canvas_stored.Trash.Types.{discarding, Item, Row, Reply, Call, Ran, Backend}
use canvas_stored.Trash.Rows.{save}
use canvas_stored.Trash.Lifetime.{stored, stored-save, IsKeyed}
use canvas_stored.Trash.Restore.{
  Looks, get, get_item, is_hidden, restore_item, restore_got, restore_live,
}
use canvas_stored.Trash.Discard.{
  discard_item, discard_found, discard_erased, discarding_item, discarded_item, erase,
}
use canvas_stored.Trash.Restore
use canvas_stored.Trash.Discard

module _ (t : Table text_key Row) (days : ℕ) (sha256 : Text → Text) where
  -- What a discard leaves under the id: a record that is being discarded if it threw, one that is
  -- discarded if it went through.
  abbrev Discards : t.Db → Text → Item → ℕ → Ran t.Db Reply → Type 0
  Discards d id item now ran =
      (ran.result ≡ none → stored t ran.db id ≡ some (discarding_item item))
      × ((r : Reply)
          → ran.result ≡ some r
          → r.ok ≡ true
          → r.already ≡ false
          → stored t ran.db id ≡ some (discarded_item item now))

  discard_erased-Discards :
      (d : t.Db) (item : Item) (now : ℕ) (erased : List Call × Bool)
      → Discards d item.id item now
          (discard_erased t (save t d (discarding_item item)) item now erased)
  unfolding discard_erased
  discard_erased-Discards d item now (calls, false) = (
    λ h. ground (arith, stored-save t d (discarding_item item) item.id, text_eq_refl item.id),
    λ r h. ground (arith, h),
  )
  discard_erased-Discards d item now (calls, true) = (
    λ h. ground (arith, h),
    λ r h o n. ground (
      arith,
      stored-save t (save t d (discarding_item item)) (discarded_item item now) item.id,
      text_eq_refl item.id,
    ),
  )

  get-discarding :
      (d : t.Db) (backend id : Text) (item : Item) (looks : Looks) (now : ℕ)
      → stored t d id ≡ some item
      → item.state ≡ discarding
      → (get t days d backend id now looks ≡ record { db = d; calls = []; result = some none })
        ⊎ (get t days d backend id now looks
            ≡ record { db = d; calls = []; result = some (some item) })
  unfolding get get_item is_hidden
  get-discarding d backend id item looks now h s = ground (arith, h, s)

  restore_item-discarding :
      (d : t.Db) (backend id : Text) (item : Item) (found : Option Backend) (looks : Looks)
      (a : Restore.Answers) (now : ℕ)
      → stored t d id ≡ some item
      → item.state ≡ discarding
      → (restore_item t days sha256 d backend id found looks a now).calls ≡ []
  unfolding restore_item restore_got restore_live
  restore_item-discarding d backend id item found looks a now h s =
      elim (get-discarding d backend id item looks now h s) [
        | inl e ↦ rw e refl
        | inr e ↦ rw e (ground (arith, s))
      ]

  discard_found-Discards :
      (d : t.Db) (backend id : Text) (found : Option Backend) (a : Discard.Answers) (now : ℕ)
      (o : Option Item)
      → IsKeyed t d
      → stored t d id ≡ o
      → (discard_found t d backend found a now o).result ≡ none
      → (item : Item) × ((o ≡ some item)
          × (stored t (discard_found t d backend found a now o).db id
              ≡ some (discarding_item item)))
  unfolding discard_found
  discard_found-Discards d backend id found a now none k h n = cc
  discard_found-Discards d backend id found a now (some item) k h n = (
    item,
    (refl, ground (arith, k id item h, (discard_erased-Discards d item now (erase item a)).0)),
  )

  -- Where `discardItem` throws, after some of the bytes may be gone, it has left the record in the
  -- state `discarding`; and `restoreItem` then makes no call for it, whatever it is answered.
  pub discard_item-restore_item :
      (d : t.Db) (backend other id : Text) (found again : Option Backend) (a : Discard.Answers)
      (b : Restore.Answers) (looks : Looks) (now later : ℕ)
      → IsKeyed t d
      → (discard_item t d backend id found a now).result ≡ none
      → (item : Item) × ((stored t d id ≡ some item)
          × ((stored t (discard_item t d backend id found a now).db id
                ≡ some (discarding_item item))
              × ((restore_item t days sha256
                    (discard_item t d backend id found a now).db
                    other
                    id
                    again
                    looks
                    b
                    later).calls
                  ≡ [])))
  unfolding discard_item
  discard_item-restore_item d backend other id found again a b looks now later k n =
      let left = discard_found-Discards d backend id found a now (stored t d id) k refl n in
      (
        left.0,
        (
          left.1.0,
          (
            left.1.1,
            restore_item-discarding _ other id (discarding_item left.0) again looks b later left.1.1
                refl,
          ),
        ),
      )
