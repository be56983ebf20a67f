-- ===== src/Trash/Settled.antt =====
-- src/trash.js: a record that is over stays as it is, and its bytes are not touched again.
use canvas_stored.Prelude.{
  ℕ, ◌≡◌, refl, ap, true, Option, none, some, List, [], ◌∷◌, arith, Text, codes,
}
use canvas_stored.Lmdb.{Table, text_key}
use canvas_stored.Trash.Types.{Item, Row, is_over, Backend, refused}
use canvas_stored.Trash.Lifetime.{stored, Evolves, IsKeyed, Evolves-IsKeyed, Evolves-over}
use canvas_stored.Trash.Restore.{Looks, get, get_item, is_hidden, restore_item, restore_got}
use canvas_stored.Trash.Discard.{discard_item, discard_found}
use canvas_stored.Trash.Remove.{remove}
use canvas_stored.Trash.Restores.{Leaves, get-Leaves, restore_item-Ends}
use canvas_stored.Trash.Removals.{discard_item-Ends, remove-Leads}
use canvas_stored.Trash.Restore
use canvas_stored.Trash.Remove
use canvas_stored.Trash.Discard

-- A call of a method, with the answers that its own calls get.
pub data Method : Type 0 where
  get_call : Text → Text → ℕ → Looks → Method
  restore_call : Text → Text → Option Backend → Looks → Restore.Answers → ℕ → Method
  discard_call : Text → Text → Option Backend → Discard.Answers → ℕ → Method
  remove_call :
      Text → Text → Option Text → Option Text → Option Backend → Remove.Answers → ℕ → Method

module _ (t : Table text_key Row) (days : ℕ) (sha256 : Text → Text) where
  unfoldable pub perform : Method → t.Db → t.Db
  perform (get_call backend id now looks) d = (get t days d backend id now looks).db
  perform (restore_call backend id found looks a now) d =
      (restore_item t days sha256 d backend id found looks a now).db
  perform (discard_call backend id found a now) d = (discard_item t d backend id found a now).db
  perform (remove_call backend key operation sha found a now) d =
      (remove t days sha256 d backend key operation sha found a now).db

  unfoldable pub perform_all : List Method → t.Db → t.Db
  unfolding perform
  perform_all [] d = d
  perform_all (method ∷ methods) d = perform_all methods (perform method d)

  got-Evolves : (d e : t.Db) (o : Option (Option Item)) → Leaves t d e o → Evolves t d e
  got-Evolves d e none l = l
  got-Evolves d e (some none) l = l
  got-Evolves d e (some (some item)) l = l.steps

  perform-Evolves : (method : Method) (d : t.Db) → IsKeyed t d → Evolves t d (perform method d)
  unfolding perform
  perform-Evolves (get_call backend id now looks) d k =
      got-Evolves d _ (get t days d backend id now looks).result
        (get-Leaves t days d backend id now looks k)
  perform-Evolves (restore_call backend id found looks a now) d k =
      restore_item-Ends t days sha256 d backend id found looks a now k
  perform-Evolves (discard_call backend id found a now) d k =
      discard_item-Ends t d backend id found a now k
  perform-Evolves (remove_call backend key operation sha found a now) d k =
      remove-Leads t days sha256 d backend key operation sha found a now k

  perform_all-over :
      (methods : List Method) (d : t.Db) (id : Text) (item : Item)
      → IsKeyed t d
      → stored t d id ≡ some item
      → is_over item.state ≡ true
      → stored t (perform_all methods d) id ≡ some item
  unfolding perform_all
  perform_all-over [] d id item k h o = h
  perform_all-over (method ∷ methods) d id item k h o =
      let s = perform-Evolves method d k in
      perform_all-over methods (perform method d) id item
        (Evolves-IsKeyed t d (perform method d) s k)
        (Evolves-over t d (perform method d) id item s h o) o

  get-over :
      (d : t.Db) (backend id : Text) (item : Item) (now : ℕ) (looks : Looks)
      → stored t d id ≡ some item
      → is_over item.state ≡ true
      → get t days d backend id now looks ≡ record { db = d; calls = []; result = some none }
  unfolding get get_item is_hidden
  get-over d backend id item now looks h o = ground (arith, h, o)

  restore_item-over :
      (d : t.Db) (backend id : Text) (item : Item) (now : ℕ) (looks : Looks)
      (found : Option Backend) (a : Restore.Answers)
      → stored t d id ≡ some item
      → is_over item.state ≡ true
      → restore_item t days sha256 d backend id found looks a now
        ≡ record { db = d; calls = []; result = some (refused (codes "not-found")) }
  unfolding restore_item restore_got
  restore_item-over d backend id item now looks found a h o =
      rw (get-over d backend id item now looks h o) refl

  discard_item-over :
      (d : t.Db) (backend id : Text) (item : Item) (found : Option Backend) (b : Discard.Answers)
      (now : ℕ)
      → stored t d id ≡ some item
      → is_over item.state ≡ true
      → (discard_item t d backend id found b now).calls ≡ []
  unfolding discard_item discard_found
  discard_item-over d backend id item found b now h o = ground (arith, h, o)

  -- A record that was restored or discarded stays as it is, whatever calls of `get`, `restoreItem`,
  -- `discardItem` and `remove` follow, with whatever answers; and from then on `get` does not give it,
  -- `restoreItem` replies `not-found`, and neither it nor `discardItem` makes a call.
  pub perform_all-settled :
      (methods : List Method) (d : t.Db) (id backend : Text) (item : Item) (now : ℕ) (looks : Looks)
      (found : Option Backend) (a : Restore.Answers) (b : Discard.Answers)
      → IsKeyed t d
      → stored t d id ≡ some item
      → is_over item.state ≡ true
      → (stored t (perform_all methods d) id ≡ some item)
        × ((get t days (perform_all methods d) backend id now looks).result ≡ some none)
        × (restore_item t days sha256 (perform_all methods d) backend id found looks a now
            ≡ record {
              db = perform_all methods d;
              calls = [];
              result = some (refused (codes "not-found"));
            })
        × ((discard_item t (perform_all methods d) backend id found b now).calls ≡ [])
  perform_all-settled methods d id backend item now looks found a b k h o =
      let e = perform_all methods d in
      let there = perform_all-over methods d id item k h o in
      (
        there,
        ap (λ ran. ran.result) (get-over e backend id item now looks there o),
        restore_item-over e backend id item now looks found a there o,
        discard_item-over e backend id item found b now there o,
      )
