-- ===== src/Trash/Repeated.antt =====
-- src/trash.js: a removal that went through is not done a second time.
use canvas_stored.Prelude.{
  ℕ, ◌++◌, ◌≡◌, refl, Bool, true, false, not, ◌&&◌, Option, none, some, List, [], ◌∷◌, arith, Text,
  text_eq_iff, text_eq_refl, or_else,
}
use canvas_stored.Lmdb.{Table, text_key}
use canvas_stored.Trash.Types.{
  Item, Row, is_settled, Answer, answer, fails, Reply, Call, Ran, Backend, saved, keep_copy,
  remove_object,
}
use canvas_stored.Trash.Rows.{save, finish, finished}
use canvas_stored.Trash.Lifetime.{stored, stored-save, IsKeyed}
use canvas_stored.Trash.Remove.{
  Answers, Stat, ready, is_of, uuid_of, removal_item, remove_answered, remove_bytes, copied,
  copy_first, remove_recoverable, remove_absent, remove_seen, remove_rooted, remove_again, remove,
}

-- The reply says that the object was removed, now or before, and not that there was none.
abbrev pub has_removed : Option Reply → Bool
has_removed none = false
has_removed (some r) = r.ok && not r.missing

-- The record is one of this deletion, and settled.
abbrev is_done : Text → Text → Text → Option Item → Bool
unfolding is_of
is_done backend key sha none = false
is_done backend key sha (some item) = is_of backend key sha item && is_settled item.state

module _ (t : Table text_key Row) (days : ℕ) (sha256 : Text → Text)
    (id backend key sha : Text) where
  abbrev Ends : Ran t.Db Reply → Type 0
  Ends ran = has_removed ran.result ≡ true → is_done backend key sha (stored t ran.db id) ≡ true

  abbrev Names : Item → Type 0
  Names item = (item.id ≡ id) × (is_of backend key sha item ≡ true)

  remove_answered-Ends :
      (d : t.Db) (item : Item) (calls : List Call) (res : Answer Reply)
      → Names item
      → Ends (remove_answered t days sha256 d item calls res)
  unfolding remove_answered finish is_of
  remove_answered-Ends d item calls fails n h = ground (arith, h)
  remove_answered-Ends d item calls (answer res) n h =
      ground (arith, h, n, stored-save t d (finished item) id, text_eq_iff item.id id)

  copy_first-Ends :
      (d : t.Db) (item : Item) (a : Answers) (calls : List Call) (content : Answer (Option Text))
      → Names item
      → Ends (copy_first t days sha256 d sha item a calls content)
  unfolding copy_first copied remove_bytes is_of
  copy_first-Ends d item a calls fails n h = ground (arith, h)
  copy_first-Ends d item a calls (answer none) n h = ground (arith, h)
  copy_first-Ends d item a calls (answer (some bytes)) n h = ground (
    arith,
    h,
    n,
    remove_answered-Ends (save t d (ready item)) (ready item)
        (((calls ++ (keep_copy item.cache_key bytes ∷ [])) ++ (saved (ready item) ∷ []))
          ++ (remove_object item.backend item.key sha ∷ []))
        a.removal n,
  )

  remove_seen-Ends :
      (d : t.Db) (now : ℕ) (a : Answers) (item : Item) (stat : Answer (Option Stat))
      → Names item
      → Ends (remove_seen t days sha256 d id backend key sha now a (some item) stat)
  unfolding remove_seen remove_absent remove_recoverable remove_bytes finish is_of
  remove_seen-Ends d now a item fails n h = ground (arith, h)
  remove_seen-Ends d now a item (answer none) n h =
      ground (arith, h, n, stored-save t d (finished item) id, text_eq_iff item.id id)
  remove_seen-Ends d now a item (answer (some stat)) n h = ground (
    arith,
    h,
    n,
    remove_answered-Ends (save t d item) item
        (saved item ∷ (remove_object item.backend item.key sha ∷ [])) a.removal n,
    copy_first-Ends (save t d item) item a (saved item ∷ []) a.content n,
  )

  remove_new-Ends :
      (d : t.Db) (now : ℕ) (a : Answers) (stat : Answer (Option Stat))
      → Ends (remove_seen t days sha256 d id backend key sha now a none stat)
  unfolding remove_seen remove_absent remove_recoverable remove_bytes finish is_of removal_item
  remove_new-Ends d now a fails h = ground (arith, h)
  remove_new-Ends d now a (answer none) h = ground (arith, h)
  remove_new-Ends d now a (answer (some stat)) h =
      let new = removal_item id backend key sha stat now in
      copy_first-Ends (save t d new) new a (saved new ∷ []) a.content
        (refl, ground (arith, text_eq_refl backend, text_eq_refl key, text_eq_refl sha)) h

  remove_rooted-Ends :
      (d : t.Db) (now : ℕ) (a : Answers) (o : Option Item) (root : Answer (Option Bool))
      → ((stat : Answer (Option Stat))
          → Ends (remove_seen t days sha256 d id backend key sha now a o stat))
      → Ends (remove_rooted t days sha256 d id backend key sha now a o root)
  unfolding remove_rooted is_of
  remove_rooted-Ends d now a o fails f h = ground (arith, h)
  remove_rooted-Ends d now a o (answer root) f h = ground (arith, h, f a.stat)

  remove_found-Ends :
      (d : t.Db) (now : ℕ) (a : Answers) (item : Item)
      → item.id ≡ id
      → is_of backend key sha item ≡ true
      → Ends (remove_rooted t days sha256 d id backend key sha now a (some item) a.root)
  remove_found-Ends d now a item i n =
      remove_rooted-Ends d now a (some item) a.root
        (λ stat. remove_seen-Ends d now a item stat (i, n))

  remove_again-Ends :
      (d : t.Db) (now : ℕ) (a : Answers) (o : Option Item)
      → IsKeyed t d
      → stored t d id ≡ o
      → Ends (remove_again t days sha256 d id backend key sha now a o)
  unfolding remove_again is_of
  remove_again-Ends d now a none k e h =
      remove_rooted-Ends d now a none a.root (remove_new-Ends d now a) h
  remove_again-Ends d now a (some item) k e h =
      ground (arith, h, e, remove_found-Ends d now a item (k id item e))

  remove_again-done :
      (d : t.Db) (now : ℕ) (a : Answers) (o : Option Item)
      → is_done backend key sha o ≡ true
      → ((remove_again t days sha256 d id backend key sha now a o).calls ≡ [])
        × (has_removed (remove_again t days sha256 d id backend key sha now a o).result ≡ true)
  unfolding remove_again is_of
  remove_again-done d now a none h = ground (arith, h)
  remove_again-done d now a (some item) h = ground (arith, h)

module _ (t : Table text_key Row) (days : ℕ) (sha256 : Text → Text) where
  -- A removal that replied that it removed the object leaves a settled record of it: asked for again
  -- with the same operation, under whatever answers, it makes no call (saving a record counts as one), and replies
  -- that the object is removed.
  pub remove-remove :
      (d : t.Db) (backend key : Text) (operation sha : Option Text) (found : Option Backend)
      (a b : Answers) (now later : ℕ)
      → IsKeyed t d
      → has_removed (remove t days sha256 d backend key operation sha found a now).result ≡ true
      → let e = (remove t days sha256 d backend key operation sha found a now).db in
        ((remove t days sha256 e backend key operation sha found b later).calls ≡ [])
        × (has_removed (remove t days sha256 e backend key operation sha found b later).result
            ≡ true)
  unfolding remove
  remove-remove d backend key operation sha found a b now later k h =
      let id = uuid_of (sha256 (or_else operation [])) in
      let first =
        remove_again t days sha256 d id backend key (or_else sha []) now a (stored t d id) in
      ground (
        arith,
        h,
        remove_again-Ends t days sha256 id backend key (or_else sha []) d now a (stored t d id) k
            refl,
        remove_again-done t days sha256 id backend key (or_else sha []) first.db later b
            (stored t first.db id),
      )
