-- ===== src/Trash/Recoverable.antt =====
-- src/trash.js: `remove` takes no bytes away before they can be brought back.
use canvas_stored.Prelude.{
  ℕ, ◌≡◌, refl, Bool, true, false, not, ◌&&◌, ◌||◌, Option, none, some, List, [], ◌∷◌, arith, Text,
  text_eq, text_eq_refl, or_else,
}
use canvas_stored.Lmdb.{Table, text_key}
use canvas_stored.Trash.Types.{
  Item, Row, item_key, as_item, Backend, Answer, answer, fails, Call, saved, keep_copy, drop_copy,
  remove_object, Ran, Reply,
}
use canvas_stored.Trash.Rows.{save}
use canvas_stored.Trash.Remove.{
  Answers, Stat, is_ready, ready, is_of, uuid_of, removal_item, remove_answered, remove_bytes,
  copied, copy_first, remove_recoverable, remove_absent, remove_seen, remove_rooted, remove_again,
  remove,
}

-- A check of the calls in their order. `copy` tells that the copy made last has the digest `sha`,
-- `kept` that the record says the copy is there. The record may say so only when a copy was made or
-- it said so before, and an object may be removed only under such a record, from the place and with
-- the digest that were asked for.
unfoldable pub is_recoverable : (Text → Text) → Text → Text → Text → Bool → Bool → List Call → Bool
is_recoverable sha256 backend key sha copy kept [] = true
is_recoverable sha256 backend key sha copy kept (saved item ∷ calls) =
    let rest = is_recoverable sha256 backend key sha copy item.recovery_ready calls in
    (not item.recovery_ready || (copy || kept)) && rest
is_recoverable sha256 backend key sha copy kept (keep_copy name bytes ∷ calls) =
    is_recoverable sha256 backend key sha (text_eq (sha256 bytes) sha) kept calls
is_recoverable sha256 backend key sha copy kept (drop_copy name ∷ calls) =
    is_recoverable sha256 backend key sha false false calls
is_recoverable sha256 backend key sha copy kept (remove_object from name match ∷ calls) =
    let rest = is_recoverable sha256 backend key sha copy kept calls in
    text_eq from backend && (text_eq name key && (text_eq match sha && kept)) && rest
is_recoverable sha256 backend key sha copy kept (call ∷ calls) =
    is_recoverable sha256 backend key sha copy kept calls

module _ (t : Table text_key Row) (days : ℕ) (sha256 : Text → Text) (backend key sha : Text) where
  abbrev Checks : Bool → Bool → Ran t.Db Reply → Type 0
  Checks copy kept ran = is_recoverable sha256 backend key sha copy kept ran.calls ≡ true

  -- The record is that of the address and the digest that were asked for.
  abbrev Names : Item → Type 0
  Names item = (text_eq item.backend backend ≡ true) × (text_eq item.key key ≡ true)

  abbrev NamesIn : Option Item → Type 0
  NamesIn none = Unit
  NamesIn (some item) = Names item

  remove_answered-Checks :
      (d e : t.Db) (item : Item) (name : Option Text) (bytes : Text) (res : Answer Reply)
      → Names item
      → (item.recovery_ready ≡ true
          → Checks false true (
              remove_answered t days sha256 e item
                (saved item ∷ (remove_object item.backend item.key sha ∷ []))
                res))
        × (item.recovery_ready ≡ false
            → text_eq (sha256 bytes) sha ≡ true
            → Checks false false (
                remove_answered t days sha256 e
                  (ready item)
                  (saved item
                    ∷ (keep_copy name bytes
                        ∷ (saved (ready item) ∷ (remove_object item.backend item.key sha ∷ []))))
                  res))
  unfolding remove_answered is_recoverable
  remove_answered-Checks d e item name bytes fails h = ground (arith, h, text_eq_refl sha)
  remove_answered-Checks d e item name bytes (answer res) h = ground (arith, h, text_eq_refl sha)

  copy_first-Checks :
      (d : t.Db) (item : Item) (a : Answers) (content : Answer (Option Text))
      → Names item
      → item.recovery_ready ≡ false
      → Checks false false (copy_first t days sha256 d sha item a (saved item ∷ []) content)
  unfolding copy_first copied remove_bytes is_recoverable
  copy_first-Checks d item a fails h n = ground arith
  copy_first-Checks d item a (answer none) h n = ground arith
  copy_first-Checks d item a (answer (some bytes)) h n = ground (
    arith,
    (remove_answered-Checks d (save t d (ready item)) item item.cache_key bytes a.removal h).1,
  )

  remove_recoverable-Checks :
      (d : t.Db) (item : Item) (a : Answers)
      → Names item
      → Checks false item.recovery_ready (remove_recoverable t days sha256 d sha item a)
  unfolding remove_recoverable remove_bytes
  remove_recoverable-Checks d item a h = ground (
    arith,
    (remove_answered-Checks d (save t d item) item none [] a.removal h).0,
    copy_first-Checks (save t d item) item a a.content h,
  )

  remove_seen-Checks :
      (d : t.Db) (id : Text) (now : ℕ) (a : Answers) (item : Option Item)
      (stat : Answer (Option Stat))
      → NamesIn item
      → Checks false
          (is_ready item)
          (remove_seen t days sha256 d id backend key sha now a item stat)
  unfolding remove_seen remove_absent is_recoverable removal_item
  remove_seen-Checks d id now a item fails h = refl
  remove_seen-Checks d id now a none (answer none) h = refl
  remove_seen-Checks d id now a (some item) (answer none) h = ground arith
  remove_seen-Checks d id now a none (answer (some stat)) h =
      remove_recoverable-Checks d (removal_item id backend key sha stat now) a
        (text_eq_refl backend, text_eq_refl key)
  remove_seen-Checks d id now a (some item) (answer (some stat)) h =
      remove_recoverable-Checks d item a h

  remove_rooted-Checks :
      (d : t.Db) (id : Text) (now : ℕ) (a : Answers) (item : Option Item)
      (root : Answer (Option Bool))
      → NamesIn item
      → Checks false
          (is_ready item)
          (remove_rooted t days sha256 d id backend key sha now a item root)
  unfolding remove_rooted is_recoverable
  remove_rooted-Checks d id now a item fails h = refl
  remove_rooted-Checks d id now a item (answer root) h =
      ground (arith, remove_seen-Checks d id now a item a.stat h)

  remove_again-Checks :
      (d : t.Db) (id : Text) (now : ℕ) (a : Answers) (item : Option Item)
      → Checks false (is_ready item) (remove_again t days sha256 d id backend key sha now a item)
  unfolding remove_again is_recoverable is_of
  remove_again-Checks d id now a none = remove_rooted-Checks d id now a none a.root tt
  remove_again-Checks d id now a (some item) =
      ground (arith, remove_rooted-Checks d id now a (some item) a.root)

module _ (t : Table text_key Row) (days : ℕ) (sha256 : Text → Text) where
  -- `remove` asks for an object to be removed only at the address and with the digest it was given,
  -- and only under a record that says that the bytes can be brought back; and a record comes to say
  -- so only after a copy was made whose digest is the one that was given. This holds of each prefix
  -- of its calls too, so that it holds where a call fails or the program stops.
  pub remove-is_recoverable :
      (d : t.Db) (backend key : Text) (operation sha : Option Text) (found : Option Backend)
      (a : Answers) (now : ℕ)
      → is_recoverable sha256 backend key
          (or_else sha [])
          false
          (is_ready (as_item (t.get d (item_key (uuid_of (sha256 (or_else operation [])))))))
          (remove t days sha256 d backend key operation sha found a now).calls
        ≡ true
  unfolding remove is_recoverable
  remove-is_recoverable d backend key operation sha found a now = ground (
    arith,
    remove_again-Checks t days sha256 backend key (or_else sha []) d
        (uuid_of (sha256 (or_else operation []))) now a
        (as_item (t.get d (item_key (uuid_of (sha256 (or_else operation [])))))),
  )
