-- ===== src/Trash/Lifetime.antt =====
-- src/trash.js: what the methods do to the record of an id, as a relation of steps.
use canvas_stored.Prelude.{
  ◌≡◌, refl, ap, ◌∙◌, true, false, Option, none, some, arith, Text, text_eq, text_eq_iff,
  text_eq_refl, if◌then◌else◌,
}
use canvas_stored.Lmdb.{Table, text_key, get-put}
use canvas_stored.Trash.Types.{pending, Item, Row, item_row, item_key, as_item, is_over}
use canvas_stored.Trash.Rows.{save}

pub item_key_inj : (a b : Text) → text_eq (item_key a) (item_key b) ≡ text_eq a b
unfolding item_key
item_key_inj a b = refl

-- What was deleted, from where and when, stays.
abbrev pub Keeps : Item → Item → Type 0
Keeps old new =
    (new.id ≡ old.id)
    × ((new.backend ≡ old.backend)
        × ((new.key ≡ old.key) × ((new.sha256 ≡ old.sha256) × (new.deleted_at ≡ old.deleted_at))))

module _ (t : Table text_key Row) where
  -- The record of an id.
  abbrev pub stored : t.Db → Text → Option Item
  stored d id = as_item (t.get d (item_key id))

  -- The steps: a record that is not over is changed, or a pending one is added under a new id.
  pub data Evolves (d : t.Db) : t.Db → Type 0 where
    start : Evolves d d
    changed :
        (e : t.Db) (old new : Item)
        → Evolves d e
        → stored e old.id ≡ some old
        → is_over old.state ≡ false
        → Keeps old new
        → Evolves d (save t e new)
    created :
        (e : t.Db) (new : Item)
        → Evolves d e
        → stored e new.id ≡ none
        → new.state ≡ pending
        → Evolves d (save t e new)

  -- Each record stands under its own id.
  abbrev pub IsKeyed : t.Db → Type 0
  IsKeyed d = (id : Text) (item : Item) → stored d id ≡ some item → item.id ≡ id

  pub stored-save :
      (d : t.Db) (item : Item) (id : Text)
      → stored (save t d item) id ≡ (if text_eq item.id id then some item else stored d id)
  unfolding save
  stored-save d item id =
      rw (get-put t d (item_key item.id) (item_key id) (item_row item))
        (rw item_key_inj (ground arith))

  pub save-IsKeyed : (d : t.Db) (item : Item) → IsKeyed d → IsKeyed (save t d item)
  save-IsKeyed d item k id i e =
      ground (arith, stored-save d item id, text_eq_iff item.id id, k id i)

  pub Evolves-IsKeyed : (d e : t.Db) → Evolves d e → IsKeyed d → IsKeyed e
  Evolves-IsKeyed d _ start k = k
  Evolves-IsKeyed d _ (changed e old new s h o w) k = save-IsKeyed e new (Evolves-IsKeyed d e s k)
  Evolves-IsKeyed d _ (created e new s h p) k = save-IsKeyed e new (Evolves-IsKeyed d e s k)

  -- The sub-database has come to `e`, and holds the record, which is not over.
  pub record Live (d e : t.Db) (item : Item) : Type 0 where
    pub steps : Evolves d e
    pub here : stored e item.id ≡ some item
    pub is_live : is_over item.state ≡ false

  pub step : (d e : t.Db) (old new : Item) → Live d e old → Keeps old new → Evolves d (save t e new)
  step d e old new l w = changed e old new l.steps l.here l.is_live w

  pub step-Live :
      (d e : t.Db) (old new : Item)
      → Live d e old
      → Keeps old new
      → is_over new.state ≡ false
      → Live d (save t e new) new
  step-Live d e old new l w n = record {
    steps = step d e old new l w;
    here = rw stored-save (rw text_eq_refl refl);
    is_live = n;
  }

  pub found-Live :
      (d : t.Db) (id : Text) (item : Item)
      → IsKeyed d
      → stored d id ≡ some item
      → is_over item.state ≡ false
      → Live d d item
  found-Live d id item k h n = record {
    steps = start;
    here = ap (stored d) (k id item h) ∙ h;
    is_live = n;
  }

  -- A record that is over is never written again.
  pub Evolves-over :
      (d e : t.Db) (id : Text) (item : Item)
      → Evolves d e
      → stored d id ≡ some item
      → is_over item.state ≡ true
      → stored e id ≡ some item
  Evolves-over d _ id item start h o = h
  Evolves-over d _ id item (changed e old new s k n w) h o =
      ground
        (arith, stored-save e new id, Evolves-over d e id item s h o, w.0, text_eq_iff new.id id)
  Evolves-over d _ id item (created e new s k p) h o =
      ground (arith, stored-save e new id, Evolves-over d e id item s h o, text_eq_iff new.id id)
