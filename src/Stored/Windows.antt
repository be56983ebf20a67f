-- ===== src/Stored/Windows.antt =====
-- src/index.js: what `sweepRetained` leaves.
use mathlib.Core.Path.{subst}
use canvas_stored.Prelude.{
  ℕ, ◌+◌, ◌≡◌, refl, sym, ap, ◌∙◌, Bool-cases, inl, inr, Bool, true, false, Option, none, some,
  List, [], ◌∷◌, arith, Text, text_eq, text_eq_iff, any, ltb, if_intro, some_eq,
}
use canvas_stored.Lmdb.{Table, text_key, get-remove}
use canvas_stored.Trash.Types.{Row}
use canvas_stored.Trash.Rows.{sweep}
use canvas_stored.Stored.Retention.{Entry, Drop, drop_present, retained_backend_names}
use canvas_stored.Stored.Sweeps.{
  Swept, is_recent, time_of, sweep_found, sweep_keys, sweep_retained, window_or,
}

module _ (et : Table text_key Entry) (rt : Table text_key Row) (names : List Text) (window now : ℕ)
    (sha : Text) (e : Entry) (in_window : ltb now (time_of e.last_at + window) ≡ true) where
  abbrev Has : et.Db → Type 0
  Has d = et.get d sha ≡ some e

  sweep_found-Has :
      (drops : Text → Drop) (d : et.Db) (o : Option Entry) (stays goes : Swept et.Db)
      → Has d
      → Has stays.entries
      → ((f : Entry) → o ≡ some f → is_recent window now f ≡ false → Has goes.entries)
      → Has (sweep_found et rt names drops window now d o stays goes).entries
  unfolding sweep_found
  sweep_found-Has drops d none stays goes h s g = s
  sweep_found-Has drops d (some f) stays goes h s g =
      if_intro (λ (out : Swept et.Db). Has out.entries) (is_recent window now f) (λ r. s)
        (λ r.
          if_intro (λ (out : Swept et.Db). Has out.entries)
            (drop_present drops (retained_backend_names names (some f))) (λ p. g f refl r) (λ p. h))

  key_differs :
      (d : et.Db) (k : Text) (f : Entry)
      → Has d
      → et.get d k ≡ some f
      → is_recent window now f ≡ false
      → text_eq k sha ≡ false
  unfolding is_recent
  key_differs d k f h m old = elim (Bool-cases (text_eq k sha)) [
    | inl t ↦ ground (
      arith,
      in_window,
      subst (λ (x : Entry). ltb now (time_of x.last_at + window) ≡ false)
          (some_eq (sym m ∙ (ap (λ j. et.get d j) ((text_eq_iff k sha).0 t) ∙ h))) old,
    )
    | inr n ↦ n
  ]

  removed-Has :
      (d : et.Db) (k : Text) (f : Entry)
      → Has d
      → et.get d k ≡ some f
      → is_recent window now f ≡ false
      → Has (et.remove d k)
  unfolding is_recent
  removed-Has d k f h m old = get-remove et d k sha ∙ ground (arith, h, key_differs d k f h m old)

  sweep_keys-Has :
      (drops : Text → Text → Drop) (rows : List (Text × Entry)) (d : et.Db)
      → Has d
      → Has (sweep_keys et rt names drops window now rows d).entries
  unfolding sweep_keys
  sweep_keys-Has drops [] d h = h
  sweep_keys-Has drops ((k, row) ∷ rows) d h =
      sweep_found-Has (drops k) d (et.get d k) _ _ h (sweep_keys-Has drops rows d h)
        (λ f m old. sweep_keys-Has drops rows (et.remove d k) (removed-Has d k f h m old))

-- A sweep, even one that stops at an error, leaves the entry of bytes that were displaced less than
-- the window ago, as it was.
pub get-sweep_retained :
    (et : Table text_key Entry) (rt : Table text_key Row) (days : ℕ) (names : List Text)
    (drops : Text → Text → Drop) (drops_directory : Text → Bool) (older_than : Option ℕ) (now : ℕ)
    (d : et.Db) (r : rt.Db) (sha : Text) (e : Entry)
    → et.get d sha ≡ some e
    → ltb now (time_of e.last_at + window_or older_than days) ≡ true
    → et.get
        (sweep_retained et rt days names drops drops_directory older_than now d r).0.entries
        sha
      ≡ some e
unfolding sweep_retained
get-sweep_retained et rt days names drops drops_directory older_than now d r sha e h recent =
    if_intro (λ (out : Swept et.Db). et.get out.entries sha ≡ some e)
      (sweep rt days now (λ name. any (text_eq name) names) drops_directory r).0
      (λ ok.
        sweep_keys-Has et rt names (window_or older_than days) now sha e recent drops (et.range d) d
          h)
      (λ ok. h)
