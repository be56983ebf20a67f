-- ===== src/Trash/Sweeping.antt =====
-- src/trash.js: what `sweep` leaves.
use canvas_stored.Prelude.{
  ℕ, ◌≡◌, refl, ◌∙◌, Bool, true, false, not, ◌&&◌, ◌||◌, Option, none, some, List, [], ◌∷◌, arith,
  Text, text_eq, text_eq_iff, text_lt_irrefl, any, if◌then◌else◌,
}
use canvas_stored.Lmdb.{Table, text_key, Above, IsSorted, lookup, get-remove}
use canvas_stored.Trash.Types.{is_item_key, Row, item_row, mark_row, is_aside}
use canvas_stored.Trash.Rows.{is_expired, sweep, sweep_rows, sweep_item}

-- The row under a key is a record that has expired, and its backend is there if the bytes were moved
-- aside on it.
abbrev pub goes : ℕ → ℕ → (Text → Bool) → Text → Row → Bool
goes days now has_backend key (item_row item) =
    is_item_key key
    && (is_expired days now item && (not (is_aside item) || has_backend item.backend))
goes days now has_backend key mark_row = false

abbrev pub goes_in : ℕ → ℕ → (Text → Bool) → Text → Option Row → Bool
goes_in days now has_backend key none = false
goes_in days now has_backend key (some row) = goes days now has_backend key row

-- A search for a key among sorted rows is a lookup.
any-Above :
    (p : Text → Row → Bool) (k : Text) (rows : List (Text × Row))
    → Above text_key k rows
    → any (λ row. text_eq row.0 k && p row.0 row.1) rows ≡ false
any-Above p k [] a = refl
any-Above p k ((j, row) ∷ rows) a =
    ground (arith, a.0, any-Above p k rows a.1, text_eq_iff j k, text_lt_irrefl k)

any-lookup :
    (days now : ℕ) (has_backend : Text → Bool) (k : Text) (rows : List (Text × Row))
    → IsSorted text_key rows
    → any (λ row. text_eq row.0 k && goes days now has_backend row.0 row.1) rows
      ≡ goes_in days now has_backend k (lookup text_key k rows)
unfolding lookup
any-lookup days now has_backend k [] s = refl
any-lookup days now has_backend k ((j, row) ∷ rows) s = ground (
  arith,
  any-Above (goes days now has_backend) k rows,
  any-lookup days now has_backend k rows s.1,
  s.0,
  text_eq_iff j k,
)

module _ (t : Table text_key Row) (days now : ℕ) (has_backend drops : Text → Bool) where
  sweep_rows_lem :
      (rows : List (Text × Row)) (d : t.Db) (k : Text)
      → (sweep_rows t days now has_backend drops rows d).0 ≡ true
      → t.get (sweep_rows t days now has_backend drops rows d).1 k ≡ (
          if any (λ row. text_eq row.0 k && goes days now has_backend row.0 row.1) rows
          then none
          else t.get d k)
  unfolding sweep_rows sweep_item
  sweep_rows_lem [] d k h = refl
  sweep_rows_lem ((key, mark_row) ∷ rows) d k h = ground (arith, h, sweep_rows_lem rows d k)
  sweep_rows_lem ((key, item_row item) ∷ rows) d k h = ground (
    arith,
    h,
    sweep_rows_lem rows d k,
    sweep_rows_lem rows (t.remove d key) k,
    get-remove t d key k,
  )

  -- A sweep that goes through removes the records that were not deleted by hand and are as old as
  -- the window, except where the bytes were moved aside on a backend that is not there; every other
  -- row stays as it was.
  pub get-sweep :
      (d : t.Db) (k : Text)
      → (sweep t days now has_backend drops d).0 ≡ true
      → t.get (sweep t days now has_backend drops d).1 k
        ≡ (if goes_in days now has_backend k (t.get d k) then none else t.get d k)
  unfolding sweep
  get-sweep d k h =
      sweep_rows_lem (t.range d) d k h
      ∙ rw (any-lookup days now has_backend k (t.range d) (t.range-IsSorted d))
          (rw⁻¹ (t.get-range d k) refl)
