-- ===== src/Ledger/Bases.antt =====
-- src/sync/Ledger.js, `bases`: which rows the range from `<head><prefix>` up to the same text with
-- U+FFFF behind it holds.
use mathlib.Core.Path.{ap₂}
use mathlib.Core.List.{append_assoc}
use canvas_stored.Prelude.{
  ℕ, ◌++◌, ◌≡◌, refl, sym, ap, ◌∙◌, Bool, false, not, ◌&&◌, Option, none, some, List, [], ◌∷◌,
  arith, Text, codes, text_eq, text_eq_iff, text_lt, ltb, if◌then◌else◌, keep,
}
use canvas_stored.Lmdb.{Table, text_key, lookup}
use canvas_stored.Ledger.Rows.{Row, base, row_key}
use canvas_stored.Ledger.Methods.{bases, between, behind, after_head, yield_behind, top}

-- The order of two texts behind a common head.
text_lt-append : (h a b : Text) → text_lt (h ++ a) (h ++ b) ≡ text_lt a b
text_lt-append [] a b = refl
text_lt-append (c ∷ h) a b = ground (arith, text_lt-append h a b)

text_eq-append : (h a b : Text) → text_eq (h ++ a) (h ++ b) ≡ text_eq a b
text_eq-append [] a b = refl
text_eq-append (c ∷ h) a b = ground (arith, text_eq-append h a b)

after_head-append : (h a : Text) → after_head h (h ++ a) ≡ some a
after_head-append [] a = refl
after_head-append (c ∷ h) a = ground (arith, after_head-append h a)

after_head_sound : (h k a : Text) → after_head h k ≡ some a → k ≡ h ++ a
after_head_sound [] k a e = ground arith
after_head_sound (c ∷ h) [] a e = absurd (ground arith)
after_head_sound (c ∷ h) (d ∷ k) a e = ground (arith, after_head_sound h k a)

after_head-misses : (h k a : Text) → after_head h k ≡ none → text_eq k (h ++ a) ≡ false
after_head-misses [] k a e = absurd (ground arith)
after_head-misses (c ∷ h) [] a e = refl
after_head-misses (c ∷ h) (d ∷ k) a e = ground (arith, after_head-misses h k a)

lookup-keep :
    (p : Text → Bool) (k : Text) (rows : List (Text × Row))
    → lookup text_key k (keep (λ row. p row.0) rows)
      ≡ (if p k then lookup text_key k rows else none)
unfolding lookup
lookup-keep p k [] = ground arith
lookup-keep p k ((j, row) ∷ rows) = ground (arith, lookup-keep p k rows, text_eq_iff j k)

behind_row :
    (head key j : Text) (row : Row) (rows : List (Text × Row)) (o : Option Text)
    → after_head head j ≡ o
    → lookup text_key key (behind head rows) ≡ lookup text_key (head ++ key) rows
    → lookup text_key key (yield_behind o row (behind head rows))
      ≡ lookup text_key (head ++ key) ((j, row) ∷ rows)
unfolding lookup
behind_row head key j row rows none e h = rw (after_head-misses head j key e) h
behind_row head key j row rows (some rest) e h =
    rw (after_head_sound head j rest e) (rw text_eq-append (rw h))

lookup-behind :
    (head key : Text) (rows : List (Text × Row))
    → lookup text_key key (behind head rows) ≡ lookup text_key (head ++ key) rows
unfolding lookup behind
lookup-behind head key [] = refl
lookup-behind head key ((j, row) ∷ rows) =
    behind_row head key j row rows (after_head head j) refl (lookup-behind head key rows)

-- Does `bases` reach the key from this prefix?
abbrev pub is_reached : Text → Text → Bool
is_reached prefix key = not (text_lt key prefix) && text_lt key (prefix ++ top)

row_key-behind :
    (m key : Text) → row_key base m (some key) ≡ (row_key base m none ++ codes "/") ++ key
unfolding row_key
row_key-behind m key = simp append_assoc

in_range :
    (m prefix key : Text)
    → let start = row_key base m (some prefix) in
      let at = (row_key base m none ++ codes "/") ++ key in
      (not (text_lt at start) && text_lt at (start ++ top)) ≡ is_reached prefix key
in_range m prefix key =
    let head = row_key base m none ++ codes "/" in
    rw (row_key-behind m prefix) (
      ap₂ (λ a b. not a && b) (text_lt-append head key prefix)
        (ap (text_lt (head ++ key)) (append_assoc head prefix top)
          ∙ text_lt-append head key (prefix ++ top)))

module _ (t : Table text_key Row) where
  -- `bases` yields, under each key that lies between the prefix and the prefix with U+FFFF behind
  -- it, the row that `getBase` reads there, and nothing under any other key.
  pub bases_lem :
      (d : t.Db) (m prefix key : Text)
      → lookup text_key key (bases t d m prefix)
        ≡ (if is_reached prefix key then t.get d (row_key base m (some key)) else none)
  unfolding bases between
  bases_lem d m prefix key =
      let head = row_key base m none ++ codes "/" in
      let start = row_key base m (some prefix) in
      let p = λ (k : Text). not (text_lt k start) && text_lt k (start ++ top) in
      lookup-behind head key (keep (λ row. p row.0) (t.range d))
      ∙ lookup-keep p (head ++ key) (t.range d)
      ∙ ap (λ b. if b then lookup text_key (head ++ key) (t.range d) else none)
          (in_range m prefix key)
      ∙ ap (λ o. if is_reached prefix key then o else none)
          (sym (t.get-range d (head ++ key)) ∙ ap (t.get d) (sym (row_key-behind m key)))

  -- Without a prefix, a stored base whose key begins above U+FFFE is not yielded, and one with any
  -- other key is.
  pub bases_whole :
      (d : t.Db) (m : Text) (c : ℕ) (cs : Text)
      → lookup text_key (c ∷ cs) (bases t d m [])
        ≡ (if ltb c 65535 then t.get d (row_key base m (some (c ∷ cs))) else none)
  bases_whole d m c cs =
      bases_lem d m [] (c ∷ cs)
      ∙ ap (λ b. if b then t.get d (row_key base m (some (c ∷ cs))) else none) (ground arith)
