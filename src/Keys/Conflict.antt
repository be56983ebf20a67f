-- ===== src/Keys/Conflict.antt =====
-- src/sync/keys.js, `conflictKey`.
use canvas_stored.Prelude.{
  ℕ, zero, suc, ◌+◌, ◌++◌, ◌/◌, ◌%◌, Option, none, some, [], ◌∷◌, map, Text, codes, ◌==◌,
  if◌then◌else◌, ltb,
}
use canvas_stored.Prelude.{◌≡◌, refl}
use canvas_stored.Keys.Segments.{split, join}
use canvas_stored.Keys.Normalize.{normalize_key}

-- `String(n)` by the decimal digits, for n below 10 ^ fuel.
unfoldable pub decimal_from : ℕ → ℕ → Text → Text
decimal_from zero n tail = tail
decimal_from (suc fuel) n tail =
    let digits = (b'0' + n % 10) ∷ tail in
    let more = decimal_from fuel (n / 10) digits in if n / 10 == 0 then digits else more

unfoldable pub decimal : ℕ → Text
unfolding decimal_from
decimal n = decimal_from 20 n []

-- `String(n).padStart(2, '0')`
unfoldable pub pad : ℕ → Text
unfolding decimal
pad n = if ltb n 10 then b'0' ∷ decimal n else decimal n

-- The UTC fields of a `Date`, the month from 1.
pub record UtcTime : Type 0 where
  pub year : ℕ
  pub month : ℕ
  pub day : ℕ
  pub hour : ℕ
  pub minute : ℕ

unfoldable pub stamp : UtcTime → Text
unfolding pad
stamp d =
    decimal d.year
    ++ codes "-"
    ++ pad d.month
    ++ codes "-"
    ++ pad d.day
    ++ codes " "
    ++ pad d.hour
    ++ pad d.minute

-- `lastIndexOf(c)` with what stands before it and behind it.
unfoldable pub cut_last : ℕ → Text → Option (Text × Text)
cut_last c [] = none
cut_last c (x ∷ xs) = elim (cut_last c xs) [
  | some (before, behind) ↦ some (x ∷ before, behind)
  | none ↦ if x == c then some ([], xs) else none
]

-- `stem` and `ext`: a dot in front does not count.
unfoldable pub stem_ext : Text → Option (Text × Text) → Text × Option Text
stem_ext name none = (name, none)
stem_ext name (some ([], ext)) = (name, none)
stem_ext name (some (c ∷ cs, ext)) = (c ∷ cs, some ext)

-- `replace(/[/\\]/g, '_')` on one character
abbrev pub underscore : ℕ → ℕ
underscore c = if c == b'/' then b'_' else if c == 92 then b'_' else c

unfoldable pub device_label : Option Text → Text
device_label (some (c ∷ cs)) = map underscore (c ∷ cs)
device_label _ = codes "device"

unfoldable pub suffix : Option Text → UtcTime → Text
unfolding device_label stamp
suffix device date =
    codes " (conflict from " ++ (device_label device ++ (codes " " ++ (stamp date ++ codes ")")))

unfoldable pub leaf : Text × Option Text → Option Text → UtcTime → Text
unfolding suffix
leaf (stem, some (c ∷ cs)) device date = stem ++ (suffix device date ++ (codes "." ++ (c ∷ cs)))
leaf (stem, _) device date = stem ++ suffix device date

unfoldable pub conflict_leaf : Text → Option Text → UtcTime → Text
unfolding leaf stem_ext cut_last
conflict_leaf name device date = leaf (stem_ext name (cut_last b'.' name)) device date

unfoldable pub conflict_in : Text → Option (Text × Text) → Option Text → UtcTime → Text
unfolding conflict_leaf
conflict_in k (some (c ∷ cs, name)) device date =
    (c ∷ cs) ++ (codes "/" ++ conflict_leaf name device date)
conflict_in k (some ([], name)) device date = conflict_leaf name device date
conflict_in k none device date = conflict_leaf k device date

unfoldable pub conflict_key : (Text → Text) → Option Text → Option Text → UtcTime → Text
unfolding conflict_in cut_last
conflict_key nfc key device date =
    let k = normalize_key nfc key in conflict_in k (cut_last b'/' k) device date

conflict_key_runs :
    conflict_key
      (λ t. t)
      (some (codes "Docs/a.tar.gz"))
      (some (codes "pc/1"))
      (record { year = 2026; month = 3; day = 9; hour = 7; minute = 45 })
    ≡ codes "Docs/a.tar (conflict from pc_1 2026-03-09 0745).gz"
unfolding conflict_key normalize_key split join
conflict_key_runs = refl
