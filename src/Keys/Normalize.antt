-- ===== src/Keys/Normalize.antt =====
-- src/sync/keys.js, `normalizeKey`. `String.prototype.normalize('NFC')` is the parameter `nfc`.
use canvas_stored.Prelude.{
  Bool, true, false, Option, [], ◌∷◌, ℕ, map, keep, Text, or_else, ◌==◌, if◌then◌else◌,
}
use canvas_stored.Keys.Segments.{split, join}

-- `replace(/\\/g, '/')` on one character
abbrev pub forward : ℕ → ℕ
forward c = if c == 92 then b'/' else c

-- `s.length > 0`
abbrev pub nonempty : Text → Bool
nonempty [] = false
nonempty (c ∷ cs) = true

module _ (nfc : Text → Text) where
  -- The argument is none where the source is given null or undefined.
  unfoldable pub normalize_key : Option Text → Text
  normalize_key key = join b'/' (keep nonempty (split b'/' (map forward (nfc (or_else key [])))))
