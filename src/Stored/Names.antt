-- ===== src/Stored/Names.antt =====
-- src/index.js: `#normalizeKey` and `#isSafeKey`. Unicode's NFC is a parameter, and
-- `path.isAbsolute` is that of POSIX, a slash in front.
use canvas_stored.Prelude.{
  ℕ, Bool, not, ◌&&◌, ◌||◌, [], ◌∷◌, Text, codes, text_eq, any, all, starts_with, ◌==◌,
  if◌then◌else◌,
}
use canvas_stored.Keys.Segments.{split}
use canvas_stored.Keys.Validate.{has_drive}
use canvas_stored.Replicas.Validate.{is_name}

-- `replace(/\/{2,}/g, '/')`
unfoldable pub collapse : Text → Text
collapse [] = []
collapse (c ∷ []) = c ∷ []
collapse (c ∷ (d ∷ cs)) =
    let rest = collapse (d ∷ cs) in if c == b'/' && d == b'/' then rest else c ∷ rest

-- `replace(/^\/+/, '')`
unfoldable pub trim_left : Text → Text
trim_left [] = []
trim_left (c ∷ cs) = let rest = trim_left cs in if c == b'/' then rest else c ∷ cs

-- `replace(/\/+$/, '')`
abbrev pub with_char : ℕ → Text → Text
with_char c [] = if c == b'/' then [] else c ∷ []
with_char c (d ∷ ds) = c ∷ (d ∷ ds)

unfoldable pub trim_right : Text → Text
trim_right [] = []
trim_right (c ∷ cs) = with_char c (trim_right cs)

unfoldable pub normalize_key : (Text → Text) → Bool → Text → Text
unfolding collapse trim_left trim_right
normalize_key nfc composes key =
    let out = trim_right (trim_left (collapse key)) in if composes then nfc out else out

unfoldable pub is_safe_key : Text → Bool
unfolding has_drive is_name
is_safe_key key =
    not (text_eq key [])
    && not (any (λ c. c == 0) key)
    && (not (starts_with (codes "/") key || has_drive key) && all is_name (split b'/' key))
