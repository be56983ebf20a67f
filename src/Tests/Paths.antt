-- ===== src/Tests/Paths.antt =====
-- src/sync/keys.js: runs on concrete keys.
use canvas_stored.Prelude.{
  ◌≡◌, ◌↔◌, refl, Bool, none, some, List, [], ◌∷◌, Text, codes, text_eq, any, All,
}
use canvas_stored.Keys.Segments.{split}
use canvas_stored.Keys.Validate.{validate_key}
use canvas_stored.Keys.Normalized.{NfcLaws}
use canvas_stored.Keys.Safety.{SafeKey, validate_key_iff}

-- A normal form that leaves every text as it is.
abbrev plain : Text → Text
plain t = t

plain-NfcLaws : NfcLaws plain
plain-NfcLaws = record { parts = λ t. every (split b'/' _); joined = λ ss h. refl }
  where
    every : (ss : List Text) → All (λ s. s ≡ s) ss
    every [] = tt
    every (s ∷ ss) = (refl, every ss)

validate_key_iff_example :
    (validate_key (some (b'a' ∷ codes "/con.txt")) ≡ none) ↔ SafeKey (b'a' ∷ codes "/con.txt")
validate_key_iff_example = validate_key_iff b'a' (codes "/con.txt")

-- A matcher that knows whole names only.
abbrev whole_names : List Text → Text → Bool
whole_names globs key = any (text_eq key) globs
