-- ===== src/Keys/Scope.antt =====
-- src/sync/keys.js, `isIgnored` and `matchesPrefixes`. The package `picomatch`, called with
-- `{ dot: true }`, is the parameter `picomatch`: the globs, then the key.
use canvas_stored.Prelude.{
  ℕ, ◌++◌, Bool, true, false, not, ◌&&◌, ◌||◌, Option, none, some, List, [], ◌∷◌, map, keep, Text,
  codes, text_eq, ◌==◌, if◌then◌else◌, any, leb,
}
use canvas_stored.Keys.Segments.{split, join, starts_with}
use canvas_stored.Keys.Normalize.{normalize_key}

abbrev pub ignore_defaults : List Text
ignore_defaults =
    codes ".workspace/**"
    ∷ codes ".stored-tmp/**"
    ∷ codes "**/.DS_Store"
    ∷ codes "**/Thumbs.db"
    ∷ codes "**/desktop.ini"
    ∷ codes "**/~$*"
    ∷ codes "**/*.tmp"
    ∷ codes "**/*.part"
    ∷ codes "**/*.crdownload"
    ∷ codes "**/.~lock.*#"
    ∷ codes "**/*.swp"
    ∷ []

-- The white space and line ends that `trim` takes off.
abbrev is_space : ℕ → Bool
is_space c =
    (leb 9 c && leb c 13)
    || any (λ i. c == i)
        (32 ∷ 0xa0 ∷ 0x1680 ∷ 0x2028 ∷ 0x2029 ∷ 0x202f ∷ 0x205f ∷ 0x3000 ∷ 0xfeff ∷ [])
    || (leb 0x2000 c && leb c 0x200a)

-- `p.trim()` is not empty.
unfoldable pub is_blank : Text → Bool
is_blank p = not (any (λ c. not (is_space c)) p)

-- `p.endsWith('/**')` and `p.slice(0, -3)`
unfoldable pub drop_subtree : Text → Option Text
drop_subtree [] = none
drop_subtree (c ∷ p) =
    if text_eq (c ∷ p) (codes "/**")
    then some []
    else elim (drop_subtree p) [ none ↦ none | some q ↦ some (c ∷ q) ]

abbrev with_directory : Text → Option Text → List Text
with_directory p none = p ∷ []
with_directory p (some q) = p ∷ q ∷ []

-- The `globs` of `matcherFor`.
unfoldable pub globs_of : List Text → List Text
unfolding drop_subtree
globs_of [] = []
globs_of (p ∷ ps) = with_directory p (drop_subtree p) ++ globs_of ps

-- `parts.slice(0, i)` for i from 1 up to, and without, the number of parts.
unfoldable pub ancestors : List Text → List (List Text)
ancestors [] = []
ancestors (s ∷ []) = []
ancestors (s ∷ t ∷ ss) = (s ∷ []) ∷ map (λ a. s ∷ a) (ancestors (t ∷ ss))

-- `/[*?[\]{}!]/`
abbrev pub is_glob : Text → Bool
is_glob = any (λ c. any (λ i. c == i) (b'*' ∷ b'?' ∷ b'[' ∷ b']' ∷ 123 ∷ 125 ∷ b'!' ∷ []))

-- `k === p || k.startsWith(`${p}/`)`
unfoldable pub covers : Text → Text → Bool
covers p k = text_eq k p || starts_with k (p ++ codes "/")

module _ (nfc : Text → Text) (picomatch : List Text → Text → Bool) where
  -- The key itself or a directory above it matches.
  unfoldable pub matches_above : List Text → Text → Bool
  unfolding ancestors
  matches_above globs key =
      picomatch globs key || any (λ a. picomatch globs (join b'/' a)) (ancestors (split b'/' key))

  -- `matcherFor` gives no matcher for no globs.
  abbrev pub ignores : List Text → Text → Bool
  ignores [] key = false
  ignores (g ∷ gs) key = matches_above (g ∷ gs) key

  unfoldable pub is_ignored : Option Text → List Text → Bool
  unfolding matches_above globs_of is_blank
  is_ignored key patterns =
      let k = normalize_key nfc key in
      if text_eq k [] then false else ignores (globs_of (keep (λ p. not (is_blank p)) patterns)) k

  -- One round of the loop over the prefixes.
  unfoldable pub prefix_matches : Text → Text → Bool
  unfolding covers matches_above
  prefix_matches k raw =
      let p = normalize_key nfc (some raw) in
      if text_eq p [] then true else if is_glob p then matches_above (p ∷ []) k else covers p k

  abbrev any_prefix : Text → List Text → Bool
  any_prefix k [] = true
  any_prefix k (p ∷ ps) = any (prefix_matches k) (p ∷ ps)

  unfoldable pub matches_prefixes : Option Text → List Text → Bool
  unfolding prefix_matches is_blank
  matches_prefixes key prefixes =
      any_prefix (normalize_key nfc key) (keep (λ p. not (is_blank p)) prefixes)
