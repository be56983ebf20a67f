-- ===== src/Keys/Normalized.antt =====
-- src/sync/keys.js, `normalizeKey`: the shape of a normalized key.
use canvas_stored.Prelude.{
  ℕ, ◌≡◌, refl, ap, ◌∙◌, Bool, true, false, Option, some, List, [], ◌∷◌, ◌++◌, arith, Text, map,
  keep, or_else, ◌==◌, All, All-keep, All-map, any, ◌⊎◌, ◌||◌, inl, inr,
}
use canvas_stored.Keys.Segments.{split, join, Lacks, split-Lacks, split-join, put_char}
use canvas_stored.Keys.Normalize.{normalize_key, forward, nonempty}

-- What the keys rely on of Unicode's NFC: cutting at slashes and backslashes and joining at slashes
-- keep it, since neither character composes with another.
pub record NfcLaws (nfc : Text → Text) : Type 0 where
  pub parts : (t : Text) → All (λ s. nfc s ≡ s) (split b'/' (map forward (nfc t)))
  pub joined : (ss : List Text) → All (λ s. nfc s ≡ s) ss → nfc (join b'/' ss) ≡ join b'/' ss

-- The parts of a normalized key: not empty, with no slash and no backslash.
abbrev pub IsPart : Text → Type 0
IsPart s = (nonempty s ≡ true) × Lacks b'/' s × Lacks 92 s

keep-passes : (p : Text → Bool) (ss : List Text) → All (λ s. p s ≡ true) (keep p ss)
keep-passes p [] = tt
keep-passes p (s ∷ ss) = ground (arith, keep-passes p ss)

keep-All : (p : Text → Bool) (ss : List Text) → All (λ s. p s ≡ true) ss → keep p ss ≡ ss
keep-All p [] h = refl
keep-All p (s ∷ ss) h = ground (arith, keep-All p ss h.1)

forward-Lacks : (t : Text) → Lacks 92 (map forward t)
forward-Lacks [] = refl
forward-Lacks (c ∷ cs) = ground (arith, forward-Lacks cs)

forward-same : (t : Text) → Lacks 92 t → map forward t ≡ t
forward-same [] h = refl
forward-same (c ∷ cs) h = ground (arith, forward-same cs)

put_char-keeps :
    (d x : ℕ) (b : Bool) (ss : List Text)
    → (x == d) ≡ false
    → All (Lacks d) ss
    → All (Lacks d) (put_char b x ss)
put_char-keeps d x true ss n h = (refl, h)
put_char-keeps d x false [] n h = tt
put_char-keeps d x false (s ∷ ss) n h = ground arith

split-keeps : (c d : ℕ) (t : Text) → Lacks d t → All (Lacks d) (split c t)
unfolding split
split-keeps c d [] h = (refl, tt)
split-keeps c d (x ∷ xs) h =
    put_char-keeps d x (x == c) (split c xs) (ground arith) (split-keeps c d xs (ground arith))

pub any-append : (p : ℕ → Bool) (a b : Text) → any p (a ++ b) ≡ (any p a || any p b)
any-append p [] b = refl
any-append p (x ∷ a) b = ground (arith, any-append p a b)

join-Lacks : (c d : ℕ) (ss : List Text) → (c == d) ≡ false → All (Lacks d) ss → Lacks d (join c ss)
unfolding join
join-Lacks c d [] n h = refl
join-Lacks c d (s ∷ []) n h = h.0
join-Lacks c d (s ∷ t ∷ ss) n h =
    ground
      (arith, any-append (λ x. x == d) s (c ∷ join c (t ∷ ss)), join-Lacks c d (t ∷ ss) n h.1, h.0)

All-both :
    (ss : List Text)
    → All (λ s. nonempty s ≡ true) ss
    → All (Lacks b'/') ss
    → All (Lacks 92) ss
    → All IsPart ss
All-both [] h k l = tt
All-both (s ∷ ss) h k l = ((h.0, k.0, l.0), All-both ss h.1 k.1 l.1)

module _ (nfc : Text → Text) (key : Option Text) where
  text : Text
  text = map forward (nfc (or_else key []))

  key_parts : List Text
  unfolding text
  key_parts = keep nonempty (split b'/' text)

  key_parts-IsPart : All IsPart key_parts
  unfolding key_parts
  key_parts-IsPart =
      All-both (keep nonempty (split b'/' text)) (keep-passes nonempty (split b'/' text))
        (All-keep (Lacks b'/') nonempty (split b'/' text) (split-Lacks b'/' text))
        (All-keep (Lacks 92) nonempty (split b'/' text)
          (split-keeps b'/' 92 text (forward-Lacks (nfc (or_else key [])))))

-- Splitting and filtering joined parts gives them back.
reparse : (ss : List Text) → All IsPart ss → keep nonempty (split b'/' (join b'/' ss)) ≡ ss
reparse [] h = unfold split join in refl
reparse (s ∷ ss) h =
    rw (split-join b'/' s ss (All-map (s ∷ ss) (λ t p. p.1) h))
      (keep-All nonempty (s ∷ ss) (All-map (s ∷ ss) (λ t p. p.0) h))

module _ (nfc : Text → Text) where
  -- A normalized key is empty, or its parts at slashes are not empty and hold no backslash.
  pub normalize_key-parts :
      (key : Option Text)
      → (normalize_key nfc key ≡ [])
        ⊎ All (λ s. (nonempty s ≡ true) × Lacks 92 s) (split b'/' (normalize_key nfc key))
  unfolding normalize_key key_parts
  normalize_key-parts key = go (key_parts nfc key) (key_parts-IsPart nfc key)
    where
      go :
          (ss : List Text)
          → All IsPart ss
          → (join b'/' ss ≡ [])
            ⊎ All (λ s. (nonempty s ≡ true) × Lacks 92 s) (split b'/' (join b'/' ss))
      go [] h = inl (unfold join in refl)
      go (s ∷ ss) h = inr (
          rw (split-join b'/' s ss (All-map (s ∷ ss) (λ t p. p.1) h))
            (All-map (s ∷ ss) (λ t p. (p.0, p.2)) h))

  -- Where NFC is kept by cutting and joining at separators, normalizing a normalized key changes
  -- nothing.
  pub normalize_key_idem :
      (key : Option Text)
      → NfcLaws nfc
      → normalize_key nfc (some (normalize_key nfc key)) ≡ normalize_key nfc key
  unfolding normalize_key key_parts
  normalize_key_idem key laws =
      let ss = key_parts nfc key in
      let parts = key_parts-IsPart nfc key in
      let stable =
        laws.joined ss (All-keep (λ s. nfc s ≡ s) nonempty _ (laws.parts (or_else key []))) in
      ap (λ t. join b'/' (keep nonempty (split b'/' (map forward t)))) stable
      ∙ ap (λ t. join b'/' (keep nonempty (split b'/' t)))
          (forward-same (join b'/' ss) (join-Lacks b'/' 92 ss refl (All-map ss (λ t p. p.2) parts)))
      ∙ ap (join b'/') (reparse ss parts)
