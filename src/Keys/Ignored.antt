-- ===== src/Keys/Ignored.antt =====
-- src/sync/keys.js, `isIgnored`: what is ignored is ignored with everything under it.
use mathlib.Core.Path.{subst, ap₂}
use mathlib.Core.List.{append-nil}
use canvas_stored.Prelude.{
  ◌++◌, ◌≡◌, refl, sym, ap, ◌∙◌, inl, inr, Bool, true, false, ◌||◌, Option, List, [], ◌∷◌, arith,
  Text, map, text_eq, any, Bool-cases, keep, not,
}
use canvas_stored.Keys.Segments.{split, split-nonempty, join, join-split}
use canvas_stored.Keys.Normalize.{normalize_key}
use canvas_stored.Keys.Scope.{ancestors, matches_above, is_ignored, ignores, globs_of, is_blank}

any-map :
    (f : List Text → Bool) (g : List Text → List Text) (l : List (List Text))
    → any f (map g l) ≡ any (λ a. f (g a)) l
any-map f g [] = refl
any-map f g (a ∷ l) = ground (arith, any-map f g l)

-- The parts of a key are an ancestor of what stands below it, and so are its ancestors.
ancestors-below :
    (f : List Text → Bool) (s : Text) (ss : List Text) (t : Text) (ts : List Text)
    → (f (s ∷ ss) || any f (ancestors (s ∷ ss))) ≡ true
    → any f (ancestors ((s ∷ ss) ++ (t ∷ ts))) ≡ true
unfolding ancestors
ancestors-below f s [] t ts h = ground arith
ancestors-below f s (u ∷ ss) t ts h =
    let ih = ancestors-below (λ a. f (s ∷ a)) u ss t ts in
    ground (
      arith,
      ih,
      any-map f (λ a. s ∷ a) (ancestors ((u ∷ ss) ++ (t ∷ ts))),
      any-map f (λ a. s ∷ a) (ancestors (u ∷ ss)),
    )

one_part : (s : Text) (ss rest : List Text) → [] ∷ [] ≡ (s ∷ ss) ++ rest → (s ≡ []) × (ss ≡ [])
one_part s [] rest e = ground arith
one_part s (u ∷ ss) rest e = absurd (ground arith)

below-nonempty :
    (k k' : Text) (rest : List Text)
    → text_eq k [] ≡ false
    → split b'/' k' ≡ split b'/' k ++ rest
    → text_eq k' [] ≡ false
below-nonempty k [] rest n e =
    let (s, ss, q) = split-nonempty b'/' k in
    let p = one_part s ss rest (unfold split in (e ∙ ap (λ l. l ++ rest) q)) in
    let empty : k ≡ [] =
      sym (join-split b'/' k)
      ∙ ap (join b'/') (q ∙ ap₂ (λ a b. a ∷ b) p.0 p.1)
      ∙ (unfold join in refl) in
    absurd (ground (arith, empty))
below-nonempty k (c ∷ cs) rest n e = refl

module _ (nfc : Text → Text) (picomatch : List Text → Text → Bool) where
  matches_above-below :
      (globs : List Text) (k k' : Text) (rest : List Text)
      → split b'/' k' ≡ split b'/' k ++ rest
      → matches_above nfc picomatch globs k ≡ true
      → matches_above nfc picomatch globs k' ≡ true
  unfolding matches_above
  matches_above-below globs k k' [] e h =
      let same =
        sym (join-split b'/' k')
        ∙ ap (join b'/') (e ∙ append-nil (split b'/' k))
        ∙ join-split b'/' k in
      subst (λ x. matches_above nfc picomatch globs x ≡ true) (sym same) h
  matches_above-below globs k k' (t ∷ ts) e h =
      let f = λ (a : List Text). picomatch globs (join b'/' a) in
      let (s, ss, q) = split-nonempty b'/' k in
      let here =
        ap (λ l. f l || any f (ancestors l)) (sym q)
        ∙ ap (λ x. picomatch globs x || any f (ancestors (split b'/' k))) (join-split b'/' k)
        ∙ h in
      let below =
        ap (λ l. any f (ancestors l)) (e ∙ ap (λ l. l ++ (t ∷ ts)) q)
        ∙ ancestors-below f s ss t ts here in
      ground (arith, below)

  ignores-below :
      (globs : List Text) (k k' : Text) (rest : List Text)
      → split b'/' k' ≡ split b'/' k ++ rest
      → ignores nfc picomatch globs k ≡ true
      → ignores nfc picomatch globs k' ≡ true
  ignores-below [] k k' rest e h = h
  ignores-below (g ∷ gs) k k' rest e h = matches_above-below (g ∷ gs) k k' rest e h

  -- Whatever the globs and the matcher: where a key is ignored, every key is whose normalized
  -- segments continue those of the first.
  pub is_ignored-below :
      (key key' : Option Text) (patterns : List Text) (rest : List Text)
      → split b'/' (normalize_key nfc key') ≡ split b'/' (normalize_key nfc key) ++ rest
      → is_ignored nfc picomatch key patterns ≡ true
      → is_ignored nfc picomatch key' patterns ≡ true
  unfolding is_ignored
  is_ignored-below key key' patterns rest e h =
      elim (Bool-cases (text_eq (normalize_key nfc key) [])) [
        | inl nil ↦ absurd (ground arith)
        | inr full ↦
            rw (below-nonempty (normalize_key nfc key) (normalize_key nfc key') rest full e) (
              ignores-below (globs_of (keep (λ p. not (is_blank p)) patterns))
                (normalize_key nfc key) (normalize_key nfc key') rest e (rw full at h))
      ]
