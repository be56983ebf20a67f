-- ===== src/Keys/Prefixes.antt =====
-- src/sync/keys.js, `matchesPrefixes` and `isIgnored`: a prefix and a directory cover their subtree.
use mathlib.Core.List.{append_assoc, append-nil}
use canvas_stored.Prelude.{
  ℕ, ◌++◌, ◌≡◌, ◌↔◌, refl, sym, ap, ◌∙◌, inl, inr, Bool, true, false, List, [], ◌∷◌, arith, Text,
  codes, text_eq, text_eq_iff, text_eq_refl, ◌==◌, Bool-cases,
}
use canvas_stored.Keys.Segments.{split, split-nonempty, put_char, join, join-split, starts_with}
use canvas_stored.Keys.Scope.{covers}

starts_with_sound : (t h : Text) → starts_with t h ≡ true → (r : Text) × (t ≡ h ++ r)
unfolding starts_with
starts_with_sound t [] e = (t, refl)
starts_with_sound [] (c ∷ cs) e = cc
starts_with_sound (d ∷ ds) (c ∷ cs) e = elim (Bool-cases (d == c)) [
  | inl same ↦ let (r, q) = starts_with_sound ds cs (ground arith) in (r, ground arith)
  | inr other ↦ absurd (ground arith)
]

starts_with-append : (h r : Text) → starts_with (h ++ r) h ≡ true
unfolding starts_with
starts_with-append [] r = refl
starts_with-append (c ∷ h) r = ground (arith, starts_with-append h r)

put_char-append :
    (b : Bool) (x : ℕ) (s : Text) (ss ts : List Text)
    → put_char b x ((s ∷ ss) ++ ts) ≡ put_char b x (s ∷ ss) ++ ts
put_char-append true x s ss ts = refl
put_char-append false x s ss ts = refl

-- Splitting goes through a separator.
split-at : (c : ℕ) (p r : Text) → split c (p ++ (c ∷ r)) ≡ split c p ++ split c r
unfolding split
split-at c [] r = ground arith
split-at c (x ∷ p) r =
    let (s, ss, e) = split-nonempty c p in
    ap (put_char (x == c) x) (split-at c p r ∙ ap (λ l. l ++ split c r) e)
    ∙ put_char-append (x == c) x s ss (split c r)
    ∙ ap (λ l. put_char (x == c) x l ++ split c r) (sym e)

join-append :
    (c : ℕ) (s t : Text) (ss ts : List Text)
    → join c ((s ∷ ss) ++ (t ∷ ts)) ≡ join c (s ∷ ss) ++ (c ∷ join c (t ∷ ts))
unfolding join
join-append c s t [] ts = refl
join-append c s t (u ∷ ss) ts =
    ap (λ l. s ++ (c ∷ l)) (join-append c u t ss ts)
    ∙ sym (append_assoc s (c ∷ join c (u ∷ ss)) (c ∷ join c (t ∷ ts)))

covers-split :
    (p k : Text) → covers p k ≡ true → (rest : List Text) × (split b'/' k ≡ split b'/' p ++ rest)
unfolding covers
covers-split p k e = elim (Bool-cases (text_eq k p)) [
  | inl same ↦ ([], ap (split b'/') ((text_eq_iff k p).0 same) ∙ sym (append-nil (split b'/' p)))
  | inr other ↦
      let (r, q) = starts_with_sound k (p ++ codes "/") (ground arith) in
      (split b'/' r, ap (split b'/') (q ∙ append_assoc p (codes "/") r) ∙ split-at b'/' p r)
]

below-covers : (p x : Text) → covers p (p ++ (b'/' ∷ x)) ≡ true
unfolding covers
below-covers p x = ground (
  arith,
  ap (λ t. starts_with t (p ++ codes "/")) (append_assoc p (codes "/") x),
  starts_with-append (p ++ codes "/") x,
)

split-covers :
    (p k : Text) (rest : List Text) → split b'/' k ≡ split b'/' p ++ rest → covers p k ≡ true
split-covers p k [] e =
    let same =
      sym (join-split b'/' k)
      ∙ ap (join b'/') (e ∙ append-nil (split b'/' p))
      ∙ join-split b'/' p in
    rw same (unfold covers in rw (text_eq_refl p))
split-covers p k (t ∷ ts) e =
    let (s, ss, q) = split-nonempty b'/' p in
    let joined =
      sym (join-split b'/' k)
      ∙ ap (join b'/') (e ∙ ap (λ l. l ++ (t ∷ ts)) q)
      ∙ join-append b'/' s t ss ts
      ∙ ap (λ l. l ++ (b'/' ∷ join b'/' (t ∷ ts))) (ap (join b'/') (sym q) ∙ join-split b'/' p) in
    rw joined (below-covers p (join b'/' (t ∷ ts)))

-- A key is covered by a plain prefix exactly if its segments begin with those of the prefix.
pub covers_iff :
    (p k : Text)
    → (covers p k ≡ true) ↔ ((rest : List Text) × (split b'/' k ≡ split b'/' p ++ rest))
covers_iff p k = (covers-split p k, λ h. split-covers p k h.0 h.1)
