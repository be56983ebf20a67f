-- ===== src/Keys/Segments.antt =====
-- `split`, `join`, `startsWith` and `Buffer.byteLength` of the language, as src/sync/keys.js uses them.
use canvas_stored.Prelude.{
  ℕ, ◌+◌, ◌++◌, ◌≡◌, refl, sym, ==_iff, ap, ◌∙◌, inl, inr, Bool-cases, All, Bool, true, false, List,
  [], ◌∷◌, arith, Text, ltb, ◌==◌, if◌then◌else◌, any,
}

-- One character more in front of the parts: a new part at a separator.
abbrev pub put_char : Bool → ℕ → List Text → List Text
put_char true x parts = [] ∷ parts
put_char false x [] = []
put_char false x (s ∷ ss) = (x ∷ s) ∷ ss

-- `text.split(c)`: at least one part.
unfoldable pub split : ℕ → Text → List Text
split c [] = [] ∷ []
split c (x ∷ xs) = put_char (x == c) x (split c xs)

-- `parts.join(c)`
unfoldable pub join : ℕ → List Text → Text
join c [] = []
join c (s ∷ []) = s
join c (s ∷ t ∷ ss) = s ++ (c ∷ join c (t ∷ ss))

-- `text.startsWith(head)`
unfoldable pub starts_with : Text → Text → Bool
starts_with text [] = true
starts_with [] (c ∷ cs) = false
starts_with (d ∷ ds) (c ∷ cs) = let rest = starts_with ds cs in if d == c then rest else false

-- The bytes of a code point in UTF-8.
unfoldable pub char_bytes : ℕ → ℕ
char_bytes c = if ltb c 0x80 then 1 else if ltb c 0x800 then 2 else if ltb c 0x10000 then 3 else 4

-- `Buffer.byteLength(text, 'utf8')`
unfoldable pub byte_length : Text → ℕ
unfolding char_bytes
byte_length [] = 0
byte_length (c ∷ cs) = char_bytes c + byte_length cs

pub split-nonempty : (c : ℕ) (t : Text) → (s : Text) × (ss : List Text) × (split c t ≡ s ∷ ss)
unfolding split
split-nonempty c [] = ([], [], refl)
split-nonempty c (x ∷ xs) =
    let (s, ss, e) = split-nonempty c xs in
    elim (Bool-cases (x == c)) [
      | inl at ↦ ([], s ∷ ss, ground arith)
      | inr off ↦ (x ∷ s, ss, ground arith)
    ]

join-cons : (c x : ℕ) (s : Text) (ss : List Text) → join c ((x ∷ s) ∷ ss) ≡ x ∷ join c (s ∷ ss)
unfolding join
join-cons c x s [] = refl
join-cons c x s (t ∷ ss) = refl

join-put_char :
    (c x : ℕ) (s : Text) (ss : List Text)
    → join c (put_char (x == c) x (s ∷ ss)) ≡ x ∷ join c (s ∷ ss)
join-put_char c x s ss = elim (Bool-cases (x == c)) [
  | inl at ↦ rw at (unfold join in ap (λ y. y ∷ join c (s ∷ ss)) (sym ((==_iff x c).0 at)))
  | inr off ↦ rw off (join-cons c x s ss)
]

-- What is joined again is what was split.
pub join-split : (c : ℕ) (t : Text) → join c (split c t) ≡ t
unfolding split
join-split c [] = unfold join in refl
join-split c (x ∷ xs) =
    let (s, ss, e) = split-nonempty c xs in
    rw e (join-put_char c x s ss ∙ ap (λ l. x ∷ l) (rw (← e) (join-split c xs)))

-- A part that holds the separator nowhere.
abbrev pub Lacks : ℕ → Text → Type 0
Lacks c t = any (λ x. x == c) t ≡ false

put_char-Lacks :
    (c x : ℕ) (parts : List Text) → All (Lacks c) parts → All (Lacks c) (put_char (x == c) x parts)
put_char-Lacks c x [] h = ground arith
put_char-Lacks c x (s ∷ ss) h = ground arith

pub split-Lacks : (c : ℕ) (t : Text) → All (Lacks c) (split c t)
unfolding split
split-Lacks c [] = (refl, tt)
split-Lacks c (x ∷ xs) = put_char-Lacks c x (split c xs) (split-Lacks c xs)

pub split_self : (c : ℕ) (s : Text) → Lacks c s → split c s ≡ s ∷ []
unfolding split
split_self c [] h = refl
split_self c (x ∷ s) h = ground (arith, split_self c s)

pub split-append :
    (c : ℕ) (s rest : Text) → Lacks c s → split c (s ++ (c ∷ rest)) ≡ s ∷ split c rest
unfolding split
split-append c [] rest h = ground arith
split-append c (x ∷ s) rest h = ground (arith, split-append c s rest)

-- What is split again is what was joined, for parts without the separator.
pub split-join :
    (c : ℕ) (s : Text) (ss : List Text)
    → All (Lacks c) (s ∷ ss)
    → split c (join c (s ∷ ss)) ≡ s ∷ ss
unfolding join
split-join c s [] h = split_self c s h.0
split-join c s (t ∷ ss) h =
    split-append c s (join c (t ∷ ss)) h.0 ∙ ap (λ l. s ∷ l) (split-join c t ss h.1)
