-- ===== src/Keys/Safety.antt =====
-- src/sync/keys.js, `validateKey`: which keys it lets through, and where they lead.
use mathlib.Core.Path.{subst}
use mathlib.Core.List.{reverse, append_assoc, append-nil, reverse-append}
use canvas_stored.Prelude.{
  ℕ, ◌≤◌, ◌≡◌, ◌≢◌, ◌↔◌, refl, sym, ap, ◌∙◌, Bool, true, false, ◌||◌, Option, none, some, List, [],
  ◌∷◌, ◌++◌, arith, Text, codes, text_eq, text_eq_iff, ==_iff, ◌==◌, All, All-map, any,
  if◌then◌else◌, Bool-cases, inl, inr,
}
use canvas_stored.Keys.Segments.{split, split-nonempty, put_char, starts_with, byte_length}
use canvas_stored.Keys.Validate.{
  Reason, validate_key, check_segments, check_segment, or_next, is_reserved, is_illegal, ends_badly,
  has_drive, max_key_bytes, max_segment_bytes,
}

-- A segment that both platforms accept.
pub record GoodSegment (s : Text) : Type 0 where
  pub is_named : s ≢ []
  pub no_dot : s ≢ codes "."
  pub no_dots : s ≢ codes ".."
  pub short : byte_length s ≤ max_segment_bytes
  pub unreserved : is_reserved s ≡ false
  pub legal : any is_illegal s ≡ false
  pub ends_well : ends_badly s ≡ false

pub record SafeKey (key : Text) : Type 0 where
  pub short : byte_length key ≤ max_key_bytes
  pub segments : All GoodSegment (split b'/' key)

check_segment-good : (s : Text) → check_segment s ≡ none → GoodSegment s
unfolding check_segment
check_segment-good s e =
    ground (arith, text_eq_iff s [], text_eq_iff s (codes "."), text_eq_iff s (codes ".."))

good-check_segment : (s : Text) → GoodSegment s → check_segment s ≡ none
unfolding check_segment
good-check_segment s g =
    ground (arith, text_eq_iff s [], text_eq_iff s (codes "."), text_eq_iff s (codes ".."))

or_next-none : (o p : Option Reason) → or_next o p ≡ none → (o ≡ none) × (p ≡ none)
or_next-none none p e = (refl, e)
or_next-none (some r) p e = absurd (ground arith)

check_segments-good : (ss : List Text) → check_segments ss ≡ none → All GoodSegment ss
unfolding check_segments
check_segments-good [] e = tt
check_segments-good (s ∷ ss) e =
    let h = or_next-none (check_segment s) (check_segments ss) e in
    (check_segment-good s h.0, check_segments-good ss h.1)

good-check_segments : (ss : List Text) → All GoodSegment ss → check_segments ss ≡ none
unfolding check_segments
good-check_segments [] g = refl
good-check_segments (s ∷ ss) g = rw (good-check_segment s g.0) (good-check_segments ss g.1)

-- A search for characters other than the separator goes through the parts.
any-put_char :
    (p : ℕ → Bool) (b : Bool) (x : ℕ) (s : Text) (ss : List Text)
    → (b ≡ true → p x ≡ false)
    → any (λ t. any p t) (put_char b x (s ∷ ss)) ≡ (p x || any (λ t. any p t) (s ∷ ss))
any-put_char p true x s ss h = rw (h refl)
any-put_char p false x s ss h = ground arith

any-split :
    (p : ℕ → Bool) (c : ℕ) (t : Text) → p c ≡ false → any (λ s. any p s) (split c t) ≡ any p t
unfolding split
any-split p c [] h = refl
any-split p c (x ∷ xs) h =
    let (s, ss, e) = split-nonempty c xs in
    ap (λ l. any (λ t. any p t) (put_char (x == c) x l)) e
    ∙ any-put_char p (x == c) x s ss (λ at. rw ((==_iff x c).0 at) h)
    ∙ ap (λ b. p x || b) (ap (any (λ t. any p t)) (sym e) ∙ any-split p c xs h)

any-sub :
    (p q : ℕ → Bool) (t : Text)
    → ((c : ℕ) → p c ≡ true → q c ≡ true)
    → any q t ≡ false
    → any p t ≡ false
any-sub p q [] sub h = refl
any-sub p q (c ∷ cs) sub h = ground (arith, sub c, any-sub p q cs sub)

All-any : (p : Text → Bool) (ss : List Text) → All (λ s. p s ≡ false) ss → any p ss ≡ false
All-any p [] h = refl
All-any p (s ∷ ss) h = ground (arith, All-any p ss h.1)

is_illegal-nul : (c : ℕ) → (c == 0) ≡ true → is_illegal c ≡ true
unfolding is_illegal
is_illegal-nul c h = ground arith

is_illegal-colon : (c : ℕ) → (c == b':') ≡ true → is_illegal c ≡ true
unfolding is_illegal
is_illegal-colon c h = ground arith

legal_key :
    (p : ℕ → Bool) (key : Text)
    → p b'/' ≡ false
    → ((c : ℕ) → p c ≡ true → is_illegal c ≡ true)
    → SafeKey key
    → any p key ≡ false
legal_key p key h sub g =
    sym (any-split p b'/' key h)
    ∙ All-any (λ s. any p s) (split b'/' key)
        (All-map (split b'/' key) (λ s x. any-sub p is_illegal s sub x.legal) g.segments)

first_named : (c : ℕ) (cs : Text) → (c == b'/') ≡ true → All GoodSegment (split b'/' (c ∷ cs)) → ⊥
unfolding split
first_named c cs at g =
    let h = subst (λ b. All GoodSegment (put_char b c (split b'/' cs))) at g in h.0.is_named refl

not_rooted : (c : ℕ) (cs : Text) → SafeKey (c ∷ cs) → starts_with (c ∷ cs) (codes "/") ≡ false
unfolding starts_with split
not_rooted c cs g = elim (Bool-cases (c == b'/')) [
  | inl at ↦ absurd (first_named c cs at g.segments)
  | inr off ↦ rw off refl
]

no_drive : (key : Text) → any (λ c. c == b':') key ≡ false → has_drive key ≡ false
unfolding has_drive
no_drive [] h = refl
no_drive (a ∷ []) h = refl
no_drive (a ∷ b ∷ []) h = refl
no_drive (a ∷ b ∷ c ∷ cs) h = ground arith

-- How a path leads from the root: a dot stays, two dots go up, a name goes down.
abbrev up : List Text → List Text
up [] = []
up (s ∷ stack) = stack

walk : List Text → Text → List Text
walk stack s =
    if text_eq s [] || text_eq s (codes ".")
    then stack
    else if text_eq s (codes "..")
    then up stack
    else s ∷ stack

pub resolve : List Text → List Text → List Text
unfolding walk
resolve stack [] = reverse stack
resolve stack (s ∷ ss) = resolve (walk stack s) ss

-- A segment that goes down: a name.
abbrev pub GoesDown : Text → Type 0
GoesDown s =
    (text_eq s [] ≡ false) × ((text_eq s (codes ".") ≡ false) × (text_eq s (codes "..") ≡ false))

walk-down : (stack : List Text) (s : Text) → GoesDown s → walk stack s ≡ s ∷ stack
unfolding walk
walk-down stack s g = ground (arith, g)

resolve-append : (stack ss : List Text) → All GoesDown ss → resolve stack ss ≡ reverse stack ++ ss
unfolding resolve
resolve-append stack [] g = sym (append-nil (reverse stack))
resolve-append stack (s ∷ ss) g =
    ap (λ l. resolve l ss) (walk-down stack s g.0)
    ∙ resolve-append (s ∷ stack) ss g.1
    ∙ ap (λ l. l ++ ss) (reverse-append (s ∷ []) stack)
    ∙ append_assoc (reverse stack) (s ∷ []) ss

-- A path of names leads to itself.
pub resolve-down : (ss : List Text) → All GoesDown ss → resolve [] ss ≡ ss
resolve-down ss g = resolve-append [] ss g

good-GoesDown : (s : Text) → GoodSegment s → GoesDown s
good-GoesDown s g =
    ground (arith, g, text_eq_iff s [], text_eq_iff s (codes "."), text_eq_iff s (codes ".."))

-- A key is let through exactly if it is a safe one: at most 4096 bytes, its segments at slashes not
-- empty, not dots, at most 255 bytes each, with no control or reserved character, no device name
-- and no dot or space at the end. (The source's tests for a nul, a root and a drive follow.)
pub validate_key_iff :
    (c : ℕ) (cs : Text) → (validate_key (some (c ∷ cs)) ≡ none) ↔ SafeKey (c ∷ cs)
unfolding validate_key
validate_key_iff c cs = (
  (λ e. record {
    short = ground arith;
    segments = check_segments-good (split b'/' (c ∷ cs)) (ground arith);
  }),
  (λ g.
      let nul_free = legal_key (λ x. x == 0) (c ∷ cs) refl (λ x h. is_illegal-nul x h) g in
      let colon_free = legal_key (λ x. x == b':') (c ∷ cs) refl (λ x h. is_illegal-colon x h) g in
      ground (
        arith,
        nul_free,
        not_rooted c cs g,
        no_drive (c ∷ cs) colon_free,
        g.short,
        good-check_segments (split b'/' (c ∷ cs)) g.segments,
      )),
)

-- A key that is let through leads to itself below the root it is joined to: no segment stays or
-- goes up.
pub validate_key-resolve :
    (c : ℕ) (cs : Text)
    → validate_key (some (c ∷ cs)) ≡ none
    → resolve [] (split b'/' (c ∷ cs)) ≡ split b'/' (c ∷ cs)
validate_key-resolve c cs e =
    resolve-down (split b'/' (c ∷ cs))
      (All-map (split b'/' (c ∷ cs)) good-GoesDown ((validate_key_iff c cs).0 e).segments)
