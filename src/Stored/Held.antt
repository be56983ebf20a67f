-- ===== src/Stored/Held.antt =====
-- src/index.js, `#holdKeys`: the counts of the held keys.
use canvas_stored.Prelude.{
  ℕ, suc, ◌+◌, ◌-◌, ◌≤◌, ◌≡◌, List, [], ◌∷◌, arith, Text, text_eq, text_eq_iff, if◌then◌else◌,
}
use canvas_stored.Stored.Locations.{hold_key, release_key, hold_keys, release_keys}

-- How often a key is held, and how often it stands in a list.
abbrev pub count : Text → List (Text × ℕ) → ℕ
count k [] = 0
count k ((j, n) ∷ held) = let rest = count k held in if text_eq j k then n else rest

abbrev pub times : Text → List Text → ℕ
times k [] = 0
times k (j ∷ js) = let rest = times k js in if text_eq j k then suc rest else rest

-- No key stands twice, and each is held at least once.
abbrev pub IsCounted : List (Text × ℕ) → Type 0
IsCounted [] = Unit
IsCounted ((j, n) ∷ held) = (1 ≤ n) × (count j held ≡ 0) × IsCounted held

count-hold_key :
    (held : List (Text × ℕ)) (key k : Text)
    → count k (hold_key held key) ≡ (if text_eq key k then suc (count k held) else count k held)
unfolding hold_key
count-hold_key [] key k = ground arith
count-hold_key ((j, n) ∷ held) key k =
    ground (arith, count-hold_key held key k, text_eq_iff j key, text_eq_iff key k, text_eq_iff j k)

hold_key-IsCounted :
    (held : List (Text × ℕ)) (key : Text) → IsCounted held → IsCounted (hold_key held key)
unfolding hold_key
hold_key-IsCounted [] key h = ground arith
hold_key-IsCounted ((j, n) ∷ held) key h = ground (
  arith,
  h,
  count-hold_key held key j,
  hold_key-IsCounted held key h.2,
  text_eq_iff j key,
  text_eq_iff key j,
)

count-release_key :
    (held : List (Text × ℕ)) (key k : Text)
    → IsCounted held
    → count k (release_key held key) ≡ (if text_eq key k then count k held - 1 else count k held)
unfolding release_key
count-release_key [] key k h = ground arith
count-release_key ((j, n) ∷ held) key k h = ground (
  arith,
  h,
  count-release_key held key k h.2,
  text_eq_iff j key,
  text_eq_iff key k,
  text_eq_iff j k,
)

release_key-IsCounted :
    (held : List (Text × ℕ)) (key : Text) → IsCounted held → IsCounted (release_key held key)
unfolding release_key
release_key-IsCounted [] key h = tt
release_key-IsCounted ((j, n) ∷ held) key h =
    ground (arith, h, count-release_key held key j h.2, release_key-IsCounted held key h.2)

count-hold_keys :
    (keys : List Text) (held : List (Text × ℕ)) (k : Text)
    → count k (hold_keys held keys) ≡ count k held + times k keys
unfolding hold_keys
count-hold_keys [] held k = omega arith
count-hold_keys (key ∷ keys) held k =
    ground (arith, count-hold_keys keys (hold_key held key) k, count-hold_key held key k)

hold_keys-IsCounted :
    (keys : List Text) (held : List (Text × ℕ)) → IsCounted held → IsCounted (hold_keys held keys)
unfolding hold_keys
hold_keys-IsCounted [] held h = h
hold_keys-IsCounted (key ∷ keys) held h =
    hold_keys-IsCounted keys (hold_key held key) (hold_key-IsCounted held key h)

count-release_keys :
    (keys : List Text) (held : List (Text × ℕ)) (k : Text)
    → IsCounted held
    → count k (release_keys held keys) ≡ count k held - times k keys
unfolding release_keys
count-release_keys [] held k h = omega arith
count-release_keys (key ∷ keys) held k h = ground (
  arith,
  count-release_keys keys (release_key held key) k (release_key-IsCounted held key h),
  count-release_key held key k h,
)

-- Where no key stands twice among the held ones: a transfer that holds its keys, another that holds
-- its own in between, and the release of the first leave each key held as often as before and as
-- often as the other holds it.
pub release_keys-hold_keys :
    (keys others : List Text) (held : List (Text × ℕ)) (k : Text)
    → IsCounted held
    → count k (release_keys (hold_keys (hold_keys held keys) others) keys)
      ≡ count k held + times k others
release_keys-hold_keys keys others held k h = omega (
  arith,
  count-release_keys keys (hold_keys (hold_keys held keys) others) k
      (hold_keys-IsCounted others (hold_keys held keys) (hold_keys-IsCounted keys held h)),
  count-hold_keys others (hold_keys held keys) k,
  count-hold_keys keys held k,
)
