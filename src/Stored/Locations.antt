-- ===== src/Stored/Locations.antt =====
-- src/index.js: the locations of an entry, where files are merged in, displaced, removed or missing:
-- `#mergeLocations`, `#dropLocation`, `#displace`, `#displaceTargets` and `#removeMissingLocations`,
-- over the index, and the keys that `#holdKeys` keeps. Unicode's NFC is a parameter.
use canvas_stored.Prelude.{
  ℕ, suc, ◌-◌, ◌++◌, Bool, not, ◌&&◌, ◌||◌, Option, none, some, List, [], ◌∷◌, any, keep, Text,
  codes, text_eq, starts_with, leb, length, if◌then◌else◌, ◌==◌, map,
}
use canvas_stored.Lmdb.{Table, nat_key, text_key}
use canvas_stored.Index.Rows.{Location, Meta, Logged, Index}
use canvas_stored.Index.Entries.{Patch, Options, get, put, delete}
use canvas_stored.Stored.Transfers.{Target}

abbrev pub is_same_place : Location → Location → Bool
is_same_place a b = text_eq a.backend b.backend && text_eq a.key b.key

-- One location of `added`: it takes the place of the first at its backend and key, or is the last.
unfoldable pub upsert_location : List Location → Location → List Location
upsert_location [] loc = loc ∷ []
upsert_location (l ∷ ls) loc =
    let rest = upsert_location ls loc in if is_same_place l loc then loc ∷ ls else l ∷ rest

unfoldable pub merge_locations : List Location → List Location → List Location
unfolding upsert_location
merge_locations out [] = out
merge_locations out (loc ∷ added) = merge_locations (upsert_location out loc) added

abbrev pub lies_at : Text → Text → Location → Bool
lies_at name key l = text_eq l.backend name && text_eq l.key key

-- The locations but those at a backend and a key.
unfoldable pub remaining : Text → Text → List Location → List Location
remaining name key ls = keep (λ l. not (lies_at name key l)) ls

abbrev only_locations : List Location → Patch
only_locations ls = record { size = none; sha256 = none; locations = some ls }

abbrev from_origin : Option Text → Options
from_origin origin = record { origin = origin; rename = none }

-- What a consumer is told of a displaced entry.
pub record Displaced : Type 0 where
  pub id : Text
  pub sha256 : Option Text

abbrev pub first_found {ℓ} : {A : Type ℓ} → Option A → Option A → Option A
first_found none b = b
first_found (some a) b = some a

-- `underErroredPrefix`
unfoldable pub is_under : List Text → Text → Bool
is_under prefixes key =
    any
      (λ p.
        text_eq key p || (starts_with (p ++ codes "/") key || starts_with (p ++ codes "\\") key))
      prefixes

unfoldable pub is_present : (Text → Text) → Text → List Text → List Text → Location → Bool
unfolding is_under
is_present nfc name present errored l =
    not (text_eq l.backend name)
    || (any (text_eq (nfc l.key)) (map nfc present) || is_under errored l.key)

-- The counts of the held keys.
unfoldable pub hold_key : List (Text × ℕ) → Text → List (Text × ℕ)
hold_key [] key = (key, 1) ∷ []
hold_key ((k, n) ∷ held) key =
    let rest = hold_key held key in if text_eq k key then (k, suc n) ∷ held else (k, n) ∷ rest

unfoldable pub release_key : List (Text × ℕ) → Text → List (Text × ℕ)
release_key [] key = []
release_key ((k, n) ∷ held) key =
    let rest = release_key held key in
    if text_eq k key then if leb n 1 then held else (k, n - 1) ∷ held else (k, n) ∷ rest

unfoldable pub hold_keys : List (Text × ℕ) → List Text → List (Text × ℕ)
unfolding hold_key
hold_keys held [] = held
hold_keys held (key ∷ keys) = hold_keys (hold_key held key) keys

unfoldable pub release_keys : List (Text × ℕ) → List Text → List (Text × ℕ)
unfolding release_key
release_keys held [] = held
release_keys held (key ∷ keys) = release_keys (release_key held key) keys

module _ (mt : Table text_key Meta) (pt : Table text_key Text) (ct : Table nat_key Logged)
    (st : Table text_key ℕ) where
  abbrev I : Type 0
  I = Index mt pt ct st

  -- The entry that a location was taken from goes with its last one.
  unfoldable pub store_remaining : I → Text → List Location → Option Text → ℕ → I
  unfolding put delete
  store_remaining i id [] origin now = (delete mt pt ct st i id origin now).1
  store_remaining i id (l ∷ ls) origin now =
      (put mt pt ct st i id (only_locations (l ∷ ls)) (from_origin origin) now).1

  unfoldable pub drop_found : I → Text → Text → Option Meta → ℕ → I
  unfolding store_remaining remaining
  drop_found i name key none now = i
  drop_found i name key (some m) now =
      store_remaining i m.id (remaining name key m.locations) none now

  unfoldable pub drop_location : I → Text → Text → ℕ → I
  unfolding drop_found get
  drop_location i name key now =
      drop_found i name key (get mt pt ct st i (name ++ (codes ":" ++ key))) now

  unfoldable pub displace_found :
      I → Text → Text → Text → Option Text → Option Meta → ℕ → Option Displaced × I
  unfolding store_remaining remaining
  displace_found i name key new_id origin none now = (none, i)
  displace_found i name key new_id origin (some m) now =
      if text_eq m.id new_id then (none, i) else (
        some (record { id = m.id; sha256 = m.sha256 }),
        store_remaining i m.id (remaining name key m.locations) origin now,
      )

  unfoldable pub displace : I → Text → Text → Text → Option Text → ℕ → Option Displaced × I
  unfolding displace_found get
  displace i name key new_id origin now =
      displace_found i name key new_id origin (get mt pt ct st i (name ++ (codes ":" ++ key))) now

  -- The first entry that is displaced, and the index; a target without a key has the destination's.
  unfoldable pub displace_targets :
      I → List Target → Text → Text → Option Text → ℕ → Option Displaced × I
  unfolding displace
  displace_targets i [] dest new_id origin now = (none, i)
  displace_targets i (t ∷ ts) dest new_id origin now =
      let key = if text_eq t.key [] then dest else t.key in
      let out = displace i t.name key new_id origin now in
      let rest = displace_targets out.1 ts dest new_id origin now in
      let kept = displace_targets i ts dest new_id origin now in
      if t.overwrite then (first_found out.0 rest.0, rest.1) else kept

  unfoldable pub remove_missing :
      (Text → Text) → Text → List Text → List Text → List (Text × Meta) → I → ℕ → I
  unfolding is_present store_remaining
  remove_missing nfc name present errored [] i now = i
  remove_missing nfc name present errored ((id, m) ∷ rows) i now =
      let next = keep (is_present nfc name present errored) m.locations in
      remove_missing nfc name present errored rows
        (if length next == length m.locations then i else store_remaining i id next none now) now

  unfoldable pub remove_missing_locations : (Text → Text) → I → Text → List Text → List Text → ℕ → I
  unfolding remove_missing
  remove_missing_locations nfc i name present errored now =
      remove_missing nfc name present errored (mt.range i.metas) i now
