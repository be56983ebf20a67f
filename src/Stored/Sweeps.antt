-- ===== src/Stored/Sweeps.antt =====
-- src/index.js: `listRetained`, `sweepRetained` and `forgetRetained`, over the table of the retained
-- entries.
use canvas_stored.Prelude.{
  ℕ, zero, suc, ◌+◌, ◌++◌, Bool, true, false, not, ◌&&◌, ◌||◌, Option, none, some, List, [], ◌∷◌,
  any, keep, Text, codes, text_eq, truthy, or_else, ltb, starts_with, if◌then◌else◌,
}
use canvas_stored.Lmdb.{Table, text_key}
use canvas_stored.Trash.Types.{Row}
use canvas_stored.Trash.Rows.{window_of, sweep}
use canvas_stored.Stored.Retention.{Entry, retained_backend_names, Drop, drop_present}
use canvas_stored.Stored.Retained.{get_retained}

-- The key ends with the address's, or is the address.
unfoldable pub ends_with : Text → Text → Bool
ends_with suffix [] = text_eq suffix []
ends_with suffix (c ∷ cs) = text_eq suffix (c ∷ cs) || ends_with suffix cs

-- The tests of `listRetained`.
unfoldable pub lists_backend : Option Text → Entry → Bool
lists_backend backend e =
    let name = or_else backend [] in
    not (truthy backend) || (text_eq e.backend name || any (starts_with (name ++ codes ":")) e.keys)

unfoldable pub lists_key : Option Text → Entry → Bool
unfolding ends_with
lists_key key e =
    let k = or_else key [] in
    not (truthy key) || any (λ j. text_eq j k || ends_with (codes ":" ++ k) j) e.keys

abbrev pub time_of : Option ℕ → ℕ
time_of none = 0
time_of (some n) = n

-- `sort` is stable: the newest first.
unfoldable pub insert : Entry → List Entry → List Entry
insert e [] = e ∷ []
insert e (f ∷ fs) =
    let rest = insert e fs in
    if ltb (time_of e.last_at) (time_of f.last_at) then f ∷ rest else e ∷ (f ∷ fs)

unfoldable pub sort : List Entry → List Entry
unfolding insert
sort [] = []
sort (e ∷ es) = insert e (sort es)

abbrev pub first_of : ℕ → List Entry → List Entry
first_of zero es = []
first_of (suc n) [] = []
first_of (suc n) (e ∷ es) = e ∷ first_of n es

abbrev values {ℓ} : {A : Type ℓ} → List (Text × A) → List A
values [] = []
values ((k, a) ∷ rows) = a ∷ values rows

pub record Swept (D : Type 0) : Type 0 where
  pub ok : Bool
  pub swept : ℕ
  pub kept : ℕ
  pub entries : D

-- The entry was displaced less than the window ago.
unfoldable pub is_recent : ℕ → ℕ → Entry → Bool
is_recent window now e = ltb now (time_of e.last_at + window)

-- `olderThanMs ?? this.#retention.days * 86_400_000`
abbrev pub window_or : Option ℕ → ℕ → ℕ
window_or none days = window_of days
window_or (some window) days = window

module _ (et : Table text_key Entry) (rt : Table text_key Row) where
  unfoldable pub list_retained : Bool → et.Db → Option Text → Option Text → ℕ → List Entry
  unfolding lists_backend lists_key sort
  list_retained enabled d backend key limit =
      if enabled
      then first_of limit
          (sort (keep (λ e. lists_backend backend e && lists_key key e) (values (et.range d))))
      else []

  abbrev one_kept : Swept et.Db → Swept et.Db
  one_kept rest = record rest { kept = suc rest.kept }

  abbrev one_swept : Swept et.Db → Swept et.Db
  one_swept rest = record rest { swept = suc rest.swept }

  abbrev stopped : et.Db → Swept et.Db
  stopped d = record { ok = false; swept = 0; kept = 0; entries = d }

  -- The visit of one key, with the sweeps of the other keys after it: where the entry stays, and
  -- where it is gone.
  unfoldable pub sweep_found :
      List Text
      → (Text → Drop)
      → ℕ
      → ℕ
      → et.Db
      → Option Entry
      → Swept et.Db
      → Swept et.Db
      → Swept et.Db
  unfolding is_recent drop_present
  sweep_found names drops window now d none stays goes = stays
  sweep_found names drops window now d (some e) stays goes =
      if is_recent window now e
      then one_kept stays
      else if drop_present drops (retained_backend_names names (some e))
      then one_swept goes
      else stopped d

  unfoldable pub sweep_keys :
      List Text → (Text → Text → Drop) → ℕ → ℕ → List (Text × Entry) → et.Db → Swept et.Db
  unfolding sweep_found
  sweep_keys names drops window now [] d = record { ok = true; swept = 0; kept = 0; entries = d }
  sweep_keys names drops window now ((sha, row) ∷ rows) d =
      sweep_found names (drops sha) window now d (et.get d sha)
        (sweep_keys names drops window now rows d)
        (sweep_keys names drops window now rows (et.remove d sha))

  -- The trash is swept first, and an error of its sweep ends this one.
  unfoldable pub sweep_retained :
      ℕ
      → List Text
      → (Text → Text → Drop)
      → (Text → Bool)
      → Option ℕ
      → ℕ
      → et.Db
      → rt.Db
      → Swept et.Db × rt.Db
  unfolding sweep_keys sweep
  sweep_retained days names drops drops_directory older_than now d r =
      let swept = sweep rt days now (λ name. any (text_eq name) names) drops_directory r in
      let ran = sweep_keys names drops (window_or older_than days) now (et.range d) d in
      (if swept.0 then ran else stopped d, swept.1)

  unfoldable pub forget_found : et.Db → Option Entry → Bool × et.Db
  forget_found d none = (false, d)
  forget_found d (some e) = (true, et.remove d e.sha256)

  -- A failure of `dropRetained` is ignored.
  unfoldable pub forget_retained : Bool → et.Db → Text → Bool × et.Db
  unfolding forget_found get_retained
  forget_retained enabled d sha = forget_found d (get_retained et rt enabled d sha)
