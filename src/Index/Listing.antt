-- ===== src/Index/Listing.antt =====
-- src/index/index.js: `locationsByBackend`, `findByBackend` and `clear`.
use canvas_stored.Prelude.{
  ℕ, ◌-◌, ◌++◌, max, Bool, true, false, not, ◌&&◌, Option, none, some, List, [], ◌∷◌, map, keep,
  Text, codes, text_eq, text_lt, utf16, leb, any, length, first_some, is_some, if◌then◌else◌,
}
use canvas_stored.Lmdb.{Table, nat_key, text_key}
use canvas_stored.Index.Rows.{Location, Meta, Logged, Index}

pub record Listed : Type 0 where
  pub key : Text
  pub id : Text
  pub sha256 : Option Text
  pub size : Option ℕ
  pub mtime : Option ℕ

-- `path.startsWith(base)` and `path.slice(base.length)` in one.
unfoldable pub rest_of : Text → Text → Option Text
rest_of [] path = some path
rest_of (c ∷ cs) [] = none
rest_of (c ∷ cs) (d ∷ ds) =
    let rest = rest_of cs ds in if text_eq (c ∷ []) (d ∷ []) then rest else none

-- `a <= b` on strings.
unfoldable pub at_most : Text → Text → Bool
at_most a b = not (text_lt (utf16 b) (utf16 a))

-- `after != null && after >= prefix ? after : prefix`
unfoldable pub start_of : Option Text → Text → Text
unfolding at_most
start_of none prefix = prefix
start_of (some after) prefix = if at_most prefix after then after else prefix

abbrev is_behind : Option Text → Text → Bool
is_behind none key = true
is_behind (some after) key = not (at_most key after)

-- Whether a row of the range is listed, by what is behind `backend:` in its path.
unfoldable pub lists : Text → Option Text → Option Text → Bool
unfolding at_most rest_of
lists prefix after none = false
lists prefix after (some key) = is_some (rest_of prefix key) && is_behind after key

abbrev sha_of : Option Meta → Option Text
sha_of none = none
sha_of (some m) = m.sha256

abbrev size_of : Option Meta → Option ℕ
size_of none = none
size_of (some m) = m.size

unfoldable pub find_location : Text → Text → List Location → Option Location
find_location backend key [] = none
find_location backend key (loc ∷ locs) =
    let rest = find_location backend key locs in
    if text_eq loc.backend backend && text_eq loc.key key then some loc else rest

abbrev location_in : Text → Text → Option Meta → Option Location
location_in backend key none = none
location_in backend key (some m) = find_location backend key m.locations

abbrev location_size : Option Location → Option ℕ
location_size none = none
location_size (some loc) = loc.size

abbrev location_mtime : Option Location → Option ℕ
location_mtime none = none
location_mtime (some loc) = loc.mtime

unfoldable pub listed : Text → Text → Text → Option Meta → Listed
unfolding find_location
listed backend key id m = record {
  key = key;
  id = id;
  sha256 = sha_of m;
  size = first_some (location_size (location_in backend key m)) (size_of m);
  mtime = location_mtime (location_in backend key m);
}

abbrev key_in : Option Text → Text
key_in none = []
key_in (some key) = key

-- The last of some keys.
unfoldable pub last_key : List Listed → Option Text
last_key [] = none
last_key (o ∷ []) = some o.key
last_key (o ∷ p ∷ os) = last_key (p ∷ os)

module _ (mt : Table text_key Meta) (pt : Table text_key Text) (ct : Table nat_key Logged)
    (st : Table text_key ℕ) where
  abbrev I : Type 0
  I = Index mt pt ct st

  -- The loop over the range, for at most `limit` objects.
  unfoldable pub list_rows : I → Text → Text → Option Text → ℕ → List (Text × Text) → List Listed
  unfolding rest_of lists listed
  list_rows i backend prefix after limit [] = []
  list_rows i backend prefix after limit ((path, id) ∷ rows) =
      let key = rest_of (backend ++ codes ":") path in
      let hit = lists prefix after key in
      let rest = list_rows i backend prefix after (if hit then limit - 1 else limit) rows in
      let object = listed backend (key_in key) id (mt.get i.metas id) in
      if hit then if leb limit 1 then object ∷ [] else object ∷ rest else rest

  unfoldable pub locations_by_backend :
      I → Text → Text → Option Text → ℕ → List Listed × Option Text
  unfolding list_rows start_of last_key
  locations_by_backend i backend prefix after limit =
      let base = backend ++ codes ":" in
      let start = base ++ start_of after prefix in
      let end = base ++ (prefix ++ (65535 ∷ [])) in
      let rows = keep (λ row. not (text_lt row.0 start) && text_lt row.0 end) (pt.range i.paths) in
      let objects = list_rows i backend prefix after (max 1 limit) rows in
      (objects, if leb (max 1 limit) (length objects) then last_key objects else none)

  unfoldable pub find_by_backend : I → Text → List Meta
  find_by_backend i backend =
      keep (λ m. any (λ loc. text_eq loc.backend backend) m.locations)
        (map (λ row. row.1) (mt.range i.metas))

  -- `clear`, given the empty sub-databases.
  unfoldable pub clear : mt.Db → pt.Db → ct.Db → st.Db → I → I
  clear metas paths changes counters i = record i {
    metas = metas;
    paths = paths;
    changes = changes;
    counters = counters;
    seq = 0;
  }
