-- ===== src/Index/Entries.antt =====
-- src/index/index.js: `put`, `get`, `has`, `delete`, `#logLocationDiff` and the end of a transaction.
use canvas_stored.Prelude.{
  ℕ, ◌++◌, Bool, true, false, not, ◌&&◌, ◌||◌, Option, none, some, List, [], ◌∷◌, Text, codes,
  text_eq, leb, first_some, is_some, any, keep, if◌then◌else◌,
}
use canvas_stored.Lmdb.{Table, nat_key, text_key}
use canvas_stored.Index.Rows.{
  Location, Meta, Op, put_op, delete_op, rename_op, Change, Logged, path_key, Index,
}
use canvas_stored.Index.Log.{append, trim_changes}

-- The argument `metadata` of `put`: an absent field leaves the entry's own.
pub record Patch : Type 0 where
  pub size : Option (Option ℕ)
  pub sha256 : Option (Option Text)
  pub locations : Option (List Location)

pub record Rename : Type 0 where
  pub backend : Text
  pub from : Text
  pub to : Text

pub record Options : Type 0 where
  pub origin : Option Text
  pub rename : Option Rename

-- `Map.set`, on the pairs of a map by path.
unfoldable pub set_path : List (Text × Location) → Text → Location → List (Text × Location)
set_path [] k loc = (k, loc) ∷ []
set_path ((j, old) ∷ m) k loc =
    let rest = set_path m k loc in if text_eq j k then (k, loc) ∷ m else (j, old) ∷ rest

unfoldable pub set_paths : List (Text × Location) → List Location → List (Text × Location)
unfolding set_path path_key
set_paths m [] = m
set_paths m (loc ∷ locs) = set_paths (set_path m (path_key loc) loc) locs

-- `new Map((locations || []).map(…))`
unfoldable pub by_path : List Location → List (Text × Location)
unfolding set_paths
by_path locs = set_paths [] locs

-- `Map.has`
abbrev pub has_path : Text → List (Text × Location) → Bool
has_path k m = any (λ p. text_eq p.0 k) m

abbrev or_same {ℓ} : {A : Type ℓ} → Option A → A → A
or_same none a = a
or_same (some b) a = b

-- `created` of an entry, where there is one, is kept; it is a time, so never 0.
unfoldable pub entry_of : Option Meta → Text → Patch → ℕ → Meta
entry_of none id p now = record {
  id = id;
  size = or_same p.size none;
  sha256 = or_same p.sha256 none;
  locations = or_same p.locations [];
  modified = now;
  created = now;
}
entry_of (some old) id p now = record {
  id = id;
  size = or_same p.size old.size;
  sha256 = or_same p.sha256 old.sha256;
  locations = or_same p.locations old.locations;
  modified = now;
  created = old.created;
}

abbrev pub locations_of : Option Meta → List Location
locations_of none = []
locations_of (some m) = m.locations

unfoldable pub change_of : Op → Option Text → Meta → Location → Option Text → Change
change_of op from m loc origin = record {
  backend = loc.backend;
  op = op;
  key = loc.key;
  from = from;
  id = m.id;
  size = first_some loc.size m.size;
  mtime = loc.mtime;
  origin = origin;
}

-- `paired`: the two paths and the old key, where the options' rename is one.
unfoldable pub paired_of :
    Option Rename → List (Text × Location) → List (Text × Location) → Option (Text × Text × Text)
paired_of none removed added = none
paired_of (some r) removed added =
    let from = r.backend ++ (codes ":" ++ r.from) in
    let to = r.backend ++ (codes ":" ++ r.to) in
    if not (text_eq r.backend []) && (has_path from removed && has_path to added)
    then some (from, to, r.from)
    else none

abbrev pub pairs_from : Option (Text × Text × Text) → Text → Bool
pairs_from none k = false
pairs_from (some (from, to, old)) k = text_eq k from

abbrev pub added_change :
    Option (Text × Text × Text) → Text → Meta → Location → Option Text → Change
added_change none k m loc origin = change_of put_op none m loc origin
added_change (some (from, to, old)) k m loc origin =
    if text_eq k to
    then change_of rename_op (some old) m loc origin
    else change_of put_op none m loc origin

module _ (mt : Table text_key Meta) (pt : Table text_key Text) (ct : Table nat_key Logged)
    (st : Table text_key ℕ) where
  abbrev I : Type 0
  I = Index mt pt ct st

  -- The two loops of `#logLocationDiff`.
  unfoldable pub log_removed :
      Option (Text × Text × Text) → Meta → Option Text → ℕ → List (Text × Location) → I → I
  log_removed p m origin now [] i = i
  log_removed p m origin now ((k, loc) ∷ removed) i = log_removed p m origin now removed (
      if pairs_from p k
      then i
      else append mt pt ct st i (change_of delete_op none m loc origin) now)

  unfoldable pub log_added :
      Option (Text × Text × Text) → Meta → Option Text → ℕ → List (Text × Location) → I → I
  log_added p m origin now [] i = i
  log_added p m origin now ((k, loc) ∷ added) i =
      log_added p m origin now added (append mt pt ct st i (added_change p k m loc origin) now)

  unfoldable pub log_location_diff :
      I → Meta → List (Text × Location) → List (Text × Location) → Options → ℕ → I
  unfolding log_removed log_added paired_of
  log_location_diff i m before after options now =
      let removed = keep (λ p. not (has_path p.0 after)) before in
      let added = keep (λ p. not (has_path p.0 before)) after in
      let p = paired_of options.rename removed added in
      log_added p m options.origin now added (log_removed p m options.origin now removed i)

  -- The loop that removes the paths that are no more.
  unfoldable pub drop_paths : List (Text × Location) → List (Text × Location) → pt.Db → pt.Db
  drop_paths after [] d = d
  drop_paths after ((k, loc) ∷ before) d =
      drop_paths after before (if has_path k after then d else pt.remove d k)

  unfoldable pub put_paths : Text → List (Text × Location) → pt.Db → pt.Db
  put_paths id [] d = d
  put_paths id ((k, loc) ∷ after) d = put_paths id after (pt.put d k id)

  -- `put`, inside its transaction.
  unfoldable pub put : I → Text → Patch → Options → ℕ → Meta × I
  unfolding entry_of by_path drop_paths put_paths log_location_diff
  put i id patch options now =
      let existing = mt.get i.metas id in
      let m = entry_of existing id patch now in
      let before = by_path (locations_of existing) in
      let after = by_path m.locations in
      (
        m,
        log_location_diff
            (record i {
              metas = mt.put i.metas id m;
              paths = put_paths id after (drop_paths after before i.paths);
            })
            m before after options now,
      )

  abbrev by_id : I → Option Text → Option Meta
  by_id i none = none
  by_id i (some id) = mt.get i.metas id

  unfoldable pub get : I → Text → Option Meta
  get i name = first_some (mt.get i.metas name) (by_id i (pt.get i.paths name))

  unfoldable pub has : I → Text → Bool
  has i name = is_some (mt.get i.metas name) || is_some (pt.get i.paths name)

  -- The loop of `delete` over the locations.
  unfoldable pub delete_locations : Meta → Option Text → ℕ → List Location → I → I
  unfolding change_of path_key
  delete_locations m origin now [] i = i
  delete_locations m origin now (loc ∷ locs) i = delete_locations m origin now locs (
      append mt pt ct st (record i { paths = pt.remove i.paths (path_key loc) })
        (change_of delete_op none m loc origin) now)

  abbrev removed_entry : Text → I → I
  removed_entry id i = record i { metas = mt.remove i.metas id }

  unfoldable pub delete_of : I → Text → Option Text → ℕ → Option Meta → Bool × I
  unfolding delete_locations
  delete_of i id origin now none = (false, i)
  delete_of i id origin now (some m) =
      (true, removed_entry id (delete_locations (record m { id = id }) origin now m.locations i))

  unfoldable pub delete : I → Text → Option Text → ℕ → Bool × I
  unfolding delete_of
  delete i id origin now = delete_of i id origin now (mt.get i.metas id)

  -- The end of the outermost transaction that went through: what `onChange` is given, and the index,
  -- trimmed after a thousand appends by the defaults.
  unfoldable pub commit : I → ℕ → List Logged × I
  unfolding trim_changes
  commit i now =
      let flushed = record i { pending = [] } in
      (
        i.pending,
        if leb 1000 i.appends
            then (trim_changes mt pt ct st (record flushed { appends = 0 }) 200000 2592000000 now).1
            else flushed,
      )
