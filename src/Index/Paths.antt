-- ===== src/Index/Paths.antt =====
-- src/index/index.js: what `put` leaves in the path index.
use canvas_stored.Prelude.{
  ℕ, ◌≡◌, refl, ◌∙◌, ap, not, ◌&&◌, Option, none, some, List, [], ◌∷◌, arith, Text, text_eq_iff,
  if◌then◌else◌, if_intro, keep,
}
use canvas_stored.Lmdb.{Table, nat_key, text_key, get-put, get-remove}
use canvas_stored.Index.Rows.{delete_op, Location, Meta, Change, Logged, Index}
use canvas_stored.Index.Log.{find_pending, append, append_over, append_fresh}
use canvas_stored.Index.Entries.{
  Patch, Options, has_path, by_path, entry_of, locations_of, drop_paths, put_paths, put,
  log_location_diff, log_removed, log_added, paired_of, pairs_from, added_change, change_of,
}

module _ (mt : Table text_key Meta) (pt : Table text_key Text) (ct : Table nat_key Logged)
    (st : Table text_key ℕ) where
  get-put_paths :
      (id k : Text) (after : List (Text × Location)) (d : pt.Db)
      → pt.get (put_paths mt pt ct st id after d) k
        ≡ (if has_path k after then some id else pt.get d k)
  unfolding put_paths
  get-put_paths id k [] d = refl
  get-put_paths id k ((j, loc) ∷ after) d =
      ground (arith, get-put_paths id k after (pt.put d j id), get-put pt d j k id)

  get-drop_paths :
      (after : List (Text × Location)) (k : Text) (before : List (Text × Location)) (d : pt.Db)
      → pt.get (drop_paths mt pt ct st after before d) k
        ≡ (if not (has_path k after) && has_path k before then none else pt.get d k)
  unfolding drop_paths
  get-drop_paths after k [] d = ground arith
  get-drop_paths after k ((j, loc) ∷ before) d = ground (
    arith,
    get-drop_paths after k before (pt.remove d j),
    get-drop_paths after k before d,
    get-remove pt d j k,
    text_eq_iff j k,
  )

  append_over-paths :
      (i : Index mt pt ct st) (c : Change) (now : ℕ) (o : Option Logged)
      → (append_over mt pt ct st i c now o).paths ≡ i.paths
  unfolding append_over append_fresh
  append_over-paths i c now none = refl
  append_over-paths i c now (some prior) = refl

  append-paths :
      (i : Index mt pt ct st) (c : Change) (now : ℕ) → (append mt pt ct st i c now).paths ≡ i.paths
  unfolding append
  append-paths i c now = append_over-paths i c now (find_pending c i.pending)

  log_removed-paths :
      (p : Option (Text × Text × Text)) (m : Meta) (origin : Option Text) (now : ℕ)
      (removed : List (Text × Location)) (i : Index mt pt ct st)
      → (log_removed mt pt ct st p m origin now removed i).paths ≡ i.paths
  unfolding log_removed
  log_removed-paths p m origin now [] i = refl
  log_removed-paths p m origin now ((k, loc) ∷ removed) i =
      log_removed-paths p m origin now removed _
      ∙ if_intro (λ (x : Index mt pt ct st). x.paths ≡ i.paths) (pairs_from p k) (λ _. refl)
          (λ _. append-paths i (change_of delete_op none m loc origin) now)

  log_added-paths :
      (p : Option (Text × Text × Text)) (m : Meta) (origin : Option Text) (now : ℕ)
      (added : List (Text × Location)) (i : Index mt pt ct st)
      → (log_added mt pt ct st p m origin now added i).paths ≡ i.paths
  unfolding log_added
  log_added-paths p m origin now [] i = refl
  log_added-paths p m origin now ((k, loc) ∷ added) i =
      log_added-paths p m origin now added _ ∙ append-paths i (added_change p k m loc origin) now

  log_location_diff-paths :
      (i : Index mt pt ct st) (m : Meta) (before after : List (Text × Location)) (options : Options)
      (now : ℕ)
      → (log_location_diff mt pt ct st i m before after options now).paths ≡ i.paths
  unfolding log_location_diff
  log_location_diff-paths i m before after options now =
      let removed = keep (λ p. not (has_path p.0 after)) before in
      let added = keep (λ p. not (has_path p.0 before)) after in
      let p = paired_of options.rename removed added in
      log_added-paths p m options.origin now added
        (log_removed mt pt ct st p m options.origin now removed i)
      ∙ log_removed-paths p m options.origin now removed i

  -- After `put` a path leads to the entry if it is one of the entry's locations, to none if it was one
  -- before and is no more, and else where it led before.
  pub get-put_index :
      (i : Index mt pt ct st) (id k : Text) (patch : Patch) (options : Options) (now : ℕ)
      → let (m, j) = put mt pt ct st i id patch options now in
        pt.get j.paths k ≡ (
          if has_path k (by_path m.locations)
          then some id
          else if has_path k (by_path (locations_of (mt.get i.metas id)))
          then none
          else pt.get i.paths k)
  unfolding put
  get-put_index i id k patch options now =
      let existing = mt.get i.metas id in
      let m = entry_of existing id patch now in
      let before = by_path (locations_of existing) in
      let after = by_path m.locations in
      ap (λ d. pt.get d k) (log_location_diff-paths _ m before after options now)
      ∙ get-put_paths id k after (drop_paths mt pt ct st after before i.paths)
      ∙ ground (arith, get-drop_paths after k before i.paths)
