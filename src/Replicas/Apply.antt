-- ===== src/Replicas/Apply.antt =====
-- src/sync/ReplicaService.js: `#apply`, the execution of one operation.
use canvas_stored.Prelude.{
  ℕ, ◌++◌, Bool, false, not, ◌&&◌, ◌||◌, Option, none, some, [], any, keep, map, Text, is_some,
  if◌then◌else◌,
}
use canvas_stored.Lmdb.{Table, text_key}
use canvas_stored.Replicas.Types.{
  Replica, Owner, Op, complete, retire, finished, Tried, Backend, Ingress, Service,
}
use canvas_stored.Replicas.Service.{save, put_op, owner_of}
use canvas_stored.Replicas.Outcomes.{Seen}
use canvas_stored.Replicas.Place.{
  Call, Applied, went, broke, and_then, owner_held, has_place, place_all,
}
use canvas_stored.Replicas.Stage.{stage, base_replicas, expected_id}
use canvas_stored.Replicas.Retire.{
  Retiring, Releasing, names_place, retire_all, recheck_all, release_all,
}
use canvas_stored.Replicas.Place
use canvas_stored.Replicas.Stage

-- The answers to all calls of one execution, each list by its position.
pub record Answers : Type 0 where
  pub is_held : Bool
  pub staging : Stage.Answers
  pub placing : ℕ → Place.Answers
  pub retiring : ℕ → Retiring
  pub checking : ℕ → Tried Seen
  pub releasing : ℕ → Releasing

abbrev pub is_file : Replica → Bool
is_file r = not r.is_directory

-- `this.owner(op.owner) || { owner, replicas: [] }`
abbrev pub base_of : Text → Option Owner → Owner
base_of owner (some w) = w
base_of owner none = record {
  owner = owner;
  operation_id = none;
  content_id = none;
  replicas = [];
  updated_at = 0;
}

-- The base that the operation has, or the owner's record now.
abbrev pub with_base : Op → Option Owner → Op
with_base op found = record op { base = some (base_of op.owner found) }

-- The copies of the base that stay without being destinations: they are no longer kept equal.
unfoldable pub is_preserved : Op → Replica → Bool
unfolding names_place has_place
is_preserved op r =
    (not r.is_mirror || names_place r.backend r.key op.plan.preserve)
    && (not (has_place r.backend r.key op.outcomes)
        && not (names_place r.backend r.key op.plan.release))

abbrev pub loosened : Replica → Replica
loosened r = record r { is_mirror = false }

-- The record of the owner that a finished operation leaves.
unfoldable pub owner_after : Op → ℕ → Owner
unfolding is_preserved
owner_after op now = record {
  owner = op.owner;
  operation_id = some op.id;
  content_id = expected_id op;
  replicas = map loosened (keep (is_preserved op) (base_replicas op.base)) ++ op.outcomes;
  updated_at = now;
}

-- `op.plan.replicas` or the base has a file.
abbrev pub needs_stage : Op → Bool
needs_stage op =
    any (λ r. not r.is_directory) op.plan.replicas || any is_file (base_replicas op.base)

abbrev pub completed : Op → ℕ → Op
completed op now = record op { state = complete; phase = finished; updated_at = now }

module _ (ot : Table text_key Op) (wt : Table text_key Owner) (it : Table text_key Ingress)
    (mt : Table text_key ℕ) (keeps : Bool) (backends : Text → Option Backend) where
  abbrev pub S : Type 0
  S = Service ot wt it mt

  -- `if (!op.base) this.#save(op, { base })`
  unfoldable pub take_base : S → Op → ℕ → Applied S
  unfolding save owner_of
  take_base s op now =
      let op' = with_base op (owner_of ot wt it mt s op.owner) in
      if is_some op.base then went s op [] else went (save ot wt it mt s op' now) op' []

  unfoldable pub stage_files : Answers → ℕ → S → Op → Applied S
  unfolding stage
  stage_files a now s op =
      if needs_stage op then stage ot wt it mt s op a.staging now else went s op []

  unfoldable pub place_files : Answers → ℕ → S → Op → Applied S
  unfolding place_all
  place_files a now s op =
      place_all ot wt it mt keeps backends s op (base_replicas op.base) op.plan.replicas []
        op.outcomes a.placing 0 now

  -- `#save(op, { phase: 'retire' })` and the loop over the base.
  unfoldable pub retire_files : Answers → ℕ → S → Op → Applied S
  unfolding retire_all save
  retire_files a now s op =
      let op' : Op = record op { phase = retire } in
      retire_all ot wt it mt keeps backends (save ot wt it mt s op' now) op' (base_replicas op.base)
        a.retiring 0

  unfoldable pub recheck_files : Answers → S → Op → Applied S
  unfolding recheck_all
  recheck_files a s op =
      recheck_all ot wt it mt keeps backends s op (keep is_file op.outcomes) a.checking 0

  unfoldable pub release_files : Answers → S → Op → Applied S
  unfolding release_all
  release_files a s op =
      if any is_file op.outcomes
      then release_all ot wt it mt keeps backends s op op.plan.release a.releasing 0
      else went s op []

  -- The transaction at the end: the owner's record and the operation.
  unfoldable pub commit : ℕ → S → Op → Applied S
  unfolding owner_after put_op
  commit now s op =
      let t : S = record s { owners = wt.put s.owners op.owner (owner_after op now) } in
      went (put_op ot wt it mt t (completed op now)) (completed op now) []

  -- The base, the stage, the destinations and the old copies.
  unfoldable pub placed_parts : S → Op → Answers → ℕ → Applied S
  unfolding take_base stage_files place_files retire_files
  placed_parts s op a now =
      and_then (and_then (and_then (take_base s op now) (stage_files a now)) (place_files a now))
        (retire_files a now)

  -- `#apply`, up to its call of `#cleanup`.
  unfoldable pub apply : S → Op → Answers → ℕ → Applied S
  unfolding placed_parts recheck_files release_files commit
  apply s op a now =
      if a.is_held
      then broke s op [] owner_held
      else and_then
          (and_then (and_then (placed_parts s op a now) (recheck_files a)) (release_files a))
          (commit now)
