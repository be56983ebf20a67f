-- ===== src/Replicas/Stage.antt =====
-- src/sync/ReplicaService.js: `#stage`, the pinned copy that an operation works from.
use canvas_stored.Prelude.{
  ℕ, ◌++◌, Bool, not, ◌||◌, Option, none, some, List, [], ◌∷◌, Text, codes, truthy, same, is_some,
  first_some, if◌then◌else◌,
}
use canvas_stored.Lmdb.{Table, text_key}
use canvas_stored.Replicas.Types.{
  Endpoint, Replica, Owner, Op, place, failure, passing, Ingress, Service,
}
use canvas_stored.Replicas.Service.{save}
use canvas_stored.Replicas.Place.{Call, keep_stage, drop_stage, Applied, went, broke}

-- The answers: whether the stage is there and the digest of its bytes; the digest of what was copied
-- from the pinned source, or from the source itself; whether the source's backend is there and
-- online, whether it has the file and can read it, and whether the file was the same afterwards.
-- Digests are content ids, `sha256:` in front.
pub record Answers : Type 0 where
  pub has_stage : Bool
  pub stage_id : Text
  pub copied_id : Text
  pub has_backend : Bool
  pub is_online : Bool
  pub has_file : Bool
  pub is_readable : Bool
  pub is_unchanged : Bool

abbrev pub base_content : Op → Option Text
base_content op = elim op.base [ none ↦ none | some w ↦ w.content_id ]

-- `op.plan.contentId || op.base?.contentId`
abbrev pub expected_id : Op → Option Text
expected_id op = if truthy op.plan.content_id then op.plan.content_id else base_content op

abbrev pub first_file : List Replica → Option Endpoint
first_file [] = none
first_file (r ∷ rs) =
    let rest = first_file rs in
    if r.is_directory
    then rest
    else some (record { backend = r.backend; key = r.key; content_id = r.content_id })

abbrev pub base_replicas : Option Owner → List Replica
base_replicas none = []
base_replicas (some w) = w.replicas

-- `op.plan.source || op.base?.replicas?.find(r => r.kind !== 'directory')`
abbrev pub source_of : Op → Option Endpoint
source_of op = first_some op.plan.source (first_file (base_replicas op.base))

-- `replica-operation:${op.id}`
abbrev pub stage_key_of : Op → Text
stage_key_of op = codes "replica-operation:" ++ op.id

module _ (ot : Table text_key Op) (wt : Table text_key Owner) (it : Table text_key Ingress)
    (mt : Table text_key ℕ) where
  abbrev S : Type 0
  S = Service ot wt it mt

  -- `#save(op, { stageKey, phase: 'place' })`
  abbrev pub staged : S → Op → List Call → ℕ → Applied S
  unfolding save
  staged s op calls now =
      let op' : Op = record op { stage_key = some (stage_key_of op); phase = place } in
      went (save ot wt it mt s op' now) op' calls

  abbrev pub restaged : S → Op → ℕ → Applied S
  unfolding save
  restaged s op now =
      let op' : Op = record op { stage_key = some (stage_key_of op) } in
      went (save ot wt it mt s op' now) op' []

  -- A copy of the source itself, once its backend was found.
  unfoldable pub stage_source : S → Op → Answers → ℕ → Applied S
  unfolding save
  stage_source s op a now =
      if not a.has_backend || not a.is_online
      then broke s op [] (passing (codes "BACKEND_UNAVAILABLE"))
      else if not a.has_file || not a.is_readable
      then broke s op [] (failure (codes "SOURCE_MISSING"))
      else if not (same (some a.copied_id) (expected_id op)) || not a.is_unchanged
      then broke s op (keep_stage ∷ (drop_stage ∷ [])) (failure (codes "SOURCE_CHANGED"))
      else staged s op (keep_stage ∷ []) now

  unfoldable pub stage : S → Op → Answers → ℕ → Applied S
  unfolding stage_source save
  stage s op a now =
      if a.has_stage
      then (if same (some a.stage_id) (expected_id op)
          then restaged s op now
          else broke s op [] (failure (codes "STAGING_CORRUPT")))
      else if truthy op.plan.source_cache_key
      then (if same (some a.copied_id) op.plan.content_id
          then staged s op (keep_stage ∷ []) now
          else broke s op (keep_stage ∷ (drop_stage ∷ [])) (failure (codes "STAGING_CORRUPT")))
      else if not (is_some (source_of op))
      then broke s op [] (failure (codes "NO_SOURCE"))
      else stage_source s op a now
