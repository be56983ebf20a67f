-- ===== src/Replicas/Releases.antt =====
-- src/sync/ReplicaService.js: `#apply` releases no staging while it places, retires and stages.
use canvas_stored.Prelude.{
  ℕ, ◌+◌, ◌≡◌, refl, Bool, true, not, Option, List, [], ◌∷◌, arith, Text, is_some, if_intro, same,
  if◌then◌else◌, codes,
}
use canvas_stored.Lmdb.{Table, text_key}
use canvas_stored.Replicas.Types.{
  Target, Replica, Owner, Op, Tried, did, failed, Backend, Ingress, Service, capabilities,
}
use canvas_stored.Replicas.Outcomes.{Seen, is_there, id_of}
use canvas_stored.Replicas.Place.{
  Call, keep_stage, drop_stage, make_directory, put_blob, write_object, acknowledge,
  remove_directory, remove_object, look_again, release_object, Reply, Applied, went, broke, ended,
  if_went, and_then, acknowledged, with_outcome, marked, one_more, place_file, place_directory,
  mark, place_outcome, place_planned, place_next, place_target, place_all, other_claims,
}
use canvas_stored.Replicas.Permitted.{place_file-is_permitted}
use canvas_stored.Replicas.Stage.{stage_source, stage, source_of, expected_id, base_replicas}
use canvas_stored.Replicas.Retire.{Retiring, stays, retired, retire_file, retire_one, retire_all}
use canvas_stored.Replicas.Apply.{
  Answers, needs_stage, take_base, stage_files, place_files, retire_files, placed_parts,
}
use canvas_stored.Replicas.Place
use canvas_stored.Replicas.Stage
use canvas_stored.Replicas.Spares.{
  spares, permitted-spares, Spares, calls-Spares, if_went-Spares, and_then-Spares, ended-Spares,
  acknowledged-Spares,
}

module _ (ot : Table text_key Op) (wt : Table text_key Owner) (it : Table text_key Ingress)
    (mt : Table text_key ℕ) (keeps : Bool) (backends : Text → Option Backend) where
  abbrev S : Type 0
  S = Service ot wt it mt

  stage-Spares :
      (s : S) (op : Op) (a : Stage.Answers) (now : ℕ) → Spares (stage ot wt it mt s op a now)
  unfolding stage stage_source Spares
  stage-Spares s op a now = ground arith

  place_file-Spares :
      (s : S) (op : Op) (target : Target) (outcome : Replica) (a : Place.Answers) (o : Tried Seen)
      → Spares (place_file ot wt it mt keeps backends s op target outcome a o)
  unfolding place_file Spares
  place_file-Spares s op target outcome a (failed f) = refl
  place_file-Spares s op target outcome a (did found) =
      permitted-spares (backends outcome.backend) target outcome found op.plan.content_id
        (other_claims ot wt it mt keeps backends s op outcome.backend outcome.key)
        (place_file ot wt it mt keeps backends s op target outcome a (did found)).calls
        (place_file-is_permitted ot wt it mt keeps backends s op target outcome a found)

  place_directory-Spares :
      (s : S) (op : Op) (outcome : Replica) (a : Place.Answers)
      → Spares (place_directory ot wt it mt keeps backends s op outcome a)
  unfolding place_directory Spares
  place_directory-Spares s op outcome a =
      if_intro Spares a.is_held_late (λ h. refl)
        (λ h. ended-Spares s op (make_directory outcome.backend outcome.key ∷ []) a.made refl)

  place_outcome-Spares :
      (s : S) (op : Op) (target : Target) (before : List Replica) (outcome : Replica)
      (behind : List Replica) (a : Place.Answers) (now : ℕ)
      → Spares (place_outcome ot wt it mt keeps backends s op target before outcome behind a now)
  unfolding place_outcome mark
  place_outcome-Spares s op target before outcome behind a now =
      let placed : Applied S =
        if target.is_directory
        then place_directory ot wt it mt keeps backends s op outcome a
        else place_file ot wt it mt keeps backends s op target outcome a a.found in
      let told : Applied S = acknowledged s op outcome a in
      let noted : Applied S = if_went placed told placed.error in
      let done : Applied S = mark ot wt it mt keeps backends s op before outcome behind now in
      if_went-Spares noted done noted.error
        (if_went-Spares placed told placed.error
          (if_intro Spares target.is_directory (λ h. place_directory-Spares s op outcome a)
            (λ h. place_file-Spares s op target outcome a a.found))
          (acknowledged-Spares s op outcome a))
        (calls-Spares done refl)

  place_planned-Spares :
      (s : S) (op : Op) (target : Target) (before : List Replica) (a : Place.Answers) (now : ℕ)
      (o : Tried Replica)
      → Spares (place_planned ot wt it mt keeps backends s op target before a now o)
  unfolding place_planned Spares
  place_planned-Spares s op target before a now (failed f) = refl
  place_planned-Spares s op target before a now (did outcome) =
      place_outcome-Spares _ _ target before outcome [] a now

  place_next-Spares :
      (s : S) (op : Op) (base : List Replica) (target : Target) (before : List Replica)
      (a : Place.Answers) (now : ℕ) (behind : List Replica)
      → Spares (place_next ot wt it mt keeps backends s op base target before a now behind)
  unfolding place_next
  place_next-Spares s op base target before a now (outcome ∷ behind) =
      place_outcome-Spares s op target before outcome behind a now
  place_next-Spares s op base target before a now [] =
      place_planned-Spares s op target before a now _

  place_target-Spares :
      (s : S) (op : Op) (base : List Replica) (target : Target) (before behind : List Replica)
      (a : Place.Answers) (now : ℕ)
      → Spares (place_target ot wt it mt keeps backends s op base target before behind a now)
  unfolding place_target Spares
  place_target-Spares s op base target before behind a now =
      if_intro Spares a.is_held (λ h. refl)
        (λ h.
          if_intro Spares (not (is_some (backends target.backend))) (λ k. refl)
            (λ k. place_next-Spares s op base target before a now behind))

  place_all-Spares :
      (targets : List Target) (s : S) (op : Op) (base : List Replica) (before behind : List Replica)
      (answers : ℕ → Place.Answers) (i now : ℕ)
      → Spares (place_all ot wt it mt keeps backends s op base targets before behind answers i now)
  unfolding place_all
  place_all-Spares [] s op base before behind answers i now = calls-Spares _ refl
  place_all-Spares (target ∷ targets) s op base before behind answers i now =
      if_went-Spares _ _ _ (place_target-Spares s op base target before behind (answers i) now)
        (place_all-Spares targets _ _ base _ _ answers (i + 1) now)

  retired-Spares :
      (s : S) (op : Op) (calls : List Call) (code : Text) (res : Tried Reply)
      → spares calls ≡ true
      → Spares (retired ot wt it mt keeps backends s op calls code res)
  unfolding retired Spares
  retired-Spares s op calls code (failed f) h = h
  retired-Spares s op calls code (did res) h = ground (arith, h)

  retire_file-Spares :
      (s : S) (op : Op) (old : Replica) (a : Retiring) (o : Tried Seen)
      → Spares (retire_file ot wt it mt keeps backends s op old a o)
  unfolding retire_file Spares
  retire_file-Spares s op old a (failed f) = refl
  retire_file-Spares s op old a (did found) =
      if_intro Spares (not (is_there found)) (λ h. refl)
        (λ h.
          if_intro Spares (not (same (id_of found) old.content_id)) (λ k. refl)
            (λ k.
              if_intro Spares (not (capabilities keeps (backends old.backend)).retire) (λ c. refl)
                (λ c.
                  retired-Spares s op (remove_object old.backend old.key old.content_id ∷ [])
                    (codes "REMOVE_FAILED") a.removed refl)))

  retire_one-Spares :
      (s : S) (op : Op) (old : Replica) (a : Retiring)
      → Spares (retire_one ot wt it mt keeps backends s op old a)
  unfolding retire_one Spares
  retire_one-Spares s op old a =
      if_intro Spares a.is_held (λ h. refl)
        (λ h.
          if_intro (λ (out : Applied S). Spares out)
            (stays op old (other_claims ot wt it mt keeps backends s op old.backend old.key))
            (λ k. refl)
            (λ k.
              if_intro (λ (out : Applied S). Spares out) old.is_directory
                (λ c. ended-Spares s op (remove_directory old.backend old.key ∷ []) a.cleared refl)
                (λ c. retire_file-Spares s op old a a.found)))

  retire_all-Spares :
      (olds : List Replica) (s : S) (op : Op) (answers : ℕ → Retiring) (i : ℕ)
      → Spares (retire_all ot wt it mt keeps backends s op olds answers i)
  unfolding retire_all
  retire_all-Spares [] s op answers i = calls-Spares _ refl
  retire_all-Spares (old ∷ olds) s op answers i =
      if_went-Spares _ _ _ (retire_one-Spares s op old (answers i))
        (retire_all-Spares olds s op answers (i + 1))

  take_base-Spares :
      (s : S) (op : Op) (now : ℕ) → Spares (take_base ot wt it mt keeps backends s op now)
  unfolding take_base Spares
  take_base-Spares s op now =
      if_intro (λ (out : Applied S). Spares out) (is_some op.base) (λ h. refl) (λ h. refl)

  stage_files-Spares :
      (a : Answers) (now : ℕ) (s : S) (op : Op)
      → Spares (stage_files ot wt it mt keeps backends a now s op)
  unfolding stage_files
  stage_files-Spares a now s op =
      if_intro (λ (out : Applied S). Spares out) (needs_stage op)
        (λ h. stage-Spares s op a.staging now) (λ h. calls-Spares (went s op []) refl)

  place_files-Spares :
      (a : Answers) (now : ℕ) (s : S) (op : Op)
      → Spares (place_files ot wt it mt keeps backends a now s op)
  unfolding place_files
  place_files-Spares a now s op =
      place_all-Spares op.plan.replicas s op (base_replicas op.base) [] op.outcomes a.placing 0 now

  retire_files-Spares :
      (a : Answers) (now : ℕ) (s : S) (op : Op)
      → Spares (retire_files ot wt it mt keeps backends a now s op)
  unfolding retire_files
  retire_files-Spares a now s op = retire_all-Spares (base_replicas op.base) _ _ a.retiring 0

  pub placed_parts-Spares :
      (s : S) (op : Op) (a : Answers) (now : ℕ)
      → Spares (placed_parts ot wt it mt keeps backends s op a now)
  unfolding placed_parts
  placed_parts-Spares s op a now =
      and_then-Spares _ (retire_files ot wt it mt keeps backends a now)
        (and_then-Spares _ (place_files ot wt it mt keeps backends a now)
          (and_then-Spares (take_base ot wt it mt keeps backends s op now)
            (stage_files ot wt it mt keeps backends a now) (take_base-Spares s op now)
            (stage_files-Spares a now))
          (place_files-Spares a now))
        (retire_files-Spares a now)
