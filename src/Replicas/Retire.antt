-- ===== src/Replicas/Retire.antt =====
-- src/sync/ReplicaService.js: the part of `#apply` that removes the copies a plan has no place for,
-- looks at all destinations again, and releases the staging.
use canvas_stored.Prelude.{
  ℕ, ◌+◌, Bool, not, ◌||◌, Option, none, some, List, [], ◌∷◌, any, Text, codes, truthy, same,
  if◌then◌else◌,
}
use canvas_stored.Lmdb.{Table, text_key}
use canvas_stored.Replicas.Types.{
  Endpoint, Replica, Owner, Failure, Op, Tried, did, failed, failure, passing, same_place, Backend,
  capabilities, Ingress, Service,
}
use canvas_stored.Replicas.Outcomes.{Seen, id_of, is_there}
use canvas_stored.Replicas.Place.{
  Call, remove_directory, remove_object, look_again, release_object, Reply, Applied, went, broke,
  ended, if_went, refusal, owner_held, target_changed, has_place, other_claims,
}

-- One of the endpoints is the place.
unfoldable pub names_place : Text → Text → List Endpoint → Bool
unfolding same_place
names_place backend key = any (λ e. same_place e.backend e.key backend key)

-- The answers for one old copy: whether the owner is held, what `#inspect` finds, and what
-- `removeEmptyDirectory` or `removeObject` answers.
pub record Retiring : Type 0 where
  pub is_held : Bool
  pub found : Tried Seen
  pub cleared : Option Failure
  pub removed : Tried Reply

-- The answers for one entry of `release`: the content id that `stat` gives, and the answer of
-- `deleteByUrl`.
pub record Releasing : Type 0 where
  pub is_held : Bool
  pub current : Tried (Option Text)
  pub released : Tried Reply

-- What an old copy stays for: it is an outcome, or preserved, or was a mere copy, or is not managed,
-- or someone else needs it.
unfoldable pub stays : Op → Replica → Bool → Bool
unfolding names_place has_place
stays op old claimed =
    has_place old.backend old.key op.outcomes
    || (names_place old.backend old.key op.plan.preserve
        || (not old.is_mirror || (not old.managed || claimed)))

module _ (ot : Table text_key Op) (wt : Table text_key Owner) (it : Table text_key Ingress)
    (mt : Table text_key ℕ) (keeps : Bool) (backends : Text → Option Backend) where
  abbrev S : Type 0
  S = Service ot wt it mt

  unfoldable pub retired : S → Op → List Call → Text → Tried Reply → Applied S
  retired s op calls code (failed f) = broke s op calls f
  retired s op calls code (did res) =
      if res.ok then went s op calls else broke s op calls (refusal res code)

  -- An old file: it is removed only if it is as it was verified last.
  unfoldable pub retire_file : S → Op → Replica → Retiring → Tried Seen → Applied S
  unfolding retired
  retire_file s op old a (failed f) = broke s op [] f
  retire_file s op old a (did found) =
      if not (is_there found)
      then went s op []
      else if not (same (id_of found) old.content_id)
      then broke s op [] target_changed
      else if not (capabilities keeps (backends old.backend)).retire
      then broke s op [] (failure (codes "RECOVERY_UNAVAILABLE"))
      else retired s op (remove_object old.backend old.key old.content_id ∷ [])
          (codes "REMOVE_FAILED") a.removed

  unfoldable pub retire_one : S → Op → Replica → Retiring → Applied S
  unfolding retire_file stays other_claims capabilities
  retire_one s op old a =
      if a.is_held
      then broke s op [] owner_held
      else if stays op old (other_claims ot wt it mt keeps backends s op old.backend old.key)
      then went s op []
      else if old.is_directory
      then ended s op (remove_directory old.backend old.key ∷ []) a.cleared
      else retire_file s op old a a.found

  unfoldable pub retire_all : S → Op → List Replica → (ℕ → Retiring) → ℕ → Applied S
  unfolding retire_one
  retire_all s op [] answers i = went s op []
  retire_all s op (old ∷ olds) answers i =
      let ran = retire_one s op old (answers i) in
      let rest = retire_all s op olds answers (i + 1) in if_went ran rest ran.error

  -- `#inspect` of a destination, and its answer.
  abbrev pub rechecked : S → Op → List Call → Tried Seen → Applied S
  rechecked s op calls (failed f) = broke s op calls f
  rechecked s op calls (did seen) =
      if same (id_of seen) op.plan.content_id
      then went s op calls
      else broke s op calls (failure (codes "VERIFY_FAILED"))

  -- All destinations that are files are read again.
  unfoldable pub recheck_all : S → Op → List Replica → (ℕ → Tried Seen) → ℕ → Applied S
  recheck_all s op [] answers i = went s op []
  recheck_all s op (target ∷ targets) answers i =
      let ran = rechecked s op (look_again target.backend target.key ∷ []) (answers i) in
      let rest = recheck_all s op targets answers (i + 1) in if_went ran rest ran.error

  -- `result.ok` of `deleteByUrl`.
  abbrev pub released : S → Op → List Call → Tried Reply → Applied S
  released s op calls (failed f) = broke s op calls f
  released s op calls (did res) =
      if res.ok then went s op calls else broke s op calls (passing (codes "RELEASE_FAILED"))

  -- `loc.contentId || op.plan.contentId`
  abbrev pub release_id : Op → Endpoint → Option Text
  release_id op loc = if truthy loc.content_id then loc.content_id else op.plan.content_id

  unfoldable pub release_found : S → Op → Endpoint → Releasing → Tried (Option Text) → Applied S
  release_found s op loc a (failed f) = broke s op [] f
  release_found s op loc a (did none) = went s op []
  release_found s op loc a (did (some id)) =
      if same (some id) (release_id op loc)
      then released s op (release_object loc.backend loc.key ∷ []) a.released
      else broke s op [] (failure (codes "SOURCE_CHANGED"))

  unfoldable pub release_one : S → Op → Endpoint → Releasing → Applied S
  unfolding release_found other_claims
  release_one s op loc a =
      if a.is_held
      then broke s op [] owner_held
      else if other_claims ot wt it mt keeps backends s op loc.backend loc.key
      then went s op []
      else release_found s op loc a a.current

  unfoldable pub release_all : S → Op → List Endpoint → (ℕ → Releasing) → ℕ → Applied S
  unfolding release_one
  release_all s op [] answers i = went s op []
  release_all s op (loc ∷ locs) answers i =
      let ran = release_one s op loc (answers i) in
      let rest = release_all s op locs answers (i + 1) in if_went ran rest ran.error
