-- ===== src/Replicas/Place.antt =====
-- src/sync/ReplicaService.js: the part of `#apply` that places the destinations of a plan.
-- The answers to the calls that are awaited are arguments.
use canvas_stored.Prelude.{
  ℕ, ◌+◌, ◌++◌, Bool, true, false, not, ◌&&◌, ◌||◌, Option, none, some, List, [], ◌∷◌, any, Text,
  codes, text_eq, truthy, same, is_some, or_else, if◌then◌else◌,
}
use canvas_stored.Lmdb.{Table, text_key}
use canvas_stored.Replicas.Types.{
  Endpoint, Target, Plan, Replica, Owner, Failure, Op, Tried, did, failed, failure, passing,
  is_terminal, same_place, Backend, capabilities, Ingress, Service,
}
use canvas_stored.Replicas.Service.{save, owners_at, has_copy, values}
use canvas_stored.Replicas.Outcomes.{Seen, id_of, is_there, plan_outcome}

-- The calls that change a backend, the index or the cache, and the last look at a destination,
-- whose place among them counts.
pub data Call : Type 0 where
  keep_stage : Call
  drop_stage : Call
  make_directory : Text → Text → Call
  put_blob : Text → Text → Call
  write_object : Text → Text → Option Text → Call
  acknowledge : Text → Text → Call
  remove_directory : Text → Text → Call
  remove_object : Text → Text → Option Text → Call
  look_again : Text → Text → Call
  release_object : Text → Text → Call

-- What `put`, `writeObject`, `removeObject` and `deleteByUrl` return.
pub record Reply : Type 0 where
  pub ok : Bool
  pub reason : Option Text

-- The answers at one destination: whether the owner is held (`ownerGuard` is asked twice), whether
-- the backend is there; what `#inspect` finds before the plan, before the write and behind it; which
-- names are taken; what the write, the index and `ensureDirectory` answer.
pub record Answers : Type 0 where
  pub is_held : Bool
  pub is_held_late : Bool
  pub current : Tried Seen
  pub taken : List Bool
  pub found : Tried Seen
  pub written : Tried Reply
  pub verified : Tried Seen
  pub acknowledged : Option Failure
  pub made : Option Failure

abbrev pub is_source : Text → Text → Option Endpoint → Bool
is_source backend key none = false
is_source backend key (some e) = text_eq e.backend backend && text_eq e.key key

-- A destination of the plan, or its source, is the place.
unfoldable pub wants : Text → Text → Plan → Bool
unfolding same_place
wants backend key plan =
    any (λ r. same_place r.backend r.key backend key) plan.replicas
    || is_source backend key plan.source

-- `address(r) === address(outcome)` for one of them.
unfoldable pub has_place : Text → Text → List Replica → Bool
unfolding same_place
has_place backend key = any (λ r. same_place r.backend r.key backend key)

-- What a part of `#apply` leaves: the operation and the sub-databases, its calls, the error it threw.
pub record Applied (S : Type 0) : Type 0 where
  pub service : S
  pub op : Op
  pub calls : List Call
  pub error : Option Failure

abbrev pub went : {S : Type 0} → S → Op → List Call → Applied S
went s op calls = record { service = s; op = op; calls = calls; error = none }

abbrev pub broke : {S : Type 0} → S → Op → List Call → Failure → Applied S
broke s op calls f = record { service = s; op = op; calls = calls; error = some f }

-- The part that follows, if the first went through.
abbrev pub after : {S : Type 0} → Applied S → Applied S → Applied S
after first next = record next { calls = first.calls ++ next.calls }

-- `failure(res?.reason || code)`
abbrev pub refusal : Reply → Text → Failure
refusal res code = failure (if truthy res.reason then or_else res.reason code else code)

abbrev pub owner_held : Failure
owner_held = passing (codes "OWNER_HELD")

abbrev pub target_changed : Failure
target_changed = failure (codes "TARGET_CHANGED")

-- The tests before a write, in their order; `claimed` is the answer of `#otherClaims`.
unfoldable pub check_write : Target → Replica → Seen → Option Text → Bool → Option Failure
check_write target outcome found content claimed =
    if is_there found
      && (not (same (id_of found) outcome.replaces)
          && not (same target.on_conflict (some (codes "overwrite"))))
    then some (failure (codes "TARGET_CONFLICT"))
    else if is_there found && claimed
    then some (failure (codes "SHARED_REPLICA"))
    else if is_there found && not (same (id_of found) outcome.expected)
    then some target_changed
    else if not (is_there found) && (truthy outcome.expected && outcome.is_verified)
    then some target_changed
    else none

-- The write: `put` for a backend of cacache, which has no condition, or `writeObject` under the
-- condition that what was found is still there.
abbrev pub write_call : Option Backend → Replica → Seen → Call
write_call none outcome found = write_object outcome.backend outcome.key (id_of found)
write_call (some b) outcome found =
    if text_eq b.driver (codes "cacache")
    then put_blob outcome.backend outcome.key
    else write_object outcome.backend outcome.key (id_of found)

abbrev pub ended : {S : Type 0} → S → Op → List Call → Option Failure → Applied S
ended s op calls none = went s op calls
ended s op calls (some f) = broke s op calls f

abbrev pub if_went : {S : Type 0} → Applied S → Applied S → Option Failure → Applied S
if_went ran next none = after ran next
if_went ran next (some f) = ran

abbrev pub acknowledged : {S : Type 0} → S → Op → Replica → Answers → Applied S
acknowledged s op outcome a =
    if outcome.is_directory
    then went s op []
    else ended s op (acknowledge outcome.backend outcome.key ∷ []) a.acknowledged

-- The outcomes with the one in work between those before it and those behind it.
abbrev pub with_outcome : Op → List Replica → Replica → List Replica → Op
with_outcome op before outcome behind = record op { outcomes = before ++ (outcome ∷ behind) }

abbrev pub marked : Replica → Replica
marked outcome = record outcome { is_verified = true }

-- The outcomes of the destinations that are done, and those that were settled earlier.
abbrev pub one_more : List Replica → List Replica → List Replica → List Replica × List Replica
one_more before [] outcomes = (outcomes, [])
one_more before (outcome ∷ behind) outcomes = (before ++ (marked outcome ∷ []), behind)

-- A part, and then the next, on what the first left.
abbrev pub and_then : {S : Type 0} → Applied S → (S → Op → Applied S) → Applied S
and_then ran next = if_went ran (next ran.service ran.op) ran.error

module _ (ot : Table text_key Op) (wt : Table text_key Owner) (it : Table text_key Ingress)
    (mt : Table text_key ℕ) (keeps : Bool) (backends : Text → Option Backend) where
  abbrev pub S : Type 0
  S = Service ot wt it mt

  -- `#otherClaims`
  unfoldable pub other_claims : S → Op → Text → Text → Bool
  unfolding has_copy wants owners_at
  other_claims s op backend key =
      any (λ w. not (text_eq w.owner op.owner) && has_copy backend key w)
        (owners_at ot wt it mt s backend key [])
      || any
          (λ o. not (text_eq o.id op.id) && (not (is_terminal o.state) && wants backend key o.plan))
          (values (ot.range s.ops))

  -- After the write: only what is read back counts.
  unfoldable pub verify_write : S → Op → Option Text → List Call → Tried Seen → Applied S
  verify_write s op content calls (failed f) = broke s op calls f
  verify_write s op content calls (did seen) =
      if same (id_of seen) content
      then went s op calls
      else broke s op calls (failure (codes "VERIFY_FAILED"))

  unfoldable pub written : S → Op → Answers → List Call → Tried Reply → Applied S
  unfolding verify_write
  written s op a calls (failed f) = broke s op calls f
  written s op a calls (did res) =
      if res.ok
      then verify_write s op op.plan.content_id calls a.verified
      else broke s op calls (refusal res (codes "WRITE_FAILED"))

  unfoldable pub write_or : S → Op → Answers → Call → Option Failure → Applied S
  unfolding written
  write_or s op a call (some f) = broke s op [] f
  write_or s op a call none =
      if a.is_held_late then broke s op [] owner_held else written s op a (call ∷ []) a.written

  -- A file, once its outcome is settled: nothing is written where the content is there already.
  unfoldable pub place_file : S → Op → Target → Replica → Answers → Tried Seen → Applied S
  unfolding write_or check_write other_claims
  place_file s op target outcome a (failed f) = broke s op [] f
  place_file s op target outcome a (did found) =
      if same (id_of found) op.plan.content_id
      then went s op []
      else write_or s op a (write_call (backends outcome.backend) outcome found) (
          check_write target outcome found op.plan.content_id
            (other_claims s op outcome.backend outcome.key))

  unfoldable pub place_directory : S → Op → Replica → Answers → Applied S
  place_directory s op outcome a =
      if a.is_held_late
      then broke s op [] owner_held
      else ended s op (make_directory outcome.backend outcome.key ∷ []) a.made

  -- `outcome.state = 'verified'` and `#save`.
  unfoldable pub mark : S → Op → List Replica → Replica → List Replica → ℕ → Applied S
  unfolding save
  mark s op before outcome behind now =
      let op' = with_outcome op before (marked outcome) behind in
      went (save ot wt it mt s op' now) op' []

  -- One destination with its outcome.
  unfoldable pub place_outcome :
      S → Op → Target → List Replica → Replica → List Replica → Answers → ℕ → Applied S
  unfolding place_file place_directory mark
  place_outcome s op target before outcome behind a now =
      let placed =
        if target.is_directory
        then place_directory s op outcome a
        else place_file s op target outcome a a.found in
      let told = acknowledged s op outcome a in
      let noted = if_went placed told placed.error in
      if_went noted (mark s op before outcome behind now) noted.error

  unfoldable pub place_planned :
      S → Op → Target → List Replica → Answers → ℕ → Tried Replica → Applied S
  unfolding place_outcome save
  place_planned s op target before a now (failed f) = broke s op [] f
  place_planned s op target before a now (did outcome) =
      let op' = with_outcome op before outcome [] in
      place_outcome (save ot wt it mt s op' now) op' target before outcome [] a now

  -- The outcome that the operation has, or a new one, which is saved before anything is written.
  unfoldable pub place_next :
      S → Op → List Replica → Target → List Replica → Answers → ℕ → List Replica → Applied S
  unfolding place_outcome place_planned plan_outcome owners_at
  place_next s op base target before a now (outcome ∷ behind) =
      place_outcome s op target before outcome behind a now
  place_next s op base target before a now [] = place_planned s op target before a now (
      plan_outcome target base op.plan.content_id
        (owners_at ot wt it mt s target.backend target.key [])
        (capabilities keeps (backends target.backend)) a.taken a.current)

  -- One round of the loop over the destinations.
  unfoldable pub place_target :
      S → Op → List Replica → Target → List Replica → List Replica → Answers → ℕ → Applied S
  unfolding place_next
  place_target s op base target before behind a now =
      if a.is_held
      then broke s op [] owner_held
      else if not (is_some (backends target.backend))
      then broke s op [] (passing (codes "BACKEND_UNAVAILABLE"))
      else place_next s op base target before a now behind

  unfoldable pub place_all :
      S
      → Op
      → List Replica
      → List Target
      → List Replica
      → List Replica
      → (ℕ → Answers)
      → ℕ
      → ℕ
      → Applied S
  unfolding place_target
  place_all s op base [] before behind answers i now = went s op []
  place_all s op base (target ∷ targets) before behind answers i now =
      let ran = place_target s op base target before behind (answers i) now in
      let split = one_more before behind ran.op.outcomes in
      let rest = place_all ran.service ran.op base targets split.0 split.1 answers (i + 1) now in
      if_went ran rest ran.error
