-- ===== src/Replicas/Supersede.antt =====
-- src/sync/ReplicaService.js: `supersede`, `adopt` and `audit`, with the answers of `#inspect`.
use canvas_stored.Prelude.{
  ℕ, ◌+◌, Bool, true, not, ◌&&◌, ◌||◌, Option, none, some, List, [], ◌∷◌, Text, codes, text_eq,
  same, is_some, first_some, if◌then◌else◌,
}
use canvas_stored.Lmdb.{Table, text_key}
use canvas_stored.Replicas.Types.{
  Endpoint, Plan, Replica, Owner, Op, cancelled, Tried, did, failed, failure, is_complete,
  is_cancelled, same_place, Backend, Ingress, Service,
}
use canvas_stored.Replicas.Service.{get_op, save, submit, owner_of}
use canvas_stored.Replicas.Validate.{validate}
use canvas_stored.Replicas.Outcomes.{Seen, id_of, is_there}
use canvas_stored.Replicas.Apply.{base_of}

-- `replicas.set(address(r), r)`: an address that is there keeps its place.
unfoldable pub set_replica : Replica → List Replica → List Replica
unfolding same_place
set_replica r [] = r ∷ []
set_replica r (p ∷ ps) =
    let rest = set_replica r ps in
    if same_place p.backend p.key r.backend r.key then r ∷ ps else p ∷ rest

unfoldable pub set_all : List Replica → List Replica → List Replica
unfolding set_replica
set_all [] held = held
set_all (r ∷ rs) held = set_all rs (set_replica r held)

-- An outcome that landed: it is there, with its own content.
abbrev pub has_landed : Replica → Seen → Bool
has_landed outcome seen =
    is_there seen && (outcome.is_directory || same (id_of seen) outcome.content_id)

abbrev pub verified : Replica → Replica
verified outcome = record outcome { is_verified = true }

abbrev pub claimed : Replica → Seen → List Replica → List Replica
unfolding set_replica
claimed outcome seen held =
    if has_landed outcome seen then set_replica (verified outcome) held else held

abbrev pub claim_step :
    Tried Seen
    → (List Replica → Tried (List Replica))
    → Replica
    → List Replica
    → Tried (List Replica)
unfolding set_replica
claim_step (failed f) rest outcome held = failed f
claim_step (did seen) rest outcome held = rest (claimed outcome seen held)

-- The loop over the outcomes of the operation that is superseded.
unfoldable pub claim_landed :
    List Replica → (ℕ → Tried Seen) → ℕ → List Replica → Tried (List Replica)
unfolding set_replica
claim_landed [] answers i held = did held
claim_landed (outcome ∷ outcomes) answers i held =
    claim_step (answers i) (claim_landed outcomes answers (i + 1)) outcome held

-- `address(r) === address(endpoint)`
unfoldable pub find_replica : Text → Text → List Replica → Option Replica
unfolding same_place
find_replica backend key [] = none
find_replica backend key (r ∷ rs) =
    let rest = find_replica backend key rs in
    if same_place r.backend r.key backend key then some r else rest

-- The one that was found, managed from now on.
unfoldable pub manage_first : Text → Text → List Replica → List Replica
unfolding same_place
manage_first backend key [] = []
manage_first backend key (r ∷ rs) =
    let rest = manage_first backend key rs in
    if same_place r.backend r.key backend key then record r { managed = true } ∷ rs else r ∷ rest

pub data Difference : Type 0 where
  changed : Text → Text → Difference
  missing : Text → Text → Difference

-- `current ? 'changed' : 'missing'`, where there is a difference.
abbrev pub difference : Replica → Seen → List Difference → List Difference
difference r seen rest =
    if not (is_there seen)
    then missing r.backend r.key ∷ rest
    else if not r.is_directory && not (same (id_of seen) r.content_id)
    then changed r.backend r.key ∷ rest
    else rest

abbrev pub difference_of : Replica → Tried Seen → Tried (List Difference) → Tried (List Difference)
difference_of r (failed f) rest = failed f
difference_of r (did seen) (failed f) = failed f
difference_of r (did seen) (did rest) = did (difference r seen rest)

-- The loop of `audit`: copies that are no longer kept equal do not count.
unfoldable pub audit_all : List Replica → (Text → Text → Tried Seen) → Tried (List Difference)
audit_all [] inspect = did []
audit_all (r ∷ rs) inspect =
    let rest = audit_all rs inspect in
    if not r.is_mirror then rest else difference_of r (inspect r.backend r.key) rest

abbrev pub replicas_of : Option Owner → List Replica
replicas_of none = []
replicas_of (some w) = w.replicas

module _ (ot : Table text_key Op) (wt : Table text_key Owner) (it : Table text_key Ingress)
    (mt : Table text_key ℕ) (keeps : Bool) (backends : Text → Option Backend)
    (digest : Plan → Text) where
  abbrev pub S : Type 0
  S = Service ot wt it mt

  -- The transaction of `supersede`: the owner keeps what landed, the old operation is cancelled, and
  -- the new plan is submitted.
  abbrev pub superseded : S → Op → Plan → Owner → ℕ → Tried (List Replica) → Tried (Op × S)
  unfolding save submit
  superseded s previous plan base now (failed f) = failed f
  superseded s previous plan base now (did replicas) =
      let owned : S = record s {
        owners = wt.put s.owners plan.owner (record base { replicas = replicas });
      } in
      submit ot wt it mt keeps backends digest
        (save ot wt it mt owned
          (record previous { state = cancelled; superseded_by = some plan.id }) now)
        plan now

  -- `this.owner(plan.owner) || previous.base || { owner, replicas: [] }`
  unfoldable pub superseded_base : S → Op → Plan → Owner
  unfolding owner_of
  superseded_base s previous plan =
      base_of plan.owner (first_some (owner_of ot wt it mt s plan.owner) previous.base)

  unfoldable pub supersede_over : S → Plan → (ℕ → Tried Seen) → ℕ → Option Op → Tried (Op × S)
  unfolding superseded_base claim_landed set_all submit save
  supersede_over s plan answers now none = failed (failure (codes "INVALID_SUPERSESSION"))
  supersede_over s plan answers now (some previous) =
      let base = superseded_base s previous plan in
      if not (text_eq previous.owner plan.owner) || same previous.plan.content_id plan.content_id
      then failed (failure (codes "INVALID_SUPERSESSION"))
      else if is_complete previous.state
      then submit ot wt it mt keeps backends digest s plan now
      else if is_cancelled previous.state
      then (if same previous.superseded_by (some plan.id)
          then submit ot wt it mt keeps backends digest s plan now
          else failed (failure (codes "INVALID_SUPERSESSION")))
      else superseded s previous plan base now
          (claim_landed previous.outcomes answers 0 (set_all base.replicas []))

  abbrev pub supersede_checked : S → Text → (ℕ → Tried Seen) → ℕ → Tried Plan → Tried (Op × S)
  unfolding supersede_over get_op
  supersede_checked s id answers now (failed f) = failed f
  supersede_checked s id answers now (did plan) =
      supersede_over s plan answers now (get_op ot wt it mt s id)

  unfoldable pub supersede : S → Text → Plan → (ℕ → Tried Seen) → ℕ → Tried (Op × S)
  unfolding supersede_over validate get_op
  supersede s id input answers now =
      supersede_checked s id answers now (validate keeps backends input)

  abbrev pub adopted : S → Owner → Text → Replica → Tried Seen → Tried S
  unfolding manage_first
  adopted s w id replica (failed f) = failed f
  adopted s w id replica (did seen) =
      if is_some (id_of seen) && same (id_of seen) replica.content_id
      then did (record s {
        owners =
            wt.put s.owners id
              (record w { replicas = manage_first replica.backend replica.key w.replicas });
      })
      else failed (failure (codes "TARGET_CHANGED"))

  abbrev pub adopt_found : S → Text → Tried Seen → Option Owner → Option Replica → Tried S
  unfolding manage_first
  adopt_found s id seen (some w) (some replica) = adopted s w id replica seen
  adopt_found s id seen _ _ = failed (failure (codes "TARGET_CHANGED"))

  unfoldable pub adopt : S → Text → Endpoint → Tried Seen → Tried S
  unfolding find_replica manage_first owner_of
  adopt s id e seen =
      let found = owner_of ot wt it mt s id in
      adopt_found s id seen found (find_replica e.backend e.key (replicas_of found))

  unfoldable pub audit : S → Text → (Text → Text → Tried Seen) → Tried (List Difference)
  unfolding audit_all owner_of
  audit s id inspect = audit_all (replicas_of (owner_of ot wt it mt s id)) inspect
