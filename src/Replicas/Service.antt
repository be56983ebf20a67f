-- ===== src/Replicas/Service.antt =====
-- src/sync/ReplicaService.js: `submit`, `get`, `owner`, `owners`, `ownersAt`, `latest`, `list`,
-- `retry`, `retireOwner`, and the recovery at the start. A method that throws gives the failure.
-- The digest of a plan and new random names are parameters.
use canvas_stored.Prelude.{
  ℕ, zero, suc, ◌+◌, ◌++◌, min, max, Bool, false, not, ◌&&◌, ◌||◌, Option, none, some, List, [],
  ◌∷◌, map, keep, any, Text, codes, text_eq, or_else, ltb, length, starts_with, if◌then◌else◌,
}
use canvas_stored.Lmdb.{Table, text_key}
use canvas_stored.Replicas.Types.{
  Plan, Owner, pending, prepare, Op, Tried, did, failed, failure, is_terminal, is_running,
  same_place, Backend, Ingress, Service,
}
use canvas_stored.Replicas.Validate.{validate}

abbrev pub head_key : Text
head_key = codes "head"

-- The entry that `submit` writes.
unfoldable pub new_op : Plan → Text → ℕ → ℕ → Op
new_op plan hash seq now = record {
  id = plan.id;
  owner = plan.owner;
  seq = seq;
  request_hash = hash;
  plan = plan;
  state = pending;
  phase = prepare;
  attempts = 0;
  next_at = 0;
  created_at = now;
  updated_at = now;
  outcomes = [];
  error = none;
  base = none;
  stage_key = none;
  superseded_by = none;
  cleaned = false;
}

-- The values of the rows, `[...getRange()].map(r => r.value)`.
abbrev pub values : {V : Type 0} → List (Text × V) → List V
values = map (λ row. row.1)

-- Has the owner a copy at this place?
unfoldable pub has_copy : Text → Text → Owner → Bool
unfolding same_place
has_copy backend key w = any (λ r. same_place r.backend r.key backend key) w.replicas

-- `set.add(id)`
abbrev pub add_name : Text → List Text → List Text
add_name id ids = if any (text_eq id) ids then ids else ids ++ (id ∷ [])

-- The set of `ownersAt` at one address, in the order of the rows.
unfoldable pub names_at : Text → Text → List Owner → List Text → List Text
unfolding has_copy
names_at backend key [] names = names
names_at backend key (w ∷ ws) names =
    names_at backend key ws (if has_copy backend key w then add_name w.owner names else names)

-- One round of the loop of `latest` for an owner; `best` is its entry of the map.
abbrev pub later : Text → Op → Option Op → Option Op
later owner op none = if text_eq op.owner owner then some op else none
later owner op (some best) =
    if text_eq op.owner owner && ltb best.seq op.seq then some op else some best

unfoldable pub latest_of : Text → List Op → Option Op → Option Op
latest_of owner [] best = best
latest_of owner (op ∷ ops) best = latest_of owner ops (later owner op best)

-- `sort((a, b) => a.seq - b.seq)`, which is stable.
unfoldable pub insert : Op → List Op → List Op
insert op [] = op ∷ []
insert op (o ∷ ops) =
    let rest = insert op ops in if ltb o.seq op.seq then o ∷ rest else op ∷ (o ∷ ops)

unfoldable pub sort : List Op → List Op
unfolding insert
sort [] = []
sort (op ∷ ops) = insert op (sort ops)

abbrev pub take_ops : ℕ → List Op → List Op
take_ops zero ops = []
take_ops (suc n) [] = []
take_ops (suc n) (op ∷ ops) = op ∷ take_ops n ops

-- `operations.at(-1).seq`
abbrev pub last_seq : List Op → Option ℕ
last_seq [] = none
last_seq (op ∷ []) = some op.seq
last_seq (op ∷ (o ∷ ops)) = last_seq (o ∷ ops)

pub record Page : Type 0 where
  pub operations : List Op
  pub next : Option ℕ
  pub head : ℕ

-- The filter of `list`.
unfoldable pub listed : Option Text → ℕ → Bool → Op → Bool
unfolding is_terminal
listed owner after active op =
    (text_eq (or_else owner []) [] || text_eq op.owner (or_else owner []))
    && (ltb after op.seq && (not active || not (is_terminal op.state)))

-- A page of the operations that pass, already in order.
unfoldable pub page_of : ℕ → ℕ → List Op → Page
page_of limit head all =
    let operations = take_ops (min 1000 (max 1 limit)) all in
    record {
      operations = operations;
      next = if ltb (length operations) (length all) then last_seq operations else none;
      head = head;
    }

module _ (ot : Table text_key Op) (wt : Table text_key Owner) (it : Table text_key Ingress)
    (mt : Table text_key ℕ) where
  abbrev pub S : Type 0
  S = Service ot wt it mt

  unfoldable pub get_op : S → Text → Option Op
  get_op s id = ot.get s.ops id

  unfoldable pub put_op : S → Op → S
  put_op s op = record s { ops = ot.put s.ops op.id op }

  -- `#save` of an operation whose fields were assigned.
  unfoldable pub save : S → Op → ℕ → S
  unfolding put_op
  save s op now = put_op s (record op { updated_at = now })

  unfoldable pub head : S → ℕ
  head s = or_else (mt.get s.meta head_key) 0

  unfoldable pub accept : S → Plan → Text → ℕ → Op × S
  unfolding new_op head
  accept s plan hash now =
      let seq = head s + 1 in
      let op = new_op plan hash seq now in
      (op, record s { ops = ot.put s.ops op.id op; meta = mt.put s.meta head_key seq })

  abbrev pub accepted : S → Text → ℕ → Tried Plan → Tried (Op × S)
  unfolding accept
  accepted s hash now (did plan) = did (accept s plan hash now)
  accepted s hash now (failed f) = failed f

  -- With the operation of that id, if there is one.
  unfoldable pub submit_over :
      Bool → (Text → Option Backend) → S → Plan → Text → ℕ → Option Op → Tried (Op × S)
  unfolding validate accept
  submit_over keeps backends s input hash now (some prior) =
      if text_eq prior.request_hash hash
      then did (prior, s)
      else failed (failure (codes "IDEMPOTENCY_CONFLICT"))
  submit_over keeps backends s input hash now none =
      accepted s hash now (validate keeps backends input)

  unfoldable pub submit :
      Bool → (Text → Option Backend) → (Plan → Text) → S → Plan → ℕ → Tried (Op × S)
  unfolding submit_over get_op
  submit keeps backends digest s input now =
      if s.stopped
      then failed (failure (codes "STOPPED"))
      else submit_over keeps backends s input (digest input) now (get_op s input.id)

  unfoldable pub owner_of : S → Text → Option Owner
  owner_of s id = wt.get s.owners id

  unfoldable pub owners_with : S → Text → List Owner
  owners_with s prefix = keep (λ w. starts_with prefix w.owner) (values (wt.range s.owners))

  abbrev pub with_owner : Option Owner → List Owner → List Owner
  with_owner none owners = owners
  with_owner (some w) owners = w ∷ owners

  -- `map(owner).filter(Boolean)`
  unfoldable pub read_owners : S → List Text → List Owner
  unfolding owner_of
  read_owners s [] = []
  read_owners s (id ∷ ids) = with_owner (owner_of s id) (read_owners s ids)

  unfoldable pub owners_at : S → Text → Text → Text → List Owner
  unfolding read_owners names_at
  owners_at s backend key prefix =
      read_owners s
        (keep (λ id. starts_with prefix id) (names_at backend key (values (wt.range s.owners)) []))

  abbrev pub read_op : S → Option Op → Option Op
  unfolding get_op
  read_op s none = none
  read_op s (some op) = get_op s op.id

  unfoldable pub latest : S → Text → Option Op
  unfolding latest_of get_op
  latest s owner = read_op s (latest_of owner (values (ot.range s.ops)) none)

  unfoldable pub list : S → Option Text → ℕ → ℕ → Bool → Page
  unfolding page_of sort listed head
  list s owner limit after active =
      page_of limit (head s) (sort (keep (listed owner after active) (values (ot.range s.ops))))

  abbrev pub retried : S → ℕ → Option Op → Tried S
  unfolding save is_terminal
  retried s now none = failed (failure (codes "NOT_FOUND"))
  retried s now (some op) =
      if is_terminal op.state
      then did s
      else did (save s (record op { state = pending; next_at = 0; error = none }) now)

  -- `retry`, up to its call of `drain`.
  unfoldable pub retry : S → Text → ℕ → Tried S
  unfolding get_op save is_terminal
  retry s id now = retried s now (get_op s id)

  -- The loop of `retireOwner`: the history moves to an owner's name that is not used again.
  unfoldable pub archive : Text → List Op → ot.Db → ot.Db
  archive archived [] d = d
  archive archived (op ∷ ops) d =
      archive archived ops (ot.put d op.id (record op { owner = archived }))

  unfoldable pub retire_owner : S → Text → Text → Tried S
  unfolding archive is_terminal
  retire_owner s owner unique =
      let rows = keep (λ op. text_eq op.owner owner) (values (ot.range s.ops)) in
      if any (λ op. not (is_terminal op.state)) rows
      then failed (failure (codes "OWNER_BUSY"))
      else did (record s {
        ops = archive (codes "retired:" ++ (owner ++ (codes ":" ++ unique))) rows s.ops;
        owners = wt.remove s.owners owner;
      })

  -- The loop of the constructor: what was running when the program stopped is pending again.
  unfoldable pub recover_rows : List (Text × Op) → ot.Db → ot.Db
  recover_rows [] d = d
  recover_rows ((key, op) ∷ rows) d =
      recover_rows rows
        (if is_running op.state then ot.put d key (record op { state = pending }) else d)

  unfoldable pub open_service : ot.Db → wt.Db → it.Db → mt.Db → S
  unfolding recover_rows
  open_service ops owners ingress meta = record {
    ops = recover_rows (ot.range ops) ops;
    owners = owners;
    ingress = ingress;
    meta = meta;
    stopped = false;
  }
