-- ===== src/Replicas/Drain.antt =====
-- src/sync/ReplicaService.js: `#drain`, the pass over all operations. The clock is read once for a
-- pass; the answers to an operation's calls are given by its id. A cleanup is taken to go through:
-- that the source's failing one makes a finished operation fail is not modelled.
use canvas_stored.Prelude.{
  ℕ, ◌+◌, Bool, true, false, ◌||◌, Option, none, some, List, [], ◌∷◌, any, Text, text_eq, ltb,
  if◌then◌else◌,
}
use canvas_stored.Lmdb.{Table, text_key}
use canvas_stored.Jobs.Rows.{backoff_ms}
use canvas_stored.Replicas.Types.{
  Owner, Failure, Op, pending, running, blocked, Tried, is_transient, is_terminal, is_blocked,
  Backend, Ingress, Service,
}
use canvas_stored.Replicas.Service.{get_op, save, sort, values}
use canvas_stored.Replicas.Outcomes.{Seen}
use canvas_stored.Replicas.Place.{Applied}
use canvas_stored.Replicas.Apply.{Answers, apply}
use canvas_stored.Replicas.Ingress.{reclaim}
use canvas_stored.Replicas.Cleanup.{cleanup}

-- What a pass does with an operation: it tidies up behind a finished one, leaves one waiting, executes
-- one with success, or without.
pub data Visit : Type 0 where
  tidied : Op → Visit
  held : Op → Visit
  ran : Op → Visit
  stuck : Op → Visit

-- The fields that a failed execution leaves.
unfoldable pub failed_op : Op → Failure → ℕ → Op
unfolding is_transient
failed_op op f now =
    let attempts = op.attempts + 1 in
    record op {
      state = if is_transient f then pending else blocked;
      attempts = attempts;
      next_at = if is_transient f then now + backoff_ms attempts else 0;
      error = some f;
    }

abbrev pub started : Op → Op
started op = record op { state = running; error = none }

abbrev pub blocks : List Text → Text → Bool
blocks owners owner = any (text_eq owner) owners

-- `op.state === 'blocked' || op.nextAt > Date.now()`
unfoldable pub waits : Op → ℕ → Bool
waits op now = is_blocked op.state || ltb now op.next_at

abbrev pub with_blocked : Bool → Text → List Text → List Text
with_blocked true owner owners = owner ∷ owners
with_blocked false owner owners = owners

abbrev pub op_of : Visit → Op
op_of (tidied op) = op
op_of (held op) = op
op_of (ran op) = op
op_of (stuck op) = op

-- One round of the loop: the sub-databases before it, the row that it is for, and what is done.
pub record Round (S : Type 0) : Type 0 where
  pub before : S
  pub row : Op
  pub visit : Visit

-- `#cleanup` has fuel enough (Chains), so that it is never `none`.
abbrev pub service_of : {S D : Type 0} → S → Option (S × D) → S
service_of s none = s
service_of s (some out) = out.0

module _ (ot : Table text_key Op) (wt : Table text_key Owner) (it : Table text_key Ingress)
    (mt : Table text_key ℕ) (keeps : Bool) (backends : Text → Option Backend) where
  abbrev pub S : Type 0
  S = Service ot wt it mt

  abbrev pub tidy : S → Op → S
  unfolding cleanup
  tidy s op = service_of s (cleanup ot wt it mt s op)

  -- What a step of the pass leaves: the sub-databases, and whether the owner is blocked now.
  unfoldable pub settled : Op → Applied S → ℕ → Option Failure → S × (Bool × Visit)
  unfolding cleanup save failed_op
  settled op out now none = (tidy out.service out.op, (false, ran op))
  settled op out now (some f) =
      (save ot wt it mt out.service (failed_op out.op f now) now, (true, stuck op))

  unfoldable pub execute : S → Op → Answers → ℕ → S × (Bool × Visit)
  unfolding apply settled save
  execute s op a now =
      let out =
        apply ot wt it mt keeps backends (save ot wt it mt s (started op) now) (started op) a now in
      settled op out now out.error

  -- One operation; `blocked` tells whether an earlier one of its owner holds it.
  unfoldable pub visit : S → Op → Bool → Answers → ℕ → S × (Bool × Visit)
  unfolding execute cleanup is_terminal waits
  visit s op is_held a now =
      if is_terminal op.state
      then (tidy s op, (false, tidied op))
      else if is_held
      then (s, (false, held op))
      else if waits op now
      then (s, (true, held op))
      else execute s op a now

  unfoldable pub visited :
      S → Op → List Text → (Text → Answers) → ℕ → Option Op → S × (Bool × Visit)
  unfolding visit
  visited s row owners answers now none = (s, (true, held row))
  visited s row owners answers now (some op) =
      visit s op (blocks owners op.owner) (answers op.id) now

  -- The loop, over the rows in the order of their numbers, each read again. (No row is removed, so
  -- each is found.)
  unfoldable pub drain_rows : S → List Op → List Text → (Text → Answers) → ℕ → S × List (Round S)
  unfolding visited get_op
  drain_rows s [] owners answers now = (s, [])
  drain_rows s (row ∷ rows) owners answers now =
      let out = visited s row owners answers now (get_op ot wt it mt s row.id) in
      let rest =
        drain_rows out.0 rows (with_blocked out.1.0 (op_of out.1.1).owner owners) answers now in
      (rest.0, record { before = s; row = row; visit = out.1.1 } ∷ rest.1)

  unfoldable pub drain : S → (Text → Tried Seen) → (Text → Answers) → ℕ → S × List (Round S)
  unfolding drain_rows reclaim sort
  drain s pins answers now =
      let t = reclaim ot wt it mt (values (it.range s.ingress)) pins now s in
      if s.stopped then (s, []) else drain_rows t (sort (values (ot.range t.ops))) [] answers now
