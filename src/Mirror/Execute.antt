-- ===== src/Mirror/Execute.antt =====
-- src/sync/Mirror.js: `#jobKeys`, the part of `#drain` that picks jobs, `#execute` around a job's
-- run, and the (document, version) pairs of `takeApplied`, `restoreApplied` and `appliedSnapshot`.
use canvas_stored.Prelude.{
  ℕ, ◌++◌, Bool, true, false, ◌&&◌, ◌||◌, Option, none, some, List, [], ◌∷◌, Text, codes, text_eq,
  truthy, or_else, ltb, leb, ◌==◌, any, length, if◌then◌else◌,
}
use canvas_stored.Lmdb.{Table, nat_key, text_key}
use canvas_stored.Jobs.Types.{Job, Queue, Thrown, text_or}
use canvas_stored.Jobs.Methods.{take, complete, fail, retry, pending_jobs}
use canvas_stored.Ledger.Rows.{Row, base_row}
use canvas_stored.Ledger.Methods.{bases}
use canvas_stored.Mirror.Engine.{Options, State, skip_key, set_applied}
use canvas_stored.Mirror.Answers.{Failure, Ran, is_offline, is_permanent}

-- `Set.add`, on the keys of a job.
abbrev add_key : List Text → Option Text → List Text
add_key keys none = keys
add_key keys (some key) = if any (text_eq key) keys then keys else keys ++ (key ∷ [])

-- `if (key) keys.add(key)`
abbrev add_named : List Text → Option Text → List Text
add_named keys key = if truthy key then add_key keys key else keys

-- `#jobKeys`
unfoldable pub job_keys : Job → List Text
job_keys job = add_named (add_named (add_key [] job.key) job.payload.from) job.payload.to

-- `keys.some((k) => this.#runningKeys.has(k))`
unfoldable pub overlaps : List Text → List Text → Bool
overlaps keys running = any (λ k. any (text_eq k) running) keys

-- `#applied.get(docId)`
unfoldable pub version_of : List (ℕ × ℕ) → ℕ → Option ℕ
version_of [] doc = none
version_of ((d, v) ∷ pairs) doc =
    let rest = version_of pairs doc in if d == doc then some v else rest

-- `this.#applied.get(docId) > version`
abbrev pub is_newer : Option ℕ → ℕ → Bool
is_newer none version = false
is_newer (some v) version = ltb version v

-- `restoreApplied`
unfoldable pub restore_applied : List (ℕ × ℕ) → List (ℕ × ℕ) → List (ℕ × ℕ)
unfolding set_applied version_of
restore_applied [] applied = applied
restore_applied ((doc, version) ∷ pairs) applied =
    restore_applied pairs (
      if is_newer (version_of applied doc) version
      then applied
      else set_applied applied doc version)

-- The loop of `appliedSnapshot` over the bases.
unfoldable pub snapshot : List (Text × Row) → List (ℕ × ℕ) → List (ℕ × ℕ)
unfolding restore_applied
snapshot [] best = best
snapshot ((key, base_row b) ∷ rows) best = snapshot rows (elim b.doc_id [
  | none ↦ best
  | some doc ↦ elim b.version [
    | none ↦ best
    | some version ↦ restore_applied ((doc, version) ∷ []) best
  ]
])
snapshot ((key, row) ∷ rows) best = snapshot rows best

module _ (jt : Table nat_key Job) (dt : Table text_key ℕ) (rt : Table text_key Row)
    (opts : Options) where
  abbrev E : Type 0
  E = State jt dt rt opts

  -- `takeApplied`
  unfoldable pub take_applied : E → List (ℕ × ℕ) × E
  take_applied e = (e.applied, record e { applied = [] })

  unfoldable pub applied_snapshot : E → List (ℕ × ℕ)
  unfolding snapshot
  applied_snapshot e = snapshot (bases rt e.rows opts.id []) []

  -- What one round of `#drain` starts: the jobs with their keys, and the queue.
  pub record Started : Type 0 where
    pub queue : Queue jt dt
    pub running : List (ℕ × List Text)

  abbrev pub all_keys : List (ℕ × List Text) → List Text
  all_keys [] = []
  all_keys ((seq, keys) ∷ running) = keys ++ all_keys running

  abbrev pub claimed : Started → Job → Option Job × Queue jt dt → Started
  claimed s job (none, q) = record s { queue = q }
  claimed s job (some taken, q) = record {
    queue = q;
    running = (taken.seq, job_keys job) ∷ s.running;
  }

  -- The loop over the pending jobs; `limit` is `opts.concurrency`. Where it breaks it starts no
  -- more.
  unfoldable pub start_jobs : ℕ → ℕ → List Job → Started → Started
  unfolding job_keys overlaps
  start_jobs limit now [] s = s
  start_jobs limit now (job ∷ jobs) s = start_jobs limit now jobs (
      if leb limit (length s.running) || overlaps (job_keys job) (all_keys s.running)
      then s
      else claimed s job (take jt dt s.queue job.seq now))

  unfoldable pub drain_round : ℕ → ℕ → Started → Started
  unfolding start_jobs
  drain_round limit now s =
      start_jobs limit now (pending_jobs jt dt s.queue now (some (some opts.id))) s

  abbrev pub thrown_of : Failure → Thrown
  thrown_of f = record { message = some f.message; code = f.code; printed = codes "Error" }

  -- The reason that a permanent failure is skipped for.
  abbrev pub refusal : Failure → Text
  refusal f = text_or f.hub_code (text_or f.code (codes "refused"))

  abbrev pub skip_refused : E → Job → Failure → ℕ → E
  skip_refused e job f now =
      if is_permanent f && truthy job.key
      then skip_key jt dt rt opts e (or_else job.key []) (refusal f) now
      else e

  unfoldable pub executed_as : Job → ℕ → E → Option Failure → E
  executed_as job now e none = record e {
    queue = (complete jt dt e.queue job.seq).1;
    last_sync_at = some now;
    last_error = none;
  }
  executed_as job now e (some f) =
      if is_offline f
      then record e { queue = (retry jt dt e.queue job.seq now).1 }
      else skip_refused
          (record e {
            queue = (fail jt dt e.queue job.seq (thrown_of f) true (is_permanent f) now).1;
            last_error = some (
                job.kind
                ++ (codes " " ++ (or_else job.key (codes "null") ++ (codes ": " ++ f.message))));
          })
          job f now

  -- `#execute` once the run of the job came back; going offline is left to the caller.
  unfoldable pub executed : Job → ℕ → Ran E → E
  unfolding executed_as
  executed job now ran = executed_as job now ran.state ran.failed
