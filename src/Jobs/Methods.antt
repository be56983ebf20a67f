-- ===== src/Jobs/Methods.antt =====
-- src/sync/JobQueue.js: the methods, as functions of the queue. A method that reads the clock takes
-- the time; one that throws returns none.
use canvas_stored.Prelude.{
  ℕ, ◌+◌, Bool, true, false, not, ◌&&◌, Option, none, some, List, [], ◌∷◌, Text, text_eq, leb, ◌==◌,
  if◌then◌else◌, or_else, keep, map,
}
use canvas_stored.Lmdb.{Table, nat_key, text_key}
use canvas_stored.Jobs.Types.{
  pending, running, is_pending, is_running, Job, Request, Thrown, seq_key, dedupe_key, intent,
  Queue,
}
use canvas_stored.Jobs.Rows.{
  of_mirror, touches, Counters, zero_counters, count_jobs, merge, new_job, failed_job,
}

-- `recover` on one row.
unfoldable pub recovered : Job → ℕ → Job
recovered job now = record job { state = pending; updated_at = now }

-- `take` on one row.
unfoldable pub taken : Job → ℕ → Job
taken job now = record job { state = running; started_at = some now; updated_at = now }

-- `retry` on one row.
unfoldable pub retried : Job → ℕ → Job
retried job now = record job { state = pending; next_at = 0; updated_at = now }

abbrev pub is_seq : Option ℕ → ℕ → Bool
is_seq none seq = false
is_seq (some n) seq = n == seq

module _ (jobs_table : Table nat_key Job) (dedupe_table : Table text_key ℕ) where
  open jobs_table use {
    Db as JobsDb, get as get_job, put as put_job, remove as remove_job, range as job_rows,
  }
  open dedupe_table use {get as get_seq, put as put_seq, remove as remove_seq}

  abbrev pub JobQueue : Type 0
  JobQueue = Queue jobs_table dedupe_table

  -- The rows that the iterator `all` yields; none for an undefined mirror.
  unfoldable pub all_jobs : JobQueue → Option (Option Text) → List Job
  all_jobs q mirror = keep (of_mirror mirror) (map (λ row. row.1) (job_rows q.jobs))

  unfoldable pub pending_jobs : JobQueue → ℕ → Option (Option Text) → List Job
  pending_jobs q now mirror =
      keep (λ job. is_pending job.state && leb job.next_at now) (all_jobs q mirror)

  unfoldable pub existing_job : JobQueue → Option ℕ → Option Job
  existing_job q none = none
  existing_job q (some seq) = get_job q.jobs seq

  unfoldable pub append_fresh : JobQueue → Request → ℕ → Job × JobQueue
  append_fresh q r now =
      let seq = q.seq + 1 in
      let job = new_job seq r now in
      (
        job,
        record {
          jobs = put_job q.jobs seq job;
          dedupe = put_seq (put_seq q.dedupe (dedupe_key r.mirror (intent r)) seq) seq_key seq;
          seq = seq;
        },
      )

  -- The body of the transaction, by the job that the dedupe row names.
  unfoldable pub append_over : JobQueue → Request → ℕ → Option Job → Job × JobQueue
  unfolding append_fresh
  append_over q r now none = append_fresh q r now
  append_over q r now (some existing) =
      if is_pending existing.state
      then (
        merge existing r now,
        record q { jobs = put_job q.jobs existing.seq (merge existing r now) },
      )
      else append_fresh q r now

  unfoldable pub append : JobQueue → Request → ℕ → Option (Job × JobQueue)
  unfolding append_over existing_job
  append q r now =
      if text_eq r.kind []
      then none
      else some
          (append_over q r now (existing_job q (get_seq q.dedupe (dedupe_key r.mirror (intent r)))))

  unfoldable pub take_row : JobQueue → ℕ → ℕ → Option Job → Option Job × JobQueue
  take_row q seq now none = (none, q)
  take_row q seq now (some job) =
      if is_pending job.state
      then (some (taken job now), record q { jobs = put_job q.jobs seq (taken job now) })
      else (none, q)

  unfoldable pub take : JobQueue → ℕ → ℕ → Option Job × JobQueue
  unfolding take_row
  take q seq now = take_row q seq now (get_job q.jobs seq)

  -- Remove a row, and its dedupe row where that still names it.
  unfoldable pub remove_row : JobQueue → ℕ → Job → JobQueue
  remove_row q seq job =
      let key = dedupe_key job.mirror job.dedupe in
      record q {
        jobs = remove_job q.jobs seq;
        dedupe = if is_seq (get_seq q.dedupe key) seq then remove_seq q.dedupe key else q.dedupe;
      }

  unfoldable pub complete_row : JobQueue → ℕ → Option Job → Bool × JobQueue
  complete_row q seq none = (false, q)
  complete_row q seq (some job) = (true, remove_row q seq job)

  unfoldable pub complete : JobQueue → ℕ → Bool × JobQueue
  unfolding complete_row
  complete q seq = complete_row q seq (get_job q.jobs seq)

  -- `cancel(seq)` is `complete(seq)`.
  unfoldable pub cancel : JobQueue → ℕ → Bool × JobQueue
  unfolding complete
  cancel q seq = complete q seq

  unfoldable pub fail_row :
      JobQueue → ℕ → Thrown → Bool → Bool → ℕ → Option Job → Option Job × JobQueue
  fail_row q seq error retry permanent now none = (none, q)
  fail_row q seq error retry permanent now (some job) =
      let next = failed_job job error retry permanent now in
      (some next, record q { jobs = put_job q.jobs seq next })

  unfoldable pub fail : JobQueue → ℕ → Thrown → Bool → Bool → ℕ → Option Job × JobQueue
  unfolding fail_row
  fail q seq error retry permanent now =
      fail_row q seq error retry permanent now (get_job q.jobs seq)

  unfoldable pub retry_row : JobQueue → ℕ → ℕ → Option Job → Option Job × JobQueue
  retry_row q seq now none = (none, q)
  retry_row q seq now (some job) =
      (some (retried job now), record q { jobs = put_job q.jobs seq (retried job now) })

  unfoldable pub retry : JobQueue → ℕ → ℕ → Option Job × JobQueue
  unfolding retry_row
  retry q seq now = retry_row q seq now (get_job q.jobs seq)

  unfoldable pub by_key : JobQueue → Text → Option (Option Text) → List Job
  by_key q key mirror = keep (touches key) (all_jobs q mirror)

  -- The loop of `cancelByKey` over the jobs that `byKey` returned.
  unfoldable pub cancel_jobs : JobQueue → Bool → ℕ → List Job → ℕ × JobQueue
  cancel_jobs q include_running n [] = (n, q)
  cancel_jobs q include_running n (job ∷ jobs) =
      let (done, q') = complete q job.seq in
      let skipped = is_running job.state && not include_running in
      cancel_jobs (if skipped then q else q') include_running
        (if skipped then n else if done then n + 1 else n) jobs

  unfoldable pub cancel_by_key : JobQueue → Text → Option (Option Text) → Bool → ℕ × JobQueue
  cancel_by_key q key mirror include_running = cancel_jobs q include_running 0 (by_key q key mirror)

  unfoldable pub counters : JobQueue → Option (Option Text) → Counters
  counters q mirror = count_jobs zero_counters (all_jobs q mirror)

  -- The loop of `recover` over the rows.
  unfoldable pub recover_rows : JobsDb → ℕ → ℕ → List (ℕ × Job) → ℕ × JobsDb
  recover_rows d now n [] = (n, d)
  recover_rows d now n ((key, job) ∷ rows) =
      recover_rows (if is_running job.state then put_job d key (recovered job now) else d) now
        (if is_running job.state then n + 1 else n) rows

  unfoldable pub recover : JobQueue → ℕ → ℕ × JobQueue
  recover q now =
      let (n, d) = recover_rows q.jobs now 0 (job_rows q.jobs) in (n, record q { jobs = d })

  -- The constructor, on the two sub-databases.
  unfoldable pub open_queue : JobsDb → dedupe_table.Db → ℕ → JobQueue
  open_queue jobs dedupe now =
      (recover (record { jobs = jobs; dedupe = dedupe; seq = or_else (get_seq dedupe seq_key) 0 })
        now).1

  unfoldable pub clear_jobs : JobQueue → List Job → JobQueue
  clear_jobs q [] = q
  clear_jobs q (job ∷ jobs) = clear_jobs (remove_row q job.seq job) jobs

  unfoldable pub clear : JobQueue → Option (Option Text) → JobQueue
  clear q mirror = clear_jobs q (all_jobs q mirror)
