-- ===== src/Jobs/Rows.antt =====
-- src/sync/JobQueue.js: the backoff, the tests on a job and the rows that the methods write.
use canvas_stored.Prelude.{
  ℕ, ◌+◌, ◌-◌, ◌*◌, ◌^◌, min, max, Bool, true, not, ◌&&◌, ◌||◌, Option, none, some, List, [], ◌∷◌,
  Text, same, ◌==◌, if◌then◌else◌,
}
use canvas_stored.Jobs.Types.{
  pending, failed, is_pending, is_running, is_failed, Job, Request, Thrown, text_or, text_or_null,
  intent,
}

abbrev pub backoff_base_ms : ℕ
backoff_base_ms = 60000

abbrev pub backoff_max_ms : ℕ
backoff_max_ms = 60 * 60000

-- `Math.max(0, attempts - 1)` is the truncated subtraction.
unfoldable pub backoff_ms : ℕ → ℕ
backoff_ms attempts = min (backoff_base_ms * 2 ^ (attempts - 1)) backoff_max_ms

-- `mirror !== undefined && value.mirror !== mirror` skips; the filter is none when undefined.
unfoldable pub of_mirror : Option (Option Text) → Job → Bool
of_mirror none job = true
of_mirror (some mirror) job = same job.mirror mirror

-- The test of `byKey`.
unfoldable pub touches : Text → Job → Bool
touches key job =
    same job.key (some key) || (same job.payload.from (some key) || same job.payload.to (some key))

pub record Counters : Type 0 where
  pub pending : ℕ
  pub running : ℕ
  pub failed : ℕ
  pub total : ℕ
  pub next_at : Option ℕ

abbrev pub zero_counters : Counters
zero_counters = record { pending = 0; running = 0; failed = 0; total = 0; next_at = none }

-- `out.nextAt == null ? job.nextAt : Math.min(out.nextAt, job.nextAt)`
abbrev pub earlier : Option ℕ → ℕ → ℕ
earlier none n = n
earlier (some m) n = min m n

-- One round of the loop of `counters`.
unfoldable pub count_job : Counters → Job → Counters
count_job out job = record {
  pending = if is_pending job.state then out.pending + 1 else out.pending;
  running = if is_running job.state then out.running + 1 else out.running;
  failed = if is_failed job.state then out.failed + 1 else out.failed;
  total = out.total + 1;
  next_at =
      if is_pending job.state && not (job.next_at == 0)
      then some (earlier out.next_at job.next_at)
      else out.next_at;
}

unfoldable pub count_jobs : Counters → List Job → Counters
unfolding count_job
count_jobs out [] = out
count_jobs out (job ∷ jobs) = count_jobs (count_job out job) jobs

-- The row that `append` writes over a pending job with the same intent.
unfoldable pub merge : Job → Request → ℕ → Job
merge existing r now = record existing {
  kind = r.kind;
  key = r.key;
  payload = r.payload;
  updated_at = now;
  next_at = max existing.next_at r.not_before;
}

-- The row that `append` writes for a new job.
unfoldable pub new_job : ℕ → Request → ℕ → Job
unfolding intent
new_job seq r now = record {
  seq = seq;
  kind = r.kind;
  mirror = r.mirror;
  key = r.key;
  payload = r.payload;
  dedupe = intent r;
  state = pending;
  attempts = 0;
  next_at = r.not_before;
  created_at = now;
  updated_at = now;
  started_at = none;
  last_error = none;
}

-- The row that `fail` writes.
unfoldable pub failed_job : Job → Thrown → Bool → Bool → ℕ → Job
unfolding backoff_ms
failed_job job error retry permanent now =
    let attempts = job.attempts + 1 in
    let last = some (record {
      message = text_or error.message error.printed;
      code = text_or_null error.code;
      time = now;
    }) in
    if permanent || not retry
    then record job { state = failed; attempts = attempts; last_error = last; updated_at = now }
    else record job {
      state = pending;
      attempts = attempts;
      next_at = now + backoff_ms attempts;
      last_error = last;
      updated_at = now;
    }
