-- ===== src/Jobs/Counters.antt =====
-- src/sync/JobQueue.js, `counters`: the counts and the next due time.
use canvas_stored.Prelude.{
  ℕ, ◌+◌, ◌≤◌, ◌<◌, ◌≡◌, ◌⊎◌, inl, inr, Bool, true, not, ◌&&◌, Option, none, some, List, [], ◌∷◌,
  arith, Text, length, keep, any, ◌==◌, if◌then◌else◌, All,
}
use canvas_stored.Lmdb.{Table, nat_key, text_key}
use canvas_stored.Jobs.Types.{Job, is_running, is_pending, is_failed}
use canvas_stored.Jobs.Rows.{Counters, count_job, count_jobs, zero_counters, earlier}
use canvas_stored.Jobs.Methods.{JobQueue, all_jobs, counters}

abbrev Lower : Option ℕ → ℕ → Type 0
Lower none n = ⊥
Lower (some m) n = m ≤ n

-- What `counters` says of a list of jobs.
pub record Counted (jobs : List Job) (c : Counters) : Type 0 where
  pub all_counted : c.total ≡ length jobs
  pub by_state : c.pending + c.running + c.failed ≡ c.total
  pub pending_counted : c.pending ≡ length (keep (λ job. is_pending job.state) jobs)
  pub running_counted : c.running ≡ length (keep (λ job. is_running job.state) jobs)
  pub failed_counted : c.failed ≡ length (keep (λ job. is_failed job.state) jobs)
  pub is_least :
      All (λ job. is_pending job.state ≡ true → 0 < job.next_at → Lower c.next_at job.next_at) jobs
  pub is_taken :
      (t : ℕ)
      → c.next_at ≡ some t
      → any (λ job. is_pending job.state && job.next_at == t) jobs ≡ true

-- The next due time after one more job, where `b` says that the job counts.
next-Lower :
    (o : Option ℕ) (b : Bool) (m n : ℕ) → Lower o n → Lower (if b then some (earlier o m) else o) n
next-Lower none b m n h = absurd h
next-Lower (some k) b m n h = ground arith

next_takes :
    (o : Option ℕ) (b : Bool) (m : ℕ) → b ≡ true → Lower (if b then some (earlier o m) else o) m
next_takes none b m h = ground arith
next_takes (some k) b m h = ground arith

next_from :
    (o : Option ℕ) (b : Bool) (m t : ℕ)
    → (if b then some (earlier o m) else o) ≡ some t
    → (o ≡ some t) ⊎ ((b ≡ true) × (m ≡ t))
next_from none b m t e = ground arith
next_from (some k) b m t e = ground arith

count_job-Lower :
    (out : Counters) (job : Job) (n : ℕ) → Lower out.next_at n → Lower (count_job out job).next_at n
unfolding count_job
count_job-Lower out job n h =
    next-Lower out.next_at (is_pending job.state && not (job.next_at == 0)) job.next_at n h

count_jobs-Lower :
    (out : Counters) (jobs : List Job) (n : ℕ)
    → Lower out.next_at n
    → Lower (count_jobs out jobs).next_at n
unfolding count_jobs
count_jobs-Lower out [] n h = h
count_jobs-Lower out (job ∷ jobs) n h =
    count_jobs-Lower (count_job out job) jobs n (count_job-Lower out job n h)

count_job_takes :
    (out : Counters) (job : Job)
    → is_pending job.state ≡ true
    → 0 < job.next_at
    → Lower (count_job out job).next_at job.next_at
unfolding count_job
count_job_takes out job p t =
    next_takes out.next_at (is_pending job.state && not (job.next_at == 0)) job.next_at
      (ground arith)

count_job_from :
    (t : ℕ) (out : Counters) (job : Job)
    → (count_job out job).next_at ≡ some t
    → (out.next_at ≡ some t) ⊎ ((is_pending job.state && job.next_at == t) ≡ true)
unfolding count_job
count_job_from t out job e =
    elim (next_from out.next_at (is_pending job.state && not (job.next_at == 0)) job.next_at t e) [
      | inl o ↦ inl o
      | inr h ↦ inr (ground arith)
    ]

-- The counts from any start.
record Extends (out : Counters) (jobs : List Job) (c : Counters) : Type 0 where
  all_counted : c.total ≡ out.total + length jobs
  by_state :
      c.pending + c.running + c.failed + out.total
      ≡ out.pending + out.running + out.failed + c.total
  pending_counted : c.pending ≡ out.pending + length (keep (λ job. is_pending job.state) jobs)
  running_counted : c.running ≡ out.running + length (keep (λ job. is_running job.state) jobs)
  failed_counted : c.failed ≡ out.failed + length (keep (λ job. is_failed job.state) jobs)

count_jobs-Extends : (out : Counters) (jobs : List Job) → Extends out jobs (count_jobs out jobs)
unfolding count_jobs
count_jobs-Extends out [] = omega arith
count_jobs-Extends out (job ∷ jobs) = ground (arith, count_jobs-Extends (count_job out job) jobs)

count_jobs-is_least :
    (out : Counters) (jobs : List Job)
    → All
        (λ job.
          is_pending job.state ≡ true
          → 0 < job.next_at
          → Lower (count_jobs out jobs).next_at job.next_at)
        jobs
unfolding count_jobs
count_jobs-is_least out [] = tt
count_jobs-is_least out (job ∷ jobs) = (
  (λ p t. count_jobs-Lower (count_job out job) jobs job.next_at (count_job_takes out job p t)),
  count_jobs-is_least (count_job out job) jobs,
)

count_jobs-is_taken :
    (t : ℕ) (out : Counters) (jobs : List Job)
    → (count_jobs out jobs).next_at ≡ some t
    → (out.next_at ≡ some t) ⊎ (any (λ job. is_pending job.state && job.next_at == t) jobs ≡ true)
unfolding count_jobs
count_jobs-is_taken t out [] e = inl e
count_jobs-is_taken t out (job ∷ jobs) e = elim (count_jobs-is_taken t (count_job out job) jobs e) [
  | inr later ↦ inr (ground arith)
  | inl now ↦ elim (count_job_from t out job now) [ inl o ↦ inl o | inr p ↦ inr (ground arith) ]
]

-- `counters` on the jobs of a mirror: the total is the number of jobs and the sum of the three
-- counts, each count is the number of jobs in that state, and the time is the least nonzero due
-- time of the pending jobs, none where there is none.
pub counters-Counted :
    (jt : Table nat_key Job) (dt : Table text_key ℕ) (q : JobQueue jt dt) (m : Option (Option Text))
    → Counted (all_jobs jt dt q m) (counters jt dt q m)
unfolding counters
counters-Counted jt dt q m =
    let jobs = all_jobs jt dt q m in
    let x = count_jobs-Extends zero_counters jobs in
    record {
      all_counted = omega arith;
      by_state = omega arith;
      pending_counted = omega arith;
      running_counted = omega arith;
      failed_counted = omega arith;
      is_least = count_jobs-is_least zero_counters jobs;
      is_taken = λ t e. elim (count_jobs-is_taken t zero_counters jobs e) [
        | inl z ↦ absurd (ground arith)
        | inr h ↦ h
      ];
    }
