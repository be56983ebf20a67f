-- ===== src/Jobs/Iterate.antt =====
-- src/sync/JobQueue.js: what the iterators `all`, `pending` and `byKey` yield, by the rows.
use mathlib.Core.Path.{subst}
use canvas_stored.Prelude.{
  ℕ, ◌≡◌, refl, sym, ◌∙◌, ap, Bool, true, false, ◌&&◌, Option, none, some, List, [], ◌∷◌, arith,
  Text, All, All-map, All-keep, any, keep, map, ◌==◌, leb, ltb,
}
use canvas_stored.Lmdb.{Table, nat_key, text_key, range-get, Above, IsSorted, lookup}
use canvas_stored.Jobs.Types.{Job, is_pending}
use canvas_stored.Jobs.Rows.{of_mirror}
use canvas_stored.Jobs.Methods.{JobQueue, all_jobs, pending_jobs}
use canvas_stored.Jobs.Invariant.{IsValid}

-- Does a row hold a job that passes the test?
abbrev pub holds : (Job → Bool) → Option Job → Bool
holds p none = false
holds p (some job) = p job

-- Is the job with this number in the list?
abbrev pub has_seq : ℕ → List Job → Bool
has_seq s = any (λ job. job.seq == s)

-- In ascending order of their numbers.
abbrev pub InOrder : List Job → Type 0
InOrder [] = Unit
InOrder (job ∷ jobs) = All (λ i. ltb job.seq i.seq ≡ true) jobs × InOrder jobs

keep-InOrder : (p : Job → Bool) (jobs : List Job) → InOrder jobs → InOrder (keep p jobs)
keep-InOrder p [] h = tt
keep-InOrder p (job ∷ jobs) h =
    ground (arith, keep-InOrder p jobs h.1, All-keep (λ i. ltb job.seq i.seq ≡ true) p jobs h.0)

pub any-keep :
    (p q : Job → Bool) (jobs : List Job) → any p (keep q jobs) ≡ any (λ j. q j && p j) jobs
any-keep p q [] = refl
any-keep p q (job ∷ jobs) = ground (arith, any-keep p q jobs)

pub any_ext :
    (p q : Job → Bool) (jobs : List Job) → ((j : Job) → p j ≡ q j) → any p jobs ≡ any q jobs
any_ext p q [] h = refl
any_ext p q (job ∷ jobs) h = ground (arith, h job, any_ext p q jobs h)

-- Every row stands under the number of its job.
abbrev Numbered : List (ℕ × Job) → Type 0
Numbered rows = All (λ row. row.1.seq ≡ row.0) rows

abbrev jobs_of : List (ℕ × Job) → List Job
jobs_of = map (λ row. row.1)

rows-Above :
    (s : ℕ) (p : Job → Bool) (rows : List (ℕ × Job))
    → Above nat_key s rows
    → Numbered rows
    → any (λ job. job.seq == s && p job) (jobs_of rows) ≡ false
rows-Above s p [] a n = refl
rows-Above s p ((k, job) ∷ rows) a n = ground (arith, rows-Above s p rows a.1 n.1, a.0, n.0)

-- A search for a number among the jobs of sorted rows is a lookup.
any-rows :
    (s : ℕ) (p : Job → Bool) (rows : List (ℕ × Job))
    → IsSorted nat_key rows
    → Numbered rows
    → any (λ job. job.seq == s && p job) (jobs_of rows) ≡ holds p (lookup nat_key s rows)
unfolding lookup
any-rows s p [] sorted n = refl
any-rows s p ((k, job) ∷ rows) sorted n =
    ground (arith, rows-Above s p rows, any-rows s p rows sorted.1 n.1, sorted.0, n.0)

Above-InOrder :
    (s : ℕ) (rows : List (ℕ × Job))
    → Above nat_key s rows
    → Numbered rows
    → All (λ i. ltb s i.seq ≡ true) (jobs_of rows)
Above-InOrder s [] a n = tt
Above-InOrder s ((k, job) ∷ rows) a n = (rw n.0 a.0, Above-InOrder s rows a.1 n.1)

rows-InOrder :
    (rows : List (ℕ × Job)) → IsSorted nat_key rows → Numbered rows → InOrder (jobs_of rows)
rows-InOrder [] sorted n = tt
rows-InOrder ((k, job) ∷ rows) sorted n = (
  Above-InOrder job.seq rows (subst (λ i. Above nat_key i rows) (sym n.0) sorted.0) n.1,
  rows-InOrder rows sorted.1 n.1,
)

module _ (jt : Table nat_key Job) (dt : Table text_key ℕ) where
  pub rows-Numbered : (q : JobQueue jt dt) → IsValid jt dt q → Numbered (jt.range q.jobs)
  rows-Numbered q v =
      All-map (jt.range q.jobs) (λ row e. v.stored row.0 row.1 e) (range-get jt q.jobs)

  -- A search for a number among the jobs of a mirror reads that job's row.
  pub any-all_jobs :
      (q : JobQueue jt dt) (s : ℕ) (m : Option (Option Text)) (p : Job → Bool)
      → IsValid jt dt q
      → any (λ job. job.seq == s && p job) (all_jobs jt dt q m)
        ≡ holds (λ job. of_mirror m job && p job) (jt.get q.jobs s)
  unfolding all_jobs
  any-all_jobs q s m p v =
      any-keep (λ job. job.seq == s && p job) (of_mirror m) (jobs_of (jt.range q.jobs))
      ∙ any_ext _ _ (jobs_of (jt.range q.jobs)) (λ job. ground arith)
      ∙ any-rows s (λ job. of_mirror m job && p job) (jt.range q.jobs) (jt.range-IsSorted q.jobs)
          (rows-Numbered q v)
      ∙ ap (holds (λ job. of_mirror m job && p job)) (sym (jt.get-range q.jobs s))

  pub all_jobs-InOrder :
      (q : JobQueue jt dt) (m : Option (Option Text))
      → IsValid jt dt q
      → InOrder (all_jobs jt dt q m)
  unfolding all_jobs
  all_jobs-InOrder q m v =
      keep-InOrder _ _
        (rows-InOrder (jt.range q.jobs) (jt.range-IsSorted q.jobs) (rows-Numbered q v))

  -- The pending jobs come in the order of their numbers, each once; a job is among them exactly when
  -- its row is there, of that mirror (if one is given), pending, and due.
  pub pending_jobs-InOrder :
      (q : JobQueue jt dt) (now : ℕ) (m : Option (Option Text))
      → IsValid jt dt q
      → InOrder (pending_jobs jt dt q now m)
        × ((s : ℕ)
            → has_seq s (pending_jobs jt dt q now m)
              ≡ holds
                  (λ job. of_mirror m job && (is_pending job.state && leb job.next_at now))
                  (jt.get q.jobs s))
  unfolding pending_jobs
  pending_jobs-InOrder q now m v = (
    keep-InOrder _ _ (all_jobs-InOrder q m v),
    λ s.
        any-keep (λ job. job.seq == s) (λ job. is_pending job.state && leb job.next_at now)
          (all_jobs jt dt q m)
        ∙ any_ext _ _ (all_jobs jt dt q m) (λ job. ground arith)
        ∙ any-all_jobs q s m (λ job. is_pending job.state && leb job.next_at now) v,
  )
