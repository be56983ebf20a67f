-- ===== src/Jobs/Recover.antt =====
-- src/sync/JobQueue.js, `recover`: after a crash no job is left running.
use mathlib.Core.Option
use canvas_stored.Prelude.{
  ℕ, ◌+◌, ◌≡◌, refl, ◌∙◌, ap, false, Option, none, some, List, [], ◌∷◌, arith, length, keep, map,
  All, if◌then◌else◌, inl, inr, Bool-cases,
}
use canvas_stored.Lmdb.{Table, nat_key, text_key, get-put, range-get, Above, IsSorted, lookup}
use canvas_stored.Jobs.Types.{Job, is_running}
use canvas_stored.Jobs.Iterate.{holds}
use canvas_stored.Jobs.Preserve.{put-present}
use canvas_stored.Jobs.Methods.{JobQueue, recover_rows, recover, recovered}

-- What `recover` makes of a row.
abbrev pub awake : ℕ → Job → Job
awake now job = if is_running job.state then recovered job now else job

-- What the loop makes of the row that `d` had, by the row that is still to come.
abbrev woken : ℕ → Option Job → Option Job → Option Job
woken now none old = old
woken now (some job) old = some (awake now job)

lookup-Above : (s : ℕ) (rows : List (ℕ × Job)) → Above nat_key s rows → lookup nat_key s rows ≡ none
unfolding lookup
lookup-Above s [] a = refl
lookup-Above s ((k, job) ∷ rows) a = ground (arith, lookup-Above s rows a.1, a.0)

module _ (jt : Table nat_key Job) (dt : Table text_key ℕ) where
  get-recover_rows :
      (now s : ℕ) (rows : List (ℕ × Job)) (d : jt.Db) (n : ℕ)
      → IsSorted nat_key rows
      → All (λ row. jt.get d row.0 ≡ some row.1) rows
      → jt.get (recover_rows jt dt d now n rows).1 s
        ≡ woken now (lookup nat_key s rows) (jt.get d s)
  unfolding recover_rows lookup
  get-recover_rows now s [] d n sorted h = refl
  get-recover_rows now s ((k, job) ∷ rows) d n sorted h = elim (Bool-cases (is_running job.state)) [
    | inl r ↦ ground (
      arith,
      get-recover_rows now s rows (jt.put d k (recovered job now)) (n + 1) sorted.1
          (put-present jt dt d k (recovered job now) rows sorted.0 h.1),
      get-put jt d k s (recovered job now),
      lookup-Above k rows sorted.0,
      r,
    )
    | inr r ↦
        ground (
          arith,
          get-recover_rows now s rows d n sorted.1 h.1,
          lookup-Above k rows sorted.0,
          h.0,
          r,
        )
  ]

  -- The loop counts the running rows.
  recover_rows-count :
      (now : ℕ) (rows : List (ℕ × Job)) (d : jt.Db) (n : ℕ)
      → (recover_rows jt dt d now n rows).0
        ≡ n + length (keep (λ job. is_running job.state) (map (λ row. row.1) rows))
  unfolding recover_rows
  recover_rows-count now [] d n = omega arith
  recover_rows-count now ((k, job) ∷ rows) d n = ground (
    arith,
    recover_rows-count now rows (jt.put d k (recovered job now)) (n + 1),
    recover_rows-count now rows d n,
  )

  woken_self : (now : ℕ) (o : Option Job) → woken now o o ≡ Option.map (awake now) o
  woken_self now none = refl
  woken_self now (some job) = refl

  awake-rests :
      (now : ℕ) (o : Option Job)
      → holds (λ job. is_running job.state) (Option.map (awake now) o) ≡ false
  unfolding recovered
  awake-rests now none = refl
  awake-rests now (some job) = ground arith

  -- `recover` turns every running row into a pending one, stamped with the time, and leaves each
  -- other row as it is; it returns how many rows were running. So no row is running after it.
  pub recover_lem :
      (q : JobQueue jt dt) (now : ℕ)
      → let (n, q') = recover jt dt q now in
        ((s : ℕ) → jt.get q'.jobs s ≡ Option.map (awake now) (jt.get q.jobs s))
        × ((s : ℕ) → holds (λ job. is_running job.state) (jt.get q'.jobs s) ≡ false)
        × (n ≡ length (keep (λ job. is_running job.state) (map (λ row. row.1) (jt.range q.jobs))))
  unfolding recover
  recover_lem q now =
      let rows = jt.range q.jobs in
      let reads = λ (s : ℕ).
        get-recover_rows now s rows q.jobs 0 (jt.range-IsSorted q.jobs) (range-get jt q.jobs)
        ∙ (rw (← jt.get-range) (woken_self now (jt.get q.jobs s))) in
      (
        reads,
        (λ s.
            ap (holds (λ job. is_running job.state)) (reads s) ∙ awake-rests now (jt.get q.jobs s)),
        recover_rows-count now rows q.jobs 0 ∙ omega arith,
      )
