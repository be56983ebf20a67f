-- ===== src/Jobs/Preserve.antt =====
-- src/sync/JobQueue.js: every method keeps the invariant of the two sub-databases.
use mathlib.Core.Path.{subst}
use canvas_stored.Prelude.{
  ℕ, ◌≡◌, refl, sym, ◌⊎◌, inl, inr, Bool, not, ◌&&◌, Option, none, some, List, [], ◌∷◌, arith, Text,
  if_intro, All, All-map, All-keep, map,
}
use canvas_stored.Lmdb.{Table, nat_key, text_key, get-put, get-remove, range-get, Above, IsSorted}
use canvas_stored.Jobs.Types.{Job, Request, Thrown, is_pending, is_running}
use canvas_stored.Jobs.Rows.{merge, failed_job, of_mirror}
use canvas_stored.Jobs.Methods.{
  JobQueue, append_over, existing_job, take_row, complete_row, complete, fail_row, retry_row,
  cancel_jobs, clear_jobs, clear, recover_rows, recover, taken, retried, recovered, remove_row,
  all_jobs, open_queue,
}
use canvas_stored.Jobs.Invariant.{
  IsValid, rewrite-IsValid, append_fresh-IsValid, remove_row-IsValid,
}

module _ (jt : Table nat_key Job) (dt : Table text_key ℕ) where
  abbrev pub Valid : JobQueue jt dt → Type 0
  Valid = IsValid jt dt

  pub append_over-IsValid :
      (q : JobQueue jt dt) (r : Request) (now s : ℕ) (o : Option Job)
      → jt.get q.jobs s ≡ o
      → Valid q
      → Valid (append_over jt dt q r now o).1
  unfolding append_over merge
  append_over-IsValid q r now s none e v = append_fresh-IsValid jt dt q r now v
  append_over-IsValid q r now s (some j) e v =
      if_intro (λ (a : Job × JobQueue jt dt). Valid a.1) (is_pending j.state)
        (λ _.
          subst (λ i. Valid (record q { jobs = jt.put q.jobs i (merge j r now) }))
            (sym (v.stored s j e)) (rewrite-IsValid jt dt q s j (merge j r now) e refl refl refl v))
        (λ _. append_fresh-IsValid jt dt q r now v)

  pub existing_job-IsValid :
      (q : JobQueue jt dt) (r : Request) (now : ℕ) (o : Option ℕ)
      → Valid q
      → Valid (append_over jt dt q r now (existing_job jt dt q o)).1
  unfolding existing_job append_over
  existing_job-IsValid q r now none v = append_fresh-IsValid jt dt q r now v
  existing_job-IsValid q r now (some s) v = append_over-IsValid q r now s (jt.get q.jobs s) refl v

  pub take_row-IsValid :
      (q : JobQueue jt dt) (s now : ℕ) (o : Option Job)
      → jt.get q.jobs s ≡ o
      → Valid q
      → Valid (take_row jt dt q s now o).1
  unfolding take_row taken
  take_row-IsValid q s now none e v = v
  take_row-IsValid q s now (some j) e v =
      if_intro (λ (a : Option Job × JobQueue jt dt). Valid a.1) (is_pending j.state)
        (λ _. rewrite-IsValid jt dt q s j (taken j now) e refl refl refl v) (λ _. v)

  complete_row-IsValid :
      (q : JobQueue jt dt) (s : ℕ) (o : Option Job)
      → jt.get q.jobs s ≡ o
      → Valid q
      → Valid (complete_row jt dt q s o).1
  unfolding complete_row
  complete_row-IsValid q s none e v = v
  complete_row-IsValid q s (some j) e v = remove_row-IsValid jt dt q s j (inr e) v

  pub fail_row-IsValid :
      (q : JobQueue jt dt) (s : ℕ) (x : Thrown) (again permanent : Bool) (now : ℕ) (o : Option Job)
      → jt.get q.jobs s ≡ o
      → Valid q
      → Valid (fail_row jt dt q s x again permanent now o).1
  unfolding fail_row failed_job
  fail_row-IsValid q s x again permanent now none e v = v
  fail_row-IsValid q s x again permanent now (some j) e v =
      rewrite-IsValid jt dt q s j (failed_job j x again permanent now) e (ground arith)
        (ground arith) (ground arith) v

  pub retry_row-IsValid :
      (q : JobQueue jt dt) (s now : ℕ) (o : Option Job)
      → jt.get q.jobs s ≡ o
      → Valid q
      → Valid (retry_row jt dt q s now o).1
  unfolding retry_row retried
  retry_row-IsValid q s now none e v = v
  retry_row-IsValid q s now (some j) e v =
      rewrite-IsValid jt dt q s j (retried j now) e refl refl refl v

  pub complete-IsValid : (q : JobQueue jt dt) (s : ℕ) → Valid q → Valid (complete jt dt q s).1
  unfolding complete
  complete-IsValid q s v = complete_row-IsValid q s (jt.get q.jobs s) refl v

  pub cancel_jobs-IsValid :
      (running : Bool) (jobs : List Job) (q : JobQueue jt dt) (n : ℕ)
      → Valid q
      → Valid (cancel_jobs jt dt q running n jobs).1
  unfolding cancel_jobs
  cancel_jobs-IsValid running [] q n v = v
  cancel_jobs-IsValid running (j ∷ jobs) q n v = cancel_jobs-IsValid running jobs _ _ (
      if_intro Valid (is_running j.state && not running) (λ _. v) (λ _. complete-IsValid q j.seq v))

  -- A job that was listed is on its row, or the row is gone.
  abbrev Listed : JobQueue jt dt → Job → Type 0
  Listed q j = (jt.get q.jobs j.seq ≡ none) ⊎ (jt.get q.jobs j.seq ≡ some j)

  remove_row-Listed :
      (q : JobQueue jt dt) (s : ℕ) (i j : Job) → Listed q j → Listed (remove_row jt dt q s i) j
  unfolding remove_row
  remove_row-Listed q s i j (inl e) = inl (ground (arith, get-remove jt q.jobs s j.seq))
  remove_row-Listed q s i j (inr e) = ground (arith, get-remove jt q.jobs s j.seq)

  clear_jobs-IsValid :
      (q : JobQueue jt dt) (jobs : List Job)
      → All (Listed q) jobs
      → Valid q
      → Valid (clear_jobs jt dt q jobs)
  unfolding clear_jobs
  clear_jobs-IsValid q [] h v = v
  clear_jobs-IsValid q (j ∷ jobs) h v =
      clear_jobs-IsValid (remove_row jt dt q j.seq j) jobs
        (All-map jobs (λ i. remove_row-Listed q j.seq j i) h.1)
        (remove_row-IsValid jt dt q j.seq j h.0 v)

  -- The jobs that `all` yields stand on their rows.
  pub all_jobs-stored :
      (q : JobQueue jt dt) (m : Option (Option Text))
      → Valid q
      → All (λ j. jt.get q.jobs j.seq ≡ some j) (all_jobs jt dt q m)
  unfolding all_jobs
  all_jobs-stored q m v =
      All-keep (λ j. jt.get q.jobs j.seq ≡ some j) (of_mirror m)
        (map (λ row. row.1) (jt.range q.jobs)) (go (jt.range q.jobs) (range-get jt q.jobs))
    where
      go :
          (rows : List (ℕ × Job))
          → All (λ row. jt.get q.jobs row.0 ≡ some row.1) rows
          → All (λ j. jt.get q.jobs j.seq ≡ some j) (map (λ row. row.1) rows)
      go [] h = tt
      go ((s, j) ∷ rows) h =
          (subst (λ i. jt.get q.jobs i ≡ some j) (sym (v.stored s j h.0)) h.0, go rows h.1)

  pub clear-IsValid :
      (q : JobQueue jt dt) (m : Option (Option Text)) → Valid q → Valid (clear jt dt q m)
  unfolding clear
  clear-IsValid q m v =
      clear_jobs-IsValid q (all_jobs jt dt q m)
        (All-map (all_jobs jt dt q m) (λ j e. inr e) (all_jobs-stored q m v)) v

  -- A row above the one that is written is still there.
  pub put-present :
      (d : jt.Db) (s : ℕ) (w : Job) (rows : List (ℕ × Job))
      → Above nat_key s rows
      → All (λ row. jt.get d row.0 ≡ some row.1) rows
      → All (λ row. jt.get (jt.put d s w) row.0 ≡ some row.1) rows
  put-present d s w [] a h = tt
  put-present d s w ((i, j) ∷ rows) a h =
      (ground (arith, get-put jt d s i w, a.0, h.0), put-present d s w rows a.1 h.1)

  recover_rows-IsValid :
      (q : JobQueue jt dt) (now : ℕ) (rows : List (ℕ × Job)) (d : jt.Db) (n : ℕ)
      → IsSorted nat_key rows
      → All (λ row. jt.get d row.0 ≡ some row.1) rows
      → Valid (record q { jobs = d })
      → Valid (record q { jobs = (recover_rows jt dt d now n rows).1 })
  unfolding recover_rows recovered
  recover_rows-IsValid q now [] d n sorted h v = v
  recover_rows-IsValid q now ((s, j) ∷ rows) d n sorted h v =
      recover_rows-IsValid q now rows _ _ sorted.1
        (if_intro (λ (d' : jt.Db). All (λ row. jt.get d' row.0 ≡ some row.1) rows)
          (is_running j.state) (λ _. put-present d s (recovered j now) rows sorted.0 h.1)
          (λ _. h.1))
        (if_intro (λ (d' : jt.Db). Valid (record q { jobs = d' })) (is_running j.state)
          (λ _.
            rewrite-IsValid jt dt (record q { jobs = d }) s j (recovered j now) h.0 refl refl refl
              v)
          (λ _. v))

  recover-IsValid : (q : JobQueue jt dt) (now : ℕ) → Valid q → Valid (recover jt dt q now).1
  unfolding recover
  recover-IsValid q now v =
      recover_rows-IsValid q now (jt.range q.jobs) q.jobs 0 (jt.range-IsSorted q.jobs)
        (range-get jt q.jobs) v

  -- Opening the two sub-databases again.
  pub reopen-IsValid :
      (q : JobQueue jt dt) (now : ℕ) → Valid q → Valid (open_queue jt dt q.jobs q.dedupe now)
  unfolding open_queue
  reopen-IsValid q now v =
      subst (λ n. Valid (recover jt dt (record q { seq = n }) now).1) (sym v.counted)
        (recover-IsValid q now v)
