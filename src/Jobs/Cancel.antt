-- ===== src/Jobs/Cancel.antt =====
-- src/sync/JobQueue.js, `complete`, `cancelByKey` and `counters`.
use canvas_stored.Prelude.{
  ℕ, ◌+◌, ◌≡◌, refl, ◌∙◌, ap, Bool, not, ◌&&◌, Option, none, some, List, [], ◌∷◌, arith, Text, keep,
  any, if◌then◌else◌, ◌==◌, inl, inr, Bool-cases,
}
use canvas_stored.Lmdb.{Table, nat_key, text_key, get-remove}
use canvas_stored.Jobs.Types.{Job, is_running}
use canvas_stored.Jobs.Rows.{touches, of_mirror}
use canvas_stored.Jobs.Methods.{
  JobQueue, all_jobs, complete, complete_row, remove_row, cancel_jobs, cancel_by_key, by_key,
}
use canvas_stored.Jobs.Invariant.{IsValid}
use canvas_stored.Jobs.Iterate.{holds, any-all_jobs, any-keep, any_ext}

-- Is the job spared by `cancelByKey`?
abbrev pub is_spared : Bool → Job → Bool
is_spared include_running job = is_running job.state && not include_running

-- What `cancelByKey` leaves of a row.
abbrev pub uncancelled : Text → Option (Option Text) → Bool → Option Job → Option Job
uncancelled key m include_running none = none
uncancelled key m include_running (some job) =
    if of_mirror m job && (touches key job && not (is_spared include_running job))
    then none
    else some job

module _ (jt : Table nat_key Job) (dt : Table text_key ℕ) where
  get-complete_row :
      (q : JobQueue jt dt) (i s : ℕ) (o : Option Job)
      → jt.get q.jobs i ≡ o
      → jt.get (complete_row jt dt q i o).1.jobs s ≡ (if i == s then none else jt.get q.jobs s)
  unfolding complete_row remove_row
  get-complete_row q i s none e = ground arith
  get-complete_row q i s (some job) e = ground (arith, get-remove jt q.jobs i s)

  pub get-complete :
      (q : JobQueue jt dt) (i s : ℕ)
      → jt.get (complete jt dt q i).1.jobs s ≡ (if i == s then none else jt.get q.jobs s)
  unfolding complete
  get-complete q i s = get-complete_row q i s (jt.get q.jobs i) refl

  get-cancel_jobs :
      (running : Bool) (s : ℕ) (jobs : List Job) (q : JobQueue jt dt) (n : ℕ)
      → jt.get (cancel_jobs jt dt q running n jobs).1.jobs s ≡ (
          if any (λ job. job.seq == s && not (is_spared running job)) jobs
          then none
          else jt.get q.jobs s)
  unfolding cancel_jobs
  get-cancel_jobs running s [] q n = refl
  get-cancel_jobs running s (job ∷ jobs) q n = elim (Bool-cases (is_spared running job)) [
    | inl keeps ↦ ground (arith, keeps, get-cancel_jobs running s jobs q n)
    | inr goes ↦ ground (
      arith,
      goes,
      get-complete q job.seq s,
      get-cancel_jobs running s jobs (complete jt dt q job.seq).1
          (if (complete jt dt q job.seq).0 then n + 1 else n),
    )
  ]

  uncancelled_lem :
      (key : Text) (m : Option (Option Text)) (running : Bool) (o : Option Job)
      → (if holds (λ job. of_mirror m job && (touches key job && not (is_spared running job))) o
          then none
          else o)
        ≡ uncancelled key m running o
  uncancelled_lem key m running none = refl
  uncancelled_lem key m running (some job) = refl

  -- After `cancelByKey` the rows of the mirror's jobs that touch the key are gone, but for the
  -- running ones where these are not included; every other row is as it was.
  pub cancel_by_key_lem :
      (q : JobQueue jt dt) (key : Text) (m : Option (Option Text)) (include_running : Bool) (s : ℕ)
      → IsValid jt dt q
      → jt.get (cancel_by_key jt dt q key m include_running).1.jobs s
        ≡ uncancelled key m include_running (jt.get q.jobs s)
  unfolding cancel_by_key by_key
  cancel_by_key_lem q key m include_running s v =
      let goes = λ (job : Job). touches key job && not (is_spared include_running job) in
      let found =
        any-keep (λ job. job.seq == s && not (is_spared include_running job)) (touches key)
          (all_jobs jt dt q m)
        ∙ any_ext _ _ (all_jobs jt dt q m) (λ job. ground arith)
        ∙ any-all_jobs jt dt q s m goes v in
      get-cancel_jobs include_running s (keep (touches key) (all_jobs jt dt q m)) q 0
      ∙ ap (λ b. if b then none else jt.get q.jobs s) found
      ∙ uncancelled_lem key m include_running (jt.get q.jobs s)
