-- ===== src/Jobs/Calls.antt =====
-- src/sync/JobQueue.js: any sequence of calls and restarts keeps the invariant.
use mathlib.Core.Path.{subst}
use canvas_stored.Prelude.{
  ℕ, ◌≡◌, refl, Bool, Option, none, some, List, [], ◌∷◌, Text, text_eq, if_intro,
}
use canvas_stored.Lmdb.{Table, nat_key, text_key}
use canvas_stored.Jobs.Types.{Job, Request, Thrown, dedupe_key, intent}
use canvas_stored.Jobs.Methods.{
  JobQueue, append, take, complete, fail, retry, cancel_by_key, clear, by_key, open_queue,
}
use canvas_stored.Jobs.Invariant.{IsValid}
use canvas_stored.Jobs.Preserve.{
  existing_job-IsValid, complete-IsValid, take_row-IsValid, fail_row-IsValid, retry_row-IsValid,
  cancel_jobs-IsValid, clear-IsValid, reopen-IsValid,
}

module _ (jt : Table nat_key Job) (dt : Table text_key ℕ) where
  -- The calls that a client makes; `reopen` is a crash and a start, or a close and a start.
  pub data Call : Type 0 where
    append_call : Request → ℕ → Call
    take_call : ℕ → ℕ → Call
    complete_call : ℕ → Call
    fail_call : ℕ → Thrown → Bool → Bool → ℕ → Call
    retry_call : ℕ → ℕ → Call
    cancel_call : Text → Option (Option Text) → Bool → Call
    clear_call : Option (Option Text) → Call
    reopen_call : ℕ → Call

  -- The queue after a call; a call that throws leaves it.
  abbrev after_append : JobQueue jt dt → Option (Job × JobQueue jt dt) → JobQueue jt dt
  after_append q none = q
  after_append q (some (job, q')) = q'

  abbrev pub perform : JobQueue jt dt → Call → JobQueue jt dt
  perform q (append_call r now) = after_append q (append jt dt q r now)
  perform q (take_call s now) = (take jt dt q s now).1
  perform q (complete_call s) = (complete jt dt q s).1
  perform q (fail_call s x again permanent now) = (fail jt dt q s x again permanent now).1
  perform q (retry_call s now) = (retry jt dt q s now).1
  perform q (cancel_call key m running) = (cancel_by_key jt dt q key m running).1
  perform q (clear_call m) = clear jt dt q m
  perform q (reopen_call now) = open_queue jt dt q.jobs q.dedupe now

  abbrev pub perform_all : JobQueue jt dt → List Call → JobQueue jt dt
  perform_all q [] = q
  perform_all q (c ∷ cs) = perform_all (perform q c) cs

  append-IsValid :
      (q : JobQueue jt dt) (r : Request) (now : ℕ)
      → IsValid jt dt q
      → IsValid jt dt (after_append q (append jt dt q r now))
  unfolding append
  append-IsValid q r now v =
      if_intro (λ (a : Option (Job × JobQueue jt dt)). IsValid jt dt (after_append q a))
        (text_eq r.kind []) (λ _. v)
        (λ _.
          existing_job-IsValid jt dt q r now (dt.get q.dedupe (dedupe_key r.mirror (intent r))) v)

  pub appended-IsValid :
      (q q' : JobQueue jt dt) (r : Request) (now : ℕ) (job : Job)
      → append jt dt q r now ≡ some (job, q')
      → IsValid jt dt q
      → IsValid jt dt q'
  appended-IsValid q q' r now job e v =
      subst (λ a. IsValid jt dt (after_append q a)) e (append-IsValid q r now v)

  pub taken-IsValid :
      (q q' : JobQueue jt dt) (s now : ℕ) (o : Option Job)
      → take jt dt q s now ≡ (o, q')
      → IsValid jt dt q
      → IsValid jt dt q'
  unfolding take
  taken-IsValid q q' s now o e v =
      subst (λ (a : Option Job × JobQueue jt dt). IsValid jt dt a.1) e
        (take_row-IsValid jt dt q s now (jt.get q.jobs s) refl v)

  perform-IsValid : (q : JobQueue jt dt) (c : Call) → IsValid jt dt q → IsValid jt dt (perform q c)
  unfolding take fail retry cancel_by_key
  perform-IsValid q (append_call r now) v = append-IsValid q r now v
  perform-IsValid q (take_call s now) v = take_row-IsValid jt dt q s now (jt.get q.jobs s) refl v
  perform-IsValid q (complete_call s) v = complete-IsValid jt dt q s v
  perform-IsValid q (fail_call s x again permanent now) v =
      fail_row-IsValid jt dt q s x again permanent now (jt.get q.jobs s) refl v
  perform-IsValid q (retry_call s now) v = retry_row-IsValid jt dt q s now (jt.get q.jobs s) refl v
  perform-IsValid q (cancel_call key m running) v =
      cancel_jobs-IsValid jt dt running (by_key jt dt q key m) q 0 v
  perform-IsValid q (clear_call m) v = clear-IsValid jt dt q m v
  perform-IsValid q (reopen_call now) v = reopen-IsValid jt dt q now v

  -- Whatever calls are made, and wherever the process is restarted between them: a job stands under
  -- its own number, the numbers lie between 1 and the counter, a dedupe row names a job with that
  -- dedupe key, and the counter in memory is the one on disk.
  pub perform_all-IsValid :
      (q : JobQueue jt dt) (cs : List Call) → IsValid jt dt q → IsValid jt dt (perform_all q cs)
  perform_all-IsValid q [] v = v
  perform_all-IsValid q (c ∷ cs) v = perform_all-IsValid (perform q c) cs (perform-IsValid q c v)
