-- ===== src/Mirror/Queued.antt =====
-- src/sync/Mirror.js: the kinds of work that `#enqueue` and the cancellations leave in the queue.
use canvas_stored.Prelude.{
  Returns, ℕ, ◌+◌, ◌≡◌, Bool, true, false, Option, none, some, List, [], ◌∷◌, arith, Text, text_eq,
  same, if_intro,
}
use canvas_stored.Lmdb.{Table, nat_key, text_key, get-put}
use canvas_stored.Jobs.Types.{Job, Payload, Request, Queue}
use canvas_stored.Jobs.Rows.{merge, new_job}
use canvas_stored.Jobs.Methods.{
  append, append_over, append_fresh, existing_job, cancel, cancel_jobs, by_key,
}
use canvas_stored.Jobs.Types.{dedupe_key, intent}
use canvas_stored.Jobs.Invariant.{IsValid}
use canvas_stored.Jobs.Preserve.{complete-IsValid, existing_job-IsValid}
use canvas_stored.Jobs.Cancel.{get-complete}
use canvas_stored.Ledger.Rows.{Row}
use canvas_stored.Mirror.Engine.{
  Options, Engine, request, is_superseded, supersede, enqueue, queued,
}

module _ (jt : Table nat_key Job) (dt : Table text_key ℕ) (id : Text) (bad : Text → Bool) where
  -- No job of the mirror is of a kind that `bad` names.
  pub record IsFree (q : Queue jt dt) : Type 0 where
    pub valid : IsValid jt dt q
    pub free :
        (s : ℕ) (job : Job)
        → jt.get q.jobs s ≡ some job
        → same job.mirror (some id) ≡ true
        → bad job.kind ≡ false

  pub cancel-IsFree : (q : Queue jt dt) (s : ℕ) → IsFree q → IsFree (cancel jt dt q s).1
  unfolding cancel
  cancel-IsFree q s v = record {
    valid = complete-IsValid jt dt q s v.valid;
    free = λ i job e m. ground (arith, get-complete jt dt q s i, v.free i job);
  }

  pub cancel_jobs-IsFree :
      (running : Bool) (jobs : List Job) (q : Queue jt dt) (n : ℕ)
      → IsFree q
      → IsFree (cancel_jobs jt dt q running n jobs).1
  unfolding cancel_jobs cancel
  cancel_jobs-IsFree running [] q n v = v
  cancel_jobs-IsFree running (job ∷ jobs) q n v =
      cancel_jobs-IsFree running jobs _ _
        (if_intro IsFree _ (λ _. v) (λ _. cancel-IsFree q job.seq v))

  pub supersede-IsFree :
      (opts : Options) (rt : Table text_key Row) (kind : Text) (jobs : List Job) (q : Queue jt dt)
      → IsFree q
      → IsFree (supersede jt dt rt opts kind jobs q)
  unfolding supersede
  supersede-IsFree opts rt kind [] q v = v
  supersede-IsFree opts rt kind (job ∷ jobs) q v =
      supersede-IsFree opts rt kind jobs _
        (if_intro IsFree (is_superseded kind job) (λ _. cancel-IsFree q job.seq v) (λ _. v))

  append_over-free :
      (q : Queue jt dt) (r : Request) (now : ℕ) (o : Option Job)
      → bad r.kind ≡ false
      → IsFree q
      → (s : ℕ) (job : Job) → jt.get (append_over jt dt q r now o).1.jobs s ≡ some job
      → same job.mirror (some id) ≡ true
      → bad job.kind ≡ false
  unfolding append_over append_fresh new_job merge
  append_over-free q r now none h v s job e m =
      ground (arith, get-put jt q.jobs (q.seq + 1) s (new_job (q.seq + 1) r now), v.free s job)
  append_over-free q r now (some w) h v s job e m = ground (
    arith,
    get-put jt q.jobs (q.seq + 1) s (new_job (q.seq + 1) r now),
    get-put jt q.jobs w.seq s (merge w r now),
    v.free s job,
  )

  -- A request of a kind that `bad` does not name is appended.
  pub append-IsFree :
      (q : Queue jt dt) (r : Request) (now : ℕ)
      → text_eq r.kind [] ≡ false
      → bad r.kind ≡ false
      → IsFree q
      → Returns (λ out. IsFree out.1) (append jt dt q r now)
  unfolding append
  append-IsFree q r now named h v =
      let o = existing_job jt dt q (dt.get q.dedupe (dedupe_key r.mirror (intent r))) in
      if_intro (Returns (λ out. IsFree out.1)) (text_eq r.kind []) (λ e. ground arith)
        (λ _. record {
          valid =
              existing_job-IsValid jt dt q r now (dt.get q.dedupe (dedupe_key r.mirror (intent r)))
                v.valid;
          free = append_over-free q r now o h v;
        })

  pub queued-IsFree :
      (rt : Table text_key Row) (opts : Options) (e : Engine jt dt rt)
      (o : Option (Job × Queue jt dt))
      → Returns (λ out. IsFree out.1) o
      → Returns (λ out. IsFree out.queue) (queued jt dt rt opts e o)
  queued-IsFree rt opts e none h = h
  queued-IsFree rt opts e (some (job, q)) h = h

  -- `#enqueue` does not throw, and adds no job of a kind that `bad` names.
  pub enqueue-IsFree :
      (rt : Table text_key Row) (opts : Options) (e : Engine jt dt rt) (kind key : Text)
      (payload : Payload) (now : ℕ)
      → text_eq kind [] ≡ false
      → bad kind ≡ false
      → IsFree e.queue
      → Returns (λ out. IsFree out.queue) (enqueue jt dt rt opts e kind key payload now)
  unfolding enqueue request
  enqueue-IsFree rt opts e kind key payload now named h v =
      let jobs = by_key jt dt e.queue key (some (some opts.id)) in
      let q = supersede jt dt rt opts kind jobs e.queue in
      let r = request kind opts.id key payload none in
      queued-IsFree rt opts e (append jt dt q r now)
        (append-IsFree q r now named h (supersede-IsFree opts rt kind jobs e.queue v))
