-- ===== src/Mirror/Outcomes.antt =====
-- src/sync/Mirror.js: what `#execute` makes of the row of the job that it ran.
use mathlib.Core.Option
use canvas_stored.Prelude.{
  ℕ, ◌≡◌, refl, ◌∙◌, ap, Bool, true, Option, none, some, arith, Text, [], or_else, Bool-cases, inl,
  inr, if◌then◌else◌,
}
use canvas_stored.Lmdb.{Table, nat_key, text_key, get-put_self}
use canvas_stored.Jobs.Types.{Job, Queue, Thrown}
use canvas_stored.Jobs.Rows.{failed_job}
use canvas_stored.Jobs.Methods.{fail, fail_row, retry, retry_row, retried}
use canvas_stored.Jobs.Cancel.{get-complete}
use canvas_stored.Ledger.Rows.{Row}
use canvas_stored.Mirror.Engine.{Options, State, skip_key}
use canvas_stored.Mirror.Answers.{Failure, Ran, is_offline, is_permanent}
use canvas_stored.Mirror.Execute.{executed, executed_as, refusal, thrown_of, skip_refused}

module _ (jt : Table nat_key Job) (dt : Table text_key ℕ) (rt : Table text_key Row)
    (opts : Options) where
  -- The row after a run: gone where it threw nothing, pending at once where a side was offline, else
  -- what `fail` makes of it.
  abbrev pub row_after : ℕ → Option Failure → Option Job → Option Job
  row_after now none o = none
  row_after now (some f) o =
      if is_offline f
      then Option.map (λ job. retried job now) o
      else Option.map (λ job. failed_job job (thrown_of jt dt rt opts f) true (is_permanent f) now)
          o

  get-retry_row :
      (q : Queue jt dt) (s now : ℕ) (o : Option Job)
      → jt.get q.jobs s ≡ o
      → jt.get (retry_row jt dt q s now o).1.jobs s ≡ Option.map (λ job. retried job now) o
  unfolding retry_row
  get-retry_row q s now none e = e
  get-retry_row q s now (some job) e = get-put_self jt q.jobs s (retried job now)

  get-fail_row :
      (q : Queue jt dt) (s now : ℕ) (x : Thrown) (again permanent : Bool) (o : Option Job)
      → jt.get q.jobs s ≡ o
      → jt.get (fail_row jt dt q s x again permanent now o).1.jobs s
        ≡ Option.map (λ job. failed_job job x again permanent now) o
  unfolding fail_row
  get-fail_row q s now x again permanent none e = e
  get-fail_row q s now x again permanent (some job) e =
      get-put_self jt q.jobs s (failed_job job x again permanent now)

  skip_key-queue :
      (e : State jt dt rt opts) (key reason : Text) (now : ℕ)
      → (skip_key jt dt rt opts e key reason now).queue ≡ e.queue
  unfolding skip_key
  skip_key-queue e key reason now = ground arith

  skip_refused-queue :
      (e : State jt dt rt opts) (job : Job) (f : Failure) (now : ℕ)
      → (skip_refused jt dt rt opts e job f now).queue ≡ e.queue
  skip_refused-queue e job f now =
      ground (arith, skip_key-queue e (or_else job.key []) (refusal jt dt rt opts f) now)

  executed_as_lem :
      (job : Job) (now : ℕ) (e : State jt dt rt opts) (failed : Option Failure)
      → jt.get (executed_as jt dt rt opts job now e failed).queue.jobs job.seq
        ≡ row_after now failed (jt.get e.queue.jobs job.seq)
  unfolding executed_as retry fail
  executed_as_lem job now e none = ground (arith, get-complete jt dt e.queue job.seq job.seq)
  executed_as_lem job now e (some f) = elim (Bool-cases (is_offline f)) [
    | inl off ↦ rw off (get-retry_row e.queue job.seq now (jt.get e.queue.jobs job.seq) refl)
    | inr on ↦ rw on (
        ap (λ (q : Queue jt dt). jt.get q.jobs job.seq) (skip_refused-queue _ job f now)
        ∙ get-fail_row e.queue job.seq now (thrown_of jt dt rt opts f) true (is_permanent f)
            (jt.get e.queue.jobs job.seq) refl)
  ]

  -- After `#execute` the job's row is gone if its run threw nothing; it is pending at once if a side
  -- was offline; else it is as `fail` leaves it, parked if the error is a permanent one.
  pub executed_lem :
      (job : Job) (now : ℕ) (ran : Ran (State jt dt rt opts))
      → jt.get (executed jt dt rt opts job now ran).queue.jobs job.seq
        ≡ row_after now ran.failed (jt.get ran.state.queue.jobs job.seq)
  unfolding executed
  executed_lem job now ran = executed_as_lem job now ran.state ran.failed
