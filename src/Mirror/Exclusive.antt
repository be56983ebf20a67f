-- ===== src/Mirror/Exclusive.antt =====
-- src/sync/Mirror.js: `#drain` works on a key by one job at a time.
use canvas_stored.Prelude.{
  ℕ, ◌≤◌, ◌≡◌, true, false, ◌||◌, Option, none, some, List, [], ◌∷◌, arith, Text, leb, length,
  if_intro,
}
use canvas_stored.Lmdb.{Table, nat_key, text_key}
use canvas_stored.Jobs.Types.{Job, Queue}
use canvas_stored.Jobs.Methods.{take, pending_jobs}
use canvas_stored.Ledger.Rows.{Row}
use canvas_stored.Mirror.Engine.{Options}
use canvas_stored.Mirror.Execute.{
  job_keys, overlaps, Started, all_keys, claimed, start_jobs, drain_round,
}

module _ (jt : Table nat_key Job) (dt : Table text_key ℕ) (rt : Table text_key Row)
    (opts : Options) where
  -- No running job has a key of another.
  abbrev pub Apart : List (ℕ × List Text) → Type 0
  Apart [] = true ≡ true
  Apart ((seq, keys) ∷ running) =
      (overlaps keys (all_keys jt dt rt opts running) ≡ false) × Apart running

  abbrev pub Bounded : ℕ → Started jt dt rt opts → Type 0
  Bounded limit s = Apart s.running × (length s.running ≤ limit)

  claimed-Bounded :
      (limit : ℕ) (s : Started jt dt rt opts) (job : Job) (out : Option Job × Queue jt dt)
      → (leb limit (length s.running) || overlaps (job_keys job) (all_keys jt dt rt opts s.running))
        ≡ false
      → Bounded limit s
      → Bounded limit (claimed jt dt rt opts s job out)
  claimed-Bounded limit s job (none, q) h v = v
  claimed-Bounded limit s job (some taken, q) h v = ((ground arith, v.0), ground (arith, v.1))

  start_jobs-Bounded :
      (limit now : ℕ) (jobs : List Job) (s : Started jt dt rt opts)
      → Bounded limit s
      → Bounded limit (start_jobs jt dt rt opts limit now jobs s)
  unfolding start_jobs
  start_jobs-Bounded limit now [] s v = v
  start_jobs-Bounded limit now (job ∷ jobs) s v = start_jobs-Bounded limit now jobs _ (
      if_intro (Bounded limit)
        (leb limit (length s.running) || overlaps (job_keys job) (all_keys jt dt rt opts s.running))
        (λ _. v) (λ h. claimed-Bounded limit s job (take jt dt s.queue job.seq now) h v))

  -- If no running job has a key of another and at most `concurrency` jobs run, the same holds after
  -- a round of `#drain`, whatever is pending.
  pub drain_round-Bounded :
      (limit now : ℕ) (s : Started jt dt rt opts)
      → Bounded limit s
      → Bounded limit (drain_round jt dt rt opts limit now s)
  unfolding drain_round
  drain_round-Bounded limit now s v =
      start_jobs-Bounded limit now (pending_jobs jt dt s.queue now (some (some opts.id))) s v
