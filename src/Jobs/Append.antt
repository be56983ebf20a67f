-- ===== src/Jobs/Append.antt =====
-- src/sync/JobQueue.js, `append` and `take`: one pending job for each intent.
use mathlib.Core.Path.{subst}
use mathlib.Core.List.{[]}
use canvas_stored.Prelude.{
  Returns, ℕ, ◌+◌, ◌≤◌, ◌<◌, ◌≡◌, ◌≢◌, refl, ap, ◌∙◌, inl, inr, true, false, Option, none, some,
  arith, text_eq, some_eq, Bool-cases,
}
use canvas_stored.Lmdb.{Table, nat_key, text_key, get-put, get-put_self}
use canvas_stored.Jobs.Types.{Job, Request, pending, running, is_pending, dedupe_key, intent}
use canvas_stored.Jobs.Rows.{merge, new_job}
use canvas_stored.Jobs.Methods.{
  JobQueue, append_over, existing_job, append, append_fresh, take_row, take, taken,
}
use canvas_stored.Jobs.Calls.{appended-IsValid, taken-IsValid}
use canvas_stored.Jobs.Invariant.{IsValid, dedupe_key-ne-seq_key}

module _ (jt : Table nat_key Job) (dt : Table text_key ℕ) where
  -- What an append leaves.
  pub record Appended (q : JobQueue jt dt) (r : Request) (job : Job) (q' : JobQueue jt dt)
      : Type 0 where
    pub on_row : jt.get q'.jobs job.seq ≡ some job
    pub waits : job.state ≡ pending
    pub same_key : job.key ≡ r.key
    pub same_payload : job.payload ≡ r.payload
    pub not_early : r.not_before ≤ job.next_at
    pub is_named : dt.get q'.dedupe (dedupe_key r.mirror (intent r)) ≡ some job.seq
    pub others : (s : ℕ) → s ≢ job.seq → jt.get q'.jobs s ≡ jt.get q.jobs s

  append_fresh-Appended :
      (q : JobQueue jt dt) (r : Request) (now : ℕ)
      → Appended q r (append_fresh jt dt q r now).0 (append_fresh jt dt q r now).1
  unfolding append_fresh new_job
  append_fresh-Appended q r now = record {
    on_row = ground (arith, get-put jt q.jobs (q.seq + 1) (q.seq + 1) (new_job (q.seq + 1) r now));
    waits = refl;
    same_key = refl;
    same_payload = refl;
    not_early = omega arith;
    is_named = rw get-put (
        rw dedupe_key-ne-seq_key
          (get-put_self dt q.dedupe (dedupe_key r.mirror (intent r)) (q.seq + 1)));
    others = λ s h. ground (arith, get-put jt q.jobs (q.seq + 1) s (new_job (q.seq + 1) r now), h);
  }

  merged-Appended :
      (q : JobQueue jt dt) (r : Request) (now s : ℕ) (j : Job)
      → IsValid jt dt q
      → dt.get q.dedupe (dedupe_key r.mirror (intent r)) ≡ some s
      → jt.get q.jobs s ≡ some j
      → is_pending j.state ≡ true
      → Appended q r (merge j r now) (record q { jobs = jt.put q.jobs j.seq (merge j r now) })
  unfolding merge
  merged-Appended q r now s j v n e p = record {
    on_row = get-put_self jt q.jobs j.seq (merge j r now);
    waits = ground arith;
    same_key = refl;
    same_payload = refl;
    not_early = omega arith;
    is_named = ground (arith, v.stored s j e);
    others = λ i h. ground (arith, get-put jt q.jobs j.seq i (merge j r now), h);
  }

  append_over-Appended :
      (q : JobQueue jt dt) (r : Request) (now s : ℕ) (o : Option Job)
      → IsValid jt dt q
      → dt.get q.dedupe (dedupe_key r.mirror (intent r)) ≡ some s
      → jt.get q.jobs s ≡ o
      → Appended q r (append_over jt dt q r now o).0 (append_over jt dt q r now o).1
  unfolding append_over
  append_over-Appended q r now s none v n e = append_fresh-Appended q r now
  append_over-Appended q r now s (some j) v n e = elim (Bool-cases (is_pending j.state)) [
    | inl p ↦ rw p (merged-Appended q r now s j v n e p)
    | inr p ↦ rw p (append_fresh-Appended q r now)
  ]

  existing_job-Appended :
      (q : JobQueue jt dt) (r : Request) (now : ℕ) (o : Option ℕ)
      → IsValid jt dt q
      → dt.get q.dedupe (dedupe_key r.mirror (intent r)) ≡ o
      → let (job, q') = append_over jt dt q r now (existing_job jt dt q o) in Appended q r job q'
  unfolding existing_job append_over
  existing_job-Appended q r now none v n = append_fresh-Appended q r now
  existing_job-Appended q r now (some s) v n =
      append_over-Appended q r now s (jt.get q.jobs s) v n refl

  append-returns :
      (q : JobQueue jt dt) (r : Request) (now : ℕ)
      → text_eq r.kind [] ≡ false
      → (job : Job) × (q' : JobQueue jt dt) × (append jt dt q r now ≡ some (job, q'))
  unfolding append
  append-returns q r now named =
      let out =
        append_over jt dt q r now
          (existing_job jt dt q (dt.get q.dedupe (dedupe_key r.mirror (intent r)))) in
      (out.0, out.1, rw named refl)

  appended_lem :
      (q q' : JobQueue jt dt) (r : Request) (now : ℕ) (job : Job)
      → IsValid jt dt q
      → append jt dt q r now ≡ some (job, q')
      → Appended q r job q'
  unfolding append
  appended_lem q q' r now job v e = elim (Bool-cases (text_eq r.kind [])) [
    | inl t ↦ absurd (ground arith)
    | inr f ↦
        subst (λ (a : Job × JobQueue jt dt). Appended q r a.0 a.1) (some_eq (rw f at e))
          (existing_job-Appended q r now (dt.get q.dedupe (dedupe_key r.mirror (intent r))) v refl)
  ]

  -- On a valid queue, an append of a request with a kind does not throw. It leaves the job that it
  -- returns on its row, pending, with the key and the payload of the request and not due before
  -- `notBefore`; the dedupe row of the intent names it, and every other row is as it was.
  pub append-Appended :
      (q : JobQueue jt dt) (r : Request) (now : ℕ)
      → IsValid jt dt q
      → text_eq r.kind [] ≡ false
      → Returns (λ out. Appended q r out.0 out.1) (append jt dt q r now)
  append-Appended q r now v named =
      let (job, q', e) = append-returns q r now named in rw e (appended_lem q q' r now job v e)

  -- An append whose intent names a pending job writes over that job's row.
  append-merges :
      (q q' : JobQueue jt dt) (r : Request) (now s : ℕ) (j job : Job)
      → dt.get q.dedupe (dedupe_key r.mirror (intent r)) ≡ some s
      → jt.get q.jobs s ≡ some j
      → is_pending j.state ≡ true
      → append jt dt q r now ≡ some (job, q')
      → (job.seq ≡ j.seq) × (q'.seq ≡ q.seq)
  unfolding append existing_job append_over merge
  append-merges q q' r now s j job n e p h = ground arith

  append-queues_behind :
      (q q' : JobQueue jt dt) (r : Request) (now s : ℕ) (j job : Job)
      → dt.get q.dedupe (dedupe_key r.mirror (intent r)) ≡ some s
      → jt.get q.jobs s ≡ some j
      → is_pending j.state ≡ false
      → append jt dt q r now ≡ some (job, q')
      → job.seq ≡ q.seq + 1
  unfolding append existing_job append_over append_fresh new_job
  append-queues_behind q q' r now s j job n e p h = ground arith

  -- A second append with the intent of the first, made while that job is pending, keeps its number
  -- and takes no new one: what is queued is one job, with the later request's key and payload.
  pub append-append :
      (q q₁ q₂ : JobQueue jt dt) (r₁ r₂ : Request) (t₁ t₂ : ℕ) (j₁ j₂ : Job)
      → IsValid jt dt q
      → dedupe_key r₂.mirror (intent r₂) ≡ dedupe_key r₁.mirror (intent r₁)
      → append jt dt q r₁ t₁ ≡ some (j₁, q₁)
      → append jt dt q₁ r₂ t₂ ≡ some (j₂, q₂)
      → (j₂.seq ≡ j₁.seq)
        × (q₂.seq ≡ q₁.seq)
        × (jt.get q₂.jobs j₁.seq ≡ some j₂)
        × (j₂.key ≡ r₂.key)
        × (j₂.payload ≡ r₂.payload)
  append-append q q₁ q₂ r₁ r₂ t₁ t₂ j₁ j₂ v same e₁ e₂ =
      let a₁ = appended_lem q q₁ r₁ t₁ j₁ v e₁ in
      let a₂ = appended_lem q₁ q₂ r₂ t₂ j₂ (appended-IsValid jt dt q q₁ r₁ t₁ j₁ e₁ v) e₂ in
      let m =
        append-merges q₁ q₂ r₂ t₂ j₁.seq j₁ j₂ (rw same a₁.is_named) a₁.on_row
          (ap is_pending a₁.waits) e₂ in
      (m.0, m.1, rw (← m.0) a₂.on_row, a₂.same_key, a₂.same_payload)

  take_row-claims :
      (q q' : JobQueue jt dt) (s now : ℕ) (o : Option Job) (job : Job)
      → take_row jt dt q s now o ≡ (some job, q')
      → (job.state ≡ running)
        × (jt.get q'.jobs s ≡ some job)
        × (q'.dedupe ≡ q.dedupe)
        × (q'.seq ≡ q.seq)
  unfolding take_row taken
  take_row-claims q q' s now none job e = absurd (ground arith)
  take_row-claims q q' s now (some j) job e = ground (arith, get-put_self jt q.jobs s (taken j now))

  -- What a successful `take` leaves.
  pub take-claims :
      (q q' : JobQueue jt dt) (s now : ℕ) (job : Job)
      → take jt dt q s now ≡ (some job, q')
      → (job.state ≡ running)
        × (jt.get q'.jobs s ≡ some job)
        × (q'.dedupe ≡ q.dedupe)
        × (q'.seq ≡ q.seq)
  unfolding take
  take-claims q q' s now job e = take_row-claims q q' s now (jt.get q.jobs s) job e

  -- An append with the intent of a job that is running takes the next number, above the running
  -- job's, and leaves the running job's row alone.
  pub append-take-append :
      (q q₁ q₂ q₃ : JobQueue jt dt) (r₁ r₂ : Request) (t₁ t₂ t₃ : ℕ) (j₁ j₂ j₃ : Job)
      → IsValid jt dt q
      → dedupe_key r₂.mirror (intent r₂) ≡ dedupe_key r₁.mirror (intent r₁)
      → append jt dt q r₁ t₁ ≡ some (j₁, q₁)
      → take jt dt q₁ j₁.seq t₂ ≡ (some j₂, q₂)
      → append jt dt q₂ r₂ t₃ ≡ some (j₃, q₃)
      → (j₁.seq < j₃.seq)
        × (j₂.state ≡ running)
        × (jt.get q₃.jobs j₁.seq ≡ some j₂)
        × (jt.get q₃.jobs j₃.seq ≡ some j₃)
  append-take-append q q₁ q₂ q₃ r₁ r₂ t₁ t₂ t₃ j₁ j₂ j₃ v same e₁ e₂ e₃ =
      let a₁ = appended_lem q q₁ r₁ t₁ j₁ v e₁ in
      let v₁ = appended-IsValid jt dt q q₁ r₁ t₁ j₁ e₁ v in
      let v₂ = taken-IsValid jt dt q₁ q₂ j₁.seq t₂ (some j₂) e₂ v₁ in
      let a₃ = appended_lem q₂ q₃ r₂ t₃ j₃ v₂ e₃ in
      let k = take-claims q₁ q₂ j₁.seq t₂ j₂ e₂ in
      let n =
        append-queues_behind q₂ q₃ r₂ t₃ j₁.seq j₂ j₃ (rw k.2 (rw same a₁.is_named)) k.1
          (ap is_pending k.0) e₃ in
      let below = v₂.numbered j₁.seq j₂ k.1 in
      (omega arith, k.0, a₃.others j₁.seq (λ p. absurd (omega arith)) ∙ k.1, a₃.on_row)
