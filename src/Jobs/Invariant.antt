-- ===== src/Jobs/Invariant.antt =====
-- src/sync/JobQueue.js: what holds of the two sub-databases between two calls.
use canvas_stored.Prelude.{
  ℕ, ◌+◌, ◌≤◌, ◌<◌, ◌≡◌, refl, ◌⊎◌, inl, inr, true, false, Option, none, some, [], ◌∷◌, ◌++◌, arith,
  Text, text_eq, text_eq_iff, ◌==◌, or_else, any, Option-cases,
}
use canvas_stored.Lmdb.{Table, nat_key, text_key, get-put, get-remove}
use canvas_stored.Jobs.Types.{Job, Request, seq_key, dedupe_key, intent}
use canvas_stored.Jobs.Rows.{new_job}
use canvas_stored.Jobs.Methods.{JobQueue, append_fresh, remove_row}

-- A dedupe key holds a bar, and the counter's key does not.
any_bar-append : (a b : Text) → any (λ c. c == b'|') (a ++ (b'|' ∷ b)) ≡ true
any_bar-append [] b = refl
any_bar-append (c ∷ a) b = ground (arith, any_bar-append a b)

pub dedupe_key-ne-seq_key : (m : Option Text) (d : Text) → text_eq seq_key (dedupe_key m d) ≡ false
unfolding dedupe_key
dedupe_key-ne-seq_key m d =
    ground (arith, any_bar-append (or_else m []) d, text_eq_iff seq_key (dedupe_key m d))

-- The dedupe key of a row.
abbrev pub row_key : Option Job → Option Text
row_key none = none
row_key (some j) = some (dedupe_key j.mirror j.dedupe)

module _ (jt : Table nat_key Job) (dt : Table text_key ℕ) where
  -- A row stands under its own number, which was handed out; a dedupe row names a row with that
  -- dedupe key; the counter is the one on disk.
  pub record IsValid (q : JobQueue jt dt) : Type 0 where
    pub stored : (s : ℕ) (j : Job) → jt.get q.jobs s ≡ some j → j.seq ≡ s
    pub numbered : (s : ℕ) (j : Job) → jt.get q.jobs s ≡ some j → (0 < s) × (s ≤ q.seq)
    pub named :
        (k : Text) (s : ℕ)
        → text_eq seq_key k ≡ false
        → dt.get q.dedupe k ≡ some s
        → row_key (jt.get q.jobs s) ≡ some k
    pub counted : or_else (dt.get q.dedupe seq_key) 0 ≡ q.seq

  -- Writing over a row, where its number and its dedupe key stay.
  pub rewrite-IsValid :
      (q : JobQueue jt dt) (s : ℕ) (j j' : Job)
      → jt.get q.jobs s ≡ some j
      → j'.seq ≡ j.seq
      → j'.mirror ≡ j.mirror
      → j'.dedupe ≡ j.dedupe
      → IsValid q
      → IsValid (record q { jobs = jt.put q.jobs s j' })
  rewrite-IsValid q s j j' found same_seq same_mirror same_dedupe v = record {
    stored = λ i w e. ground (arith, get-put jt q.jobs s i j', v.stored i w, v.stored s j);
    numbered = λ i w e. ground (arith, get-put jt q.jobs s i j', v.numbered i w, v.numbered s j);
    named = λ k i n e. ground (arith, get-put jt q.jobs s i j', v.named k i n e);
    counted = v.counted;
  }

  -- What a dedupe row names was handed out.
  named_below :
      (q : JobQueue jt dt) (v : IsValid q) (k : Text) (s : ℕ)
      → text_eq seq_key k ≡ false
      → dt.get q.dedupe k ≡ some s
      → s ≤ q.seq
  named_below q v k s n e = elim (Option-cases (jt.get q.jobs s)) [
    | inl gone ↦ cc (v.named k s n e)
    | inr (j, found) ↦ (v.numbered s j found).1
  ]

  pub append_fresh-IsValid :
      (q : JobQueue jt dt) (r : Request) (now : ℕ)
      → IsValid q
      → IsValid (append_fresh jt dt q r now).1
  unfolding append_fresh new_job
  append_fresh-IsValid q r now v = record {
    stored = λ i w e.
        ground (arith, get-put jt q.jobs (q.seq + 1) i (new_job (q.seq + 1) r now), v.stored i w);
    numbered = λ i w e.
        ground (arith, get-put jt q.jobs (q.seq + 1) i (new_job (q.seq + 1) r now), v.numbered i w);
    named = λ k i n e. ground (
      arith,
      get-put jt q.jobs (q.seq + 1) i (new_job (q.seq + 1) r now),
      get-put dt (dt.put q.dedupe (dedupe_key r.mirror (intent r)) (q.seq + 1)) seq_key k
          (q.seq + 1),
      get-put dt q.dedupe (dedupe_key r.mirror (intent r)) k (q.seq + 1),
      text_eq_iff (dedupe_key r.mirror (intent r)) k,
      v.named k i n,
      named_below q v k i n,
    );
    counted = rw get-put refl;
  }

  -- A row that is gone already may be removed again.
  pub remove_row-IsValid :
      (q : JobQueue jt dt) (s : ℕ) (j : Job)
      → (jt.get q.jobs s ≡ none) ⊎ (jt.get q.jobs s ≡ some j)
      → IsValid q
      → IsValid (remove_row jt dt q s j)
  unfolding remove_row
  remove_row-IsValid q s j found v = record {
    stored = λ i w e. ground (arith, get-remove jt q.jobs s i, v.stored i w);
    numbered = λ i w e. ground (arith, get-remove jt q.jobs s i, v.numbered i w);
    named = λ k i n e. ground (
      arith,
      get-remove jt q.jobs s i,
      get-remove dt q.dedupe (dedupe_key j.mirror j.dedupe) k,
      text_eq_iff (dedupe_key j.mirror j.dedupe) k,
      v.named k i n,
    );
    counted = ground (
      arith,
      get-remove dt q.dedupe (dedupe_key j.mirror j.dedupe) seq_key,
      text_eq_iff (dedupe_key j.mirror j.dedupe) seq_key,
      text_eq_iff seq_key (dedupe_key j.mirror j.dedupe),
      dedupe_key-ne-seq_key j.mirror j.dedupe,
      v.counted,
    );
  }
