-- ===== src/Mirror/Rounds.antt =====
-- src/sync/Mirror.js: in a mirror of one direction a whole pass queues no work that would write the
-- other side.
use canvas_stored.Prelude.{
  ℕ, ◌≡◌, Bool, Option, none, some, List, [], ◌∷◌, arith, Text, Returns, if_intro,
}
use canvas_stored.Lmdb.{Table, nat_key, text_key}
use canvas_stored.Jobs.Types.{Job}
use canvas_stored.Ledger.Rows.{Row}
use canvas_stored.Ledger.Methods.{get_cursor}
use canvas_stored.Mirror.Decide.{Decision, push_only}
use canvas_stored.Mirror.Engine.{Options, View, State}
use canvas_stored.Mirror.Reconcile.{reconcile_key}
use canvas_stored.Mirror.Queued.{IsFree}
use canvas_stored.Mirror.Kinds.{writes_local}
use canvas_stored.Mirror.OneWay.{reconcile_key-push_only}
use canvas_stored.Mirror.Passes.{
  moves, passed, reconcile_batch, move_cursor, sort_keys, reconcile_dirty, all_dirty, reconcile_all,
}

module _ (jt : Table nat_key Job) (dt : Table text_key ℕ) (rt : Table text_key Row) (opts : Options)
    (nfc : Text → Text) (picomatch : List Text → Text → Bool) (locally_ignored : Text → Bool) where
  abbrev E : Type 0
  E = State jt dt rt opts

  -- A step from each engine keeps a property of the queue.
  abbrev Keeps : (Text → Bool) → Type 0
  Keeps bad =
      (e : E) (key : Text) (view : View) (now : ℕ)
      → IsFree jt dt opts.id bad e.queue
      → Returns (λ out. IsFree jt dt opts.id bad out.1.queue)
          (reconcile_key jt dt rt opts nfc picomatch locally_ignored e key view now)

  passed-IsFree :
      (bad : Text → Bool) (e : E) (o : Option (Option Decision × E))
      → Returns (λ out. IsFree jt dt opts.id bad out.1.queue) o
      → IsFree jt dt opts.id bad (passed jt dt rt opts nfc picomatch locally_ignored e o).queue
  passed-IsFree bad e none h = absurd (ground arith)
  passed-IsFree bad e (some (d, e')) h = h

  reconcile_batch-IsFree :
      (bad : Text → Bool) (read : Text → View) (now : ℕ) (keys : List Text) (e : E)
      → Keeps bad
      → IsFree jt dt opts.id bad e.queue
      → IsFree jt dt opts.id bad
          (reconcile_batch jt dt rt opts nfc picomatch locally_ignored read now keys e).queue
  unfolding reconcile_batch
  reconcile_batch-IsFree bad read now [] e keeps v = v
  reconcile_batch-IsFree bad read now (key ∷ keys) e keeps v =
      reconcile_batch-IsFree bad read now keys _ keeps (
        passed-IsFree bad e
          (reconcile_key jt dt rt opts nfc picomatch locally_ignored e key (read key) now)
          (keeps e key (read key) now v))

  move_cursor-IsFree :
      (bad : Text → Bool) (cursor : Option ℕ) (e : E)
      → IsFree jt dt opts.id bad e.queue
      → IsFree jt dt opts.id bad
          (move_cursor jt dt rt opts nfc picomatch locally_ignored cursor e).queue
  unfolding move_cursor
  move_cursor-IsFree bad none e v = v
  move_cursor-IsFree bad (some n) e v =
      if_intro (λ (x : E). IsFree jt dt opts.id bad x.queue)
        (moves (get_cursor rt e.rows opts.id) n) (λ _. v) (λ _. v)

  reconcile_dirty-IsFree :
      (bad : Text → Bool) (read : Text → View) (cursor : Option ℕ) (now : ℕ) (e : E)
      → Keeps bad
      → IsFree jt dt opts.id bad e.queue
      → IsFree jt dt opts.id bad
          (reconcile_dirty jt dt rt opts nfc picomatch locally_ignored read cursor now e).queue
  unfolding reconcile_dirty
  reconcile_dirty-IsFree bad read cursor now e keeps v =
      let clean : E = record e { dirty = [] } in
      move_cursor-IsFree bad cursor
        (reconcile_batch jt dt rt opts nfc picomatch locally_ignored read now (sort_keys e.dirty)
          clean)
        (reconcile_batch-IsFree bad read now (sort_keys e.dirty) clean keeps v)

  reconcile_all-IsFree :
      (bad : Text → Bool) (read : Text → View) (here there : List Text) (cursor : Option ℕ)
      (now : ℕ) (e : E)
      → Keeps bad
      → IsFree jt dt opts.id bad e.queue
      → IsFree jt dt opts.id bad
          (reconcile_all jt dt rt opts nfc picomatch locally_ignored read here there cursor now
            e).queue
  unfolding reconcile_all all_dirty
  reconcile_all-IsFree bad read here there cursor now e keeps v =
      reconcile_dirty-IsFree bad read cursor now
        (all_dirty jt dt rt opts nfc picomatch locally_ignored here there e) keeps v

  -- In a mirror of the direction `push`, `reconcileAll` keeps a valid queue valid, and if no job of the
  -- mirror is of a kind that writes the local folder, then none is afterwards, whatever the index and
  -- the listings say.
  pub reconcile_all-push_only :
      (read : Text → View) (here there : List Text) (cursor : Option ℕ) (now : ℕ) (e : E)
      → opts.direction ≡ push_only
      → IsFree jt dt opts.id writes_local e.queue
      → IsFree jt dt opts.id writes_local
          (reconcile_all jt dt rt opts nfc picomatch locally_ignored read here there cursor now
            e).queue
  reconcile_all-push_only read here there cursor now e p v =
      reconcile_all-IsFree writes_local read here there cursor now e
        (λ e' key view t w.
          reconcile_key-push_only jt dt rt opts nfc picomatch locally_ignored e' key view t p w)
        v
