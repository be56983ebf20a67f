-- ===== src/Mirror/OneWay.antt =====
-- src/sync/Mirror.js: in a mirror of one direction `#reconcileKey` queues no work that would write
-- the other side.
use mathlib.Core.Path.{subst}
use canvas_stored.Prelude.{Returns, ℕ, ◌≡◌, sym, Bool, false, List, Text}
use canvas_stored.Lmdb.{Table, nat_key, text_key}
use canvas_stored.Jobs.Types.{Job}
use canvas_stored.Ledger.Rows.{Row}
use canvas_stored.Mirror.Decide.{pull_only, push_only, decide, direct}
use canvas_stored.Mirror.Engine.{Options, View, Engine, sides}
use canvas_stored.Mirror.Reconcile.{reconcile_key}
use canvas_stored.Mirror.Queued.{IsFree}
use canvas_stored.Mirror.Kinds.{
  kind_of, writes_hub, writes_local, pull_only-kind, push_only-kind, decide-no_revert,
}
use canvas_stored.Mirror.Carry.{reconcile_key-Free}

module _ (jt : Table nat_key Job) (dt : Table text_key ℕ) (rt : Table text_key Row) (opts : Options)
    (nfc : Text → Text) (picomatch : List Text → Text → Bool) (locally_ignored : Text → Bool) where
  -- In a mirror of the direction `pull`, `#reconcileKey` does not throw; a valid queue stays valid,
  -- and if no job of the mirror is of a kind that writes the hub (push, delete-remote, conflict),
  -- then none is afterwards.
  pub reconcile_key-pull_only :
      (e : Engine jt dt rt) (key : Text) (view : View) (now : ℕ)
      → opts.direction ≡ pull_only
      → IsFree jt dt opts.id writes_hub e.queue
      → Returns
          (λ out. IsFree jt dt opts.id writes_hub out.1.queue)
          (reconcile_key jt dt rt opts nfc picomatch locally_ignored e key view now)
  unfolding direct
  reconcile_key-pull_only e key view now p v =
      let s = sides jt dt rt opts e key view in
      reconcile_key-Free jt dt rt opts writes_hub nfc picomatch locally_ignored e key view now
        (subst (λ k. writes_hub (kind_of (direct k (decide s) s)) ≡ false) (sym p)
          (pull_only-kind (decide s) s))
        v

  -- In a mirror of the direction `push`, `#reconcileKey` does not throw; a valid queue stays valid,
  -- and if no job of the mirror is of a kind that writes the local folder (pull, trash-local,
  -- conflict, revert), then none is afterwards.
  pub reconcile_key-push_only :
      (e : Engine jt dt rt) (key : Text) (view : View) (now : ℕ)
      → opts.direction ≡ push_only
      → IsFree jt dt opts.id writes_local e.queue
      → Returns
          (λ out. IsFree jt dt opts.id writes_local out.1.queue)
          (reconcile_key jt dt rt opts nfc picomatch locally_ignored e key view now)
  unfolding direct
  reconcile_key-push_only e key view now p v =
      let s = sides jt dt rt opts e key view in
      reconcile_key-Free jt dt rt opts writes_local nfc picomatch locally_ignored e key view now
        (subst (λ k. writes_local (kind_of (direct k (decide s) s)) ≡ false) (sym p)
          (push_only-kind (decide s) s (decide-no_revert s)))
        v
