-- ===== src/Mirror/Carry.antt =====
-- src/sync/Mirror.js: the parts of `#reconcileKey` throw nothing and queue no other kind than the
-- decision's.
use canvas_stored.Prelude.{
  Returns, ℕ, ◌≡◌, refl, Bool, true, false, not, ◌&&◌, ◌||◌, Option, none, some, List, [], ◌∷◌,
  Text, text_eq, truthy, is_some, if_intro,
}
use canvas_stored.Lmdb.{Table, nat_key, text_key}
use canvas_stored.Keys.Validate.{Reason, validate_key}
use canvas_stored.Jobs.Types.{Job, Payload}
use canvas_stored.Jobs.Methods.{cancel_by_key, by_key}
use canvas_stored.Ledger.Rows.{BaseInput, Row}
use canvas_stored.Ledger.Methods.{get_base, is_skipped, set_base, set_base_to}
use canvas_stored.Mirror.Decide.{
  Sides, Decision, nothing, trash_local, adopt, push, delete_remote, pull, conflict, revert, skip,
  decide, direct,
}
use canvas_stored.Mirror.Engine.{
  Options, View, Engine, in_scope, sides, skip_key, void_base, agree, agreed, enqueue,
}
use canvas_stored.Mirror.Reconcile.{
  cancel_key, carry_out, settle_key, unskipped, decided, reconcile_valid, reconcile_key,
}
use canvas_stored.Mirror.Queued.{IsFree, cancel_jobs-IsFree, enqueue-IsFree}
use canvas_stored.Mirror.Kinds.{kind_of}

module _ (jt : Table nat_key Job) (dt : Table text_key ℕ) (rt : Table text_key Row) (opts : Options)
    (bad : Text → Bool) where
  abbrev pub Free : Engine jt dt rt → Type 0
  Free e = IsFree jt dt opts.id bad e.queue

  cancel_key-Free :
      (e : Engine jt dt rt) (key : Text) → Free e → Free (cancel_key jt dt rt opts e key)
  unfolding cancel_key cancel_by_key
  cancel_key-Free e key v =
      cancel_jobs-IsFree jt dt opts.id bad false (by_key jt dt e.queue key (some (some opts.id)))
        e.queue 0 v

  void_base-Free :
      (e : Engine jt dt rt) (key : Text) → Free e → Free (void_base jt dt rt opts e key)
  unfolding void_base
  void_base-Free e key v = v

  agree-Free :
      (e : Engine jt dt rt) (key : Text) (input : BaseInput) (now : ℕ) (sha : Option Text)
      → truthy sha ≡ true
      → Free e
      → Returns Free (agreed jt dt rt opts e (set_base_to rt e.rows opts.id key input now sha))
  unfolding set_base_to
  agree-Free e key input now none h v = cc
  agree-Free e key input now (some []) h v = cc
  agree-Free e key input now (some (c ∷ cs)) h v = v

  queues :
      (e : Engine jt dt rt) (kind key : Text) (payload : Payload) (now : ℕ)
      → text_eq kind [] ≡ false
      → bad kind ≡ false
      → Free e
      → Returns Free (enqueue jt dt rt opts e kind key payload now)
  queues e kind key payload now named h v =
      enqueue-IsFree jt dt opts.id bad rt opts e kind key payload now named h v

  carry_out-Free :
      (d : Decision) (e : Engine jt dt rt) (key : Text) (view : View) (s : Sides) (now : ℕ)
      → bad (kind_of d) ≡ false
      → Free e
      → Returns Free (carry_out jt dt rt opts d e key view s now)
  unfolding carry_out agree set_base
  carry_out-Free nothing e key view s now h v = v
  carry_out-Free (skip r) e key view s now h v = v
  carry_out-Free trash_local e key view s now h v = queues _ _ _ _ _ refl h v
  carry_out-Free (pull r) e key view s now h v = queues _ _ _ _ _ refl h v
  carry_out-Free (conflict r) e key view s now h v = queues _ _ _ _ _ refl h v
  carry_out-Free (revert r) e key view s now h v = queues _ _ _ _ _ refl h v
  carry_out-Free (push m) e key view s now h v = queues _ _ _ _ _ refl h (
      if_intro Free (not (truthy m) && is_some (get_base rt e.rows opts.id key))
        (λ _. void_base-Free e key v) (λ _. v))
  carry_out-Free (delete_remote m) e key view s now h v =
      if_intro (Returns Free) opts.propagates (λ _. queues _ _ _ _ _ refl h v)
        (λ _. void_base-Free e key v)
  carry_out-Free adopt e key view s now h v =
      if_intro (Returns Free) (truthy s.local)
        (λ t.
          agree-Free (cancel_key jt dt rt opts e key) key _ now s.local t (cancel_key-Free e key v))
        (λ _. void_base-Free (cancel_key jt dt rt opts e key) key (cancel_key-Free e key v))

  unskipped-Free :
      (e : Engine jt dt rt) (key : Text) → Free e → Free (unskipped jt dt rt opts e key)
  unfolding unskipped
  unskipped-Free e key v = if_intro Free (is_skipped rt e.rows opts.id key) (λ _. v) (λ _. v)

  skip_key-Free :
      (e : Engine jt dt rt) (key reason : Text) (now : ℕ)
      → Free e
      → Free (skip_key jt dt rt opts e key reason now)
  unfolding skip_key
  skip_key-Free e key reason now v =
      if_intro Free (is_skipped rt e.rows opts.id key) (λ _. v) (λ _. v)

  settle_key-Free :
      (d : Decision) (e : Engine jt dt rt) (key : Text) (view : View) (s : Sides) (now : ℕ)
      → bad (kind_of d) ≡ false
      → Free e
      → Returns Free (settle_key jt dt rt opts d e key view s now)
  unfolding settle_key
  settle_key-Free d e key view s now h v =
      let run =
        carry_out-Free d (unskipped jt dt rt opts e key) key view s now h
          (unskipped-Free e key v) in
      elim d
          as (λ k.
            Returns Free (carry_out jt dt rt opts k (unskipped jt dt rt opts e key) key view s now)
            → Returns Free (settle_key jt dt rt opts k e key view s now)) [
              | nothing ↦ λ r. r
              | trash_local ↦ λ r. r
              | adopt ↦ λ r. r
              | push m ↦ λ r. r
              | delete_remote m ↦ λ r. r
              | pull x ↦ λ r. r
              | conflict x ↦ λ r. r
              | revert x ↦ λ r. r
              | skip x ↦ λ r.
                  skip_key-Free (cancel_key jt dt rt opts e key) key _ now (cancel_key-Free e key v)
            ]
        run

  decided-Free :
      (d : Decision) (o : Option (Engine jt dt rt))
      → Returns Free o
      → Returns (λ out. Free out.1) (decided jt dt rt opts d o)
  decided-Free d none h = h
  decided-Free d (some e) h = h

  reconcile_valid-Free :
      (e : Engine jt dt rt) (key : Text) (view : View) (now : ℕ) (invalid : Option Reason)
      → bad (
          kind_of (
            direct opts.direction
              (decide (sides jt dt rt opts e key view))
              (sides jt dt rt opts e key view)))
        ≡ false
      → Free e
      → Returns (λ out. Free out.1) (reconcile_valid jt dt rt opts e key view now invalid)
  unfolding reconcile_valid
  reconcile_valid-Free e key view now (some reason) h v = skip_key-Free e key _ now v
  reconcile_valid-Free e key view now none h v =
      let s = sides jt dt rt opts e key view in
      let d = direct opts.direction (decide s) s in
      decided-Free d (settle_key jt dt rt opts d e key view s now)
        (settle_key-Free d e key view s now h v)

  module _ (nfc : Text → Text) (picomatch : List Text → Text → Bool)
      (locally_ignored : Text → Bool) where
    -- The queue after `#reconcileKey` has no job of a kind that the narrowed decision is not queued as.
    pub reconcile_key-Free :
        (e : Engine jt dt rt) (key : Text) (view : View) (now : ℕ)
        → bad (
            kind_of (
              direct opts.direction
                (decide (sides jt dt rt opts e key view))
                (sides jt dt rt opts e key view)))
          ≡ false
        → Free e
        → Returns
            (λ out. Free out.1)
            (reconcile_key jt dt rt opts nfc picomatch locally_ignored e key view now)
    unfolding reconcile_key
    reconcile_key-Free e key view now h v =
        if_intro (Returns (λ out. Free out.1))
          (text_eq key [] || not (in_scope nfc picomatch locally_ignored opts key)) (λ _. v)
          (λ _. reconcile_valid-Free e key view now (validate_key (some key)) h v)
