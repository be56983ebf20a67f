-- ===== src/Mirror/Reconcile.antt =====
-- src/sync/Mirror.js: `#reconcileKey`. The events
-- and timers are left out; a step that throws returns none.
use canvas_stored.Prelude.{
  ℕ, Bool, false, not, ◌&&◌, ◌||◌, Option, none, some, List, [], Text, codes, text_eq, truthy,
  is_some, first_some, if◌then◌else◌,
}
use canvas_stored.Lmdb.{Table, nat_key, text_key}
use canvas_stored.Keys.Validate.{Reason, validate_key}
use canvas_stored.Jobs.Types.{Job, Payload, no_payload}
use canvas_stored.Jobs.Methods.{cancel_by_key}
use canvas_stored.Ledger.Rows.{Row}
use canvas_stored.Ledger.Methods.{get_base, unskip, is_skipped}
use canvas_stored.Mirror.Decide.{
  Sides, Decision, nothing, trash_local, adopt, push, delete_remote, pull, conflict, revert, skip,
  decide, direct,
}
use canvas_stored.Mirror.Engine.{
  Options, View, size_of, mtime_of, reason_name, skip_name, in_scope, sides, skip_key, void_base,
  agree, enqueue, State,
}

abbrev pub versions : Sides → Payload
versions s = record no_payload { local = s.local; base = s.base; remote = s.remote }

module _ (jt : Table nat_key Job) (dt : Table text_key ℕ) (rt : Table text_key Row)
    (opts : Options) where
  -- `cancelByKey(key, this.#opts.id)`
  unfoldable pub cancel_key : State jt dt rt opts → Text → State jt dt rt opts
  cancel_key e key = record e {
    queue = (cancel_by_key jt dt e.queue key (some (some opts.id)) false).1;
  }

  -- The `switch` of `#reconcileKey`, for a decision that is no skip.
  unfoldable pub carry_out :
      Decision → State jt dt rt opts → Text → View → Sides → ℕ → Option (State jt dt rt opts)
  unfolding enqueue void_base agree cancel_key
  carry_out nothing e key view s now = some e
  carry_out (revert remote) e key view s now =
      enqueue jt dt rt opts e (codes "revert") key (versions s) now
  carry_out (push if_match) e key view s now =
      enqueue jt dt rt opts
        (if not (truthy if_match) && is_some (get_base rt e.rows opts.id key)
          then void_base jt dt rt opts e key
          else e)
        (codes "push") key (record no_payload { sha256 = s.local; if_match = if_match }) now
  carry_out (delete_remote if_match) e key view s now =
      if opts.propagates
      then enqueue jt dt rt opts e (codes "delete-remote") key
          (record no_payload { if_match = if_match }) now
      else some (void_base jt dt rt opts e key)
  carry_out (pull sha256) e key view s now =
      enqueue jt dt rt opts e (codes "pull") key
        (record no_payload {
          sha256 = s.remote;
          mtime = mtime_of view.remote_at;
          size = size_of view.remote_at;
        })
        now
  carry_out trash_local e key view s now =
      enqueue jt dt rt opts e (codes "trash-local") key (record no_payload { sha256 = s.local }) now
  carry_out adopt e key view s now =
      if truthy s.local
      then agree jt dt rt opts (cancel_key e key) key
          (record {
            sha256 = s.local;
            size = first_some (size_of view.local_at) (size_of view.remote_at);
            mtime = first_some (mtime_of view.remote_at) (mtime_of view.local_at);
            remote_seq = view.head;
            doc_id = view.doc_id;
            version = view.version;
          })
          now
      else some (void_base jt dt rt opts (cancel_key e key) key)
  carry_out (conflict remote) e key view s now =
      enqueue jt dt rt opts e (codes "conflict") key (versions s) now
  carry_out (skip reason) e key view s now = some e

  -- `if (this.#ledger.isSkipped(key)) this.#ledger.unskip(key)`
  unfoldable pub unskipped : State jt dt rt opts → Text → State jt dt rt opts
  unskipped e key =
      if is_skipped rt e.rows opts.id key
      then record e { rows = (unskip rt e.rows opts.id key).1 }
      else e

  -- `#reconcileKey` from the narrowed decision on.
  unfoldable pub settle_key :
      Decision → State jt dt rt opts → Text → View → Sides → ℕ → Option (State jt dt rt opts)
  unfolding skip_key cancel_key carry_out unskipped
  settle_key (skip reason) e key view s now =
      some (skip_key jt dt rt opts (cancel_key e key) key (skip_name reason) now)
  settle_key d e key view s now = carry_out d (unskipped e key) key view s now

  -- What the caller learns: the narrowed decision, none where the key is not reconciled.
  abbrev pub decided :
      Decision → Option (State jt dt rt opts) → Option (Option Decision × State jt dt rt opts)
  decided d none = none
  decided d (some e) = some (some d, e)

  unfoldable pub reconcile_valid :
      State jt dt rt opts
      → Text
      → View
      → ℕ
      → Option Reason
      → Option (Option Decision × State jt dt rt opts)
  unfolding skip_key settle_key sides
  reconcile_valid e key view now (some reason) =
      some (none, skip_key jt dt rt opts e key (reason_name reason) now)
  reconcile_valid e key view now none =
      let s = sides jt dt rt opts e key view in
      let d = direct opts.direction (decide s) s in decided d (settle_key d e key view s now)

  module _ (nfc : Text → Text) (picomatch : List Text → Text → Bool)
      (locally_ignored : Text → Bool) where
    unfoldable pub reconcile_key :
        State jt dt rt opts → Text → View → ℕ → Option (Option Decision × State jt dt rt opts)
    unfolding reconcile_valid
    reconcile_key e key view now =
        if text_eq key [] || not (in_scope nfc picomatch locally_ignored opts key)
        then some (none, e)
        else reconcile_valid e key view now (validate_key (some key))
