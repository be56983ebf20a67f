-- ===== src/Mirror/Transfers.antt =====
-- src/sync/Mirror.js: the jobs `#runPush`, `#runPull`, `#runDeleteRemote` and `#runTrashLocal`, as
-- functions of the engine, the views before and after the poll, and the answers to their calls.
use canvas_stored.Prelude.{
  ℕ, Bool, not, ◌&&◌, ◌||◌, Option, none, some, List, [], ◌∷◌, Text, codes, text_eq, truthy, same,
  is_some, or_else, first_some, if◌then◌else◌,
}
use canvas_stored.Lmdb.{Table, nat_key, text_key}
use canvas_stored.Jobs.Types.{Job}
use canvas_stored.Ledger.Rows.{Row, BaseInput}
use canvas_stored.Mirror.Decide.{Sides, Decision}
use canvas_stored.Mirror.Engine.{
  Options, View, size_of, mtime_of, State, sides, mark_dirty, void_base, agree,
}
use canvas_stored.Mirror.Reconcile.{reconcile_key}
use canvas_stored.Mirror.Redecide.{redecide}
use canvas_stored.Mirror.Answers.{
  Reply, reply, throws, Transfer, Call, copy_to_hub, copy_to_local, remove_on_hub, move_to_trash,
  Ran, failure, fails, done, finish, fresh_remote,
}

-- The base that `#runPush` agrees on.
unfoldable pub pushed_base : View → Transfer → BaseInput
pushed_base view res = record {
  sha256 = view.local_sha;
  size = first_some (size_of view.local_at) view.local_size;
  mtime = first_some res.mtime (mtime_of view.local_at);
  remote_seq = or_else res.seq view.head;
  doc_id = res.doc_id;
  version = res.version;
}

-- The base that `#runPull` and `#runRevert` agree on, but for the size of the former, and
-- `#runConflict` but for the digest.
unfoldable pub pulled_base : View → BaseInput
pulled_base view = record {
  sha256 = view.remote_sha;
  size = size_of view.remote_at;
  mtime = mtime_of view.remote_at;
  remote_seq = view.head;
  doc_id = view.doc_id;
  version = view.version;
}

module _ (jt : Table nat_key Job) (dt : Table text_key ℕ) (rt : Table text_key Row) (opts : Options)
    (nfc : Text → Text) (picomatch : List Text → Text → Bool) (locally_ignored : Text → Bool) where
  abbrev pub S : Type 0
  S = State jt dt rt opts

  -- `#markDirty(key)` and return.
  abbrev pub later : S → Text → List Call → Ran S
  later e key calls = done (mark_dirty jt dt rt opts nfc e key) calls

  abbrev pub forget : S → Text → List Call → Ran S
  forget e key calls = done (void_base jt dt rt opts e key) calls

  abbrev dropped : Option (Option Decision × S) → Option S
  dropped none = none
  dropped (some (d, e)) = some e

  -- `#reconcileKey(key)` and return.
  abbrev pub reconciled : S → Text → View → ℕ → List Call → Ran S
  reconciled e key view now calls =
      finish e calls
        (dropped (reconcile_key jt dt rt opts nfc picomatch locally_ignored e key view now))

  abbrev pub redecided : S → Text → Option Text → ℕ → List Call → Reply View → Ran S
  redecided e key confirmed now calls (throws f) = fails e calls f
  redecided e key confirmed now calls (reply view) =
      finish e calls (redecide jt dt rt opts nfc picomatch locally_ignored e key view confirmed now)

  -- `#redecide`, its poll included. The digest '∅' that it asks for when the hub has none is one
  -- that no view has.
  unfoldable pub redecide_polled :
      S → Text → View → Option Text → Reply View → ℕ → List Call → Ran S
  redecide_polled e key view confirmed polled now calls = redecided e key confirmed now calls (
      if truthy confirmed
      then fresh_remote confirmed view polled
      else if view.remote_known
      then fresh_remote (some (codes "∅")) view polled
      else reply view)

  -- `#runPush` after its `copy` call.
  unfoldable pub pushed : S → Text → View → Reply View → ℕ → List Call → Reply Transfer → Ran S
  unfolding redecide_polled
  pushed e key view polled now calls (throws f) = fails e calls f
  pushed e key view polled now calls (reply res) =
      if res.ok
      then finish e calls (agree jt dt rt opts e key (pushed_base view res) now)
      else if text_eq res.reason (codes "precondition-failed")
      then redecide_polled e key view res.current polled now calls
      else if text_eq res.reason (codes "not-found") || text_eq res.reason (codes "no-source")
      then later e key calls
      else fails e calls (failure res key)

  -- `#runPush` once the hub's digest is confirmed.
  unfoldable pub push_confirmed :
      S → Text → View → Sides → Reply View → ℕ → Reply Transfer → Reply (Option Text) → Ran S
  unfolding pushed
  push_confirmed e key view s polled now sent (throws f) = fails e [] f
  push_confirmed e key view s polled now sent (reply confirmed) =
      if not (same confirmed s.base)
      then redecide_polled e key view confirmed polled now []
      else pushed e key view polled now (copy_to_hub s.base ∷ []) sent

  -- `#runPush`. A key with no base and no entry of the hub is not asked for.
  unfoldable pub run_push :
      S → Text → View → Reply (Option Text) → Reply View → Reply Transfer → ℕ → Ran S
  unfolding push_confirmed
  run_push e key view stat polled sent now =
      let s = sides jt dt rt opts e key view in
      if not (truthy s.local) || not view.local_known
      then later e key []
      else push_confirmed e key view s polled now sent
          (if not (truthy s.base) && not view.remote_known then reply none else stat)

  -- `#freshRemote` and `#markDirty(key)`.
  abbrev pub later_polled : S → Text → List Call → Reply View → Ran S
  later_polled e key calls (throws f) = fails e calls f
  later_polled e key calls (reply view) = later e key calls

  -- `#runPull` after its `copy` call; `polled` is the answer to the second poll.
  unfoldable pub pulled : S → Text → View → Reply View → ℕ → List Call → Reply Transfer → Ran S
  pulled e key view polled now calls (throws f) = fails e calls f
  pulled e key view polled now calls (reply res) =
      if res.ok
      then finish e calls (
          agree jt dt rt opts e key
            (record (pulled_base view) {
              size = first_some (size_of view.remote_at) view.remote_size;
            })
            now)
      else if text_eq res.reason (codes "not-found")
          || (text_eq res.reason (codes "no-source")
              || text_eq res.reason (codes "source-unreadable"))
      then later_polled e key calls (fresh_remote (some (codes "∅")) view polled)
      else fails e calls (failure res key)

  -- `#runPull` with the view that the first poll left.
  unfoldable pub pull_fresh : S → Text → Reply View → Reply Transfer → ℕ → Reply View → Ran S
  unfolding pulled
  pull_fresh e key again sent now (throws f) = fails e [] f
  pull_fresh e key again sent now (reply view) =
      let s = sides jt dt rt opts e key view in
      if not (truthy s.remote)
      then later e key []
      else if same s.local s.remote
      then reconciled e key view now []
      else if is_some s.local && not (same s.local s.base)
      then reconciled e key view now []
      else pulled e key view again now (copy_to_local ∷ []) sent

  -- `#runPull`; `wanted` is the payload's digest.
  unfoldable pub run_pull :
      S → Text → Option Text → View → Reply View → Reply View → Reply Transfer → ℕ → Ran S
  unfolding pull_fresh
  run_pull e key wanted view polled again sent now =
      pull_fresh e key again sent now (fresh_remote wanted view polled)

  -- `#runDeleteRemote` after its `removeObject` call.
  unfoldable pub removed : S → Text → View → Reply View → ℕ → List Call → Reply Transfer → Ran S
  unfolding redecide_polled
  removed e key view polled now calls (throws f) =
      if same f.code (some (codes "NOT_FOUND")) then forget e key calls else fails e calls f
  removed e key view polled now calls (reply res) =
      if res.ok || text_eq res.reason (codes "not-found")
      then forget e key calls
      else if text_eq res.reason (codes "precondition-failed")
      then redecide_polled e key view res.current polled now calls
      else fails e calls (failure res key)

  -- `#runDeleteRemote`. An error with the code PRECONDITION_FAILED is given as the reply with the
  -- reason `precondition-failed`, which the source handles in the same way.
  unfoldable pub run_delete_remote : S → Text → View → Reply View → Reply Transfer → ℕ → Ran S
  unfolding removed
  run_delete_remote e key view polled sent now =
      let s = sides jt dt rt opts e key view in
      if not (truthy s.base)
      then done e []
      else if truthy s.local
      then later e key []
      else removed e key view polled now (remove_on_hub s.base ∷ []) sent

  -- `#runTrashLocal` after its `move` call.
  unfoldable pub trashed : S → Text → List Call → Reply Transfer → Ran S
  trashed e key calls (throws f) = fails e calls f
  trashed e key calls (reply res) =
      if res.ok
        || (text_eq res.reason (codes "not-found") || text_eq res.reason (codes "no-source"))
      then forget e key calls
      else fails e calls (failure res key)

  unfoldable pub run_trash_local : S → Text → View → Reply Transfer → Ran S
  unfolding trashed
  run_trash_local e key view sent =
      let s = sides jt dt rt opts e key view in
      if not (truthy s.local)
      then forget e key []
      else if not (same s.local s.base) || truthy s.remote
      then later e key []
      else trashed e key (move_to_trash ∷ []) sent
