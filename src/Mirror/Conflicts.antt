-- ===== src/Mirror/Conflicts.antt =====
-- src/sync/Mirror.js: the jobs `#runConflict` and `#runRevert`, without their events.
use canvas_stored.Prelude.{
  ℕ, ◌+◌, ◌++◌, Bool, not, ◌&&◌, ◌||◌, Option, none, some, List, [], ◌∷◌, Text, codes, text_eq,
  truthy, same, if◌then◌else◌,
}
use canvas_stored.Lmdb.{Table, nat_key, text_key}
use canvas_stored.Keys.Conflict.{UtcTime, conflict_key}
use canvas_stored.Jobs.Types.{Job}
use canvas_stored.Ledger.Rows.{Row, BaseInput}
use canvas_stored.Ledger.Methods.{set_state}
use canvas_stored.Mirror.Engine.{Options, View, sides, agree}
use canvas_stored.Mirror.Answers.{
  Reply, reply, throws, Transfer, Call, copy_to_local, keep_copy, upload_conflict, Ran, failure,
  fails, finish, fresh_remote,
}
use canvas_stored.Mirror.Transfers.{S, later, forget, reconciled, pulled_base}

-- What the mirror is told: the device's name, `conflictMode`, the time, and the answers to its calls
-- in their order. `streamed` is whether the local file could be opened for the inbox.
pub record Scene : Type 0 where
  pub device : Text
  pub inbox : Bool
  pub time : UtcTime
  pub now : ℕ
  pub kept : Reply Transfer
  pub streamed : Bool
  pub uploaded : Reply Transfer
  pub polled : Reply View
  pub brought : Reply Transfer

-- `kept.ok || kept.reason === 'unchanged'`
unfoldable pub is_copied : Transfer → Bool
is_copied res = res.ok || text_eq res.reason (codes "unchanged")

module _ (jt : Table nat_key Job) (dt : Table text_key ℕ) (rt : Table text_key Row) (opts : Options)
    (nfc : Text → Text) (picomatch : List Text → Text → Bool) (locally_ignored : Text → Bool) where
  abbrev E : Type 0
  E = S jt dt rt opts nfc picomatch locally_ignored

  abbrev pub copy_key : Text → Scene → Text
  copy_key key scene = conflict_key nfc (some key) (some scene.device) scene.time

  -- `this.#conflicts += 1` and its row of the ledger.
  unfoldable pub count_conflict : E → E
  count_conflict e = record e {
    conflicts = e.conflicts + 1;
    rows =
        (set_state rt e.rows opts.id
          (record { conflicts = some (e.conflicts + 1); reverted = none; last_sync_at = none })).1;
  }

  unfoldable pub count_revert : E → E
  count_revert e = record e {
    reverted = e.reverted + 1;
    rows =
        (set_state rt e.rows opts.id
          (record { conflicts = none; reverted = some (e.reverted + 1); last_sync_at = none })).1;
  }

  abbrev pub counted : (E → E) → Option E → Option E
  counted count none = none
  counted count (some e) = some (count e)

  -- The hub's version is in place: the end of both jobs.
  unfoldable pub put_back : (E → E) → BaseInput → E → Text → ℕ → List Call → Reply Transfer → Ran E
  put_back count base e key now calls (throws f) = fails e calls f
  put_back count base e key now calls (reply res) =
      if not res.ok
      then fails e calls (failure res key)
      else finish e calls (counted count (agree jt dt rt opts e key base now))

  -- (c) of `#runConflict`, with the view that the poll left.
  unfoldable pub take_hub_version : E → Text → Option Text → Scene → List Call → Reply View → Ran E
  unfolding put_back count_conflict
  take_hub_version e key confirmed scene calls (throws f) = fails e calls f
  take_hub_version e key confirmed scene calls (reply view) =
      if not view.remote_known
      then later jt dt rt opts nfc picomatch locally_ignored e key calls
      else put_back count_conflict (record (pulled_base view) { sha256 = confirmed }) e key
          scene.now (calls ++ (copy_to_local ∷ [])) scene.brought

  -- (b) of `#runConflict`.
  unfoldable pub uploaded :
      E → Text → View → Option Text → Scene → List Call → Reply Transfer → Ran E
  unfolding take_hub_version
  uploaded e key view confirmed scene calls (throws f) = fails e calls f
  uploaded e key view confirmed scene calls (reply res) =
      if not scene.inbox && (not res.ok && not (text_eq res.reason (codes "target-exists")))
      then fails e calls (failure res (copy_key key scene))
      else take_hub_version e key confirmed scene calls (fresh_remote confirmed view scene.polled)

  unfoldable pub upload : E → Text → View → Option Text → Scene → List Call → Ran E
  unfolding uploaded
  upload e key view confirmed scene calls =
      if scene.inbox && not scene.streamed
      then later jt dt rt opts nfc picomatch locally_ignored e key calls
      else uploaded e key view confirmed scene
          (calls ++ (upload_conflict (if scene.inbox then key else copy_key key scene) ∷ []))
          scene.uploaded

  -- (a) of `#runConflict`.
  unfoldable pub keep_then_upload :
      E → Text → View → Option Text → Scene → List Call → Reply Transfer → Ran E
  unfolding upload is_copied
  keep_then_upload e key view confirmed scene calls (throws f) = fails e calls f
  keep_then_upload e key view confirmed scene calls (reply res) =
      if not (is_copied res)
      then fails e calls (failure res (copy_key key scene))
      else upload e key view confirmed scene calls

  unfoldable pub conflict_confirmed : E → Text → View → Scene → Reply (Option Text) → Ran E
  unfolding keep_then_upload
  conflict_confirmed e key view scene (throws f) = fails e [] f
  conflict_confirmed e key view scene (reply confirmed) =
      let s = sides jt dt rt opts e key view in
      if not (truthy confirmed)
      then later jt dt rt opts nfc picomatch locally_ignored
          (forget jt dt rt opts nfc picomatch locally_ignored e key []).state key []
      else if same confirmed s.local
      then reconciled jt dt rt opts nfc picomatch locally_ignored e key view scene.now []
      else if truthy s.base && same confirmed s.base
      then reconciled jt dt rt opts nfc picomatch locally_ignored e key view scene.now []
      else keep_then_upload e key view confirmed scene (keep_copy (copy_key key scene) ∷ [])
          scene.kept

  unfoldable pub run_conflict : E → Text → View → Reply (Option Text) → Scene → Ran E
  unfolding conflict_confirmed
  run_conflict e key view stat scene =
      if not (truthy view.local_sha) || not view.local_known
      then later jt dt rt opts nfc picomatch locally_ignored e key []
      else conflict_confirmed e key view scene stat

  -- `#runRevert` after the local version was copied.
  unfoldable pub keep_then_revert : E → Text → View → Scene → List Call → Reply Transfer → Ran E
  unfolding put_back count_revert is_copied
  keep_then_revert e key view scene calls (throws f) = fails e calls f
  keep_then_revert e key view scene calls (reply res) =
      if not (is_copied res)
      then fails e calls (failure res (copy_key key scene))
      else put_back count_revert (pulled_base view) e key scene.now (calls ++ (copy_to_local ∷ []))
          scene.brought

  -- `#runRevert` with the view that the poll left; the local digest is the one seen before it.
  unfoldable pub revert_fresh : E → Text → Option Text → Scene → Reply View → Ran E
  unfolding keep_then_revert
  revert_fresh e key here scene (throws f) = fails e [] f
  revert_fresh e key here scene (reply view) =
      if not (truthy view.remote_sha) || same view.remote_sha here
      then reconciled jt dt rt opts nfc picomatch locally_ignored e key view scene.now []
      else keep_then_revert e key view scene (keep_copy (copy_key key scene) ∷ []) scene.kept

  -- `#runRevert`; `wanted` is the payload's hub digest.
  unfoldable pub run_revert : E → Text → Option Text → View → Scene → Ran E
  unfolding revert_fresh
  run_revert e key wanted view scene =
      if not (truthy view.local_sha)
      then later jt dt rt opts nfc picomatch locally_ignored e key []
      else revert_fresh e key view.local_sha scene (fresh_remote wanted view scene.polled)
