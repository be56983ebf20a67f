-- ===== src/Mirror/Redecide.antt =====
-- src/sync/Mirror.js: `#redecide`, `#localRenamed` and `#remoteRenamed`. The events and timers are
-- left out; a step that throws returns none.
use canvas_stored.Prelude.{
  ℕ, ◌++◌, Bool, true, false, not, ◌&&◌, ◌||◌, Option, none, some, List, [], ◌∷◌, Text, codes,
  text_eq, truthy, same, is_some, if◌then◌else◌,
}
use canvas_stored.Lmdb.{Table, nat_key, text_key}
use canvas_stored.Jobs.Types.{is_pending, Job, Payload, no_payload, Queue}
use canvas_stored.Jobs.Methods.{append, cancel, by_key}
use canvas_stored.Ledger.Rows.{Row, no_patch}
use canvas_stored.Ledger.Methods.{get_base, move_base}
use canvas_stored.Mirror.Decide.{
  pull_only, push_only, Direction, Sides, Decision, trash_local, adopt, push, delete_remote, pull,
  conflict, decide,
}
use canvas_stored.Mirror.Engine.{
  Options, View, request, in_scope, sides, mark_dirty, enqueue, queued, State,
}
use canvas_stored.Mirror.Reconcile.{versions, reconcile_key}

abbrev pub is_push_only : Direction → Bool
is_push_only push_only = true
is_push_only _ = false

abbrev pub is_pull_only : Direction → Bool
is_pull_only pull_only = true
is_pull_only _ = false

-- `rename-remote|${from}→${to}`, and the same for `rename-local`.
unfoldable pub rename_dedupe : Text → Text → Text → Text
rename_dedupe kind from to = kind ++ (codes "|" ++ (from ++ (codes "→" ++ to)))

module _ (jt : Table nat_key Job) (dt : Table text_key ℕ) (rt : Table text_key Row) (opts : Options)
    (nfc : Text → Text) (picomatch : List Text → Text → Bool) (locally_ignored : Text → Bool) where
  abbrev kept : Option (Option Decision × State jt dt rt opts) → Option (State jt dt rt opts)
  kept none = none
  kept (some (d, e)) = some e

  -- The `switch` of `#redecide`, for the view that the poll before it left; `R` is what the hub
  -- confirmed.
  unfoldable pub redecide_as :
      Decision → State jt dt rt opts → Text → View → Sides → ℕ → Option (State jt dt rt opts)
  unfolding reconcile_key enqueue
  redecide_as (pull sha256) e key view s now =
      enqueue jt dt rt opts e (codes "pull") key (record no_payload { sha256 = s.remote }) now
  redecide_as trash_local e key view s now =
      enqueue jt dt rt opts e (codes "trash-local") key (record no_payload { sha256 = s.local }) now
  redecide_as (conflict remote) e key view s now =
      enqueue jt dt rt opts e (codes "conflict") key (versions s) now
  redecide_as adopt e key view s now =
      kept (reconcile_key jt dt rt opts nfc picomatch locally_ignored e key view now)
  redecide_as (push if_match) e key view s now =
      kept (reconcile_key jt dt rt opts nfc picomatch locally_ignored e key view now)
  redecide_as (delete_remote if_match) e key view s now =
      kept (reconcile_key jt dt rt opts nfc picomatch locally_ignored e key view now)
  redecide_as _ e key view s now = some e

  unfoldable pub redecide :
      State jt dt rt opts → Text → View → Option Text → ℕ → Option (State jt dt rt opts)
  unfolding redecide_as sides
  redecide e key view confirmed now =
      let s = record (sides jt dt rt opts e key view) { remote = confirmed } in
      redecide_as (decide s) e key view s now

  abbrev both_in_scope : Text → Text → Bool
  both_in_scope from to =
      in_scope nfc picomatch locally_ignored opts from
      && in_scope nfc picomatch locally_ignored opts to

  -- The loop that cancels the pending pushes of the old key.
  unfoldable pub cancel_pushes : List Job → Queue jt dt → Queue jt dt
  cancel_pushes [] q = q
  cancel_pushes (job ∷ jobs) q = cancel_pushes jobs (
      if is_pending job.state && text_eq job.kind (codes "push")
      then (cancel jt dt q job.seq).1
      else q)

  abbrev pub ends : Text → Text → Payload
  ends from to = record no_payload { from = some from; to = some to }

  abbrev mark_both : State jt dt rt opts → Text → Text → State jt dt rt opts
  mark_both e from to = mark_dirty jt dt rt opts nfc (mark_dirty jt dt rt opts nfc e from) to

  abbrev marked : Option (State jt dt rt opts) → Text → Option (State jt dt rt opts)
  marked none to = none
  marked (some e) to = some (mark_dirty jt dt rt opts nfc e to)

  unfoldable pub local_renamed :
      State jt dt rt opts → Text → Text → ℕ → Option (State jt dt rt opts)
  unfolding mark_dirty cancel_pushes rename_dedupe
  local_renamed e from to now =
      if is_pull_only opts.direction
        || (not (is_some (get_base rt e.rows opts.id from))
            || (is_some (get_base rt e.rows opts.id to) || not (both_in_scope from to)))
      then some (mark_both e from to)
      else (let rows = (move_base rt e.rows opts.id from to no_patch now).1 in
          let q = cancel_pushes (by_key jt dt e.queue from (some (some opts.id))) e.queue in
          marked
            (queued jt dt rt opts (record e { rows = rows })
              (append jt dt q
                (request (codes "rename-remote") opts.id to (ends from to)
                  (some (rename_dedupe (codes "rename-remote") from to)))
                now))
            to)

  -- `view` is the old key's; `target` is whether the index has a local entry at the new one.
  unfoldable pub remote_renamed :
      State jt dt rt opts → Text → Text → View → Bool → ℕ → Option (State jt dt rt opts)
  unfolding mark_dirty rename_dedupe sides
  remote_renamed e from to view target now =
      let s = sides jt dt rt opts e from view in
      if not (is_push_only opts.direction)
        && (truthy s.local && (same s.local s.base && (not target && both_in_scope from to)))
      then queued jt dt rt opts e (
          append jt dt e.queue
            (request (codes "rename-local") opts.id to (ends from to)
              (some (rename_dedupe (codes "rename-local") from to)))
            now)
      else some (mark_both e from to)
