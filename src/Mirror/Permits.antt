-- ===== src/Mirror/Permits.antt =====
-- src/sync/Mirror.js: what the jobs that transfer may write, by the sides that they see.
use canvas_stored.Prelude.{
  ℕ, ◌≡◌, refl, Bool, true, false, not, ◌&&◌, ◌||◌, Option, none, some, List, [], ◌∷◌, arith, Text,
  codes, truthy, same, same_iff, is_some, first_some, all, if◌then◌else◌,
}
use canvas_stored.Lmdb.{Table, nat_key, text_key}
use canvas_stored.Jobs.Types.{Job}
use canvas_stored.Ledger.Rows.{Row}
use canvas_stored.Mirror.Decide.{Sides}
use canvas_stored.Mirror.Engine.{Options, View, State, sides, agree, size_of}
use canvas_stored.Mirror.Answers.{
  Reply, reply, throws, Transfer, Call, copy_to_hub, copy_to_local, remove_on_hub, move_to_trash,
  Ran, finish, fresh_remote,
}
use canvas_stored.Mirror.Transfers.{
  redecided, reconciled, later_polled, redecide_polled, pushed, push_confirmed, run_push, pulled,
  pull_fresh, run_pull, removed, run_delete_remote, trashed, run_trash_local, pushed_base,
  pulled_base,
}

-- The writes that the sides allow: the hub is written on the condition of the base, a local file is
-- overwritten if it is absent or as it was agreed on, a file is deleted on the hub if it was agreed
-- on and is gone here, and trashed here if it is as it was agreed on and gone there.
abbrev pub permits : Sides → Call → Bool
permits s (copy_to_hub condition) = truthy s.local && same condition s.base
permits s copy_to_local = truthy s.remote && (not (is_some s.local) || same s.local s.base)
permits s (remove_on_hub condition) =
    truthy s.base && (same condition s.base && not (truthy s.local))
permits s move_to_trash = truthy s.local && (same s.local s.base && not (truthy s.remote))
permits s _ = false

same_refl : (d : Option Text) → same d d ≡ true
same_refl d = (same_iff d d).1 refl

pub finish-calls :
    {S : Type 0} (e : S) (calls : List Call) (o : Option S) → (finish e calls o).calls ≡ calls
finish-calls e calls none = refl
finish-calls e calls (some e') = refl

module _ (jt : Table nat_key Job) (dt : Table text_key ℕ) (rt : Table text_key Row) (opts : Options)
    (nfc : Text → Text) (picomatch : List Text → Text → Bool) (locally_ignored : Text → Bool) where
  abbrev E : Type 0
  E = State jt dt rt opts

  -- A step that makes no call.
  abbrev Same : List Call → Ran E → Type 0
  Same calls r = r.calls ≡ calls

  redecided-calls :
      (e : E) (key : Text) (confirmed : Option Text) (now : ℕ) (calls : List Call) (v : Reply View)
      → Same calls
          (redecided jt dt rt opts nfc picomatch locally_ignored e key confirmed now calls v)
  redecided-calls e key confirmed now calls (throws f) = refl
  redecided-calls e key confirmed now calls (reply v) = finish-calls e calls _

  redecide_polled-calls :
      (e : E) (key : Text) (view : View) (c : Option Text) (polled : Reply View) (now : ℕ)
      (calls : List Call)
      → Same calls (
          redecide_polled jt dt rt opts nfc picomatch locally_ignored e key view c polled now calls)
  unfolding redecide_polled
  redecide_polled-calls e key view c polled now calls = redecided-calls e key c now calls _

  pushed-calls :
      (e : E) (key : Text) (view : View) (polled : Reply View) (now : ℕ) (calls : List Call)
      (r : Reply Transfer)
      → Same calls
          (pushed jt dt rt opts nfc picomatch locally_ignored e key view polled now calls r)
  unfolding pushed
  pushed-calls e key view polled now calls (throws f) = refl
  pushed-calls e key view polled now calls (reply res) = ground (
    arith,
    finish-calls e calls (agree jt dt rt opts e key (pushed_base view res) now),
    redecide_polled-calls e key view res.current polled now calls,
  )

  pub reconciled-calls :
      (e : E) (key : Text) (view : View) (now : ℕ) (calls : List Call)
      → Same calls (reconciled jt dt rt opts nfc picomatch locally_ignored e key view now calls)
  reconciled-calls e key view now calls = finish-calls e calls _

  later_polled-calls :
      (e : E) (key : Text) (calls : List Call) (v : Reply View)
      → Same calls (later_polled jt dt rt opts nfc picomatch locally_ignored e key calls v)
  later_polled-calls e key calls (throws f) = refl
  later_polled-calls e key calls (reply v) = refl

  pulled-calls :
      (e : E) (key : Text) (view : View) (polled : Reply View) (now : ℕ) (calls : List Call)
      (r : Reply Transfer)
      → Same calls
          (pulled jt dt rt opts nfc picomatch locally_ignored e key view polled now calls r)
  unfolding pulled
  pulled-calls e key view polled now calls (throws f) = refl
  pulled-calls e key view polled now calls (reply res) = ground (
    arith,
    finish-calls e calls (
        agree jt dt rt opts e key
          (record (pulled_base view) {
            size = first_some (size_of view.remote_at) view.remote_size;
          })
          now),
    later_polled-calls e key calls (fresh_remote (some (codes "∅")) view polled),
  )

  removed-calls :
      (e : E) (key : Text) (view : View) (polled : Reply View) (now : ℕ) (calls : List Call)
      (r : Reply Transfer)
      → Same calls
          (removed jt dt rt opts nfc picomatch locally_ignored e key view polled now calls r)
  unfolding removed
  removed-calls e key view polled now calls (throws f) = ground arith
  removed-calls e key view polled now calls (reply res) =
      ground (arith, redecide_polled-calls e key view res.current polled now calls)

  trashed-calls :
      (e : E) (key : Text) (calls : List Call) (r : Reply Transfer)
      → Same calls (trashed jt dt rt opts nfc picomatch locally_ignored e key calls r)
  unfolding trashed
  trashed-calls e key calls (throws f) = refl
  trashed-calls e key calls (reply res) = ground arith

  push_confirmed-permits :
      (e : E) (key : Text) (view : View) (s : Sides) (polled : Reply View) (now : ℕ)
      (sent : Reply Transfer) (stat : Reply (Option Text))
      → truthy s.local ≡ true
      → all
          (permits s)
          (push_confirmed jt dt rt opts nfc picomatch locally_ignored e key view s polled now sent
            stat).calls
        ≡ true
  unfolding push_confirmed
  push_confirmed-permits e key view s polled now sent (throws f) h = refl
  push_confirmed-permits e key view s polled now sent (reply c) h = ground (
    arith,
    same_refl s.base,
    redecide_polled-calls e key view c polled now [],
    pushed-calls e key view polled now (copy_to_hub s.base ∷ []) sent,
  )

  -- `#runPush` asks the hub to take a file only if there is one, and on the condition that the hub
  -- still has the base (or has nothing, where there is no base).
  pub run_push-permits :
      (e : E) (key : Text) (view : View) (stat : Reply (Option Text)) (polled : Reply View)
      (sent : Reply Transfer) (now : ℕ)
      → all
          (permits (sides jt dt rt opts e key view))
          (run_push jt dt rt opts nfc picomatch locally_ignored e key view stat polled sent
            now).calls
        ≡ true
  unfolding run_push
  run_push-permits e key view stat polled sent now =
      let s = sides jt dt rt opts e key view in
      ground (
        arith,
        push_confirmed-permits e key view s polled now sent
            (if not (truthy s.base) && not view.remote_known then reply none else stat),
      )

  -- `#runDeleteRemote` asks the hub to delete a file only if it was agreed on and is gone here, and
  -- on the condition that the hub still has the base.
  pub run_delete_remote-permits :
      (e : E) (key : Text) (view : View) (polled : Reply View) (sent : Reply Transfer) (now : ℕ)
      → all
          (permits (sides jt dt rt opts e key view))
          (run_delete_remote jt dt rt opts nfc picomatch locally_ignored e key view polled sent
            now).calls
        ≡ true
  unfolding run_delete_remote
  run_delete_remote-permits e key view polled sent now =
      let s = sides jt dt rt opts e key view in
      ground (
        arith,
        same_refl s.base,
        removed-calls e key view polled now (remove_on_hub s.base ∷ []) sent,
      )

  -- `#runTrashLocal` moves a local file to the trash only if it is as it was agreed on and the hub
  -- has none.
  pub run_trash_local-permits :
      (e : E) (key : Text) (view : View) (sent : Reply Transfer)
      → all
          (permits (sides jt dt rt opts e key view))
          (run_trash_local jt dt rt opts nfc picomatch locally_ignored e key view sent).calls
        ≡ true
  unfolding run_trash_local
  run_trash_local-permits e key view sent =
      ground (arith, trashed-calls e key (move_to_trash ∷ []) sent)

  -- What the view allows that the poll left, where there is one.
  abbrev pub Seen : E → Text → Reply View → List Call → Type 0
  Seen e key (throws f) calls = calls ≡ []
  Seen e key (reply view) calls = all (permits (sides jt dt rt opts e key view)) calls ≡ true

  pull_fresh-permits :
      (e : E) (key : Text) (again : Reply View) (sent : Reply Transfer) (now : ℕ) (v : Reply View)
      → Seen e key v
          (pull_fresh jt dt rt opts nfc picomatch locally_ignored e key again sent now v).calls
  unfolding pull_fresh
  pull_fresh-permits e key again sent now (throws f) = refl
  pull_fresh-permits e key again sent now (reply view) = ground (
    arith,
    reconciled-calls e key view now [],
    pulled-calls e key view again now (copy_to_local ∷ []) sent,
  )

  -- `#runPull` overwrites a local file only with one that the hub has, and only if the local file is
  -- absent or as it was agreed on, by the view that the poll left; where the poll fails it writes
  -- nothing.
  pub run_pull-permits :
      (e : E) (key : Text) (wanted : Option Text) (view : View) (polled again : Reply View)
      (sent : Reply Transfer) (now : ℕ)
      → Seen e key
          (fresh_remote wanted view polled)
          (run_pull jt dt rt opts nfc picomatch locally_ignored e key wanted view polled again sent
            now).calls
  unfolding run_pull
  run_pull-permits e key wanted view polled again sent now =
      pull_fresh-permits e key again sent now (fresh_remote wanted view polled)
