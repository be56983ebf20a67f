-- ===== src/Mirror/Keeps.antt =====
-- src/sync/Mirror.js: `#runConflict` and `#runRevert` overwrite a local file only after it was kept.
use canvas_stored.Prelude.{
  ℕ, ◌≡◌, refl, ◌++◌, Bool, true, false, not, ◌||◌, Option, List, [], ◌∷◌, arith, Text, codes,
  text_eq, any, if◌then◌else◌,
}
use canvas_stored.Lmdb.{Table, nat_key, text_key}
use canvas_stored.Jobs.Types.{Job}
use canvas_stored.Ledger.Rows.{Row, BaseInput}
use canvas_stored.Mirror.Engine.{Options, View, agree}
use canvas_stored.Mirror.Answers.{
  Reply, reply, throws, Transfer, Call, copy_to_hub, copy_to_local, remove_on_hub, rename_on_hub,
  move_to_trash, rename_here, keep_copy, upload_conflict, fresh_remote,
}
use canvas_stored.Mirror.Transfers.{S, pulled_base}
use canvas_stored.Mirror.Permits.{finish-calls, reconciled-calls}
use canvas_stored.Mirror.Conflicts.{
  Scene, is_copied, copy_key, count_conflict, count_revert, counted, put_back, take_hub_version,
  uploaded, upload, keep_then_upload, conflict_confirmed, run_conflict, keep_then_revert,
  revert_fresh, run_revert,
}

abbrev pub went_through : Reply Transfer → Bool
went_through (throws f) = false
went_through (reply res) = res.ok || text_eq res.reason (codes "unchanged")

-- The local file is overwritten by this call.
abbrev overwrites : Call → Bool
overwrites copy_to_local = true
overwrites rename_here = true
overwrites move_to_trash = true
overwrites _ = false

-- The calls begin with the copy to the conflicts backend, and where a later one overwrites the local
-- file, the copy went through.
abbrev pub keeps_first : Reply Transfer → List Call → Bool
keeps_first kept [] = true
keeps_first kept (keep_copy key ∷ calls) = went_through kept || not (any overwrites calls)
keeps_first kept (call ∷ calls) = not (any overwrites (call ∷ calls))

-- The first call is the copy.
abbrev begins : List Call → Bool
begins (keep_copy key ∷ calls) = true
begins _ = false

begins-append : (calls more : List Call) → begins calls ≡ true → begins (calls ++ more) ≡ true
begins-append [] more h = cc
begins-append (keep_copy key ∷ calls) more h = refl
begins-append (copy_to_hub c ∷ calls) more h = cc
begins-append (copy_to_local ∷ calls) more h = cc
begins-append (remove_on_hub c ∷ calls) more h = cc
begins-append (rename_on_hub c ∷ calls) more h = cc
begins-append (move_to_trash ∷ calls) more h = cc
begins-append (rename_here ∷ calls) more h = cc
begins-append (upload_conflict c ∷ calls) more h = cc

kept_lem :
    (kept : Reply Transfer) (calls : List Call)
    → went_through kept ≡ true
    → begins calls ≡ true
    → keeps_first kept calls ≡ true
kept_lem kept [] w h = refl
kept_lem kept (keep_copy key ∷ calls) w h = ground arith
kept_lem kept (copy_to_hub c ∷ calls) w h = cc
kept_lem kept (copy_to_local ∷ calls) w h = cc
kept_lem kept (remove_on_hub c ∷ calls) w h = cc
kept_lem kept (rename_on_hub c ∷ calls) w h = cc
kept_lem kept (move_to_trash ∷ calls) w h = cc
kept_lem kept (rename_here ∷ calls) w h = cc
kept_lem kept (upload_conflict c ∷ calls) w h = cc

module _ (jt : Table nat_key Job) (dt : Table text_key ℕ) (rt : Table text_key Row) (opts : Options)
    (nfc : Text → Text) (picomatch : List Text → Text → Bool) (locally_ignored : Text → Bool) where
  abbrev E : Type 0
  E = S jt dt rt opts nfc picomatch locally_ignored

  put_back-calls :
      (count : E → E) (base : BaseInput) (e : E) (key : Text) (now : ℕ) (calls : List Call)
      (r : Reply Transfer)
      → (put_back jt dt rt opts nfc picomatch locally_ignored count base e key now calls r).calls
        ≡ calls
  unfolding put_back
  put_back-calls count base e key now calls (throws f) = refl
  put_back-calls count base e key now calls (reply res) = ground (
    arith,
    finish-calls e calls (
        counted jt dt rt opts nfc picomatch locally_ignored count
          (agree jt dt rt opts e key base now)),
  )

  take_hub_version-begins :
      (e : E) (key : Text) (c : Option Text) (scene : Scene) (calls : List Call) (v : Reply View)
      → begins calls ≡ true
      → begins
          (take_hub_version jt dt rt opts nfc picomatch locally_ignored e key c scene calls v).calls
        ≡ true
  unfolding take_hub_version
  take_hub_version-begins e key c scene calls (throws f) h = h
  take_hub_version-begins e key c scene calls (reply view) h = ground (
    arith,
    begins-append calls (copy_to_local ∷ []) h,
    put_back-calls (count_conflict jt dt rt opts nfc picomatch locally_ignored)
        (record (pulled_base view) { sha256 = c }) e key scene.now (calls ++ (copy_to_local ∷ []))
        scene.brought,
  )

  uploaded-begins :
      (e : E) (key : Text) (view : View) (c : Option Text) (scene : Scene) (calls : List Call)
      (r : Reply Transfer)
      → begins calls ≡ true
      → begins
          (uploaded jt dt rt opts nfc picomatch locally_ignored e key view c scene calls r).calls
        ≡ true
  unfolding uploaded
  uploaded-begins e key view c scene calls (throws f) h = h
  uploaded-begins e key view c scene calls (reply res) h =
      ground
        (arith, take_hub_version-begins e key c scene calls (fresh_remote c view scene.polled) h)

  upload-begins :
      (e : E) (key : Text) (view : View) (c : Option Text) (scene : Scene) (calls : List Call)
      → begins calls ≡ true
      → begins (upload jt dt rt opts nfc picomatch locally_ignored e key view c scene calls).calls
        ≡ true
  unfolding upload
  upload-begins e key view c scene calls h =
      let sent = upload_conflict (
        if scene.inbox
        then key
        else copy_key jt dt rt opts nfc picomatch locally_ignored key scene) in
      ground (
        arith,
        uploaded-begins e key view c scene (calls ++ (sent ∷ [])) scene.uploaded
            (begins-append calls (sent ∷ []) h),
      )

  keep_then_upload-keeps :
      (e : E) (key copy : Text) (view : View) (c : Option Text) (scene : Scene)
      (kept : Reply Transfer)
      → keeps_first kept
          (keep_then_upload jt dt rt opts nfc picomatch locally_ignored e key view c scene
            (keep_copy copy ∷ [])
            kept).calls
        ≡ true
  unfolding keep_then_upload is_copied
  keep_then_upload-keeps e key copy view c scene (throws f) = refl
  keep_then_upload-keeps e key copy view c scene (reply res) = ground (
    arith,
    kept_lem (reply res)
        (upload jt dt rt opts nfc picomatch locally_ignored e key view c scene
          (keep_copy copy ∷ [])).calls,
    upload-begins e key view c scene (keep_copy copy ∷ []) refl,
  )

  conflict_confirmed-keeps :
      (e : E) (key : Text) (view : View) (scene : Scene) (stat : Reply (Option Text))
      → keeps_first scene.kept
          (conflict_confirmed jt dt rt opts nfc picomatch locally_ignored e key view scene
            stat).calls
        ≡ true
  unfolding conflict_confirmed
  conflict_confirmed-keeps e key view scene (throws f) = refl
  conflict_confirmed-keeps e key view scene (reply c) = ground (
    arith,
    reconciled-calls jt dt rt opts nfc picomatch locally_ignored e key view scene.now [],
    keep_then_upload-keeps e key (copy_key jt dt rt opts nfc picomatch locally_ignored key scene)
        view c scene scene.kept,
  )

  -- A conflict overwrites the local file only after the local version was copied to the conflicts
  -- backend, as its first call, and that copy went through.
  pub run_conflict-keeps :
      (e : E) (key : Text) (view : View) (stat : Reply (Option Text)) (scene : Scene)
      → keeps_first scene.kept
          (run_conflict jt dt rt opts nfc picomatch locally_ignored e key view stat scene).calls
        ≡ true
  unfolding run_conflict
  run_conflict-keeps e key view stat scene =
      ground (arith, conflict_confirmed-keeps e key view scene stat)

  keep_then_revert-keeps :
      (e : E) (key copy : Text) (view : View) (scene : Scene) (kept : Reply Transfer)
      → keeps_first kept
          (keep_then_revert jt dt rt opts nfc picomatch locally_ignored e key view scene
            (keep_copy copy ∷ [])
            kept).calls
        ≡ true
  unfolding keep_then_revert is_copied
  keep_then_revert-keeps e key copy view scene (throws f) = refl
  keep_then_revert-keeps e key copy view scene (reply res) = ground (
    arith,
    put_back-calls (count_revert jt dt rt opts nfc picomatch locally_ignored) (pulled_base view) e
        key scene.now (keep_copy copy ∷ copy_to_local ∷ []) scene.brought,
  )

  revert_fresh-keeps :
      (e : E) (key : Text) (here : Option Text) (scene : Scene) (v : Reply View)
      → keeps_first scene.kept
          (revert_fresh jt dt rt opts nfc picomatch locally_ignored e key here scene v).calls
        ≡ true
  unfolding revert_fresh
  revert_fresh-keeps e key here scene (throws f) = refl
  revert_fresh-keeps e key here scene (reply view) = ground (
    arith,
    reconciled-calls jt dt rt opts nfc picomatch locally_ignored e key view scene.now [],
    keep_then_revert-keeps e key (copy_key jt dt rt opts nfc picomatch locally_ignored key scene)
        view scene scene.kept,
  )

  -- A revert overwrites the local file only after the local version was copied to the conflicts
  -- backend, as its first call, and that copy went through.
  pub run_revert-keeps :
      (e : E) (key : Text) (wanted : Option Text) (view : View) (scene : Scene)
      → keeps_first scene.kept
          (run_revert jt dt rt opts nfc picomatch locally_ignored e key wanted view scene).calls
        ≡ true
  unfolding run_revert
  run_revert-keeps e key wanted view scene =
      ground (
        arith,
        revert_fresh-keeps e key view.local_sha scene (fresh_remote wanted view scene.polled),
      )
