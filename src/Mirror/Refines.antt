-- ===== src/Mirror/Refines.antt =====
-- src/sync/Mirror.js: a job whose transfer went through leaves the base that `Settle` states for its
-- decision.
use mathlib.Core.Path.{subst}
use canvas_stored.Prelude.{
  ℕ, ◌≡◌, refl, sym, ap, Bool, true, false, not, ◌&&◌, Option, none, some, List, [], ◌∷◌, arith,
  Text, truthy, same, same_iff, is_some, first_some, if◌then◌else◌,
}
use canvas_stored.Lmdb.{Table, nat_key, text_key, get-put_self, get-remove, eq_refl}
use canvas_stored.Jobs.Types.{Job}
use canvas_stored.Ledger.Rows.{base_row, Row, BaseInput, base_of, base, row_key, lower_case}
use canvas_stored.Ledger.Methods.{
  as_base, get_base, set_base, set_base_to, put_base, remove_base, drop_row, is_present,
}
use canvas_stored.Mirror.Decide.{push, pull, delete_remote, trash_local}
use canvas_stored.Mirror.Settle.{settle, is_digest}
use canvas_stored.Mirror.Engine.{
  Options, View, State, sides, sha_of, agree, agreed, void_base, size_of,
}
use canvas_stored.Mirror.Answers.{
  Reply, reply, Transfer, Call, copy_to_hub, copy_to_local, remove_on_hub, move_to_trash, Ran, done,
  finish, fresh_remote,
}
use canvas_stored.Mirror.Transfers.{
  pushed_base, pulled_base, pushed, push_confirmed, run_push, pulled, pull_fresh, run_pull, removed,
  run_delete_remote, trashed, run_trash_local,
}

-- A digest is in lower case, as the hub and the local index spell it.
abbrev pub IsLower : Option Text → Type 0
IsLower none = true ≡ true
IsLower (some d) = lower_case d ≡ d

-- Where there is no base and the hub's view has nothing, `#runPush` takes the hub to have none.
confirmed_lem :
    (b : Option Text) (known : Bool)
    → is_digest b ≡ true
    → (if not (truthy b) && not known then reply none else reply b) ≡ reply b
confirmed_lem none true h = refl
confirmed_lem none false h = refl
confirmed_lem (some []) known h = cc
confirmed_lem (some (c ∷ cs)) known h = refl

module _ (jt : Table nat_key Job) (dt : Table text_key ℕ) (rt : Table text_key Row)
    (opts : Options) where
  -- The base that a job leaves for a key, where it threw nothing.
  abbrev pub Leaves : Text → Option Text → Ran (State jt dt rt opts) → Type 0
  Leaves key digest ran =
      (ran.failed ≡ none) × (sha_of (get_base rt ran.state.rows opts.id key) ≡ digest)

  agreed-Leaves :
      (e : State jt dt rt opts) (key : Text) (input : BaseInput) (now : ℕ) (calls : List Call)
      (sha : Option Text)
      → truthy sha ≡ true
      → IsLower sha
      → Leaves key sha (
          finish e calls (agreed jt dt rt opts e (set_base_to rt e.rows opts.id key input now sha)))
  unfolding set_base_to put_base get_base base_of
  agreed-Leaves e key input now calls none h l = cc
  agreed-Leaves e key input now calls (some []) h l = cc
  agreed-Leaves e key input now calls (some (c ∷ cs)) h l = (
    refl,
    rw
        (get-put_self rt e.rows (row_key base opts.id (some key))
          (base_row (base_of (c ∷ cs) input now)))
        (ap some l),
  )

  agree-Leaves :
      (e : State jt dt rt opts) (key : Text) (input : BaseInput) (now : ℕ) (calls : List Call)
      → truthy input.sha256 ≡ true
      → IsLower input.sha256
      → Leaves key input.sha256 (finish e calls (agree jt dt rt opts e key input now))
  unfolding agree set_base
  agree-Leaves e key input now calls h l = agreed-Leaves e key input now calls input.sha256 h l

  get-drop_row :
      (d : rt.Db) (k : Text) (o : Option Row)
      → rt.get d k ≡ o
      → rt.get (if is_present o then rt.remove d k else d) k ≡ none
  get-drop_row d k none e = e
  get-drop_row d k (some row) e = rw get-remove (rw (eq_refl text_key k) refl)

  void_base-Leaves :
      (e : State jt dt rt opts) (key : Text) (calls : List Call)
      → Leaves key none (done (void_base jt dt rt opts e key) calls)
  unfolding void_base remove_base drop_row get_base
  void_base-Leaves e key calls = (
    refl,
    ap (λ o. sha_of (as_base o))
        (get-drop_row e.rows (row_key base opts.id (some key))
          (rt.get e.rows (row_key base opts.id (some key))) refl),
  )

module _ (jt : Table nat_key Job) (dt : Table text_key ℕ) (rt : Table text_key Row) (opts : Options)
    (nfc : Text → Text) (picomatch : List Text → Text → Bool) (locally_ignored : Text → Bool) where
  abbrev E : Type 0
  E = State jt dt rt opts

  -- Where there is a local file with a digest in lower case, the hub still has the base and takes the
  -- file, `#runPush` throws nothing and leaves the base that a push is to leave.
  pub run_push-settle :
      (e : E) (key : Text) (view : View) (polled : Reply View) (res : Transfer) (now : ℕ)
      → truthy view.local_sha ≡ true
      → view.local_known ≡ true
      → IsLower view.local_sha
      → is_digest (sides jt dt rt opts e key view).base ≡ true
      → res.ok ≡ true
      → let s = sides jt dt rt opts e key view in
        Leaves jt dt rt opts key (settle (push s.base) s).sides.base (
          run_push jt dt rt opts nfc picomatch locally_ignored e key view
            (reply s.base)
            polled
            (reply res)
            now)
  unfolding run_push push_confirmed pushed settle sides pushed_base
  run_push-settle e key view polled res now there known lower digest ok =
      let s = sides jt dt rt opts e key view in
      let calls = copy_to_hub s.base ∷ [] in
      let target = finish e calls (agree jt dt rt opts e key (pushed_base view res) now) in
      let same_run : run_push jt dt rt opts nfc picomatch locally_ignored e key view (reply s.base)
            polled (reply res) now
          ≡ target =
        ground (arith, same_iff s.base s.base, confirmed_lem s.base view.remote_known digest) in
      subst (Leaves jt dt rt opts key view.local_sha) (sym same_run)
        (agree-Leaves jt dt rt opts e key (pushed_base view res) now calls there lower)

  -- Where the view that the poll left has a file of the hub with a digest in lower case, the local
  -- file is another, is absent or as it was agreed on, and the copy goes through, `#runPull` throws
  -- nothing and leaves the base that a pull is to leave.
  pub run_pull-settle :
      (e : E) (key : Text) (wanted : Option Text) (view seen : View) (polled again : Reply View)
      (res : Transfer) (now : ℕ)
      → fresh_remote wanted view polled ≡ reply seen
      → truthy seen.remote_sha ≡ true
      → IsLower seen.remote_sha
      → same seen.local_sha seen.remote_sha ≡ false
      → (is_some seen.local_sha && not (same seen.local_sha (sides jt dt rt opts e key seen).base))
        ≡ false
      → res.ok ≡ true
      → let s = sides jt dt rt opts e key seen in
        Leaves jt dt rt opts key (settle (pull s.remote) s).sides.base (
          run_pull jt dt rt opts nfc picomatch locally_ignored e key wanted view polled again
            (reply res)
            now)
  unfolding run_pull pull_fresh pulled settle sides pulled_base
  run_pull-settle e key wanted view seen polled again res now fresh there lower other clean ok =
      let calls = copy_to_local ∷ [] in
      let input = record (pulled_base seen) {
        size = first_some (size_of seen.remote_at) seen.remote_size;
      } in
      let target = finish e calls (agree jt dt rt opts e key input now) in
      let same_run : pull_fresh jt dt rt opts nfc picomatch locally_ignored e key again (reply res)
            now (reply seen)
          ≡ target =
        ground arith in
      subst
        (λ v.
          Leaves jt dt rt opts key seen.remote_sha
            (pull_fresh jt dt rt opts nfc picomatch locally_ignored e key again (reply res) now v))
        (sym fresh)
        (subst (Leaves jt dt rt opts key seen.remote_sha) (sym same_run)
          (agree-Leaves jt dt rt opts e key input now calls there lower))

  -- Where the key was agreed on, there is no local file and the hub deletes its own, `#runDeleteRemote`
  -- throws nothing and leaves no base.
  pub run_delete_remote-settle :
      (e : E) (key : Text) (view : View) (polled : Reply View) (res : Transfer) (now : ℕ)
      → truthy (sides jt dt rt opts e key view).base ≡ true
      → truthy view.local_sha ≡ false
      → res.ok ≡ true
      → let s = sides jt dt rt opts e key view in
        Leaves jt dt rt opts key (settle (delete_remote s.base) s).sides.base (
          run_delete_remote jt dt rt opts nfc picomatch locally_ignored e key view polled
            (reply res)
            now)
  unfolding run_delete_remote removed settle sides
  run_delete_remote-settle e key view polled res now agreed gone ok =
      let calls = remove_on_hub (sides jt dt rt opts e key view).base ∷ [] in
      let target = done (void_base jt dt rt opts e key) calls in
      let same_run : run_delete_remote jt dt rt opts nfc picomatch locally_ignored e key view polled
            (reply res) now
          ≡ target =
        ground arith in
      subst (Leaves jt dt rt opts key none) (sym same_run)
        (void_base-Leaves jt dt rt opts e key calls)

  -- Where the local file is as it was agreed on, the hub has none and the move goes through,
  -- `#runTrashLocal` throws nothing and leaves no base.
  pub run_trash_local-settle :
      (e : E) (key : Text) (view : View) (res : Transfer)
      → truthy view.local_sha ≡ true
      → same view.local_sha (sides jt dt rt opts e key view).base ≡ true
      → truthy view.remote_sha ≡ false
      → res.ok ≡ true
      → let s = sides jt dt rt opts e key view in
        Leaves jt dt rt opts key
          (settle trash_local s).sides.base
          (run_trash_local jt dt rt opts nfc picomatch locally_ignored e key view (reply res))
  unfolding run_trash_local trashed settle sides
  run_trash_local-settle e key view res there clean gone ok =
      let target = done (void_base jt dt rt opts e key) (move_to_trash ∷ []) in
      let same_run : run_trash_local jt dt rt opts nfc picomatch locally_ignored e key view
            (reply res)
          ≡ target =
        ground arith in
      subst (Leaves jt dt rt opts key none) (sym same_run)
        (void_base-Leaves jt dt rt opts e key (move_to_trash ∷ []))
