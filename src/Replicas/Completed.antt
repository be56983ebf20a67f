-- ===== src/Replicas/Completed.antt =====
-- src/sync/ReplicaService.js: what an operation leaves, and when `#apply` releases staging.
use mathlib.Core.Path.{subst}
use mathlib.Core.List.{append_assoc, append-nil}
use canvas_stored.Prelude.{
  ℕ, ◌≡◌, ◌⊎◌, inl, inr, Option-cases, refl, sym, ap, ◌∙◌, Bool, true, false, Option, none, some,
  List, [], ◌∷◌, arith, Text, text_eq, keep, if_intro, any, ◌++◌, ◌&&◌, All, map,
}
use canvas_stored.Lmdb.{Table, text_key, get-put_self}
use canvas_stored.Replicas.Types.{
  Replica, Owner, Op, complete, Failure, same_place, Backend, Ingress, Service,
}
use canvas_stored.Replicas.Service.{get_op, put_op, owner_of}
use canvas_stored.Replicas.Place.{Applied, if_went, and_then, has_place}
use canvas_stored.Replicas.Spares.{spares, Spares}
use canvas_stored.Replicas.Releases.{placed_parts-Spares}
use canvas_stored.Replicas.Rechecked.{
  looks, if_went-spares, Looked, Confirmed, and_then-none, recheck_all-spares,
  recheck_all-Confirmed, release_files-op, release_files-is_release,
}
use canvas_stored.Replicas.Stage.{base_replicas}
use canvas_stored.Replicas.Apply.{
  Answers, is_file, owner_after, is_preserved, loosened, recheck_files, release_files, completed,
  commit, placed_parts, apply,
}

module _ (ot : Table text_key Op) (wt : Table text_key Owner) (it : Table text_key Ingress)
    (mt : Table text_key ℕ) (keeps : Bool) (backends : Text → Option Backend) where
  abbrev S : Type 0
  S = Service ot wt it mt

  -- The copies in an owner's record that are no outcomes: they are no longer kept equal, and none is
  -- at the place of an outcome.
  abbrev pub IsLoose : Op → Replica → Type 0
  IsLoose op r =
      (r.is_mirror ≡ false)
      × (any (λ o. text_eq o.backend r.backend && text_eq o.key r.key) op.outcomes ≡ false)

  -- The record of the operation's owner lists such copies and then the outcomes.
  abbrev pub Lists : S → Op → Type 0
  Lists t op =
      (w : Owner) × (loose : List Replica) × (owner_of ot wt it mt t op.owner ≡ some w)
      × (w.operation_id ≡ some op.id)
      × (w.replicas ≡ loose ++ op.outcomes)
      × All (IsLoose op) loose

  -- The operation is stored as complete, and so is its owner's record.
  abbrev pub Leaves : S → Op → Type 0
  Leaves t op = (get_op ot wt it mt t op.id ≡ some op) × (op.state ≡ complete) × Lists t op

  preserved-IsLoose : (op : Op) (r : Replica) → is_preserved op r ≡ true → IsLoose op (loosened r)
  unfolding is_preserved has_place same_place
  preserved-IsLoose op r h = (refl, ground (arith, h))

  loosened-IsLoose :
      (op : Op) (rs : List Replica) → All (IsLoose op) (map loosened (keep (is_preserved op) rs))
  loosened-IsLoose op [] = tt
  loosened-IsLoose op (r ∷ rs) =
      if_intro (λ l. All (IsLoose op) (map loosened l)) (is_preserved op r)
        (λ h. (preserved-IsLoose op r h, loosened-IsLoose op rs)) (λ h. loosened-IsLoose op rs)

  commit-Leaves :
      (now : ℕ) (s : S) (op : Op)
      → Leaves
          (commit ot wt it mt keeps backends now s op).service
          (commit ot wt it mt keeps backends now s op).op
  unfolding commit put_op get_op owner_of owner_after
  commit-Leaves now s op = (
    get-put_self ot s.ops op.id (completed op now),
    refl,
    (
      owner_after op now,
      map loosened (keep (is_preserved op) (base_replicas op.base)),
      get-put_self wt s.owners op.owner (owner_after op now),
      refl,
      refl,
      loosened-IsLoose op (base_replicas op.base),
    ),
  )

  -- The operation's parts up to its end, one after the other.
  abbrev checked_after : Answers → Applied S → Applied S
  checked_after a placed = and_then placed (recheck_files ot wt it mt keeps backends a)

  abbrev freed_after : Answers → Applied S → Applied S
  freed_after a placed =
      and_then (checked_after a placed) (release_files ot wt it mt keeps backends a)

  recheck_files-lem :
      (a : Answers) (s : S) (op : Op)
      → (recheck_files ot wt it mt keeps backends a s op).error ≡ none
      → Confirmed op.plan.content_id (keep is_file op.outcomes) a.checking 0
        × ((recheck_files ot wt it mt keeps backends a s op).op ≡ op)
        × ((recheck_files ot wt it mt keeps backends a s op).calls
            ≡ looks (keep is_file op.outcomes))
  unfolding recheck_files
  recheck_files-lem a s op n =
      recheck_all-Confirmed ot wt it mt keeps backends (keep is_file op.outcomes) s op a.checking 0
        n

  recheck_files-spares :
      (a : Answers) (s : S) (op : Op)
      → spares (recheck_files ot wt it mt keeps backends a s op).calls ≡ true
  unfolding recheck_files
  recheck_files-spares a s op =
      recheck_all-spares ot wt it mt keeps backends (keep is_file op.outcomes) s op a.checking 0

  -- Where the last look went through, so did the parts before it, and it stands between their calls
  -- and the releases.
  freed-Looked :
      (a : Answers) (placed : Applied S)
      → spares placed.calls ≡ true
      → (checked_after a placed).error ≡ none
      → Looked a.checking (freed_after a placed).op (freed_after a placed).calls
  freed-Looked a placed p n =
      let checked = checked_after a placed in
      let again = recheck_files ot wt it mt keeps backends a placed.service placed.op in
      let freed = release_files ot wt it mt keeps backends a checked.service checked.op in
      let k = and_then-none placed (recheck_files ot wt it mt keeps backends a) n in
      let seen = recheck_files-lem a placed.service placed.op k.1.0 in
      let calls : checked.calls ≡ placed.calls ++ looks (keep is_file placed.op.outcomes) =
        ap (λ e. (if_went placed again e).calls) k.0 ∙ ap (λ l. placed.calls ++ l) seen.2 in
      let same_op : (freed_after a placed).op ≡ placed.op =
        ap (λ e. (if_went checked freed e).op) n
        ∙ (release_files-op ot wt it mt keeps backends a checked.service checked.op
            ∙ (k.1.1.1 ∙ seen.1)) in
      subst (λ o. Looked a.checking o (freed_after a placed).calls) (sym same_op)
        (
          placed.calls,
          freed.calls,
          ap (λ e. (if_went checked freed e).calls) n
              ∙ (ap (λ l. l ++ freed.calls) calls
                  ∙ append_assoc placed.calls (looks (keep is_file placed.op.outcomes))
                      freed.calls),
          p,
          release_files-is_release ot wt it mt keeps backends a checked.service checked.op,
          seen.0,
        )

  -- The commit at the end makes no call, and leaves the plan and the outcomes as they are.
  commit-Looked :
      (now : ℕ) (a : Answers) (freed : Applied S)
      → Looked a.checking freed.op freed.calls
      → (e : Option Failure)
      → let out = if_went freed (commit ot wt it mt keeps backends now freed.service freed.op) e in
        Looked a.checking out.op out.calls
  unfolding commit
  commit-Looked now a freed l none =
      subst (Looked a.checking freed.op) (sym (append-nil freed.calls)) l
  commit-Looked now a freed l (some f) = l

  finish-Leaves :
      (a : Answers) (now : ℕ) (placed : Applied S)
      → spares placed.calls ≡ true
      → let out = and_then (freed_after a placed) (commit ot wt it mt keeps backends now) in
        out.error ≡ none → Leaves out.service out.op × Looked a.checking out.op out.calls
  finish-Leaves a now placed p n =
      let freed = freed_after a placed in
      let hc = and_then-none freed (commit ot wt it mt keeps backends now) n in
      let hf =
        and_then-none (checked_after a placed) (release_files ot wt it mt keeps backends a) hc.0 in
      (
        subst (λ t. Leaves t (and_then freed (commit ot wt it mt keeps backends now)).op)
            (sym hc.1.1.0)
            (subst
              (λ o. Leaves (commit ot wt it mt keeps backends now freed.service freed.op).service o)
              (sym hc.1.1.1) (commit-Leaves now freed.service freed.op)),
        commit-Looked now a freed (freed-Looked a placed p hf.0) freed.error,
      )

  -- An operation that `#apply` goes through with is complete, and stored so; the record of its owner
  -- lists its outcomes, and before them only copies that are no longer kept equal and lie at no
  -- outcome's place; and each outcome that is a file was read back with the content of the plan, by
  -- calls that come behind all others but the releases of staging, and before these.
  pub apply-Leaves :
      (s : S) (op : Op) (a : Answers) (now : ℕ)
      → (apply ot wt it mt keeps backends s op a now).error ≡ none
      → Leaves
          (apply ot wt it mt keeps backends s op a now).service
          (apply ot wt it mt keeps backends s op a now).op
        × Looked a.checking
            (apply ot wt it mt keeps backends s op a now).op
            (apply ot wt it mt keeps backends s op a now).calls
  unfolding apply Spares
  apply-Leaves s op a now =
      if_intro
        (λ (out : Applied S).
          out.error ≡ none → Leaves out.service out.op × Looked a.checking out.op out.calls)
        a.is_held (λ h n. cc)
        (λ h n.
          finish-Leaves a now (placed_parts ot wt it mt keeps backends s op a now)
            (placed_parts-Spares ot wt it mt keeps backends s op a now) n)

  finish-Released :
      (a : Answers) (now : ℕ) (placed : Applied S)
      → spares placed.calls ≡ true
      → let out = and_then (freed_after a placed) (commit ot wt it mt keeps backends now) in
        (spares out.calls ≡ true) ⊎ Looked a.checking out.op out.calls
  unfolding commit
  finish-Released a now placed p =
      let checked = checked_after a placed in
      let freed = freed_after a placed in
      elim (Option-cases checked.error) [
        | inl n ↦ inr (commit-Looked now a freed (freed-Looked a placed p n) freed.error)
        | inr g ↦ inl (
            if_went-spares freed (commit ot wt it mt keeps backends now freed.service freed.op)
              freed.error
              (ap
                  (λ e.
                    spares
                      (if_went checked
                        (release_files ot wt it mt keeps backends a checked.service checked.op)
                        e).calls)
                  g.1
                ∙ if_went-spares placed
                    (recheck_files ot wt it mt keeps backends a placed.service placed.op)
                    placed.error p (recheck_files-spares a placed.service placed.op))
              refl)
      ]

  -- However a run of `#apply` ends, it released no staging, or it did so only behind the read-back of
  -- each outcome that is a file, which found the content of the plan.
  pub apply-Released :
      (s : S) (op : Op) (a : Answers) (now : ℕ)
      → let out = apply ot wt it mt keeps backends s op a now in
        (spares out.calls ≡ true) ⊎ Looked a.checking out.op out.calls
  unfolding apply Spares
  apply-Released s op a now =
      if_intro (λ (out : Applied S). (spares out.calls ≡ true) ⊎ Looked a.checking out.op out.calls)
        a.is_held (λ h. inl refl)
        (λ h.
          finish-Released a now (placed_parts ot wt it mt keeps backends s op a now)
            (placed_parts-Spares ot wt it mt keeps backends s op a now))
