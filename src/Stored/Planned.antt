-- ===== src/Stored/Planned.antt =====
-- src/index.js: what a planned copy or move writes over.
use mathlib.Core.Path.{subst}
use canvas_stored.Prelude.{
  ℕ, zero, suc, ◌≡◌, refl, sym, Bool, true, false, not, ◌&&◌, ◌||◌, Option, none, some, List, [],
  ◌∷◌, any, all, arith, Text, codes, text_eq, truthy, same, or_else, if_intro, if◌then◌else◌, ◌++◌,
  keep,
}
use canvas_stored.Keys.Conflict.{decimal}
use canvas_stored.Stored.Transfers.{
  Copy, Holding, Drive, View, Policy, on_error, on_overwrite, on_rename, policy_of, Request, Target,
  Answer, refused, threw, planned, try_names, free_key, is_wanted, renamed_key, Step, skipped,
  ended, kept, kept_at, settle_conflict, is_same_content, plan_at, plan_target, add_target, next,
  plan_targets, plan_from, plan_transfer, is_at, plain, plain_key, lives, resolve_source_location,
}

-- The bytes that a target's key has are not lost: none are there, they are the content that is
-- copied, or the caller asked for them to be overwritten. The backend is writable and mounted.
abbrev asks_overwrite : Policy → Bool
asks_overwrite on_overwrite = true
asks_overwrite _ = false

abbrev loses_none_on : Option Drive → Option Text → Text → Policy → Target → Bool
loses_none_on none id_there id policy t = false
loses_none_on (some d) id_there id policy t =
    d.can_write
    && d.is_live
    && (if t.overwrite then asks_overwrite policy else not (d.has t.key) || same id_there (some id))

abbrev pub loses_none : View → Text → Policy → Target → Bool
loses_none view id policy t =
    loses_none_on (view.drive t.name) (view.id_at t.name t.key) id policy t

abbrev FreeIn : (Text → Bool) → Option Text → Type 0
FreeIn has none = Unit
FreeIn has (some key) = has key ≡ false

try_names-FreeIn :
    (has : Text → Bool) (stem ext : Text) (tries n : ℕ)
    → FreeIn has (try_names has stem ext tries n)
unfolding try_names
try_names-FreeIn has stem ext zero n = tt
try_names-FreeIn has stem ext (suc tries) n =
    let candidate = stem ++ (codes "-" ++ (decimal n ++ ext)) in
    if_intro (FreeIn has) (has candidate) (λ h. try_names-FreeIn has stem ext tries (suc n))
      (λ h. h)

conflict-FreeIn :
    (has : Text → Bool) (dest : Text) (conflict : Option Text)
    → is_wanted has dest conflict ≡ true
    → FreeIn has conflict
unfolding is_wanted
conflict-FreeIn has dest none h = tt
conflict-FreeIn has dest (some key) h = ground (arith, h)

renamed_key-FreeIn :
    (has : Text → Bool) (dest : Text) (conflict : Option Text)
    → FreeIn has (renamed_key has dest conflict)
unfolding renamed_key free_key
renamed_key-FreeIn has dest conflict =
    if_intro (FreeIn has) (is_wanted has dest conflict) (λ h. conflict-FreeIn has dest conflict h)
      (λ h. try_names-FreeIn has _ _ 1000 1)

module _ (view : View) (id : Text) (policy : Policy) where
  abbrev pub LosesNone : Answer → Type 0
  LosesNone (planned source targets dest) = all (loses_none view id policy) targets ≡ true
  LosesNone _ = Unit

  -- A step that keeps a target keeps one that loses none, where the drive is the target's.
  abbrev StepFine : Text → Option Drive → Step → Type 0
  StepFine name d skipped = Unit
  StepFine name d (ended answer) = LosesNone answer
  StepFine name d (kept t) =
      (t.name ≡ name) × (loses_none_on d (view.id_at name t.key) id policy t ≡ true)

  kept_at-StepFine :
      (name : Text) (d : Drive) (o : Option Text)
      → d.can_write ≡ true
      → d.is_live ≡ true
      → FreeIn d.has o
      → StepFine name (some d) (kept_at name o)
  kept_at-StepFine name d none w l h = tt
  kept_at-StepFine name d (some key) w l h = (refl, ground (arith, w, l, h))

  settle_conflict-StepFine :
      (p : Policy) (d : Drive) (conflict : Option Text) (name dest : Text)
      → p ≡ policy
      → d.can_write ≡ true
      → d.is_live ≡ true
      → StepFine name (some d) (settle_conflict d.has p conflict name dest)
  unfolding settle_conflict
  settle_conflict-StepFine on_error d conflict name dest e w l = tt
  settle_conflict-StepFine on_rename d conflict name dest e w l =
      kept_at-StepFine name d (renamed_key d.has dest conflict) w l
        (renamed_key-FreeIn d.has dest conflict)
  settle_conflict-StepFine on_overwrite d conflict name dest e w l = (
    refl,
    subst (λ p. (d.can_write && d.is_live && asks_overwrite p) ≡ true) e (ground (arith, w, l)),
  )

  plan_at-StepFine :
      (conflict : Option Text) (holding : Holding) (dest name : Text) (d : Drive)
      → holding.id ≡ id
      → d.can_write ≡ true
      → StepFine name (some d) (plan_at view policy conflict holding dest name d)
  unfolding plan_at is_same_content
  plan_at-StepFine conflict holding dest name d e w =
      let same_there = same (view.id_at name dest) (some holding.id) in
      if_intro (StepFine name (some d)) (any (is_at name dest) holding.locations && d.has dest)
        (λ h. tt)
        (λ out.
          if_intro (StepFine name (some d)) (not d.is_live) (λ h. tt)
            (λ l.
              if_intro (StepFine name (some d))
                (d.has dest && (not (any (is_at name dest) holding.locations) && not same_there))
                (λ h.
                  settle_conflict-StepFine policy d conflict name dest refl w (ground (arith, l)))
                (λ h. (
                  refl,
                  subst
                      (λ i.
                        (d.can_write
                          && d.is_live
                          && (not (d.has dest) || same (view.id_at name dest) (some i)))
                        ≡ true)
                      e (ground (arith, w, l, h, out)),
                ))))

  plan_target-StepFine :
      (conflict : Option Text) (holding : Holding) (source : Copy) (dest name : Text)
      (o : Option Drive)
      → holding.id ≡ id
      → StepFine name o (plan_target view policy conflict holding source dest name o)
  unfolding plan_target
  plan_target-StepFine conflict holding source dest name none e = tt
  plan_target-StepFine conflict holding source dest name (some d) e =
      if_intro (StepFine name (some d)) (not d.can_write) (λ h. tt)
        (λ w.
          if_intro (StepFine name (some d)) (text_eq name source.backend && text_eq dest source.key)
            (λ h. tt) (λ h. plan_at-StepFine conflict holding dest name d e (ground (arith, w))))

  add_target-LosesNone :
      (t : Target) (rest : Answer)
      → loses_none view id policy t ≡ true
      → LosesNone rest
      → LosesNone (add_target t rest)
  add_target-LosesNone t (refused reason backend key) h hs = tt
  add_target-LosesNone t threw h hs = tt
  add_target-LosesNone t (planned source targets dest) h hs = ground (arith, h, hs)

  next-LosesNone :
      (name : Text) (step : Step) (rest : Answer)
      → StepFine name (view.drive name) step
      → LosesNone rest
      → LosesNone (next step rest)
  next-LosesNone name skipped rest h hs = hs
  next-LosesNone name (ended answer) rest h hs = h
  next-LosesNone name (kept t) rest h hs =
      add_target-LosesNone t rest
        (subst (λ n. loses_none_on (view.drive n) (view.id_at n t.key) id policy t ≡ true) (sym h.0)
          h.1)
        hs

  plan_targets-LosesNone :
      (conflict : Option Text) (holding : Holding) (source : Copy) (dest : Text) (names : List Text)
      → holding.id ≡ id
      → LosesNone (plan_targets view policy conflict holding source dest names)
  unfolding plan_targets
  plan_targets-LosesNone conflict holding source dest [] e = refl
  plan_targets-LosesNone conflict holding source dest (name ∷ names) e =
      next-LosesNone name _ _
        (plan_target-StepFine conflict holding source dest name (view.drive name) e)
        (plan_targets-LosesNone conflict holding source dest names e)

  plan_from-LosesNone :
      (request : Request) (holding : Holding) (names : List Text) (o : Option Copy)
      → holding.id ≡ id
      → policy_of request.on_conflict ≡ policy
      → LosesNone (plan_from view request holding names o)
  unfolding plan_from
  plan_from-LosesNone request holding names none e p = tt
  plan_from-LosesNone request holding names (some source) e p =
      let dest = plain (if truthy request.key then or_else request.key [] else source.key) in
      if_intro LosesNone (not (lives (view.drive source.backend))) (λ h. tt)
        (λ h.
          if_intro LosesNone (text_eq dest []) (λ g. tt)
            (λ g.
              subst
                (λ q.
                  LosesNone (
                    plan_targets view q (plain_key request.conflict_key) holding source dest names))
                (sym p)
                (plan_targets-LosesNone (plain_key request.conflict_key) holding source dest names
                  e)))

-- Whatever the request: each target of a planned copy or move is a writable backend whose root is
-- there, and where the target is not marked as overwriting, `stat` finds nothing at its key or the
-- index has the very content that is copied there. Targets are marked so only if `onConflict` is `overwrite`.
pub plan_transfer-LosesNone :
    (view : View) (holding : Holding) (request : Request)
    → LosesNone view holding.id
        (policy_of request.on_conflict)
        (plan_transfer view (some holding) request)
unfolding plan_transfer
plan_transfer-LosesNone view holding request =
    let names = keep (λ name. not (text_eq name [])) request.to in
    if_intro (LosesNone view holding.id (policy_of request.on_conflict)) (any (λ name. true) names)
      (λ h.
        plan_from-LosesNone view holding.id (policy_of request.on_conflict) request holding names
          (resolve_source_location view holding.locations request.from) refl refl)
      (λ h. tt)
