-- ===== src/Mirror/Kinds.antt =====
-- src/sync/Mirror.js: the kind of the job that a narrowed decision is queued as.
use canvas_stored.Prelude.{
  ◌≡◌, refl, Bool, true, false, [], ◌∷◌, arith, Text, codes, text_eq, truthy, if_intro, any,
}
use canvas_stored.Mirror.Decide.{
  Sides, Decision, nothing, trash_local, adopt, push, delete_remote, pull, conflict, revert, skip,
  decide, narrow_pull, narrow_push,
}

-- The kind of the job that a decision is queued as, empty where it is not queued.
abbrev pub kind_of : Decision → Text
kind_of (push if_match) = codes "push"
kind_of (delete_remote if_match) = codes "delete-remote"
kind_of (pull sha256) = codes "pull"
kind_of trash_local = codes "trash-local"
kind_of (conflict remote) = codes "conflict"
kind_of (revert remote) = codes "revert"
kind_of _ = []

-- The kinds whose jobs write the hub.
abbrev pub writes_hub : Text → Bool
writes_hub kind = any (text_eq kind) (codes "push" ∷ codes "delete-remote" ∷ codes "conflict" ∷ [])

-- The kinds whose jobs write the local folder.
abbrev pub writes_local : Text → Bool
writes_local kind =
    any (text_eq kind) (codes "pull" ∷ codes "trash-local" ∷ codes "conflict" ∷ codes "revert" ∷ [])

pub pull_only-kind : (d : Decision) (s : Sides) → writes_hub (kind_of (narrow_pull d s)) ≡ false
unfolding narrow_pull
pull_only-kind nothing s = refl
pull_only-kind trash_local s = refl
pull_only-kind adopt s = refl
pull_only-kind (push m) s =
    if_intro (λ d. writes_hub (kind_of d) ≡ false) (truthy s.remote) (λ _. refl) (λ _. refl)
pull_only-kind (delete_remote m) s =
    if_intro (λ d. writes_hub (kind_of d) ≡ false) (truthy s.remote) (λ _. refl) (λ _. refl)
pull_only-kind (pull r) s = refl
pull_only-kind (conflict r) s = refl
pull_only-kind (revert r) s = refl
pull_only-kind (skip r) s = refl

abbrev is_revert : Decision → Bool
is_revert (revert r) = true
is_revert _ = false

pub push_only-kind :
    (d : Decision) (s : Sides)
    → is_revert d ≡ false
    → writes_local (kind_of (narrow_push d s)) ≡ false
unfolding narrow_push
push_only-kind nothing s h = refl
push_only-kind trash_local s h = refl
push_only-kind adopt s h = refl
push_only-kind (push m) s h = refl
push_only-kind (delete_remote m) s h = refl
push_only-kind (pull r) s h = refl
push_only-kind (conflict r) s h = refl
push_only-kind (revert r) s h = cc
push_only-kind (skip r) s h = refl

pub decide-no_revert : (s : Sides) → is_revert (decide s) ≡ false
unfolding decide
decide-no_revert s = ground arith
