-- ===== src/Replicas/Rechecked.antt =====
-- src/sync/ReplicaService.js: the last look of `#apply` at the destinations, before it releases staging.
use canvas_stored.Prelude.{
  ℕ, ◌+◌, ◌≡◌, refl, sym, ap, ◌∙◌, Bool, true, false, Option, none, some, List, [], ◌∷◌, arith,
  Text, same, keep, if_intro, all, any, ◌++◌,
}
use canvas_stored.Lmdb.{Table, text_key}
use canvas_stored.Replicas.Types.{
  Endpoint, Replica, Owner, Op, Failure, Tried, did, failed, Backend, Ingress, Service,
}
use canvas_stored.Replicas.Outcomes.{Seen, id_of}
use canvas_stored.Replicas.Place.{
  Call, Applied, Reply, look_again, release_object, if_went, and_then,
}
use canvas_stored.Replicas.Retire.{
  Releasing, rechecked, recheck_all, release_one, release_found, released, release_all, release_id,
}
use canvas_stored.Replicas.Spares.{is_release, spares, spares_append}
use canvas_stored.Replicas.Apply.{Answers, is_file, release_files}

-- Each of the answers, from the position `i` on, is a file of that content.
abbrev pub confirms : Option Text → Tried Seen → Bool
confirms content (failed f) = false
confirms content (did seen) = same (id_of seen) content

abbrev pub Confirmed : Option Text → List Replica → (ℕ → Tried Seen) → ℕ → Type 0
Confirmed content [] answers i = Unit
Confirmed content (r ∷ rs) answers i =
    (confirms content (answers i) ≡ true) × Confirmed content rs answers (i + 1)

-- The looks at the destinations, in their order.
abbrev pub looks : List Replica → List Call
looks [] = []
looks (r ∷ rs) = look_again r.backend r.key ∷ looks rs

-- Each file among the outcomes was read back, with the content of the plan, behind all other calls but
-- the releases of staging, and before these.
abbrev pub Looked : (ℕ → Tried Seen) → Op → List Call → Type 0
Looked answers op calls =
    (before after : List Call) × (calls ≡ before ++ (looks (keep is_file op.outcomes) ++ after))
    × (spares before ≡ true)
    × (all is_release after ≡ true)
    × Confirmed op.plan.content_id (keep is_file op.outcomes) answers 0

is_release_append :
    (xs ys : List Call)
    → all is_release xs ≡ true
    → all is_release ys ≡ true
    → all is_release (xs ++ ys) ≡ true
is_release_append [] ys h k = k
is_release_append (x ∷ xs) ys h k = ground (arith, h, is_release_append xs ys (ground (arith, h)) k)

module _ {S : Type 0} where
  pub if_went-spares :
      (ran next : Applied S) (e : Option Failure)
      → spares ran.calls ≡ true
      → spares next.calls ≡ true
      → spares (if_went ran next e).calls ≡ true
  if_went-spares ran next none h k = spares_append ran.calls next.calls h k
  if_went-spares ran next (some f) h k = h

  if_went-is_release :
      (ran next : Applied S) (e : Option Failure)
      → all is_release ran.calls ≡ true
      → all is_release next.calls ≡ true
      → all is_release (if_went ran next e).calls ≡ true
  if_went-is_release ran next none h k = is_release_append ran.calls next.calls h k
  if_went-is_release ran next (some f) h k = h

  if_went-none :
      (ran next : Applied S) (e : Option Failure)
      → ran.error ≡ e
      → (if_went ran next e).error ≡ none
      → (e ≡ none) × (next.error ≡ none)
  if_went-none ran next none h n = (refl, n)
  if_went-none ran next (some f) h n = (sym h ∙ n, ground (arith, h, n))

  -- Where two parts went through, each did, and what is left is what the second left.
  pub and_then-none :
      (ran : Applied S) (next : S → Op → Applied S)
      → (and_then ran next).error ≡ none
      → (ran.error ≡ none)
        × (((next ran.service ran.op).error ≡ none)
            × (((and_then ran next).service ≡ (next ran.service ran.op).service)
                × ((and_then ran next).op ≡ (next ran.service ran.op).op)))
  and_then-none ran next n =
      let h = if_went-none ran (next ran.service ran.op) ran.error refl n in
      (
        h.0,
        (
          h.1,
          (
            ap (λ e. (if_went ran (next ran.service ran.op) e).service) h.0,
            ap (λ e. (if_went ran (next ran.service ran.op) e).op) h.0,
          ),
        ),
      )

module _ (ot : Table text_key Op) (wt : Table text_key Owner) (it : Table text_key Ingress)
    (mt : Table text_key ℕ) (keeps : Bool) (backends : Text → Option Backend) where
  abbrev S : Type 0
  S = Service ot wt it mt

  rechecked-confirms :
      (s : S) (op : Op) (calls : List Call) (seen : Tried Seen)
      → (rechecked ot wt it mt keeps backends s op calls seen).error ≡ none
      → confirms op.plan.content_id seen ≡ true
  rechecked-confirms s op calls (failed f) n = cc
  rechecked-confirms s op calls (did seen) n = ground (arith, n)

  rechecked-calls :
      (s : S) (op : Op) (calls : List Call) (seen : Tried Seen)
      → (rechecked ot wt it mt keeps backends s op calls seen).calls ≡ calls
  rechecked-calls s op calls (failed f) = refl
  rechecked-calls s op calls (did seen) = ground arith

  pub recheck_all-spares :
      (targets : List Replica) (s : S) (op : Op) (answers : ℕ → Tried Seen) (i : ℕ)
      → spares (recheck_all ot wt it mt keeps backends s op targets answers i).calls ≡ true
  unfolding recheck_all
  recheck_all-spares [] s op answers i = refl
  recheck_all-spares (t ∷ ts) s op answers i =
      let look = look_again t.backend t.key ∷ [] in
      let ran = rechecked ot wt it mt keeps backends s op look (answers i) in
      if_went-spares ran (recheck_all ot wt it mt keeps backends s op ts answers (i + 1)) ran.error
        (ap spares (rechecked-calls s op look (answers i)))
        (recheck_all-spares ts s op answers (i + 1))

  pub recheck_all-Confirmed :
      (targets : List Replica) (s : S) (op : Op) (answers : ℕ → Tried Seen) (i : ℕ)
      → (recheck_all ot wt it mt keeps backends s op targets answers i).error ≡ none
      → Confirmed op.plan.content_id targets answers i
        × ((recheck_all ot wt it mt keeps backends s op targets answers i).op ≡ op)
        × ((recheck_all ot wt it mt keeps backends s op targets answers i).calls ≡ looks targets)
  unfolding recheck_all
  recheck_all-Confirmed [] s op answers i n = (tt, refl, refl)
  recheck_all-Confirmed (t ∷ ts) s op answers i n =
      let look = look_again t.backend t.key ∷ [] in
      let ran = rechecked ot wt it mt keeps backends s op look (answers i) in
      let rest = recheck_all ot wt it mt keeps backends s op ts answers (i + 1) in
      let h = if_went-none ran rest ran.error refl n in
      let more = recheck_all-Confirmed ts s op answers (i + 1) h.1 in
      (
        (rechecked-confirms s op look (answers i) h.0, more.0),
        ap (λ e. (if_went ran rest e).op) h.0 ∙ more.1,
        ap (λ e. (if_went ran rest e).calls) h.0
            ∙ (ap (λ l. l ++ rest.calls) (rechecked-calls s op look (answers i))
                ∙ ap (λ l. look_again t.backend t.key ∷ l) more.2),
      )

  deleted-op :
      (s : S) (op : Op) (loc : Endpoint) (res : Tried Reply)
      → (released ot wt it mt keeps backends s op (release_object loc.backend loc.key ∷ []) res).op
        ≡ op
  deleted-op s op loc (failed f) = refl
  deleted-op s op loc (did res) = ground arith

  released-op :
      (s : S) (op : Op) (loc : Endpoint) (a : Releasing) (id : Tried (Option Text))
      → (release_found ot wt it mt keeps backends s op loc a id).op ≡ op
  unfolding release_found
  released-op s op loc a (failed f) = refl
  released-op s op loc a (did none) = refl
  released-op s op loc a (did (some id)) =
      if_intro (λ (out : Applied S). out.op ≡ op)
        (same (some id) (release_id ot wt it mt keeps backends op loc))
        (λ h. deleted-op s op loc a.released) (λ h. refl)

  release_one-op :
      (s : S) (op : Op) (loc : Endpoint) (a : Releasing)
      → (release_one ot wt it mt keeps backends s op loc a).op ≡ op
  unfolding release_one
  release_one-op s op loc a = ground (arith, released-op s op loc a a.current)

  if_went-op :
      (ran next : Applied S) (op : Op) (e : Option Failure)
      → ran.op ≡ op
      → next.op ≡ op
      → (if_went ran next e).op ≡ op
  if_went-op ran next op none h k = k
  if_went-op ran next op (some f) h k = h

  release_all-op :
      (locs : List Endpoint) (s : S) (op : Op) (answers : ℕ → Releasing) (i : ℕ)
      → (release_all ot wt it mt keeps backends s op locs answers i).op ≡ op
  unfolding release_all
  release_all-op [] s op answers i = refl
  release_all-op (loc ∷ locs) s op answers i =
      if_went-op (release_one ot wt it mt keeps backends s op loc (answers i)) _ op _
        (release_one-op s op loc (answers i)) (release_all-op locs s op answers (i + 1))

  pub release_files-op :
      (a : Answers) (s : S) (op : Op) → (release_files ot wt it mt keeps backends a s op).op ≡ op
  unfolding release_files
  release_files-op a s op = ground (arith, release_all-op op.plan.release s op a.releasing 0)

  released-is_release :
      (s : S) (op : Op) (calls : List Call) (res : Tried Reply)
      → all is_release calls ≡ true
      → all is_release (released ot wt it mt keeps backends s op calls res).calls ≡ true
  released-is_release s op calls (failed f) h = h
  released-is_release s op calls (did res) h = ground (arith, h)

  release_found-is_release :
      (s : S) (op : Op) (loc : Endpoint) (a : Releasing) (id : Tried (Option Text))
      → all is_release (release_found ot wt it mt keeps backends s op loc a id).calls ≡ true
  unfolding release_found
  release_found-is_release s op loc a (failed f) = refl
  release_found-is_release s op loc a (did none) = refl
  release_found-is_release s op loc a (did (some id)) =
      if_intro (λ (out : Applied S). all is_release out.calls ≡ true)
        (same (some id) (release_id ot wt it mt keeps backends op loc))
        (λ h. released-is_release s op (release_object loc.backend loc.key ∷ []) a.released refl)
        (λ h. refl)

  release_one-is_release :
      (s : S) (op : Op) (loc : Endpoint) (a : Releasing)
      → all is_release (release_one ot wt it mt keeps backends s op loc a).calls ≡ true
  unfolding release_one
  release_one-is_release s op loc a = ground (arith, release_found-is_release s op loc a a.current)

  release_all-is_release :
      (locs : List Endpoint) (s : S) (op : Op) (answers : ℕ → Releasing) (i : ℕ)
      → all is_release (release_all ot wt it mt keeps backends s op locs answers i).calls ≡ true
  unfolding release_all
  release_all-is_release [] s op answers i = refl
  release_all-is_release (loc ∷ locs) s op answers i =
      let ran = release_one ot wt it mt keeps backends s op loc (answers i) in
      if_went-is_release ran (release_all ot wt it mt keeps backends s op locs answers (i + 1))
        ran.error (release_one-is_release s op loc (answers i))
        (release_all-is_release locs s op answers (i + 1))

  pub release_files-is_release :
      (a : Answers) (s : S) (op : Op)
      → all is_release (release_files ot wt it mt keeps backends a s op).calls ≡ true
  unfolding release_files
  release_files-is_release a s op =
      if_intro (λ (out : Applied S). all is_release out.calls ≡ true) (any is_file op.outcomes)
        (λ h. release_all-is_release op.plan.release s op a.releasing 0) (λ h. refl)
