-- ===== src/Replicas/Permitted.antt =====
-- src/sync/ReplicaService.js: what `#apply` writes, by what it sees.
use canvas_stored.Prelude.{
  ℕ, ◌≡◌, refl, Bool, true, false, not, ◌&&◌, ◌||◌, Option, none, some, List, [], ◌∷◌, arith, Text,
  codes, text_eq, text_eq_refl, same, same_iff, if_intro,
}
use canvas_stored.Lmdb.{Table, text_key}
use canvas_stored.Replicas.Types.{
  Target, Replica, Owner, Op, Failure, Tried, did, failed, Backend, Ingress, Service,
}
use canvas_stored.Replicas.Outcomes.{Seen, id_of, is_there}
use canvas_stored.Replicas.Place.{
  Call, put_blob, write_object, Reply, Answers, Applied, check_write, write_call, write_or, written,
  verify_write, place_file, other_claims,
}

-- Whether a file may be written where this was found: nothing, or the version that the outcome was
-- planned over, which no one else needs, and which the plan replaces or overwrites.
abbrev pub may_write : Target → Replica → Seen → Bool → Bool
may_write target outcome found claimed =
    not (is_there found)
    || (same (id_of found) outcome.expected
        && (not claimed
            && (same (id_of found) outcome.replaces
                || same target.on_conflict (some (codes "overwrite")))))

abbrev pub is_cacache : Option Backend → Bool
is_cacache none = false
is_cacache (some b) = text_eq b.driver (codes "cacache")

-- The call of a write, at the outcome's place. A backend of cacache is given the bytes under no
-- condition; any other is, under the condition of what was found.
abbrev pub writes : Option Backend → Replica → Seen → Call → Bool
writes b outcome found (put_blob backend key) =
    is_cacache b && (text_eq backend outcome.backend && text_eq key outcome.key)
writes b outcome found (write_object backend key match) =
    not (is_cacache b)
    && (text_eq backend outcome.backend && (text_eq key outcome.key && same match (id_of found)))
writes b outcome found _ = false

-- Nothing is called, or the one write that is permitted.
abbrev pub is_permitted :
    Option Backend → Target → Replica → Seen → Option Text → Bool → List Call → Bool
is_permitted b target outcome found content claimed [] = true
is_permitted b target outcome found content claimed (call ∷ []) =
    writes b outcome found call
    && (not (same (id_of found) content) && may_write target outcome found claimed)
is_permitted b target outcome found content claimed _ = false

module _ (ot : Table text_key Op) (wt : Table text_key Owner) (it : Table text_key Ingress)
    (mt : Table text_key ℕ) (keeps : Bool) (backends : Text → Option Backend) where
  verify_write-calls :
      (s : Service ot wt it mt) (op : Op) (content : Option Text) (calls : List Call)
      (seen : Tried Seen)
      → (verify_write ot wt it mt keeps backends s op content calls seen).calls ≡ calls
  unfolding verify_write
  verify_write-calls s op content calls (failed f) = refl
  verify_write-calls s op content calls (did seen) = ground arith

  written-calls :
      (s : Service ot wt it mt) (op : Op) (a : Answers) (calls : List Call) (res : Tried Reply)
      → (written ot wt it mt keeps backends s op a calls res).calls ≡ calls
  unfolding written
  written-calls s op a calls (failed f) = refl
  written-calls s op a calls (did res) =
      ground (arith, verify_write-calls s op op.plan.content_id calls a.verified)

  write_call-writes :
      (b : Option Backend) (outcome : Replica) (found : Seen)
      → writes b outcome found (write_call b outcome found) ≡ true
  write_call-writes none outcome found = ground (
    arith,
    text_eq_refl outcome.backend,
    text_eq_refl outcome.key,
    same_iff (id_of found) (id_of found),
  )
  write_call-writes (some b) outcome found =
      if_intro (λ c. writes (some b) outcome found c ≡ true) (text_eq b.driver (codes "cacache"))
        (λ h. ground (arith, h, text_eq_refl outcome.backend, text_eq_refl outcome.key))
        (λ h. ground (
          arith,
          h,
          text_eq_refl outcome.backend,
          text_eq_refl outcome.key,
          same_iff (id_of found) (id_of found),
        ))

  check_write-may_write :
      (target : Target) (outcome : Replica) (found : Seen) (content : Option Text) (claimed : Bool)
      → check_write target outcome found content claimed ≡ none
      → may_write target outcome found claimed ≡ true
  unfolding check_write
  check_write-may_write target outcome found content claimed h = ground (arith, h)

  write_or-is_permitted :
      (s : Service ot wt it mt) (op : Op) (target : Target) (outcome : Replica) (a : Answers)
      (found : Seen) (claimed : Bool) (b : Option Backend) (call : Call) (f : Option Failure)
      → same (id_of found) op.plan.content_id ≡ false
      → writes b outcome found call ≡ true
      → (f ≡ none → may_write target outcome found claimed ≡ true)
      → is_permitted b target outcome found op.plan.content_id claimed
          (write_or ot wt it mt keeps backends s op a call f).calls
        ≡ true
  unfolding write_or
  write_or-is_permitted s op target outcome a found claimed b call (some f) n w m = refl
  write_or-is_permitted s op target outcome a found claimed b call none n w m =
      if_intro
        (λ (out : Applied (Service ot wt it mt)).
          is_permitted b target outcome found op.plan.content_id claimed out.calls ≡ true)
        a.is_held_late (λ h. refl)
        (λ h. rw (written-calls s op a (call ∷ []) a.written) (ground (arith, n, w, m refl)))

  -- For a file of a plan `#apply` calls for nothing, or for one write. It calls for none where the
  -- content is there already. The write goes to the outcome's place; on a backend that is not one of
  -- cacache it is on the condition that what was found there is still there, and on one of cacache it
  -- has no condition. What was found before either is nothing, or is the version that the outcome was
  -- planned over, which no other owner or operation needs, and which the plan replaces or overwrites.
  pub place_file-is_permitted :
      (s : Service ot wt it mt) (op : Op) (target : Target) (outcome : Replica) (a : Answers)
      (found : Seen)
      → is_permitted
          (backends outcome.backend)
          target
          outcome
          found
          op.plan.content_id
          (other_claims ot wt it mt keeps backends s op outcome.backend outcome.key)
          (place_file ot wt it mt keeps backends s op target outcome a (did found)).calls
        ≡ true
  unfolding place_file
  place_file-is_permitted s op target outcome a found =
      let claimed = other_claims ot wt it mt keeps backends s op outcome.backend outcome.key in
      let content = op.plan.content_id in
      if_intro
        (λ (out : Applied (Service ot wt it mt)).
          is_permitted (backends outcome.backend) target outcome found content claimed out.calls
          ≡ true)
        (same (id_of found) content) (λ h. refl)
        (λ n.
          write_or-is_permitted s op target outcome a found claimed (backends outcome.backend)
            (write_call (backends outcome.backend) outcome found)
            (check_write target outcome found content claimed) n
            (write_call-writes (backends outcome.backend) outcome found)
            (check_write-may_write target outcome found content claimed))
