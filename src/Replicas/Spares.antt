-- ===== src/Replicas/Spares.antt =====
-- src/sync/ReplicaService.js: calls that release no staging.
use canvas_stored.Prelude.{
  ◌++◌, ◌≡◌, refl, Bool, true, false, not, Option, none, some, List, [], ◌∷◌, arith, Text, all,
  if_intro,
}
use canvas_stored.Replicas.Types.{Target, Replica, Op, Failure, Backend}
use canvas_stored.Replicas.Outcomes.{Seen}
use canvas_stored.Replicas.Place.{
  Call, keep_stage, drop_stage, make_directory, put_blob, write_object, acknowledge,
  remove_directory, remove_object, look_again, release_object, Reply, Applied, went, broke, ended,
  if_went, and_then, acknowledged, with_outcome, marked, one_more, place_file, place_directory,
  mark, place_outcome, place_planned, place_next, place_target, place_all, other_claims,
}
use canvas_stored.Replicas.Permitted.{writes, is_permitted}
use canvas_stored.Replicas.Place

abbrev pub is_release : Call → Bool
is_release (release_object backend key) = true
is_release _ = false

-- No staging is released.
abbrev pub spares : List Call → Bool
spares calls = all (λ c. not (is_release c)) calls

pub spares_append :
    (xs ys : List Call) → spares xs ≡ true → spares ys ≡ true → spares (xs ++ ys) ≡ true
spares_append [] ys h k = k
spares_append (x ∷ xs) ys h k = ground (arith, h, spares_append xs ys (ground (arith, h)) k)

writes-is_release :
    (b : Option Backend) (outcome : Replica) (found : Seen) (call : Call)
    → writes b outcome found call ≡ true
    → is_release call ≡ false
writes-is_release b outcome found keep_stage h = refl
writes-is_release b outcome found drop_stage h = refl
writes-is_release b outcome found (make_directory backend key) h = refl
writes-is_release b outcome found (put_blob backend key) h = refl
writes-is_release b outcome found (write_object backend key match) h = refl
writes-is_release b outcome found (acknowledge backend key) h = refl
writes-is_release b outcome found (remove_directory backend key) h = refl
writes-is_release b outcome found (remove_object backend key match) h = refl
writes-is_release b outcome found (look_again backend key) h = refl
writes-is_release b outcome found (release_object backend key) h = absurd (ground (arith, h))

pub permitted-spares :
    (b : Option Backend) (target : Target) (outcome : Replica) (found : Seen)
    (content : Option Text) (claimed : Bool) (calls : List Call)
    → is_permitted b target outcome found content claimed calls ≡ true
    → spares calls ≡ true
permitted-spares b target outcome found content claimed [] h = refl
permitted-spares b target outcome found content claimed (call ∷ []) h =
    ground (arith, writes-is_release b outcome found call (ground (arith, h)))
permitted-spares b target outcome found content claimed (call ∷ (next ∷ calls)) h =
    absurd (ground (arith, h))

module _ {S : Type 0} where
  unfoldable pub Spares : Applied S → Type 0
  Spares out = spares out.calls ≡ true

  pub calls-Spares : (out : Applied S) → spares out.calls ≡ true → Spares out
  unfolding Spares
  calls-Spares out h = h

  pub if_went-Spares :
      (ran next : Applied S) (e : Option Failure)
      → Spares ran
      → Spares next
      → Spares (if_went ran next e)
  unfolding Spares
  if_went-Spares ran next none h k = spares_append ran.calls next.calls h k
  if_went-Spares ran next (some f) h k = h

  pub and_then-Spares :
      (ran : Applied S) (next : S → Op → Applied S)
      → Spares ran
      → ((s : S) (op : Op) → Spares (next s op))
      → Spares (and_then ran next)
  and_then-Spares ran next h k =
      if_went-Spares ran (next ran.service ran.op) ran.error h (k ran.service ran.op)

  pub ended-Spares :
      (s : S) (op : Op) (calls : List Call) (e : Option Failure)
      → spares calls ≡ true
      → Spares (ended s op calls e)
  unfolding Spares
  ended-Spares s op calls none h = h
  ended-Spares s op calls (some f) h = h

  pub acknowledged-Spares :
      (s : S) (op : Op) (outcome : Replica) (a : Place.Answers)
      → Spares (acknowledged s op outcome a)
  unfolding Spares
  acknowledged-Spares s op outcome a =
      if_intro Spares outcome.is_directory (λ h. refl)
        (λ h. ended-Spares s op (acknowledge outcome.backend outcome.key ∷ []) a.acknowledged refl)
