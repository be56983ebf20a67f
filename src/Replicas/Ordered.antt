-- ===== src/Replicas/Ordered.antt =====
-- src/sync/ReplicaService.js: a pass keeps the operations of an owner in their order.
use canvas_stored.Prelude.{
  ℕ, ◌≡◌, ◌+◌, ltb, refl, sym, ap, ◌∙◌, Bool, true, false, not, ◌||◌, Option, none, some, List, [],
  ◌∷◌, arith, Text, if_intro, All, map, or_else, if◌then◌else◌,
}
use mathlib.Core.Path.{subst}
use mathlib.Core.List.{Perm}
use mathlib.Core.List.Perm
use canvas_stored.Lmdb.{Table, text_key}
use canvas_stored.Replicas.Types.{Owner, Op, Tried, did, failed, Backend, Ingress, Service}
use canvas_stored.Replicas.Service.{get_op, sort, values}
use canvas_stored.Replicas.Sorted.{Ascending, sort-Ascending, sort-Perm}
use canvas_stored.Replicas.Outcomes.{Seen}
use canvas_stored.Replicas.Apply.{Answers}
use canvas_stored.Replicas.Ingress.{
  put_pin, is_preparing, reclaimed, commit_ingress, discard_ingress, reclaim,
}
use canvas_stored.Replicas.Drain.{Round, blocks, visited, op_of, drain_rows, drain}
use canvas_stored.Replicas.Holding.{InOrder, visit-Fits, drain_rows-InOrder}

module _ (ot : Table text_key Op) (wt : Table text_key Owner) (it : Table text_key Ingress)
    (mt : Table text_key ℕ) (keeps : Bool) (backends : Text → Option Backend) where
  visited-op :
      (s : Service ot wt it mt) (row : Op) (owners : List Text) (answers : Text → Answers) (now : ℕ)
      (o : Option Op)
      → op_of (visited ot wt it mt keeps backends s row owners answers now o).1.1 ≡ or_else o row
  unfolding visited
  visited-op s row owners answers now none = refl
  visited-op s row owners answers now (some op) =
      (visit-Fits ot wt it mt keeps backends s op (blocks owners op.owner) (answers op.id) now).1.1

  -- The operation of a round is the one that the table has then under the id of its row.
  abbrev pub IsRead : Round (Service ot wt it mt) → Type 0
  IsRead r = op_of r.visit ≡ or_else (get_op ot wt it mt r.before r.row.id) r.row

  drain_rows-IsRead :
      (rows : List Op) (s : Service ot wt it mt) (owners : List Text) (answers : Text → Answers)
      (now : ℕ)
      → All IsRead (drain_rows ot wt it mt keeps backends s rows owners answers now).1
  unfolding drain_rows
  drain_rows-IsRead [] s owners answers now = tt
  drain_rows-IsRead (row ∷ rows) s owners answers now = (
    visited-op s row owners answers now (get_op ot wt it mt s row.id),
    drain_rows-IsRead rows _ _ answers now,
  )

  abbrev pub rows_of : List (Round (Service ot wt it mt)) → List Op
  rows_of rounds = map (λ r. r.row) rounds

  drain_rows-rows :
      (rows : List Op) (s : Service ot wt it mt) (owners : List Text) (answers : Text → Answers)
      (now : ℕ)
      → rows_of (drain_rows ot wt it mt keeps backends s rows owners answers now).1 ≡ rows
  unfolding drain_rows
  drain_rows-rows [] s owners answers now = refl
  drain_rows-rows (row ∷ rows) s owners answers now =
      ap (λ l. row ∷ l) (drain_rows-rows rows _ _ answers now)

  reclaimed-ops :
      (s : Service ot wt it mt) (pin : Ingress) (seen : Tried Seen)
      → (reclaimed ot wt it mt s pin seen).ops ≡ s.ops
  unfolding commit_ingress discard_ingress put_pin
  reclaimed-ops s pin (failed f) = refl
  reclaimed-ops s pin (did seen) = ground arith

  reclaim-ops :
      (pins : List Ingress) (seen : Text → Tried Seen) (now : ℕ) (s : Service ot wt it mt)
      → (reclaim ot wt it mt pins seen now s).ops ≡ s.ops
  unfolding reclaim
  reclaim-ops [] seen now s = refl
  reclaim-ops (pin ∷ pins) seen now s =
      reclaim-ops pins seen now _
      ∙ if_intro (λ (t : Service ot wt it mt). t.ops ≡ s.ops)
          (not (is_preparing pin.state) || ltb now (pin.created_at + 3600000)) (λ h. refl)
          (λ h. reclaimed-ops s pin (seen pin.cache_key))

  -- The rounds of a pass: one for each of the operations, in the order of their numbers, each for the
  -- operation as it is then.
  abbrev pub IsPass : List Op → List (Round (Service ot wt it mt)) → Type 0
  IsPass ops rounds =
      Ascending (rows_of rounds) × Perm (rows_of rounds) ops × All IsRead rounds × InOrder rounds

  drain_rows-IsPass :
      (t : Service ot wt it mt) (ops : List Op) (answers : Text → Answers) (now : ℕ)
      → IsPass ops (drain_rows ot wt it mt keeps backends t (sort ops) [] answers now).1
  drain_rows-IsPass t ops answers now =
      let e = drain_rows-rows (sort ops) t [] answers now in
      (
        subst Ascending (sym e) (sort-Ascending ops),
        subst (λ l. Perm l ops) (sym e) (sort-Perm ops),
        drain_rows-IsRead (sort ops) t [] answers now,
        drain_rows-InOrder ot wt it mt keeps backends (sort ops) t [] answers now,
      )

  drain_if-IsPass :
      (b : Bool) (s t : Service ot wt it mt) (answers : Text → Answers) (now : ℕ)
      → t.ops ≡ s.ops
      → let out : Service ot wt it mt × List (Round (Service ot wt it mt)) =
          if b
          then (s, [])
          else drain_rows ot wt it mt keeps backends t
              (sort (values (ot.range t.ops)))
              []
              answers
              now in
        IsPass (if b then [] else values (ot.range s.ops)) out.1
  drain_if-IsPass true s t answers now e = (tt, Perm.refl [], tt, tt)
  drain_if-IsPass false s t answers now e =
      subst
        (λ d.
          IsPass (values (ot.range d))
            (drain_rows ot wt it mt keeps backends t (sort (values (ot.range t.ops))) [] answers
              now).1)
        e (drain_rows-IsPass t (values (ot.range t.ops)) answers now)

  -- A pass has one round for each operation, in the order of their numbers, and a round is for the
  -- operation that the table it began with has under the id; and the operations of an owner are kept
  -- in that order: behind one that is held back, or that is executed and fails, none of the same
  -- owner is executed in that pass, with success or without, whatever the calls answer. A service
  -- that was stopped before has no round.
  pub drain-InOrder :
      (s : Service ot wt it mt) (pins : Text → Tried Seen) (answers : Text → Answers) (now : ℕ)
      → IsPass
          (if s.stopped then [] else values (ot.range s.ops))
          (drain ot wt it mt keeps backends s pins answers now).1
  unfolding drain
  drain-InOrder s pins answers now =
      drain_if-IsPass s.stopped s (reclaim ot wt it mt (values (it.range s.ingress)) pins now s)
        answers now (reclaim-ops (values (it.range s.ingress)) pins now s)
