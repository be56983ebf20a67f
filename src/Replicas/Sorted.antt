-- ===== src/Replicas/Sorted.antt =====
-- src/sync/ReplicaService.js: the sort of the operations by their numbers.
use mathlib.Core.List.{Perm}
use mathlib.Core.List.Perm
use canvas_stored.Prelude.{ℕ, ◌≤◌, List, [], ◌∷◌, arith, All, All-map, ltb, if_intro}
use canvas_stored.Replicas.Types.{Op}
use canvas_stored.Replicas.Service.{insert, sort}

-- No row has a smaller number than one before it.
abbrev pub Ascending : List Op → Type 0
Ascending [] = Unit
Ascending (op ∷ ops) = All (λ (o : Op). op.seq ≤ o.seq) ops × Ascending ops

insert-Above :
    (n : ℕ) (op : Op) (ops : List Op)
    → n ≤ op.seq
    → All (λ (o : Op). n ≤ o.seq) ops
    → All (λ (o : Op). n ≤ o.seq) (insert op ops)
unfolding insert
insert-Above n op [] h a = (h, tt)
insert-Above n op (o ∷ ops) h a =
    if_intro (All (λ (p : Op). n ≤ p.seq)) (ltb o.seq op.seq)
      (λ g. (a.0, insert-Above n op ops h a.1)) (λ g. (h, a))

insert-Ascending : (op : Op) (ops : List Op) → Ascending ops → Ascending (insert op ops)
unfolding insert
insert-Ascending op [] a = (tt, tt)
insert-Ascending op (o ∷ ops) a =
    if_intro Ascending (ltb o.seq op.seq)
      (λ g. (insert-Above o.seq op ops (ground (arith, g)) a.0, insert-Ascending op ops a.1))
      (λ g. ((ground (arith, g), All-map ops (λ p h. ground (arith, g, h)) a.0), a))

pub sort-Ascending : (ops : List Op) → Ascending (sort ops)
unfolding sort
sort-Ascending [] = tt
sort-Ascending (op ∷ ops) = insert-Ascending op (sort ops) (sort-Ascending ops)

insert-Perm : (op : Op) (ops : List Op) → Perm (insert op ops) (op ∷ ops)
unfolding insert
insert-Perm op [] = Perm.refl (op ∷ [])
insert-Perm op (o ∷ ops) =
    if_intro (λ out. Perm out (op ∷ (o ∷ ops))) (ltb o.seq op.seq)
      (λ g. Perm.trans (Perm.cons o (insert-Perm op ops)) (Perm.swap op o ops))
      (λ g. Perm.refl (op ∷ (o ∷ ops)))

pub sort-Perm : (ops : List Op) → Perm (sort ops) ops
unfolding sort
sort-Perm [] = Perm.refl []
sort-Perm (op ∷ ops) = Perm.trans (insert-Perm op (sort ops)) (Perm.cons op (sort-Perm ops))
