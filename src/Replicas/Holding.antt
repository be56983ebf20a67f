-- ===== src/Replicas/Holding.antt =====
-- src/sync/ReplicaService.js: a pass executes nothing behind what it leaves unfinished.
use canvas_stored.Prelude.{
  ℕ, ◌≡◌, refl, sym, ap, ◌∙◌, Bool, true, false, not, ◌&&◌, ◌||◌, Option, none, some, List, [], ◌∷◌,
  arith, Text, text_eq, text_eq_refl, text_eq_iff, Bool-cases, inl, inr, all,
}
use canvas_stored.Lmdb.{Table, text_key}
use canvas_stored.Replicas.Types.{Owner, Op, Failure, Backend, Ingress, Service}
use canvas_stored.Replicas.Service.{get_op, save}
use canvas_stored.Replicas.Place.{Applied}
use canvas_stored.Replicas.Apply.{Answers, apply}
use canvas_stored.Replicas.Drain.{
  Round, Visit, tidied, held, ran, stuck, started, blocks, settled, execute, visit, visited,
  with_blocked, op_of, drain_rows,
}

-- The pass leaves the operation unfinished.
abbrev pub is_unfinished : Visit → Bool
is_unfinished (tidied op) = false
is_unfinished (held op) = true
is_unfinished (ran op) = false
is_unfinished (stuck op) = true

-- The pass executes the operation.
abbrev pub is_executed : Visit → Bool
is_executed (tidied op) = false
is_executed (held op) = false
is_executed (ran op) = true
is_executed (stuck op) = true

module _ {S : Type 0} where
  -- No operation of the owner is executed.
  abbrev pub spares : Text → List (Round S) → Bool
  spares owner rounds =
      all (λ r. not (text_eq owner (op_of r.visit).owner && is_executed r.visit)) rounds

  -- Behind an operation that is left unfinished, none of its owner is executed.
  abbrev pub InOrder : List (Round S) → Type 0
  InOrder [] = Unit
  InOrder (r ∷ rs) =
      (is_unfinished r.visit ≡ true → spares (op_of r.visit).owner rs ≡ true) × InOrder rs

both_true : {a b : Bool} → a ≡ true → b ≡ true → (a && b) ≡ true
both_true h k = rw h k

module _ (ot : Table text_key Op) (wt : Table text_key Owner) (it : Table text_key Ingress)
    (mt : Table text_key ℕ) (keeps : Bool) (backends : Text → Option Backend) where
  -- What a visit is like: an operation that an earlier one holds is not executed, and one that is left
  -- unfinished holds the later ones.
  abbrev Fits : Bool → Service ot wt it mt × (Bool × Visit) → Op → Type 0
  Fits is_held (t, (b, v)) op =
      (is_held && is_executed v ≡ false)
      × ((is_unfinished v ≡ true → (is_held || b) ≡ true) × (op_of v ≡ op))

  settled-Fits :
      (op : Op) (out : Applied (Service ot wt it mt)) (now : ℕ) (f : Option Failure)
      → Fits false (settled ot wt it mt keeps backends op out now f) op
  unfolding settled
  settled-Fits op out now none = (refl, (λ h. ground (arith, h), refl))
  settled-Fits op out now (some f) = (refl, (λ h. refl, refl))

  execute-Fits :
      (s : Service ot wt it mt) (op : Op) (a : Answers) (now : ℕ)
      → Fits false (execute ot wt it mt keeps backends s op a now) op
  unfolding execute
  execute-Fits s op a now =
      let out =
        apply ot wt it mt keeps backends (save ot wt it mt s (started op) now) (started op) a now in
      settled-Fits op out now out.error

  pub visit-Fits :
      (s : Service ot wt it mt) (op : Op) (is_held : Bool) (a : Answers) (now : ℕ)
      → Fits is_held (visit ot wt it mt keeps backends s op is_held a now) op
  unfolding visit
  visit-Fits s op is_held a now = ground (arith, execute-Fits s op a now)

  -- The same, against the owners that are blocked before and after the visit.
  abbrev Runs : List Text → Service ot wt it mt × (Bool × Visit) → Type 0
  Runs owners (t, (b, v)) =
      (blocks owners (op_of v).owner && is_executed v ≡ false)
      × (is_unfinished v ≡ true
          → blocks (with_blocked b (op_of v).owner owners) (op_of v).owner ≡ true)

  Fits-Runs :
      (owners : List Text) (op : Op) (t : Service ot wt it mt) (b : Bool) (v : Visit)
      → Fits (blocks owners op.owner) (t, (b, v)) op
      → Runs owners (t, (b, v))
  Fits-Runs owners op t true v f = (
    ap (λ (o : Op). blocks owners o.owner && is_executed v) f.1.1 ∙ f.0,
    λ u. ground (arith, text_eq_refl (op_of v).owner),
  )
  Fits-Runs owners op t false v f = (
    ap (λ (o : Op). blocks owners o.owner && is_executed v) f.1.1 ∙ f.0,
    λ u. ap (λ (o : Op). blocks owners o.owner) f.1.1 ∙ ground (arith, f.1.0 u),
  )

  visited-Runs :
      (s : Service ot wt it mt) (row : Op) (owners : List Text) (answers : Text → Answers) (now : ℕ)
      (o : Option Op)
      → Runs owners (visited ot wt it mt keeps backends s row owners answers now o)
  unfolding visited
  visited-Runs s row owners answers now none =
      (ground arith, λ u. ground (arith, text_eq_refl row.owner))
  visited-Runs s row owners answers now (some op) =
      let out =
        visit ot wt it mt keeps backends s op (blocks owners op.owner) (answers op.id) now in
      Fits-Runs owners op out.0 out.1.0 out.1.1
        (visit-Fits s op (blocks owners op.owner) (answers op.id) now)

  blocks-with_blocked :
      (b : Bool) (owner other : Text) (owners : List Text)
      → blocks owners other ≡ true
      → blocks (with_blocked b owner owners) other ≡ true
  blocks-with_blocked true owner other owners h = ground (arith, h)
  blocks-with_blocked false owner other owners h = h

  spares_head :
      (owner : Text) (owners : List Text) (t : Service ot wt it mt) (b : Bool) (v : Visit)
      → Runs owners (t, (b, v))
      → blocks owners owner ≡ true
      → not (text_eq owner (op_of v).owner && is_executed v) ≡ true
  spares_head owner owners t b v r h = elim (Bool-cases (text_eq owner (op_of v).owner)) [
    | inl e ↦
        ground (arith, r.0, ap (blocks owners) (sym ((text_eq_iff owner (op_of v).owner).0 e)) ∙ h)
    | inr n ↦ ground (arith, n)
  ]

  -- A blocked owner is spared by the rest of the pass.
  drain_rows-spares :
      (rows : List Op) (s : Service ot wt it mt) (owners : List Text) (answers : Text → Answers)
      (now : ℕ) (owner : Text)
      → blocks owners owner ≡ true
      → spares owner (drain_rows ot wt it mt keeps backends s rows owners answers now).1 ≡ true
  unfolding drain_rows
  drain_rows-spares [] s owners answers now owner h = refl
  drain_rows-spares (row ∷ rows) s owners answers now owner h =
      let out =
        visited ot wt it mt keeps backends s row owners answers now (get_op ot wt it mt s row.id) in
      both_true
        (spares_head owner owners out.0 out.1.0 out.1.1
          (visited-Runs s row owners answers now (get_op ot wt it mt s row.id)) h)
        (drain_rows-spares rows out.0 (with_blocked out.1.0 (op_of out.1.1).owner owners) answers
          now owner (blocks-with_blocked out.1.0 (op_of out.1.1).owner owner owners h))

  pub drain_rows-InOrder :
      (rows : List Op) (s : Service ot wt it mt) (owners : List Text) (answers : Text → Answers)
      (now : ℕ)
      → InOrder (drain_rows ot wt it mt keeps backends s rows owners answers now).1
  unfolding drain_rows
  drain_rows-InOrder [] s owners answers now = tt
  drain_rows-InOrder (row ∷ rows) s owners answers now =
      let out =
        visited ot wt it mt keeps backends s row owners answers now (get_op ot wt it mt s row.id) in
      (
        (λ u.
            drain_rows-spares rows out.0 (with_blocked out.1.0 (op_of out.1.1).owner owners) answers
              now (op_of out.1.1).owner
              ((visited-Runs s row owners answers now (get_op ot wt it mt s row.id)).1 u)),
        drain_rows-InOrder rows out.0 (with_blocked out.1.0 (op_of out.1.1).owner owners) answers
            now,
      )
