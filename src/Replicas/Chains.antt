-- ===== src/Replicas/Chains.antt =====
-- src/sync/ReplicaService.js: the loop of `#cleanup` over the successors ends.
use canvas_stored.Prelude.{
  ℕ, zero, suc, ◌≤◌, ◌<◌, ◌≡◌, refl, sym, ap, ◌∙◌, Bool, true, false, not, Option, none, some, List,
  [], ◌∷◌, arith, any, keep, Text, text_eq, text_eq_iff, is_some, or_else, length, length-keep-le,
  if_intro, if◌then◌else◌,
}
use canvas_stored.Lmdb.{Table, text_key, lookup}
use canvas_stored.Replicas.Types.{Owner, Op, Ingress, Service}
use canvas_stored.Replicas.Service.{get_op, values}
use canvas_stored.Replicas.Ingress.{discard_ingress, discard_pins}
use canvas_stored.Replicas.Cleanup.{
  goes_on, follow, successor, is_needless, clean_ingress, clean_copies, cleaned_after, cleanup,
}

-- The keys that were not visited yet.
unvisited : List Text → List (Text × Op) → ℕ
unvisited visited rows = length (keep (λ row. not (any (text_eq row.0) visited)) rows)

unvisited-cons :
    (id : Text) (visited : List Text) (rows : List (Text × Op))
    → unvisited (id ∷ visited) rows ≤ unvisited visited rows
unfolding unvisited
unvisited-cons id visited [] = omega arith
unvisited-cons id visited ((k, op) ∷ rows) = ground (arith, unvisited-cons id visited rows)

-- A visit of a key that is there, and was not visited, leaves one less.
unvisited-visit :
    (id : Text) (visited : List Text) (rows : List (Text × Op))
    → is_some (lookup text_key id rows) ≡ true
    → any (text_eq id) visited ≡ false
    → unvisited (id ∷ visited) rows < unvisited visited rows
unfolding unvisited lookup
unvisited-visit id visited [] h n = ground arith
unvisited-visit id visited ((k, op) ∷ rows) h n =
    ground
      (arith, unvisited-visit id visited rows, unvisited-cons id visited rows, text_eq_iff k id)

module _ (ot : Table text_key Op) (wt : Table text_key Owner) (it : Table text_key Ingress)
    (mt : Table text_key ℕ) where
  -- Each operation stands under its own id.
  abbrev pub IsKeyed : Service ot wt it mt → Type 0
  IsKeyed s = (id : Text) (op : Op) → get_op ot wt it mt s id ≡ some op → op.id ≡ id

  abbrev Stored : Service ot wt it mt → Option Op → Type 0
  Stored s none = Unit
  Stored s (some op) = get_op ot wt it mt s op.id ≡ some op

  got-Stored :
      (s : Service ot wt it mt) (id : Text) (o : Option Op)
      → IsKeyed s
      → get_op ot wt it mt s id ≡ o
      → Stored s o
  got-Stored s id none k h = tt
  got-Stored s id (some op) k h = ap (get_op ot wt it mt s) (k id op h) ∙ h

  stored-lookup :
      (s : Service ot wt it mt) (op : Op)
      → get_op ot wt it mt s op.id ≡ some op
      → is_some (lookup text_key op.id (ot.range s.ops)) ≡ true
  unfolding get_op
  stored-lookup s op h = rw (← ot.get-range s.ops op.id) (ap is_some h)

  follow-ends :
      (s : Service ot wt it mt) (fuel : ℕ) (visited : List Text) (o : Option Op)
      → IsKeyed s
      → Stored s o
      → unvisited visited (ot.range s.ops) < fuel
      → is_some (follow ot wt it mt s fuel visited o) ≡ true
  unfolding follow goes_on
  follow-ends s zero visited o k h f = ground arith
  follow-ends s (suc fuel) visited none k h f = refl
  follow-ends s (suc fuel) visited (some op) k h f =
      let id = or_else op.superseded_by [] in
      ground (
        arith,
        unvisited-visit op.id visited (ot.range s.ops) (stored-lookup s op h),
        follow-ends s fuel (op.id ∷ visited) (get_op ot wt it mt s id) k (got-Stored s id _ k refl),
      )

  unvisited_all : (rows : List (Text × Op)) → unvisited [] rows ≤ length rows
  unfolding unvisited
  unvisited_all rows = length-keep-le (λ row. true) rows

  successor_ends :
      (s : Service ot wt it mt) (id : Text) (op : Op)
      → IsKeyed s
      → get_op ot wt it mt s id ≡ some op
      → is_some (successor ot wt it mt s op) ≡ true
  unfolding successor
  successor_ends s id op k h =
      follow-ends s (suc (suc (length (ot.range s.ops)))) [] (some op) k
        (got-Stored s id (some op) k h) (omega (arith, unvisited_all (ot.range s.ops)))

  discard_ingress-ops :
      (s : Service ot wt it mt) (pin : Ingress) → (discard_ingress ot wt it mt s pin).ops ≡ s.ops
  unfolding discard_ingress
  discard_ingress-ops s pin = ground arith

  discard_pins-ops :
      (p : Ingress → Bool) (pins : List Ingress) (s : Service ot wt it mt)
      → (discard_pins ot wt it mt p pins s).ops ≡ s.ops
  unfolding discard_pins
  discard_pins-ops p [] s = refl
  discard_pins-ops p (pin ∷ pins) s =
      discard_pins-ops p pins _
      ∙ if_intro (λ (t : Service ot wt it mt). t.ops ≡ s.ops) (p pin)
          (λ h. discard_ingress-ops s pin) (λ h. refl)

  clean_ingress-ops :
      (s : Service ot wt it mt) (op : Op) → (clean_ingress ot wt it mt s op).ops ≡ s.ops
  unfolding clean_ingress
  clean_ingress-ops s op =
      ground (arith, discard_pins-ops (is_needless op) (values (it.range s.ingress)) s)

  get_op-clean :
      (s : Service ot wt it mt) (op : Op) (id : Text)
      → get_op ot wt it mt (clean_ingress ot wt it mt s op) id ≡ get_op ot wt it mt s id
  unfolding get_op
  get_op-clean s op id = ap (λ d. ot.get d id) (clean_ingress-ops s op)

  cleaned_after-ends :
      (t : Service ot wt it mt) (op : Op) (o : Option (Option Op))
      → is_some o ≡ true
      → is_some (if op.cleaned then some (t, []) else cleaned_after ot wt it mt t op o) ≡ true
  unfolding clean_copies
  cleaned_after-ends t op none e = ground arith
  cleaned_after-ends t op (some last) e = ground arith

  -- The cleaning behind an operation ends, also where the chain of its successors runs in a circle:
  -- as many rounds as there are operations, and one more, are enough for the loop over them. The
  -- operations are taken to stand under their own ids.
  pub cleanup_ends :
      (s : Service ot wt it mt) (id : Text) (op : Op)
      → IsKeyed s
      → get_op ot wt it mt s id ≡ some op
      → is_some (cleanup ot wt it mt s op) ≡ true
  unfolding cleanup
  cleanup_ends s id op k h =
      let t = clean_ingress ot wt it mt s op in
      cleaned_after-ends t op _ (
        successor_ends t id op (λ i o e. k i o (sym (get_op-clean s op i) ∙ e))
          (get_op-clean s op id ∙ h))
