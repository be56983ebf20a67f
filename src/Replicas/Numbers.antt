-- ===== src/Replicas/Numbers.antt =====
-- src/sync/ReplicaService.js: the numbers that `submit` gives.
use canvas_stored.Prelude.{
  ℕ, suc, ◌+◌, ◌≤◌, ◌<◌, ◌≡◌, Bool, Option, none, some, arith, Text, or_else,
}
use canvas_stored.Lmdb.{Table, text_key, get-put, get-put_self}
use canvas_stored.Replicas.Types.{Plan, Owner, Op, Tried, did, failed, Backend, Ingress, Service}
use canvas_stored.Replicas.Validate.{validate}
use canvas_stored.Replicas.Service.{
  get_op, new_op, head, head_key, accept, accepted, submit_over, submit,
}
use canvas_stored.Replicas.Submitted.{IfDid}

module _ (ot : Table text_key Op) (wt : Table text_key Owner) (it : Table text_key Ingress)
    (mt : Table text_key ℕ) where
  -- No operation has a number above the counter.
  abbrev pub IsNumbered : Service ot wt it mt → Type 0
  IsNumbered s =
      (id : Text) (op : Op) → get_op ot wt it mt s id ≡ some op → op.seq ≤ head ot wt it mt s

  -- A new operation has a number above those of all others, and the counter moves up to it; an
  -- operation that is there already leaves all as it was.
  abbrev pub Numbers : Service ot wt it mt → Option Op → Op × Service ot wt it mt → Type 0
  Numbers s none (op, t) =
      (op.seq ≡ suc (head ot wt it mt s))
      × (((id : Text) (o : Op) → get_op ot wt it mt s id ≡ some o → o.seq < op.seq) × IsNumbered t)
  Numbers s (some prior) (op, t) = t ≡ s

  head-accept :
      (s : Service ot wt it mt) (plan : Plan) (hash : Text) (now : ℕ)
      → head ot wt it mt (accept ot wt it mt s plan hash now).1 ≡ suc (head ot wt it mt s)
  unfolding head accept
  head-accept s plan hash now =
      rw (get-put_self mt s.meta head_key (or_else (mt.get s.meta head_key) 0 + 1)) (omega arith)

  accept-IsNumbered :
      (s : Service ot wt it mt) (plan : Plan) (hash : Text) (now : ℕ)
      → IsNumbered s
      → IsNumbered (accept ot wt it mt s plan hash now).1
  unfolding accept get_op new_op
  accept-IsNumbered s plan hash now n id op h = ground (
    arith,
    get-put ot s.ops plan.id id (new_op plan hash (head ot wt it mt s + 1) now),
    n id op,
    h,
    head-accept s plan hash now,
  )

  accepted-Numbers :
      (s : Service ot wt it mt) (hash : Text) (now : ℕ) (v : Tried Plan)
      → IsNumbered s
      → IfDid (Numbers s none) (accepted ot wt it mt s hash now v)
  unfolding accept new_op
  accepted-Numbers s hash now (failed f) n = tt
  accepted-Numbers s hash now (did plan) n =
      (omega arith, (λ id o h. omega (arith, n id o h), accept-IsNumbered s plan hash now n))

module _ (ot : Table text_key Op) (wt : Table text_key Owner) (it : Table text_key Ingress)
    (mt : Table text_key ℕ) (keeps : Bool) (backends : Text → Option Backend) where
  submit_over-Numbers :
      (s : Service ot wt it mt) (input : Plan) (hash : Text) (now : ℕ) (o : Option Op)
      → IsNumbered ot wt it mt s
      → IfDid (Numbers ot wt it mt s o) (submit_over ot wt it mt keeps backends s input hash now o)
  unfolding submit_over
  submit_over-Numbers s input hash now none n =
      accepted-Numbers ot wt it mt s hash now (validate keeps backends input) n
  submit_over-Numbers s input hash now (some prior) n = ground arith

  -- A plan that is accepted under a new id gets a number above those of all operations, and no number
  -- passes the counter; a plan whose id is there already changes nothing.
  pub submit-Numbers :
      (digest : Plan → Text) (s : Service ot wt it mt) (input : Plan) (now : ℕ)
      → IsNumbered ot wt it mt s
      → IfDid
          (Numbers ot wt it mt s (get_op ot wt it mt s input.id))
          (submit ot wt it mt keeps backends digest s input now)
  unfolding submit
  submit-Numbers digest s input now n =
      ground
        (arith, submit_over-Numbers s input (digest input) now (get_op ot wt it mt s input.id) n)
