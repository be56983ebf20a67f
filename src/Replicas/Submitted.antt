-- ===== src/Replicas/Submitted.antt =====
-- src/sync/ReplicaService.js: what `submit` promises.
use mathlib.Core.Path.{subst}
use canvas_stored.Prelude.{
  ℕ, ◌+◌, ◌≡◌, refl, ◌∙◌, Bool, false, Option, none, some, List, [], arith, Text, codes, text_eq,
  text_eq_refl, text_eq_iff,
}
use canvas_stored.Lmdb.{Table, text_key, get-put_self}
use canvas_stored.Replicas.Types.{
  Plan, Target, Owner, Op, Failure, Tried, did, failed, failure, Backend, Ingress, Service,
}
use canvas_stored.Replicas.Validate.{validate, checked_rest, check_rest, check_targets, unless}
use canvas_stored.Replicas.Service.{get_op, new_op, head, accept, accepted, submit_over, submit}

-- What a value that was not thrown is like.
abbrev pub IfDid : {A : Type 0} → (A → Type 0) → Tried A → Type 0
IfDid P (did a) = P a
IfDid P (failed f) = Unit

unless-keeps :
    (input plan : Plan) (f : Option Failure)
    → plan.id ≡ input.id
    → IfDid (λ p. p.id ≡ input.id) (unless f (did plan))
unless-keeps input plan none h = h
unless-keeps input plan (some f) h = tt

checked_rest-id :
    (backends : Text → Option Backend) (plan : Plan) (o : Tried (List Target))
    → IfDid (λ p. p.id ≡ plan.id) (checked_rest backends plan o)
unfolding checked_rest
checked_rest-id backends plan (failed f) = tt
checked_rest-id backends plan (did targets) =
    unless-keeps plan (record plan { replicas = targets })
      (check_rest backends (record plan { replicas = targets })) refl

validate-id :
    (keeps : Bool) (backends : Text → Option Backend) (plan : Plan)
    → IfDid (λ p. p.id ≡ plan.id) (validate keeps backends plan)
unfolding validate
validate-id keeps backends plan =
    ground (arith, checked_rest-id backends plan (check_targets keeps backends plan.replicas []))

-- An accepted operation, against the state that it leaves.
abbrev Accepts :
    (ot : Table text_key Op) (wt : Table text_key Owner) (it : Table text_key Ingress)
    (mt : Table text_key ℕ)
    → Service ot wt it mt
    → Text
    → Text
    → Op × Service ot wt it mt
    → Type 0
Accepts ot wt it mt s id hash (op, t) =
    (get_op ot wt it mt t id ≡ some op) × ((op.request_hash ≡ hash) × (t.stopped ≡ s.stopped))

module _ (ot : Table text_key Op) (wt : Table text_key Owner) (it : Table text_key Ingress)
    (mt : Table text_key ℕ) (keeps : Bool) (backends : Text → Option Backend) where
  accept-Accepts :
      (s : Service ot wt it mt) (plan : Plan) (hash : Text) (now : ℕ)
      → Accepts ot wt it mt s plan.id hash (accept ot wt it mt s plan hash now)
  unfolding accept get_op new_op
  accept-Accepts s plan hash now =
      (get-put_self ot s.ops plan.id (new_op plan hash (head ot wt it mt s + 1) now), (refl, refl))

  accepted-Accepts :
      (s : Service ot wt it mt) (id hash : Text) (now : ℕ) (v : Tried Plan)
      → IfDid (λ p. p.id ≡ id) v
      → IfDid (Accepts ot wt it mt s id hash) (accepted ot wt it mt s hash now v)
  unfolding accept
  accepted-Accepts s id hash now (failed f) h = tt
  accepted-Accepts s id hash now (did plan) h =
      subst (λ i. Accepts ot wt it mt s i hash (accept ot wt it mt s plan hash now)) h
        (accept-Accepts s plan hash now)

  submit_over-Accepts :
      (s : Service ot wt it mt) (input : Plan) (hash : Text) (now : ℕ) (o : Option Op)
      → get_op ot wt it mt s input.id ≡ o
      → IfDid
          (Accepts ot wt it mt s input.id hash)
          (submit_over ot wt it mt keeps backends s input hash now o)
  unfolding submit_over
  submit_over-Accepts s input hash now none h =
      accepted-Accepts s input.id hash now (validate keeps backends input)
        (validate-id keeps backends input)
  submit_over-Accepts s input hash now (some prior) h =
      ground (arith, h, text_eq_iff prior.request_hash hash)

  submit-Accepts :
      (digest : Plan → Text) (s : Service ot wt it mt) (input : Plan) (now : ℕ)
      → IfDid
          (Accepts ot wt it mt s input.id (digest input))
          (submit ot wt it mt keeps backends digest s input now)
  unfolding submit
  submit-Accepts digest s input now =
      ground
        (arith, submit_over-Accepts s input (digest input) now (get_op ot wt it mt s input.id) refl)

  submit-runs :
      (digest : Plan → Text) (s : Service ot wt it mt) (input : Plan) (now : ℕ)
      (out : Op × Service ot wt it mt)
      → submit ot wt it mt keeps backends digest s input now ≡ did out
      → s.stopped ≡ false
  unfolding submit
  submit-runs digest s input now out h = ground (arith, h)

  -- Once a plan was accepted, the same plan submitted again gives the operation that was accepted and
  -- changes nothing, whatever backends there are by then; another plan under the same id, with
  -- another digest, is refused with `IDEMPOTENCY_CONFLICT`.
  pub submit-submit :
      (digest : Plan → Text) (s t : Service ot wt it mt) (input other : Plan) (op : Op)
      (now later : ℕ) (kept : Bool) (found : Text → Option Backend)
      → submit ot wt it mt keeps backends digest s input now ≡ did (op, t)
      → (submit ot wt it mt kept found digest t input later ≡ did (op, t))
        × (other.id ≡ input.id
            → text_eq (digest input) (digest other) ≡ false
            → submit ot wt it mt kept found digest t other later
              ≡ failed (failure (codes "IDEMPOTENCY_CONFLICT")))
  unfolding submit submit_over
  submit-submit digest s t input other op now later kept found h =
      let a =
        subst (IfDid (Accepts ot wt it mt s input.id (digest input))) h
          (submit-Accepts digest s input now) in
      let stopped : t.stopped ≡ false = a.1.1 ∙ submit-runs digest s input now (op, t) h in
      (
        rw stopped (rw a.0 (ground (arith, a.1.0, text_eq_refl (digest input)))),
        λ e n. rw stopped (rw e (rw a.0 (ground (arith, a.1.0, n)))),
      )
