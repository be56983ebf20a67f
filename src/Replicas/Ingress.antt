-- ===== src/Replicas/Ingress.antt =====
-- src/sync/ReplicaService.js: the pinned sources of edits (`captureIngress` and what follows it), and
-- `assertIdleEndpoint`. Deletions in the cache are taken to go through.
use canvas_stored.Prelude.{
  ℕ, ◌+◌, ◌++◌, Bool, true, false, not, ◌&&◌, ◌||◌, Option, none, some, List, [], ◌∷◌, any, keep,
  Text, codes, text_eq, same, is_some, or_else, leb, ltb, length, starts_with, drop_chars, ◌==◌,
  if◌then◌else◌,
}
use canvas_stored.Lmdb.{Table, text_key}
use canvas_stored.Replicas.Types.{
  Endpoint, Replica, Owner, Failure, Op, Tried, did, failed, failure, is_terminal, same_place,
  IngressState, preparing, committed, Ingress, Service,
}
use canvas_stored.Replicas.Service.{owners_at, values}
use canvas_stored.Replicas.Outcomes.{Seen, id_of}

-- `r.key === key || (directory && r.key.startsWith(`${key}/`))` on a backend.
unfoldable pub lies_at : Text → Text → Bool → Text → Text → Bool
lies_at backend key directory other name =
    text_eq other backend && (text_eq name key || directory && starts_with (key ++ codes "/") name)

-- The owner keeps a file here equal.
unfoldable pub mirrors_file : Text → Text → Owner → Bool
unfolding same_place
mirrors_file backend key w =
    any (λ r. r.is_mirror && (not r.is_directory && same_place r.backend r.key backend key))
      w.replicas

abbrev pub first_owner : List Owner → Option Text
first_owner [] = none
first_owner (w ∷ ws) = some w.owner

-- `!terminal(value.state) && value.plan.sourceCacheKey === cacheKey`
unfoldable pub uses_pin : Text → Op → Bool
unfolding is_terminal
uses_pin cache_key op = not (is_terminal op.state) && same op.plan.source_cache_key (some cache_key)

-- An entry of `sourceFor`: of that content, and of the owner or without one at an endpoint.
unfoldable pub is_pin_for : Text → Text → List Endpoint → Ingress → Bool
unfolding same_place
is_pin_for owner content endpoints pin =
    text_eq pin.content_id content
    && (same pin.owner (some owner)
        || not (is_some pin.owner)
          && any (λ e. same_place e.backend e.key pin.backend pin.key) endpoints)

-- The first of the largest number.
unfoldable pub newest : List Ingress → Option Ingress → Option Ingress
newest [] best = best
newest (pin ∷ pins) none = newest pins (some pin)
newest (pin ∷ pins) (some best) = newest pins (some (if ltb best.seq pin.seq then pin else best))

abbrev pub is_preparing : IngressState → Bool
is_preparing preparing = true
is_preparing committed = false

abbrev pub base_places : Option Owner → List Replica
base_places none = []
base_places (some w) = w.replicas

abbrev pub is_source_at : Text → Text → Bool → Option Endpoint → Bool
unfolding lies_at
is_source_at backend key directory none = false
is_source_at backend key directory (some e) = lies_at backend key directory e.backend e.key

-- The operation touches the place: by a destination, an outcome, its base or its source.
unfoldable pub touches : Text → Text → Bool → Op → Bool
unfolding lies_at
touches backend key directory op =
    any (λ r. lies_at backend key directory r.backend r.key) op.plan.replicas
    || (any (λ r. lies_at backend key directory r.backend r.key) op.outcomes
        || (any (λ r. lies_at backend key directory r.backend r.key) (base_places op.base)
            || is_source_at backend key directory op.plan.source))

module _ (ot : Table text_key Op) (wt : Table text_key Owner) (it : Table text_key Ingress)
    (mt : Table text_key ℕ) where
  abbrev pub S : Type 0
  S = Service ot wt it mt

  unfoldable pub put_pin : S → Ingress → S
  put_pin s pin = record s { ingress = it.put s.ingress pin.cache_key pin }

  abbrev ingress_head : Text
  ingress_head = codes "ingress-head"

  -- The transaction of `captureIngress`; `unique` is a random name.
  unfoldable pub new_pin : S → Option Text → Text → Text → Text → Text → ℕ → Ingress × S
  unfolding put_pin
  new_pin s owner backend key content unique now =
      let seq = or_else (mt.get s.meta ingress_head) 0 + 1 in
      let pin : Ingress = record {
        cache_key = codes "replica-ingress:" ++ unique;
        owner = owner;
        content_id = content;
        backend = backend;
        key = key;
        seq = seq;
        state = preparing;
        created_at = now;
      } in
      (pin, put_pin (record s { meta = mt.put s.meta ingress_head seq }) pin)

  unfoldable pub discard_ingress : S → Ingress → S
  unfolding uses_pin
  discard_ingress s pin =
      if any (uses_pin pin.cache_key) (values (ot.range s.ops))
      then s
      else record s { ingress = it.remove s.ingress pin.cache_key }

  abbrev pub captured : Ingress × S → Option Failure → Tried (Option Ingress) × S
  unfolding discard_ingress
  captured made none = (did (some made.0), made.1)
  captured made (some f) = (failed f, discard_ingress made.1 made.0)

  -- `captureIngress`; `copied` is the error of the copy into the cache, if there is one.
  unfoldable pub capture_ingress :
      Bool → S → Text → Text → Text → Text → Option Failure → ℕ → Tried (Option Ingress) × S
  unfolding new_pin discard_ingress mirrors_file owners_at
  capture_ingress captures s backend key content unique copied now =
      let owners = keep (mirrors_file backend key) (owners_at ot wt it mt s backend key []) in
      let made = new_pin s (first_owner owners) backend key content unique now in
      if length owners == 0 && not captures
      then (did none, s)
      else if ltb 1 (length owners)
      then (failed (failure (codes "SHARED_REPLICA")), s)
      else captured made copied

  unfoldable pub commit_ingress : S → Option Ingress → S
  unfolding put_pin
  commit_ingress s none = s
  commit_ingress s (some pin) = put_pin s (record pin { state = committed })

  -- The loops over the pins that discard those of a kind.
  unfoldable pub discard_pins : (Ingress → Bool) → List Ingress → S → S
  unfolding discard_ingress
  discard_pins p [] s = s
  discard_pins p (pin ∷ pins) s = discard_pins p pins (if p pin then discard_ingress s pin else s)

  unfoldable pub abandon_unowned_ingress : S → Text → Text → Bool → S
  unfolding discard_pins lies_at
  abandon_unowned_ingress s backend key directory =
      discard_pins
        (λ pin. not (is_some pin.owner) && lies_at backend key directory pin.backend pin.key)
        (values (it.range s.ingress)) s

  -- `finishUnmirroredIngress` after its look at the file.
  unfoldable pub finish_unmirrored : S → Ingress → Tried Seen → Tried S
  unfolding discard_pins same_place
  finish_unmirrored s entry (failed f) = failed f
  finish_unmirrored s entry (did seen) =
      if not (same (id_of seen) (some entry.content_id))
      then failed (failure (codes "SOURCE_CHANGED"))
      else did (
          discard_pins
            (λ pin.
              not (is_some pin.owner)
              && (same_place pin.backend pin.key entry.backend entry.key && leb pin.seq entry.seq))
            (values (it.range s.ingress)) s)

  -- One round of `moveIngress`.
  abbrev pub moved_pin : Text → Text → Text → Ingress → Ingress
  moved_pin from other to pin = record pin {
    backend = other;
    key = to ++ drop_chars (length from) pin.key;
  }

  unfoldable pub move_pins :
      Text → Text → Text → Text → Bool → List (Text × Ingress) → it.Db → it.Db
  unfolding lies_at
  move_pins backend from other to directory [] d = d
  move_pins backend from other to directory ((key, pin) ∷ rows) d =
      move_pins backend from other to directory rows (
        if lies_at backend from directory pin.backend pin.key
        then it.put d key (moved_pin from other to pin)
        else d)

  unfoldable pub move_ingress : S → Text → Text → Text → Text → Bool → S
  unfolding move_pins
  move_ingress s backend from other to directory = record s {
    ingress = move_pins backend from other to directory (it.range s.ingress) s.ingress;
  }

  unfoldable pub source_for : S → Text → Text → List Endpoint → Option Ingress
  unfolding newest is_pin_for
  source_for s owner content endpoints =
      newest (keep (is_pin_for owner content endpoints) (values (it.range s.ingress))) none

  -- `assertIdleEndpoint`; `except` is the id of the operation that may be pending.
  unfoldable pub assert_idle_endpoint : S → Text → Text → Bool → Option Text → Option Failure
  unfolding touches is_terminal
  assert_idle_endpoint s backend key directory except =
      if any
        (λ op.
          not (is_terminal op.state || same (some op.id) except)
          && touches backend key directory op)
        (values (ot.range s.ops))
      then some (failure (codes "OPERATION_PENDING"))
      else none

  -- The first loop of `#drain`, on a pin that is an hour old: the answer of `#inspect` decides.
  abbrev pub reclaimed : S → Ingress → Tried Seen → S
  unfolding commit_ingress discard_ingress
  reclaimed s pin (failed f) = s
  reclaimed s pin (did seen) =
      if same (id_of seen) (some pin.content_id)
      then commit_ingress s (some pin)
      else discard_ingress s pin

  unfoldable pub reclaim : List Ingress → (Text → Tried Seen) → ℕ → S → S
  unfolding commit_ingress discard_ingress
  reclaim [] answers now s = s
  reclaim (pin ∷ pins) answers now s = reclaim pins answers now (
      if not (is_preparing pin.state) || ltb now (pin.created_at + 3600000)
      then s
      else reclaimed s pin (answers pin.cache_key))
