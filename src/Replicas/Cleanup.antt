-- ===== src/Replicas/Cleanup.antt =====
-- src/sync/ReplicaService.js: `#cleanup`. Deletions in the cache are taken to go through.
use canvas_stored.Prelude.{
  ℕ, zero, suc, ◌++◌, Bool, true, false, not, ◌&&◌, ◌||◌, Option, none, some, List, [], ◌∷◌, any,
  Text, text_eq, truthy, same, is_some, or_else, leb, length, ◌==◌, if◌then◌else◌,
}
use canvas_stored.Lmdb.{Table, text_key}
use canvas_stored.Replicas.Types.{Owner, Op, is_complete, is_cancelled, Ingress, Service}
use canvas_stored.Replicas.Service.{get_op, put_op, values}
use canvas_stored.Replicas.Place.{is_source}
use canvas_stored.Replicas.Ingress.{uses_pin, discard_pins}

-- The calls of the cache.
pub data Deletion : Type 0 where
  delete_entry : Text → Deletion

-- The pins that a finished operation made needless.
unfoldable pub is_needless : Op → Ingress → Bool
is_needless op pin =
    (same pin.owner (some op.owner)
      || not (is_some pin.owner) && is_source pin.backend pin.key op.plan.ingress_source)
    && leb pin.seq (or_else op.plan.ingress_seq 0)

abbrev pub is_finished : Option Op → Bool
is_finished none = false
is_finished (some op) = is_complete op.state

-- `state === 'cancelled' && supersededBy && !visited.has(id)`
unfoldable pub goes_on : List Text → Op → Bool
goes_on visited op =
    is_cancelled op.state && (truthy op.superseded_by && not (any (text_eq op.id) visited))

abbrev pub entry_of : Option Text → List Deletion
entry_of none = []
entry_of (some []) = []
entry_of (some (c ∷ cs)) = delete_entry (c ∷ cs) ∷ []

module _ (ot : Table text_key Op) (wt : Table text_key Owner) (it : Table text_key Ingress)
    (mt : Table text_key ℕ) where
  abbrev pub S : Type 0
  S = Service ot wt it mt

  -- The loop over the successors, on fuel: `none` if the fuel does not do.
  unfoldable pub follow : S → ℕ → List Text → Option Op → Option (Option Op)
  unfolding get_op goes_on
  follow s zero visited op = none
  follow s (suc fuel) visited none = some none
  follow s (suc fuel) visited (some op) =
      let next =
        follow s fuel (op.id ∷ visited) (get_op ot wt it mt s (or_else op.superseded_by [])) in
      if goes_on visited op then next else some (some op)

  -- One more round than there are operations is enough.
  unfoldable pub successor : S → Op → Option (Option Op)
  unfolding follow
  successor s op = follow s (suc (suc (length (ot.range s.ops)))) [] (some op)

  unfoldable pub clean_ingress : S → Op → S
  unfolding discard_pins is_needless
  clean_ingress s op =
      if is_complete op.state && not (or_else op.plan.ingress_seq 0 == 0)
      then discard_pins ot wt it mt (is_needless op) (values (it.range s.ingress)) s
      else s

  abbrev pub cleaned_op : Op → Op
  cleaned_op op = record op { cleaned = true }

  -- Once the last successor is complete: the staged copy goes, and the pinned source if no operation
  -- needs it.
  unfoldable pub clean_copies : S → Op → S × List Deletion
  unfolding uses_pin put_op
  clean_copies s op =
      let stage = entry_of op.stage_key in
      if truthy op.plan.source_cache_key
        && any (uses_pin (or_else op.plan.source_cache_key [])) (values (ot.range s.ops))
      then (s, stage)
      else (put_op ot wt it mt s (cleaned_op op), stage ++ entry_of op.plan.source_cache_key)

  abbrev pub cleaned_after : S → Op → Option (Option Op) → Option (S × List Deletion)
  unfolding clean_copies
  cleaned_after s op none = none
  cleaned_after s op (some last) = some (if is_finished last then clean_copies s op else (s, []))

  unfoldable pub cleanup : S → Op → Option (S × List Deletion)
  unfolding clean_ingress successor clean_copies
  cleanup s op =
      let t = clean_ingress s op in
      if op.cleaned then some (t, []) else cleaned_after t op (successor t op)
