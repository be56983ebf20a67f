-- ===== src/Replicas/Outcomes.antt =====
-- src/sync/ReplicaService.js: how `#apply` settles on the outcome of a destination.
use canvas_stored.Prelude.{
  ℕ, suc, ◌-◌, ◌++◌, Bool, true, false, not, ◌&&◌, ◌||◌, Option, none, some, List, [], ◌∷◌, any,
  Text, codes, text_eq, truthy, same, is_some, ltb, length, ◌==◌, take_chars, drop_chars,
  if◌then◌else◌,
}
use canvas_stored.Keys.Conflict.{decimal}
use canvas_stored.Replicas.Types.{
  Target, Replica, Owner, Tried, did, failed, failure, same_place, Capabilities,
}

-- What `#inspect` finds at a place: nothing, a directory, or a file with its content id.
pub data Seen : Type 0 where
  nothing : Seen
  folder : Seen
  bytes : Text → Seen

abbrev pub id_of : Seen → Option Text
id_of (bytes id) = some id
id_of _ = none

abbrev pub is_there : Seen → Bool
is_there nothing = false
is_there _ = true

abbrev pub is_managed : Option Replica → Bool
is_managed none = false
is_managed (some r) = r.managed

abbrev pub content_of : Option Replica → Option Text
content_of none = none
content_of (some r) = r.content_id

-- `r.requestedKey || r.key`
abbrev pub requested : Replica → Option Text
requested r = if truthy r.requested_key then r.requested_key else some r.key

-- `previous`: the copy of the base that this destination asked for.
unfoldable pub previous_of : Target → List Replica → Option Replica
previous_of target [] = none
previous_of target (r ∷ rs) =
    let rest = previous_of target rs in
    if text_eq r.backend target.backend && same (requested r) (some target.key)
    then some r
    else rest

abbrev pub is_rename : Target → Bool
is_rename target = same target.on_conflict (some (codes "rename"))

-- `resolved.key`
unfoldable pub resolved_key : Target → Option Replica → Text
resolved_key target none = target.key
resolved_key target (some previous) = if is_rename target then previous.key else target.key

-- A managed copy that holds neither what it was verified with nor what is to be placed.
unfoldable pub is_edited : Option Replica → Seen → Option Text → Bool
is_edited previous current content =
    is_managed previous
    && (is_some (id_of current)
        && (not (same (id_of current) (content_of previous)) && not (same (id_of current) content)))

-- `replaces`: the version of an owned copy that may be replaced.
unfoldable pub replaced_by : Option Replica → Capabilities → Option Text
replaced_by none cap = none
replaced_by (some previous) cap =
    if previous.managed && (previous.is_mirror && cap.overwrite) then previous.content_id else none

-- Another owner's record, or this one's, has a managed copy at the destination.
unfoldable pub is_owned : Target → List Owner → Bool
unfolding same_place
is_owned target owners =
    any
      (λ w. any (λ r. r.managed && same_place r.backend r.key target.backend target.key) w.replicas)
      owners

-- The outcome, before a clash of names is settled.
unfoldable pub planned :
    Target → Option Replica → Seen → Option Text → List Owner → Capabilities → Replica
unfolding resolved_key replaced_by is_owned
planned target previous current content owners cap = record {
  backend = target.backend;
  key = resolved_key target previous;
  is_directory = target.is_directory;
  on_conflict = target.on_conflict;
  is_mirror = target.is_mirror;
  adopts = target.adopts;
  requested_key = some target.key;
  content_id = if truthy content then content else none;
  is_verified = false;
  managed =
      is_managed previous || (not (is_there current) || (target.adopts || is_owned target owners));
  expected = id_of current;
  replaces = replaced_by previous cap;
}

-- Other bytes are in the way, and the plan asks for another name.
unfoldable pub is_clash : Target → Seen → Option Text → Option Text → Bool
is_clash target current content replaces =
    is_some (id_of current)
    && (not (same (id_of current) content)
        && (not (same (id_of current) replaces) && is_rename target))

-- `lastIndexOf(c) + 1`, from the position `n` on.
unfoldable pub last_index : ℕ → ℕ → Text → ℕ → ℕ
last_index c n [] best = best
last_index c n (x ∷ xs) best = last_index c (suc n) xs (if x == c then suc n else best)

-- Where the number goes: before the last dot of the name, or at its end.
unfoldable pub cut_of : Text → ℕ
unfolding last_index
cut_of key =
    let dot = last_index b'.' 0 key 0 in
    if ltb (last_index b'/' 0 key 0) dot then dot - 1 else length key

unfoldable pub numbered : Text → ℕ → Text
unfolding cut_of
numbered key n =
    take_chars (cut_of key) key ++ (codes "-" ++ (decimal n ++ drop_chars (cut_of key) key))

-- The loop over the names with a number; the answers are those of `stat`, whether one is taken. The
-- loop ends at the first name that is free.
unfoldable pub free_key : Text → ℕ → List Bool → Text
unfolding numbered
free_key key n [] = numbered key n
free_key key n (false ∷ answers) = numbered key n
free_key key n (true ∷ answers) = free_key key (suc n) answers

unfoldable pub outcome_of :
    Target → Option Replica → Seen → Option Text → List Owner → Capabilities → List Bool → Replica
unfolding planned is_clash free_key
outcome_of target previous current content owners cap answers =
    let outcome = planned target previous current content owners cap in
    if is_clash target current content outcome.replaces
    then record outcome { key = free_key target.key 1 answers; expected = none; managed = true }
    else outcome

-- The planning of one destination, with the answer of `#inspect`.
unfoldable pub plan_outcome :
    Target
    → List Replica
    → Option Text
    → List Owner
    → Capabilities
    → List Bool
    → Tried Seen
    → Tried Replica
unfolding outcome_of is_edited previous_of
plan_outcome target base content owners cap answers (failed f) = failed f
plan_outcome target base content owners cap answers (did current) =
    let previous = previous_of target base in
    if is_edited previous current content
    then failed (failure (codes "TARGET_CHANGED"))
    else did (outcome_of target previous current content owners cap answers)
