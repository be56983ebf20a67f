-- ===== src/Stored/Transfers.antt =====
-- src/index.js: `#planTransfer`, which decides what a copy or a move does before a byte is read. What
-- backends and the index answer while it runs is a `View`.
use canvas_stored.Prelude.{
  ℕ, suc, ◌-◌, ◌++◌, Bool, true, false, not, ◌&&◌, Option, none, some, List, [], ◌∷◌, any, keep,
  Text, codes, text_eq, truthy, same, or_else, ltb, leb, take_chars, drop_chars, if◌then◌else◌,
  zero,
}
use canvas_stored.Keys.Conflict.{decimal}
use canvas_stored.Replicas.Outcomes.{last_index}
use canvas_stored.Stored.Urls.{Address, parse_stored_url}
use canvas_stored.Stored.Names.{normalize_key}

-- The fields of an entry and of its locations that a transfer reads.
pub record Copy : Type 0 where
  pub backend : Text
  pub key : Text
  pub synced : Bool

pub record Holding : Type 0 where
  pub id : Text
  pub locations : List Copy

-- A backend, with the answers of `verifyRoot` and, for each key, of `stat`.
pub record Drive : Type 0 where
  pub can_read : Bool
  pub can_write : Bool
  pub is_protocol : Bool
  pub is_remote : Bool
  pub is_live : Bool
  pub has : Text → Bool

-- `this.#backends.get(name)` and `this.#index.get(`${name}:${key}`)?.id`
pub record View : Type 0 where
  pub drive : Text → Option Drive
  pub id_at : Text → Text → Option Text

pub data Policy : Type 0 where
  on_error on_overwrite on_rename : Policy

unfoldable pub policy_of : Option Text → Policy
policy_of none = on_error
policy_of (some v) =
    if text_eq v (codes "overwrite")
    then on_overwrite
    else if text_eq v (codes "rename")
    then on_rename
    else on_error

pub record Request : Type 0 where
  pub to : List Text
  pub from : Option Text
  pub key : Option Text
  pub conflict_key : Option Text
  pub on_conflict : Option Text

pub record Target : Type 0 where
  pub name : Text
  pub key : Text
  pub overwrite : Bool

-- What it answers: a refusal with its reason, the backend and the key it names, an exception, or the
-- location to read, where to write, and the key asked for.
pub data Answer : Type 0 where
  refused : Text → Option Text → Option Text → Answer
  threw : Answer
  planned : Copy → List Target → Text → Answer

-- `cost`
unfoldable pub cost_of : Drive → ℕ
cost_of d = if d.is_protocol then 2 else if d.is_remote then 1 else 0

abbrev pub cost_in : Option Drive → ℕ
unfolding cost_of
cost_in none = 0
cost_in (some d) = cost_of d

abbrev pub reads : Option Drive → Bool
reads none = false
reads (some d) = d.can_read

unfoldable pub is_readable : View → Copy → Bool
is_readable view c = c.synced && reads (view.drive c.backend)

-- `sort` is stable: an equal cost keeps the order.
unfoldable pub insert : View → Copy → List Copy → List Copy
unfolding cost_of
insert view c [] = c ∷ []
insert view c (d ∷ ds) =
    let rest = insert view c ds in
    if leb (cost_in (view.drive c.backend)) (cost_in (view.drive d.backend))
    then c ∷ (d ∷ ds)
    else d ∷ rest

unfoldable pub sort : View → List Copy → List Copy
unfolding insert
sort view [] = []
sort view (c ∷ cs) = insert view c (sort view cs)

unfoldable pub readable_locations : View → List Copy → List Copy
unfolding is_readable sort
readable_locations view cs = sort view (keep (is_readable view) cs)

abbrev pub first : List Copy → Option Copy
first [] = none
first (c ∷ cs) = some c

-- `find`, by backend and key or by backend alone.
abbrev pub is_at : Text → Text → Copy → Bool
is_at name key c = text_eq c.backend name && text_eq c.key key

unfoldable pub find_source : Option Address → Text → List Copy → Option Copy
find_source (some a) from cs = first (keep (is_at a.backend a.key) cs)
find_source none from cs = first (keep (λ c. text_eq c.backend from) cs)

abbrev pub if_readable : View → Option Copy → Option Copy
unfolding is_readable
if_readable view none = none
if_readable view (some c) = if is_readable view c then some c else none

unfoldable pub resolve_source_location : View → List Copy → Option Text → Option Copy
unfolding readable_locations find_source parse_stored_url
resolve_source_location view cs from =
    if truthy from
    then if_readable view (find_source (parse_stored_url (or_else from [])) (or_else from []) cs)
    else first (readable_locations view cs)

-- The name and the extension of a key; a dot that begins the name begins no extension.
unfoldable pub stem_length : Text → Option ℕ
unfolding last_index
stem_length key =
    let dot = last_index b'.' 0 key 0 in
    if ltb (suc (last_index b'/' 0 key 0)) dot then some (dot - 1) else none

abbrev stem_in : Option ℕ → Text → Text
stem_in none key = key
stem_in (some n) key = take_chars n key

abbrev ext_in : Option ℕ → Text → Text
ext_in none key = []
ext_in (some n) key = drop_chars n key

-- The loop of `#freeKey`, of so many tries from the number `n` on.
unfoldable pub try_names : (Text → Bool) → Text → Text → ℕ → ℕ → Option Text
try_names has stem ext zero n = none
try_names has stem ext (suc tries) n =
    let rest = try_names has stem ext tries (suc n) in
    let candidate = stem ++ (codes "-" ++ (decimal n ++ ext)) in
    if has candidate then rest else some candidate

-- It throws, which `none` is here, when all the names are taken.
unfoldable pub free_key : (Text → Bool) → Text → Option Text
unfolding try_names stem_length
free_key has key =
    try_names has (stem_in (stem_length key) key) (ext_in (stem_length key) key) 1000 1

-- The name that the caller wants on a conflict, if it is another and free.
unfoldable pub is_wanted : (Text → Bool) → Text → Option Text → Bool
is_wanted has dest conflict =
    let key = or_else conflict [] in truthy conflict && (not (text_eq key dest) && not (has key))

unfoldable pub renamed_key : (Text → Bool) → Text → Option Text → Option Text
unfolding is_wanted free_key
renamed_key has dest conflict = if is_wanted has dest conflict then conflict else free_key has dest

-- One target of the loop: it is left out, ends the planning, or is kept.
pub data Step : Type 0 where
  skipped : Step
  ended : Answer → Step
  kept : Target → Step

abbrev pub kept_at : Text → Option Text → Step
kept_at name none = ended threw
kept_at name (some key) = kept (record { name = name; key = key; overwrite = false })

-- Other bytes are on the key.
unfoldable pub settle_conflict : (Text → Bool) → Policy → Option Text → Text → Text → Step
unfolding renamed_key
settle_conflict has on_error conflict name dest =
    ended (refused (codes "target-exists") (some name) (some dest))
settle_conflict has on_rename conflict name dest = kept_at name (renamed_key has dest conflict)
settle_conflict has on_overwrite conflict name dest =
    kept (record { name = name; key = dest; overwrite = true })

unfoldable pub is_same_content : View → Text → Text → Text → Bool
is_same_content view name key id = same (view.id_at name key) (some id)

-- A backend that can be written, and is not the source's own place.
unfoldable pub plan_at : View → Policy → Option Text → Holding → Text → Text → Drive → Step
unfolding settle_conflict is_same_content
plan_at view policy conflict holding dest name d =
    let ours = any (is_at name dest) holding.locations in
    let present = d.has dest in
    if ours && present
    then skipped
    else if not d.is_live
    then ended (refused (codes "target-offline") (some name) none)
    else if present && (not ours && not (is_same_content view name dest holding.id))
    then settle_conflict d.has policy conflict name dest
    else kept (record { name = name; key = dest; overwrite = false })

unfoldable pub plan_target :
    View → Policy → Option Text → Holding → Copy → Text → Text → Option Drive → Step
unfolding plan_at
plan_target view policy conflict holding source dest name none =
    ended (refused (codes "unknown-backend") (some name) none)
plan_target view policy conflict holding source dest name (some d) =
    if not d.can_write
    then ended (refused (codes "read-only-target") (some name) none)
    else if text_eq name source.backend && text_eq dest source.key
    then skipped
    else plan_at view policy conflict holding dest name d

abbrev pub add_target : Target → Answer → Answer
add_target t (planned source targets dest) = planned source (t ∷ targets) dest
add_target t answer = answer

abbrev pub next : Step → Answer → Answer
next skipped rest = rest
next (ended answer) rest = answer
next (kept t) rest = add_target t rest

unfoldable pub plan_targets :
    View → Policy → Option Text → Holding → Copy → Text → List Text → Answer
unfolding plan_target
plan_targets view policy conflict holding source dest [] = planned source [] dest
plan_targets view policy conflict holding source dest (name ∷ names) =
    next (plan_target view policy conflict holding source dest name (view.drive name))
      (plan_targets view policy conflict holding source dest names)

abbrev pub lives : Option Drive → Bool
lives none = false
lives (some d) = d.is_live

unfoldable pub plain : Text → Text
unfolding normalize_key
plain key = normalize_key (λ t. t) false key

abbrev pub plain_key : Option Text → Option Text
unfolding plain
plain_key none = none
plain_key (some key) = if text_eq key [] then none else some (plain key)

unfoldable pub plan_from : View → Request → Holding → List Text → Option Copy → Answer
unfolding plan_targets policy_of plain
plan_from view request holding names none = refused (codes "no-source") none none
plan_from view request holding names (some source) =
    let dest = plain (if truthy request.key then or_else request.key [] else source.key) in
    if not (lives (view.drive source.backend))
    then refused (codes "source-offline") (some source.backend) none
    else if text_eq dest []
    then refused (codes "invalid-key") none none
    else plan_targets view (policy_of request.on_conflict) (plain_key request.conflict_key) holding
        source dest names

unfoldable pub plan_transfer : View → Option Holding → Request → Answer
unfolding plan_from resolve_source_location
plan_transfer view none request = refused (codes "not-found") none none
plan_transfer view (some holding) request =
    let names = keep (λ name. not (text_eq name [])) request.to in
    if any (λ name. true) names
    then plan_from view request holding names
        (resolve_source_location view holding.locations request.from)
    else refused (codes "no-targets") none none
