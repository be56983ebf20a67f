-- ===== src/Replicas/Validate.antt =====
-- src/sync/ReplicaService.js: `safeKey` and `validate`.
use canvas_stored.Prelude.{
  ℕ, Bool, true, false, not, ◌&&◌, ◌||◌, Option, none, some, List, [], ◌∷◌, Text, codes, text_eq,
  same, any, all, length, leb, ◌==◌, truthy, or_else, starts_with, drop_chars, utf16, if◌then◌else◌,
}
use canvas_stored.Keys.Segments.{split}
use canvas_stored.Keys.Validate.{is_letter}
use canvas_stored.Replicas.Types.{
  Endpoint, Target, Plan, Failure, Tried, did, failed, failure, passing, same_place, Backend,
  Capabilities, capabilities,
}

-- `/^[A-Za-z]:/`
unfoldable pub names_drive : Text → Bool
unfolding is_letter
names_drive (a ∷ (b ∷ rest)) = is_letter a && b == b':'
names_drive _ = false

-- `part && part !== '.' && part !== '..'`
unfoldable pub is_name : Text → Bool
is_name part =
    not (text_eq part []) && (not (text_eq part (codes ".")) && not (text_eq part (codes "..")))

unfoldable pub safe_key : Text → Bool
unfolding names_drive is_name
safe_key key =
    not (text_eq key [])
    && (not (any (λ c. c == 0) key)
        && (not (any (λ c. c == 92) key)
            && (not (starts_with (codes "/") key)
                && (not (names_drive key) && all is_name (split b'/' key)))))

-- `[a-f0-9]`
unfoldable pub is_low_hex : ℕ → Bool
is_low_hex c = leb b'a' c && leb c b'f' || leb b'0' c && leb c b'9'

-- `/^sha256:[a-f0-9]{64}$/`
unfoldable pub is_content_id : Text → Bool
unfolding is_low_hex
is_content_id id =
    starts_with (codes "sha256:") id && (length id == 71 && all is_low_hex (drop_chars 7 id))

-- `prior` of a target: the entry of the map `replicas` at its address.
unfoldable pub prior_of : Target → List Target → Option Target
unfolding same_place
prior_of r [] = none
prior_of r (p ∷ ps) =
    let rest = prior_of r ps in if same_place p.backend p.key r.backend r.key then some p else rest

-- `replicas.set(address(r), r)`: an address that is there keeps its place.
unfoldable pub set_target : Target → List Target → List Target
unfolding same_place
set_target r [] = r ∷ []
set_target r (p ∷ ps) =
    let rest = set_target r ps in
    if same_place p.backend p.key r.backend r.key then r ∷ ps else p ∷ rest

-- `a === b` on Booleans.
abbrev pub agree : Bool → Bool → Bool
agree true b = b
agree false b = not b

-- A check that throws, before what follows it.
abbrev pub unless : {A : Type 0} → Option Failure → Tried A → Tried A
unless none rest = rest
unless (some f) rest = failed f

unfoldable pub is_compatible : Target → Option Target → Bool
is_compatible r none = true
is_compatible r (some p) =
    agree p.is_directory r.is_directory
    && (same p.on_conflict r.on_conflict && agree p.is_mirror r.is_mirror)

abbrev conflict_modes : List Text
conflict_modes = codes "error" ∷ (codes "rename" ∷ (codes "overwrite" ∷ []))

-- `r.onConflict && !['error', 'rename', 'overwrite'].includes(r.onConflict)`
abbrev pub has_bad_mode : Target → Bool
has_bad_mode r = truthy r.on_conflict && not (any (λ m. same r.on_conflict (some m)) conflict_modes)

-- The checks of one destination, in their order; `none` when it passes.
unfoldable pub check_target : Capabilities → Target → Option Target → Option Failure
unfolding safe_key is_compatible
check_target cap r prior =
    if text_eq r.backend [] || not (safe_key r.key)
    then some (failure (codes "INVALID_KEY"))
    else if not cap.available
    then some (passing (codes "BACKEND_UNAVAILABLE"))
    else if (if r.is_directory then not cap.directories else not cap.create)
    then some (failure (codes "UNSUPPORTED_BACKEND"))
    else if same r.on_conflict (some (codes "overwrite")) && not cap.overwrite
    then some (failure (codes "UNSUPPORTED_OVERWRITE"))
    else if r.is_mirror && (not r.is_directory && not cap.retire)
    then some (failure (codes "UNSUPPORTED_RETIRE"))
    else if has_bad_mode r
    then some (failure (codes "INVALID_PLAN"))
    else if not (is_compatible r prior)
    then some (failure (codes "CONFLICTING_TARGETS"))
    else none

-- The loop over the destinations; `held` is the map so far.
unfoldable pub check_targets :
    Bool → (Text → Option Backend) → List Target → List Target → Tried (List Target)
unfolding check_target set_target prior_of capabilities
check_targets keeps backends [] held = did held
check_targets keeps backends (r ∷ rs) held =
    let rest = check_targets keeps backends rs (set_target r held) in
    unless (check_target (capabilities keeps (backends r.backend)) r (prior_of r held)) rest

abbrev pub is_safe_place : Endpoint → Bool
is_safe_place e = not (text_eq e.backend []) && safe_key e.key

abbrev pub has_bad_source : Option Endpoint → Bool
has_bad_source none = false
has_bad_source (some e) = not (is_safe_place e)

abbrev driver_of : Option Backend → Text
driver_of none = []
driver_of (some b) = b.driver

-- The check of an entry of `release`: only managed blob staging.
abbrev pub is_releasable : (Text → Option Backend) → Endpoint → Bool
is_releasable backends e =
    is_safe_place e && text_eq (driver_of (backends e.backend)) (codes "cacache")

abbrev pub has_bad_content : Option Text → Bool
has_bad_content id = truthy id && not (is_content_id (or_else id []))

-- The loop over `release`.
unfoldable pub check_release : (Text → Option Backend) → List Endpoint → Option Failure
check_release backends [] = none
check_release backends (e ∷ es) =
    let rest = check_release backends es in
    if not (is_releasable backends e) || has_bad_content e.content_id
    then some (failure (codes "INVALID_PLAN"))
    else rest

-- The checks that follow the loop over the destinations.
unfoldable pub check_rest : (Text → Option Backend) → Plan → Option Failure
unfolding check_release safe_key is_content_id
check_rest backends plan =
    if any (λ e. not (is_safe_place e)) plan.preserve
    then some (failure (codes "INVALID_KEY"))
    else if has_bad_source plan.source
    then some (failure (codes "INVALID_KEY"))
    else if any (λ r. not r.is_directory) plan.replicas
        && not (is_content_id (or_else plan.content_id []))
    then some (failure (codes "INVALID_PLAN"))
    else check_release backends plan.release

-- `id` and `owner`: a string of 1 to 512 UTF-16 units.
abbrev pub is_label : Text → Bool
is_label t = not (text_eq t []) && leb (length (utf16 t)) 512

unfoldable pub checked_rest : (Text → Option Backend) → Plan → Tried (List Target) → Tried Plan
unfolding check_rest
checked_rest backends plan (failed f) = failed f
checked_rest backends plan (did targets) =
    let checked : Plan = record plan { replicas = targets } in
    unless (check_rest backends checked) (did checked)

unfoldable pub validate : Bool → (Text → Option Backend) → Plan → Tried Plan
unfolding checked_rest check_targets
validate keeps backends plan =
    if not (is_label plan.id) || not (is_label plan.owner)
    then failed (failure (codes "INVALID_PLAN"))
    else checked_rest backends plan (check_targets keeps backends plan.replicas [])
