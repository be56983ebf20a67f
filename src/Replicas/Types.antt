-- ===== src/Replicas/Types.antt =====
-- src/sync/ReplicaService.js: plans, operations, owners and errors.
use canvas_stored.Prelude.{
  ℕ, Bool, true, false, ◌&&◌, ◌||◌, Option, none, some, List, [], ◌∷◌, Text, codes, text_eq, any,
}
use canvas_stored.Lmdb.{Table, text_key}

-- A place that a plan names; `release` entries may name the content they expect.
pub record Endpoint : Type 0 where
  pub backend : Text
  pub key : Text
  pub content_id : Option Text

-- A destination of a plan; `is_mirror` is `mirror !== false`, `adopts` is `adopt === true`.
pub record Target : Type 0 where
  pub backend : Text
  pub key : Text
  pub is_directory : Bool
  pub on_conflict : Option Text
  pub is_mirror : Bool
  pub adopts : Bool

pub record Plan : Type 0 where
  pub id : Text
  pub owner : Text
  pub content_id : Option Text
  pub replicas : List Target
  pub preserve : List Endpoint
  pub source : Option Endpoint
  pub release : List Endpoint
  pub source_cache_key : Option Text
  pub ingress_seq : Option ℕ
  pub ingress_source : Option Endpoint

-- An outcome of an operation, and an entry of an owner's record. `is_verified` is the state
-- `verified`, against `pending`.
pub record Replica : Type 0 where
  pub backend : Text
  pub key : Text
  pub is_directory : Bool
  pub on_conflict : Option Text
  pub is_mirror : Bool
  pub adopts : Bool
  pub requested_key : Option Text
  pub content_id : Option Text
  pub is_verified : Bool
  pub managed : Bool
  pub expected : Option Text
  pub replaces : Option Text

pub record Owner : Type 0 where
  pub owner : Text
  pub operation_id : Option Text
  pub content_id : Option Text
  pub replicas : List Replica
  pub updated_at : ℕ

pub data OpState : Type 0 where
  pending running blocked complete cancelled : OpState

pub data Phase : Type 0 where
  prepare place retire finished : Phase

-- An error's code, and whether it is one that a retry may heal.
pub record Failure : Type 0 where
  pub code : Text
  pub retryable : Bool

pub record Op : Type 0 where
  pub id : Text
  pub owner : Text
  pub seq : ℕ
  pub request_hash : Text
  pub plan : Plan
  pub state : OpState
  pub phase : Phase
  pub attempts : ℕ
  pub next_at : ℕ
  pub created_at : ℕ
  pub updated_at : ℕ
  pub outcomes : List Replica
  pub error : Option Failure
  pub base : Option Owner
  pub stage_key : Option Text
  pub superseded_by : Option Text
  pub cleaned : Bool

-- A step that may throw.
pub data Tried (A : Type 0) : Type 0 where
  did : A → Tried A
  failed : Failure → Tried A

abbrev pub failure : Text → Failure
failure code = record { code = code; retryable = false }

abbrev pub passing : Text → Failure
passing code = record { code = code; retryable = true }

-- The codes that `transient` lists; the HTTP states are given as codes.
abbrev pub transient_codes : List Text
transient_codes =
    codes "ECONNRESET"
    ∷ codes "ECONNREFUSED"
    ∷ codes "ETIMEDOUT"
    ∷ codes "ENETUNREACH"
    ∷ codes "EAI_AGAIN"
    ∷ codes "target-offline"
    ∷ codes "429"
    ∷ codes "502"
    ∷ codes "503"
    ∷ codes "504"
    ∷ []

unfoldable pub is_transient : Failure → Bool
is_transient f = f.retryable || any (text_eq f.code) transient_codes

unfoldable pub is_terminal : OpState → Bool
is_terminal complete = true
is_terminal cancelled = true
is_terminal _ = false

abbrev pub is_complete : OpState → Bool
is_complete complete = true
is_complete _ = false

abbrev pub is_cancelled : OpState → Bool
is_cancelled cancelled = true
is_cancelled _ = false

abbrev pub is_blocked : OpState → Bool
is_blocked blocked = true
is_blocked _ = false

abbrev pub is_running : OpState → Bool
is_running running = true
is_running _ = false

-- `address(a) === address(b)`: the JSON of a pair of strings tells the pair.
unfoldable pub same_place : Text → Text → Text → Text → Bool
same_place backend key other name = text_eq backend other && text_eq key name

-- What the service reads of a backend; `creates` is whether it has `createFrom`.
pub record Backend : Type 0 where
  pub driver : Text
  pub can_write : Bool
  pub can_delete : Bool
  pub creates : Bool

pub record Capabilities : Type 0 where
  pub available : Bool
  pub create : Bool
  pub retire : Bool
  pub directories : Bool
  pub overwrite : Bool

abbrev pub is_file_driver : Backend → Bool
is_file_driver b = text_eq b.driver (codes "file")

-- `capabilities`; `keeps` is whether Stored retains what is displaced.
unfoldable pub capabilities : Bool → Option Backend → Capabilities
capabilities keeps none = record {
  available = false;
  create = false;
  retire = false;
  directories = false;
  overwrite = false;
}
capabilities keeps (some b) = record {
  available = true;
  create = b.can_write && (text_eq b.driver (codes "cacache") || b.creates);
  retire = is_file_driver b && (b.can_delete && keeps);
  directories = is_file_driver b && b.can_write;
  overwrite = is_file_driver b && (b.can_write && keeps);
}

pub data IngressState : Type 0 where
  preparing committed : IngressState

-- A pinned source of an edit.
pub record Ingress : Type 0 where
  pub cache_key : Text
  pub owner : Option Text
  pub content_id : Text
  pub backend : Text
  pub key : Text
  pub seq : ℕ
  pub state : IngressState
  pub created_at : ℕ

-- The four sub-databases; of the last, the two counters.
pub record Service (ot : Table text_key Op) (wt : Table text_key Owner)
    (it : Table text_key Ingress) (mt : Table text_key ℕ) : Type 0 where
  pub ops : ot.Db
  pub owners : wt.Db
  pub ingress : it.Db
  pub meta : mt.Db
  pub stopped : Bool
