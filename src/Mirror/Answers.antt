-- ===== src/Mirror/Answers.antt =====
-- src/sync/Mirror.js: what the other components answer to a job's calls, and what a job leaves.
-- Stored's transfers, the hub's driver and its poll are behind these answers.
use canvas_stored.Prelude.{
  ◌++◌, ℕ, Bool, false, not, ◌&&◌, ◌||◌, Option, none, some, List, [], ◌∷◌, Text, codes, text_eq,
  truthy, same, any, if◌then◌else◌,
}
use canvas_stored.Jobs.Types.{text_or}
use canvas_stored.Mirror.Engine.{View}

-- An error: its `code` and `reason`, and whether it is marked `permanent` or `offline`.
pub record Failure : Type 0 where
  pub message : Text
  pub code : Option Text
  pub reason : Option Text
  pub hub_code : Option Text
  pub permanent : Bool
  pub offline : Bool

pub data Reply {ℓ} (A : Type ℓ) : Type ℓ where
  reply : A → Reply A
  throws : Failure → Reply A

-- What `copy`, `move`, `removeObject` and `renameObject` return: `res.reason`, `res.code` and
-- `res.current` where they failed, `res.remote` (or `res` itself) where they went through.
pub record Transfer : Type 0 where
  pub ok : Bool
  pub reason : Text
  pub code : Option Text
  pub error : Option Text
  pub current : Option Text
  pub seq : Option ℕ
  pub mtime : Option ℕ
  pub doc_id : Option ℕ
  pub version : Option ℕ

-- The calls of the jobs that write a side, the trash or the conflicts backend.
pub data Call : Type 0 where
  copy_to_hub : Option Text → Call
  copy_to_local : Call
  remove_on_hub : Option Text → Call
  rename_on_hub : Text → Call
  move_to_trash : Call
  rename_here : Call
  keep_copy : Text → Call
  upload_conflict : Text → Call

-- What a job leaves: the engine's state, the calls it made in order, and the error it threw.
pub record Ran (S : Type 0) : Type 0 where
  pub state : S
  pub calls : List Call
  pub failed : Option Failure

abbrev pub plain_failure : Text → Failure
plain_failure message = record {
  message = message;
  code = none;
  reason = none;
  hub_code = none;
  permanent = false;
  offline = false;
}

abbrev is_one_of : Text → List Text → Bool
is_one_of t = any (text_eq t)

-- `['target-offline', 'source-offline']`
abbrev offline_reasons : List Text
offline_reasons = codes "target-offline" ∷ codes "source-offline" ∷ []

abbrev in_brackets : Text → Text
in_brackets [] = []
in_brackets (c ∷ cs) = codes " (" ++ ((c ∷ cs) ++ codes ")")

-- `#failure`
unfoldable pub failure : Transfer → Text → Failure
failure res key = record (plain_failure (text_or res.error (res.reason ++ in_brackets key))) {
  code =
      if truthy res.code
      then res.code
      else if is_one_of res.reason offline_reasons
      then some (codes "OFFLINE")
      else none;
  reason = some res.reason;
}

-- `#isOffline`
unfoldable pub is_offline : Failure → Bool
is_offline f =
    same f.code (some (codes "OFFLINE"))
    || (any (λ r. same f.reason (some r)) offline_reasons || f.offline)

-- `!!err?.permanent || ['REFUSED', 'UNAUTHORIZED'].includes(err?.code)`
unfoldable pub is_permanent : Failure → Bool
is_permanent f =
    f.permanent
    || (same f.code (some (codes "REFUSED")) || same f.code (some (codes "UNAUTHORIZED")))

abbrev pub fails : {S : Type 0} → S → List Call → Failure → Ran S
fails e calls f = record { state = e; calls = calls; failed = some f }

abbrev pub done : {S : Type 0} → S → List Call → Ran S
done e calls = record { state = e; calls = calls; failed = none }

-- A last step that may throw.
abbrev pub finish : {S : Type 0} → S → List Call → Option S → Ran S
finish e calls none = fails e calls (plain_failure [])
finish e calls (some e') = done e' calls

-- `#freshRemote`: whether the view that the engine has will do, or the poll's is needed.
unfoldable pub fresh_remote : Option Text → View → Reply View → Reply View
fresh_remote wanted view polled =
    if view.remote_known && (not (truthy wanted) || same view.remote_sha wanted)
    then reply view
    else polled
