-- ===== src/Jobs/Types.antt =====
-- src/sync/JobQueue.js: the rows of the two sub-databases, and the queue over them.
use canvas_stored.Prelude.{
  ℕ, ◌++◌, Bool, true, false, Option, none, some, [], ◌∷◌, Text, codes, or_else,
}
use canvas_stored.Lmdb.{Table, nat_key, text_key}

pub data JobState : Type 0 where
  pending running failed : JobState

abbrev pub is_pending : JobState → Bool
is_pending pending = true
is_pending _ = false

abbrev pub is_running : JobState → Bool
is_running running = true
is_running _ = false

abbrev pub is_failed : JobState → Bool
is_failed failed = true
is_failed _ = false

-- `lastError`
pub record JobError : Type 0 where
  pub message : Text
  pub code : Option Text
  pub time : ℕ

-- The payloads that the mirror queues: the fields of all of them, absent ones `none`.
pub record Payload : Type 0 where
  pub from : Option Text
  pub to : Option Text
  pub sha256 : Option Text
  pub if_match : Option Text
  pub local : Option Text
  pub base : Option Text
  pub remote : Option Text
  pub mtime : Option ℕ
  pub size : Option ℕ

-- `payload = {}`
abbrev pub no_payload : Payload
no_payload = record {
  from = none;
  to = none;
  sha256 = none;
  if_match = none;
  local = none;
  base = none;
  remote = none;
  mtime = none;
  size = none;
}

pub record Job : Type 0 where
  pub seq : ℕ
  pub kind : Text
  pub mirror : Option Text
  pub key : Option Text
  pub payload : Payload
  pub dedupe : Text
  pub state : JobState
  pub attempts : ℕ
  pub next_at : ℕ
  pub created_at : ℕ
  pub updated_at : ℕ
  pub started_at : Option ℕ
  pub last_error : Option JobError

-- The argument of `append`.
pub record Request : Type 0 where
  pub kind : Text
  pub mirror : Option Text
  pub key : Option Text
  pub payload : Payload
  pub dedupe : Option Text
  pub not_before : ℕ

-- What `fail` is given: an `Error` with its `message` and `code`, and `String(error ?? 'failed')`.
pub record Thrown : Type 0 where
  pub message : Option Text
  pub code : Option Text
  pub printed : Text

-- `s || d` for a string that may be null
abbrev pub text_or : Option Text → Text → Text
text_or (some (c ∷ cs)) d = c ∷ cs
text_or _ d = d

-- `s || null`
abbrev pub text_or_null : Option Text → Option Text
text_or_null (some (c ∷ cs)) = some (c ∷ cs)
text_or_null _ = none

abbrev pub seq_key : Text
seq_key = codes " seq"

-- `#dedupeKey(mirror, dedupe)`
unfoldable pub dedupe_key : Option Text → Text → Text
dedupe_key mirror dedupe = or_else mirror [] ++ (codes "|" ++ dedupe)

-- `dedupe || `${kind}|${key ?? ''}``
unfoldable pub intent : Request → Text
intent r = text_or r.dedupe (r.kind ++ (codes "|" ++ or_else r.key []))

-- The fields `#jobs`, `#dedupe` and `#seq`.
pub record Queue (jobs_table : Table nat_key Job) (dedupe_table : Table text_key ℕ) : Type 0 where
  pub jobs : jobs_table.Db
  pub dedupe : dedupe_table.Db
  pub seq : ℕ
