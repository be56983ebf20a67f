-- ===== src/Tests/Scenes.antt =====
-- src/sync/Mirror.js: an engine at rest, and what it is given.
use canvas_stored.Prelude.{
  Bool, true, false, none, some, List, [], Text, codes, text_eq, any, arith,
}
use canvas_stored.Lmdb.{text_key, lookup}
use canvas_stored.Lmdb.Memory.{no_rows}
use canvas_stored.Ledger.Rows.{Row}
use canvas_stored.Mirror.Decide.{Direction}
use canvas_stored.Mirror.Engine.{Options, View, Engine}
use canvas_stored.Mirror.Queued.{IsFree}
use canvas_stored.Tests.Sample.{jobs_table, dedupe_table, rows_table, no_jobs, no_jobs-IsValid}
use canvas_stored.Ledger.Methods.{put_base}
use canvas_stored.Mirror.Answers.{Transfer}
use canvas_stored.Tests.Sample.{agreed_base}

abbrev pub options : Direction → Options
options direction = record {
  id = codes "m";
  prefixes = [];
  ignore = [];
  propagates = true;
  direction = direction;
}

-- A matcher that knows whole names only.
abbrev pub whole_names : List Text → Text → Bool
whole_names globs key = any (text_eq key) globs

abbrev pub same_text : Text → Text
same_text t = t

abbrev pub nothing_ignored : Text → Bool
nothing_ignored key = false

-- A file that is on both sides with different bytes and was never agreed on.
abbrev pub two_versions : View
two_versions = record {
  local_sha = some (codes "aa");
  remote_sha = some (codes "cc");
  local_known = true;
  remote_known = true;
  local_at = none;
  remote_at = none;
  local_size = none;
  remote_size = none;
  doc_id = none;
  version = none;
  head = 0;
}

abbrev pub idle : Engine jobs_table dedupe_table rows_table
idle = record {
  queue = no_jobs;
  rows = no_rows text_key Row;
  applied = [];
  dirty = [];
  stopping = false;
  conflicts = 0;
  reverted = 0;
  last_sync_at = none;
  last_error = none;
}

pub no_jobs-IsFree : (bad : Text → Bool) → IsFree jobs_table dedupe_table (codes "m") bad no_jobs
unfolding lookup
no_jobs-IsFree bad = record { valid = no_jobs-IsValid; free = λ s job e m. ground arith }

abbrev pub went_well : Transfer
went_well = record {
  ok = true;
  reason = [];
  code = none;
  error = none;
  current = none;
  seq = some 5;
  mtime = none;
  doc_id = some 7;
  version = some 1;
}

-- A file that was made here, and one that was made on the hub.
abbrev pub only_here : View
only_here = record two_versions { remote_sha = none; remote_known = false }

abbrev pub only_there : View
only_there = record two_versions { local_sha = none; local_known = false }

-- The engine after `a.txt` was agreed on with the digest "ab12".
abbrev pub agreed : Engine jobs_table dedupe_table rows_table
agreed = record idle {
  rows = put_base rows_table idle.rows (codes "m") (codes "a.txt") agreed_base;
}

abbrev pub gone_here : View
gone_here = record two_versions {
  local_sha = none;
  local_known = false;
  remote_sha = some (codes "ab12");
}

abbrev pub gone_there : View
gone_there = record two_versions {
  local_sha = some (codes "ab12");
  remote_sha = none;
  remote_known = false;
}
