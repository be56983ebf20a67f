-- ===== src/Tests/Sample.antt =====
-- src/sync/JobQueue.js and src/sync/Ledger.js: tables held in memory and rows to run them on.
use canvas_stored.Prelude.{ℕ, none, some, arith, codes}
use canvas_stored.Lmdb.{Table, nat_key, text_key, lookup}
use canvas_stored.Lmdb.Memory.{in_memory, no_rows}
use canvas_stored.Jobs.Types.{Job, no_payload, Request, Queue}
use canvas_stored.Jobs.Invariant.{IsValid}
use canvas_stored.Ledger.Rows.{Base, BaseInput, Row}

abbrev pub jobs_table : Table nat_key Job
jobs_table = in_memory nat_key Job

abbrev pub dedupe_table : Table text_key ℕ
dedupe_table = in_memory text_key ℕ

abbrev pub rows_table : Table text_key Row
rows_table = in_memory text_key Row

abbrev pub no_jobs : Queue jobs_table dedupe_table
no_jobs = record { jobs = no_rows nat_key Job; dedupe = no_rows text_key ℕ; seq = 0 }

pub no_jobs-IsValid : IsValid jobs_table dedupe_table no_jobs
unfolding lookup
no_jobs-IsValid = record {
  stored = λ s j e. ground arith;
  numbered = λ s j e. ground arith;
  named = λ k s h e. ground arith;
  counted = ground arith;
}

abbrev pub push_request : Request
push_request = record {
  kind = codes "push";
  mirror = some (codes "m");
  key = some (codes "a.txt");
  payload = no_payload;
  dedupe = none;
  not_before = 0;
}

abbrev pub pull_request : Request
pull_request = record push_request { kind = codes "pull"; not_before = 5 }

abbrev pub agreed_input : BaseInput
agreed_input = record {
  sha256 = some (codes "AB12");
  size = some 3;
  mtime = none;
  remote_seq = 4;
  doc_id = some 7;
  version = some 0;
}

abbrev pub agreed_base : Base
agreed_base = record {
  sha256 = codes "ab12";
  size = some 3;
  mtime = none;
  remote_seq = 4;
  doc_id = some 7;
  version = none;
  time = 1;
}
