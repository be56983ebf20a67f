-- ===== src/Tests/Queues.antt =====
-- src/sync/JobQueue.js: runs of the queue.
use canvas_stored.Prelude.{◌+◌, ◌*◌, min, ◌≤◌, List, Option, ◌≡◌, refl, some, [], ◌∷◌, Returns}
use canvas_stored.Jobs.Rows.{backoff_ms}
use canvas_stored.Jobs.Types.{Job, Queue}
use canvas_stored.Jobs.Methods.{append, append_over, append_fresh, take}
use canvas_stored.Jobs.Invariant.{IsValid}
use canvas_stored.Jobs.Calls.{
  Call, append_call, take_call, reopen_call, perform_all, perform_all-IsValid,
}
use canvas_stored.Jobs.Append.{Appended, append-Appended}
use canvas_stored.Jobs.Backoff.{backoff_ms_lem}
use canvas_stored.Tests.Sample.{
  jobs_table, dedupe_table, no_jobs, no_jobs-IsValid, push_request, pull_request,
}

abbrev calls : List (Call jobs_table dedupe_table)
calls = append_call push_request 1 ∷ append_call pull_request 2 ∷ take_call 1 3 ∷ reopen_call 4 ∷ []

perform_all-IsValid_example :
    IsValid jobs_table dedupe_table (perform_all jobs_table dedupe_table no_jobs calls)
perform_all-IsValid_example =
    perform_all-IsValid jobs_table dedupe_table no_jobs calls no_jobs-IsValid

abbrev two_jobs : Queue jobs_table dedupe_table
two_jobs = perform_all jobs_table dedupe_table no_jobs calls

append-Appended_example :
    Returns
      (λ out. Appended jobs_table dedupe_table no_jobs push_request out.0 out.1)
      (append jobs_table dedupe_table no_jobs push_request 1)
append-Appended_example =
    append-Appended jobs_table dedupe_table no_jobs push_request 1 no_jobs-IsValid refl

-- The push that is queued first, the same push again, and the push queued behind the running one.
abbrev first : Job × Queue jobs_table dedupe_table
first = append_fresh jobs_table dedupe_table no_jobs push_request 1

abbrev again : Job × Queue jobs_table dedupe_table
again = append_over jobs_table dedupe_table first.1 push_request 2 (some first.0)

abbrev claimed : Option Job × Queue jobs_table dedupe_table
claimed = take jobs_table dedupe_table first.1 1 3

abbrev behind : Job × Queue jobs_table dedupe_table
behind = append_fresh jobs_table dedupe_table claimed.1 push_request 4

backoff_ms_lem_example :
    (backoff_ms 0 ≡ 60000)
    × (backoff_ms 1 ≡ 60000)
    × (backoff_ms (3 + 2) ≡ min (2 * backoff_ms (3 + 1)) 3600000)
    × (60000 ≤ backoff_ms 3)
    × (backoff_ms 3 ≤ 3600000)
    × (backoff_ms (3 + 7) ≡ 3600000)
backoff_ms_lem_example = backoff_ms_lem 3
