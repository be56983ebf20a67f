-- ===== src/Tests/Keeping.antt =====
-- src/sync/Mirror.js: runs of the conflict jobs and of the worker.
use canvas_stored.Prelude.{◌≡◌, refl, true, false, none, some, [], codes, arith}
use canvas_stored.Jobs.Types.{Job}
use canvas_stored.Jobs.Methods.{append_fresh}
use canvas_stored.Mirror.Decide.{both_ways}
use canvas_stored.Mirror.Engine.{Engine}
use canvas_stored.Mirror.Answers.{reply}
use canvas_stored.Mirror.Conflicts.{Scene, run_conflict, run_revert}
use canvas_stored.Mirror.Keeps.{keeps_first, run_conflict-keeps, run_revert-keeps}
use canvas_stored.Mirror.Execute.{Started, drain_round}
use canvas_stored.Mirror.Exclusive.{Bounded, drain_round-Bounded}
use canvas_stored.Tests.Scenes.{
  went_well, options, whole_names, same_text, nothing_ignored, two_versions, idle,
}
use canvas_stored.Tests.Sample.{jobs_table, dedupe_table, rows_table, no_jobs, push_request}

abbrev scene : Scene
scene = record {
  device = codes "pc";
  inbox = false;
  time = record { year = 2024; month = 1; day = 2; hour = 3; minute = 4 };
  now = 9;
  kept = reply went_well;
  streamed = true;
  uploaded = reply went_well;
  polled = reply two_versions;
  brought = reply went_well;
}

run_conflict-keeps_example :
    keeps_first
      (reply went_well)
      (run_conflict jobs_table dedupe_table rows_table
        (options both_ways)
        same_text
        whole_names
        nothing_ignored
        idle
        (codes "a.txt")
        two_versions
        (reply (some (codes "cc")))
        scene).calls
    ≡ true
run_conflict-keeps_example =
    run_conflict-keeps jobs_table dedupe_table rows_table (options both_ways) same_text whole_names
      nothing_ignored idle (codes "a.txt") two_versions (reply (some (codes "cc"))) scene

run_revert-keeps_example :
    keeps_first
      (reply went_well)
      (run_revert jobs_table dedupe_table rows_table
        (options both_ways)
        same_text
        whole_names
        nothing_ignored
        idle
        (codes "a.txt")
        none
        two_versions
        scene).calls
    ≡ true
run_revert-keeps_example =
    run_revert-keeps jobs_table dedupe_table rows_table (options both_ways) same_text whole_names
      nothing_ignored idle (codes "a.txt") none two_versions scene

abbrev nothing_runs : Started jobs_table dedupe_table rows_table (options both_ways)
nothing_runs = record {
  queue = (append_fresh jobs_table dedupe_table no_jobs push_request 1).1;
  running = [];
}

drain_round-Bounded_example :
    Bounded jobs_table dedupe_table rows_table
      (options both_ways)
      4
      (drain_round jobs_table dedupe_table rows_table (options both_ways) 4 9 nothing_runs)
drain_round-Bounded_example =
    drain_round-Bounded jobs_table dedupe_table rows_table (options both_ways) 4 9 nothing_runs
      (refl, omega arith)

abbrev queued : Engine jobs_table dedupe_table rows_table
queued = record idle { queue = nothing_runs.queue }

abbrev job : Job
job = (append_fresh jobs_table dedupe_table no_jobs push_request 1).0
