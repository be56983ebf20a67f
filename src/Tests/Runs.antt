-- ===== src/Tests/Runs.antt =====
-- src/sync/Mirror.js: runs of the jobs that transfer.
use canvas_stored.Prelude.{◌≡◌, refl, true, none, codes, all}
use canvas_stored.Lmdb.{lookup}
use canvas_stored.Ledger.Rows.{lower_case, lower_char}
use canvas_stored.Ledger.Methods.{get_base}
use canvas_stored.Mirror.Decide.{both_ways, push, pull}
use canvas_stored.Mirror.Settle.{settle}
use canvas_stored.Mirror.Engine.{sides}
use canvas_stored.Mirror.Answers.{reply, fresh_remote}
use canvas_stored.Mirror.Transfers.{run_push, run_pull, run_delete_remote, run_trash_local}
use canvas_stored.Mirror.Permits.{
  permits, Seen, run_push-permits, run_pull-permits, run_delete_remote-permits,
  run_trash_local-permits,
}
use canvas_stored.Mirror.Refines.{Leaves, run_push-settle, run_pull-settle}
use canvas_stored.Tests.Scenes.{
  went_well, only_here, only_there, agreed, gone_here, gone_there, options, whole_names, same_text,
  nothing_ignored, idle,
}
use canvas_stored.Tests.Sample.{jobs_table, dedupe_table, rows_table}

run_push-permits_example :
    all
      (permits (
        sides jobs_table dedupe_table rows_table
          (options both_ways)
          idle
          (codes "a.txt")
          only_here))
      (run_push jobs_table dedupe_table rows_table
        (options both_ways)
        same_text
        whole_names
        nothing_ignored
        idle
        (codes "a.txt")
        only_here
        (reply none)
        (reply only_here)
        (reply went_well)
        3).calls
    ≡ true
run_push-permits_example =
    run_push-permits jobs_table dedupe_table rows_table (options both_ways) same_text whole_names
      nothing_ignored idle (codes "a.txt") only_here (reply none) (reply only_here)
      (reply went_well) 3

run_delete_remote-permits_example :
    all
      (permits (
        sides jobs_table dedupe_table rows_table
          (options both_ways)
          agreed
          (codes "a.txt")
          gone_here))
      (run_delete_remote jobs_table dedupe_table rows_table
        (options both_ways)
        same_text
        whole_names
        nothing_ignored
        agreed
        (codes "a.txt")
        gone_here
        (reply gone_here)
        (reply went_well)
        3).calls
    ≡ true
run_delete_remote-permits_example =
    run_delete_remote-permits jobs_table dedupe_table rows_table (options both_ways) same_text
      whole_names nothing_ignored agreed (codes "a.txt") gone_here (reply gone_here)
      (reply went_well) 3

run_trash_local-permits_example :
    all
      (permits (
        sides jobs_table dedupe_table rows_table
          (options both_ways)
          agreed
          (codes "a.txt")
          gone_there))
      (run_trash_local jobs_table dedupe_table rows_table
        (options both_ways)
        same_text
        whole_names
        nothing_ignored
        agreed
        (codes "a.txt")
        gone_there
        (reply went_well)).calls
    ≡ true
run_trash_local-permits_example =
    run_trash_local-permits jobs_table dedupe_table rows_table (options both_ways) same_text
      whole_names nothing_ignored agreed (codes "a.txt") gone_there (reply went_well)

run_pull-permits_example :
    Seen jobs_table dedupe_table rows_table
      (options both_ways)
      same_text
      whole_names
      nothing_ignored
      idle
      (codes "a.txt")
      (fresh_remote none only_there (reply only_there))
      (run_pull jobs_table dedupe_table rows_table
        (options both_ways)
        same_text
        whole_names
        nothing_ignored
        idle
        (codes "a.txt")
        none
        only_there
        (reply only_there)
        (reply only_there)
        (reply went_well)
        3).calls
run_pull-permits_example =
    run_pull-permits jobs_table dedupe_table rows_table (options both_ways) same_text whole_names
      nothing_ignored idle (codes "a.txt") none only_there (reply only_there) (reply only_there)
      (reply went_well) 3

run_push-settle_example :
    Leaves jobs_table dedupe_table rows_table
      (options both_ways)
      (codes "a.txt")
      (settle
        (push
          (sides jobs_table dedupe_table rows_table
            (options both_ways)
            idle
            (codes "a.txt")
            only_here).base)
        (sides jobs_table dedupe_table rows_table
          (options both_ways)
          idle
          (codes "a.txt")
          only_here)).sides.base
      (run_push jobs_table dedupe_table rows_table
        (options both_ways)
        same_text
        whole_names
        nothing_ignored
        idle
        (codes "a.txt")
        only_here
        (reply
          (sides jobs_table dedupe_table rows_table
            (options both_ways)
            idle
            (codes "a.txt")
            only_here).base)
        (reply only_here)
        (reply went_well)
        3)
unfolding sides get_base lookup lower_case lower_char
run_push-settle_example =
    run_push-settle jobs_table dedupe_table rows_table (options both_ways) same_text whole_names
      nothing_ignored idle (codes "a.txt") only_here (reply only_here) went_well 3 refl refl refl
      refl refl

run_pull-settle_example :
    Leaves jobs_table dedupe_table rows_table
      (options both_ways)
      (codes "a.txt")
      (settle
        (pull
          (sides jobs_table dedupe_table rows_table
            (options both_ways)
            idle
            (codes "a.txt")
            only_there).remote)
        (sides jobs_table dedupe_table rows_table
          (options both_ways)
          idle
          (codes "a.txt")
          only_there)).sides.base
      (run_pull jobs_table dedupe_table rows_table
        (options both_ways)
        same_text
        whole_names
        nothing_ignored
        idle
        (codes "a.txt")
        none
        only_there
        (reply only_there)
        (reply only_there)
        (reply went_well)
        3)
unfolding fresh_remote lower_case lower_char
run_pull-settle_example =
    run_pull-settle jobs_table dedupe_table rows_table (options both_ways) same_text whole_names
      nothing_ignored idle (codes "a.txt") none only_there only_there (reply only_there)
      (reply only_there) went_well 3 refl refl refl refl refl refl
