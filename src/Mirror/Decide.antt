-- ===== src/Mirror/Decide.antt =====
-- src/sync/Mirror.js: `decide`, the three-way table for one key, and `#direct`.
use canvas_stored.Prelude.{not, ◌&&◌, Option, none, Text, truthy, same, if◌then◌else◌}

-- Digests by their sides: `local` is `L`, `base` is `B`, `remote` is `R`; an absent one is none.
pub record Sides : Type 0 where
  pub local : Option Text
  pub base : Option Text
  pub remote : Option Text

pub data SkipReason : Type 0 where
  local_only remote_changed remote_only both_changed : SkipReason

pub data Decision : Type 0 where
  nothing trash_local adopt : Decision
  push delete_remote : Option Text → Decision
  pull conflict revert : Option Text → Decision
  skip : SkipReason → Decision

-- `opts.direction`
pub data Direction : Type 0 where
  both_ways pull_only push_only : Direction

unfoldable pub decide : Sides → Decision
decide s =
    let local_changed = not (same s.local s.base) in
    let remote_changed = not (same s.remote s.base) in
    if not local_changed && not remote_changed
    then nothing
    else if local_changed && not remote_changed
    then if truthy s.local
      then push s.base
      else if truthy s.base
      then delete_remote s.base
      else nothing
    else if not local_changed && remote_changed
    then if truthy s.remote then pull s.remote else if truthy s.local then trash_local else nothing
    else if same s.local s.remote
    then adopt
    else if not (truthy s.local) && truthy s.remote
    then pull s.remote
    else if truthy s.local && not (truthy s.remote)
    then push none
    else conflict s.remote

-- The `switch` for the direction `pull`.
unfoldable pub narrow_pull : Decision → Sides → Decision
narrow_pull (push if_match) s = if truthy s.remote then revert s.remote else skip local_only
narrow_pull (delete_remote if_match) s = if truthy s.remote then pull s.remote else nothing
narrow_pull (conflict remote) s = revert s.remote
narrow_pull d s = d

-- The `switch` for the direction `push`.
unfoldable pub narrow_push : Decision → Sides → Decision
narrow_push (pull sha256) s = skip (if truthy s.base then remote_changed else remote_only)
narrow_push trash_local s = nothing
narrow_push (conflict remote) s = skip both_changed
narrow_push d s = d

unfoldable pub direct : Direction → Decision → Sides → Decision
unfolding narrow_pull narrow_push
direct both_ways d s = d
direct pull_only d s = narrow_pull d s
direct push_only d s = narrow_push d s
