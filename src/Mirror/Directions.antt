-- ===== src/Mirror/Directions.antt =====
-- src/sync/Mirror.js: what `decide`, narrowed by `#direct` to one direction, never writes, and that in
-- every direction the content that changed since the last agreement is kept. `#redecide` decides
-- without `#direct`.
use canvas_stored.Prelude.{
  ◌↔◌, Option, not, ◌||◌, ◌≡◌, Text, Bool, true, arith, truthy, same, same_iff,
}
use canvas_stored.Mirror.Decide.{
  Sides, decide, Direction, both_ways, pull_only, push_only, direct, narrow_pull, narrow_push,
}
use canvas_stored.Mirror.Settle.{Outcome, settle, is_kept}

abbrev pub outcome : Direction → Sides → Outcome
outcome direction s = settle (direct direction (decide s) s) s

-- In the direction `pull` the work for a decision leaves the hub's side as it was.
pub pull_only-remote : (s : Sides) → (outcome pull_only s).sides.remote ≡ s.remote
unfolding decide settle direct narrow_pull
pull_only-remote s =
    ground (arith, same_iff s.local s.base, same_iff s.remote s.base, same_iff s.local s.remote)

-- In the direction `push` the work for a decision leaves the local side as it was.
pub push_only-local : (s : Sides) → (outcome push_only s).sides.local ≡ s.local
unfolding decide settle direct narrow_push
push_only-local s =
    ground (arith, same_iff s.local s.base, same_iff s.remote s.base, same_iff s.local s.remote)

-- What the tests on the digests say.
abbrev Tests : Sides → Type 0
Tests s =
    ((same s.local s.base ≡ true) ↔ (s.local ≡ s.base))
    × ((same s.remote s.base ≡ true) ↔ (s.remote ≡ s.base))
    × ((same s.local s.remote ≡ true) ↔ (s.local ≡ s.remote))
    × ((same s.local s.local ≡ true) ↔ (s.local ≡ s.local))
    × ((same s.remote s.remote ≡ true) ↔ (s.remote ≡ s.remote))

tests : (s : Sides) → Tests s
tests s = (
  same_iff s.local s.base,
  same_iff s.remote s.base,
  same_iff s.local s.remote,
  same_iff s.local s.local,
  same_iff s.remote s.remote,
)

-- A version that is there and differs from the base is kept.
abbrev pub is_safe : Option Text → Option Text → Outcome → Bool
is_safe side base o = not (truthy side) || (same side base || is_kept side o)

-- In every direction, a local version (a digest that is not empty) that differs from the base is
-- still on a side, in the trash or in the conflicts backend once the work for the decision went
-- through, and so is a hub version that differs from the base.
pub outcome-is_kept :
    (direction : Direction) (s : Sides)
    → (is_safe s.local s.base (outcome direction s) ≡ true)
      × (is_safe s.remote s.base (outcome direction s) ≡ true)
unfolding decide settle direct narrow_pull narrow_push
outcome-is_kept both_ways s = (ground (arith, tests s), ground (arith, tests s))
outcome-is_kept pull_only s = (ground (arith, tests s), ground (arith, tests s))
outcome-is_kept push_only s = (ground (arith, tests s), ground (arith, tests s))
