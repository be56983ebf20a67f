-- ===== src/Tests/Mirrors.antt =====
-- src/sync/Mirror.js: runs of the decisions and of the engine.
use canvas_stored.Prelude.{◌≡◌, refl, true, some, codes}
use canvas_stored.Mirror.Decide.{Sides, decide, both_ways}
use canvas_stored.Mirror.Settle.{settle, Agreed, decide-Agreed}
use canvas_stored.Mirror.Directions.{outcome, is_safe, outcome-is_kept}

-- Both sides were edited.
abbrev edited : Sides
edited = record { local = some (codes "aa"); base = some (codes "bb"); remote = some (codes "cc") }

decide-Agreed_example : Agreed (settle (decide edited) edited).sides
decide-Agreed_example = decide-Agreed edited (refl, (refl, refl))

outcome-is_kept_example :
    (is_safe edited.local edited.base (outcome both_ways edited) ≡ true)
    × (is_safe edited.remote edited.base (outcome both_ways edited) ≡ true)
outcome-is_kept_example = outcome-is_kept both_ways edited
