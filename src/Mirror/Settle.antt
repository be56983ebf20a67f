-- ===== src/Mirror/Settle.antt =====
-- src/sync/Mirror.js: what the work for a decision does to the two sides once it went through, and
-- that the table then leaves the two sides agreed with no edit lost.
use canvas_stored.Prelude.{
  ◌≡◌, refl, ◌↔◌, Bool, true, false, ◌||◌, Option, none, some, List, [], ◌∷◌, arith, Text, truthy,
  same, same_iff, any,
}
use canvas_stored.Mirror.Decide.{
  Sides, Decision, nothing, trash_local, adopt, push, delete_remote, pull, conflict, revert, skip,
  decide,
}

-- The sides, and the digests that the trash and conflicts backends were given.
pub record Outcome : Type 0 where
  pub sides : Sides
  pub saved : List (Option Text)

-- The three sides after the job for a decision succeeded: `#runPush` agrees on `L`, `#runPull` on
-- `R`, `#runDeleteRemote` and `#runTrashLocal` remove the base, `#runConflict` and `#runRevert` copy
-- the local version to the conflicts backend and agree on `R`.
unfoldable pub settle : Decision → Sides → Outcome
settle (push if_match) s = record {
  sides = record { local = s.local; base = s.local; remote = s.local };
  saved = [];
}
settle (delete_remote if_match) s = record {
  sides = record { local = s.local; base = none; remote = none };
  saved = [];
}
settle (pull sha256) s = record {
  sides = record { local = s.remote; base = s.remote; remote = s.remote };
  saved = [];
}
settle trash_local s = record {
  sides = record { local = none; base = none; remote = s.remote };
  saved = s.local ∷ [];
}
settle adopt s = record {
  sides = record { local = s.local; base = s.local; remote = s.remote };
  saved = [];
}
settle (conflict remote) s = record {
  sides = record { local = s.remote; base = s.remote; remote = s.remote };
  saved = s.local ∷ [];
}
settle (revert remote) s = record {
  sides = record { local = s.remote; base = s.remote; remote = s.remote };
  saved = s.local ∷ [];
}
settle nothing s = record { sides = s; saved = [] }
settle (skip reason) s = record { sides = s; saved = [] }

-- No digest is the empty string.
abbrev pub is_digest : Option Text → Bool
is_digest d = same d none || truthy d

abbrev pub Digests : Sides → Type 0
Digests s = (is_digest s.local ≡ true) × ((is_digest s.base ≡ true) × (is_digest s.remote ≡ true))

abbrev pub Agreed : Sides → Type 0
Agreed s = (s.local ≡ s.base) × (s.remote ≡ s.base)

-- The content is on a side, or in the trash or the conflicts backend.
abbrev pub is_kept : Option Text → Outcome → Bool
is_kept d o = same d o.sides.local || (same d o.sides.remote || any (same d) o.saved)

absent : (d : Option Text) → is_digest d ≡ true → truthy d ≡ false → d ≡ none
absent none h k = refl
absent (some []) h k = cc
absent (some (c ∷ cs)) h k = cc

-- For each key whose digests are not the empty string, the work that the table decides leaves the
-- local side, the base and the hub equal.
pub decide-Agreed : (s : Sides) → Digests s → Agreed (settle (decide s) s).sides
unfolding decide settle
decide-Agreed s h = ground (
  arith,
  same_iff s.local s.base,
  same_iff s.remote s.base,
  same_iff s.local s.remote,
  absent s.local,
  absent s.base,
  absent s.remote,
)

-- The two sides agree exactly when the table has nothing to do, where no digest is the empty
-- string.
pub decide-nothing_iff : (s : Sides) → Digests s → (decide s ≡ nothing) ↔ Agreed s
unfolding decide
decide-nothing_iff s h = ground (
  arith,
  same_iff s.local s.base,
  same_iff s.remote s.base,
  same_iff s.local s.remote,
  absent s.local,
  absent s.base,
  absent s.remote,
)
