-- ===== src/Mirror/Applied.antt =====
-- src/sync/Mirror.js: `restoreApplied` and `appliedSnapshot` keep the newest version of a document.
use canvas_stored.Prelude.{
  ℕ, ◌≡◌, refl, ◌∙◌, ap, Option, none, some, List, [], ◌∷◌, arith, max, ◌==◌, if◌then◌else◌, ==_iff,
}
use canvas_stored.Mirror.Engine.{set_applied}
use canvas_stored.Mirror.Execute.{version_of, is_newer, restore_applied}

version_of-set_applied :
    (pairs : List (ℕ × ℕ)) (doc version other : ℕ)
    → version_of (set_applied pairs doc version) other
      ≡ (if doc == other then some version else version_of pairs other)
unfolding set_applied version_of
version_of-set_applied [] doc version other = refl
version_of-set_applied ((d, v) ∷ pairs) doc version other =
    ground (arith, version_of-set_applied pairs doc version other)

-- The newer of a version that may be none and another.
abbrev pub newer : Option ℕ → ℕ → ℕ
newer none version = version
newer (some v) version = max v version

-- The newest version of a document among a first one and those of a list.
abbrev pub newest : ℕ → List (ℕ × ℕ) → Option ℕ → Option ℕ
newest doc [] o = o
newest doc ((d, v) ∷ pairs) o = newest doc pairs (if d == doc then some (newer o v) else o)

step_lem :
    (applied : List (ℕ × ℕ)) (d v doc : ℕ) (o : Option ℕ)
    → version_of applied d ≡ o
    → version_of (if is_newer o v then applied else set_applied applied d v) doc
      ≡ (if d == doc then some (newer (version_of applied doc) v) else version_of applied doc)
step_lem applied d v doc none e =
    ground (arith, version_of-set_applied applied d v doc, ==_iff d doc)
step_lem applied d v doc (some w) e =
    ground (arith, version_of-set_applied applied d v doc, ==_iff d doc)

-- After `restoreApplied` a document has the newest of the version it had and those that are given
-- back for it.
pub restore_applied_lem :
    (pairs applied : List (ℕ × ℕ)) (doc : ℕ)
    → version_of (restore_applied pairs applied) doc ≡ newest doc pairs (version_of applied doc)
unfolding restore_applied
restore_applied_lem [] applied doc = refl
restore_applied_lem ((d, v) ∷ pairs) applied doc =
    restore_applied_lem pairs _ doc
    ∙ ap (newest doc pairs) (step_lem applied d v doc (version_of applied d) refl)
