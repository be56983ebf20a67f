-- ===== src/Stored/Inside.antt =====
-- src/index.js, `#isSafeKey`, and src/sync/ReplicaService.js, `safeKey`: keys stay below the root.
use canvas_stored.Prelude.{◌≡◌, refl, true, false, List, [], ◌∷◌, arith, Text, all, All}
use canvas_stored.Keys.Segments.{split}
use canvas_stored.Keys.Validate.{has_drive}
use canvas_stored.Keys.Safety.{resolve, resolve-down, GoesDown}
use canvas_stored.Replicas.Validate.{is_name, safe_key, names_drive}
use canvas_stored.Stored.Names.{is_safe_key}

all-GoesDown : (ss : List Text) → all is_name ss ≡ true → All GoesDown ss
unfolding is_name
all-GoesDown [] h = tt
all-GoesDown (s ∷ ss) h = ground (arith, h, all-GoesDown ss)

is_safe_key-names : (key : Text) → is_safe_key key ≡ true → all is_name (split b'/' key) ≡ true
unfolding is_safe_key
is_safe_key-names key h = ground (arith, h)

has_drive-names_drive : (key : Text) → names_drive key ≡ false → has_drive key ≡ false
unfolding names_drive has_drive
has_drive-names_drive [] h = refl
has_drive-names_drive (a ∷ []) h = refl
has_drive-names_drive (a ∷ (b ∷ [])) h = refl
has_drive-names_drive (a ∷ (b ∷ (c ∷ cs))) h = ground (arith, h)

-- A key that the replica service accepts is one that the class Stored accepts.
safe_key-is_safe_key : (key : Text) → safe_key key ≡ true → is_safe_key key ≡ true
unfolding safe_key is_safe_key
safe_key-is_safe_key key h = ground (arith, h, has_drive-names_drive key)

-- A key that `safeKey` of the replica service accepts is one that `#isSafeKey` accepts; and a key that
-- the latter accepts leads to itself below the root it is joined to: no segment stays or goes up.
pub safe_key-resolve :
    (key : Text)
    → (safe_key key ≡ true → is_safe_key key ≡ true)
      × (is_safe_key key ≡ true → resolve [] (split b'/' key) ≡ split b'/' key)
safe_key-resolve key = (
  safe_key-is_safe_key key,
  λ h. resolve-down (split b'/' key) (all-GoesDown (split b'/' key) (is_safe_key-names key h)),
)
