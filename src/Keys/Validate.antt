-- ===== src/Keys/Validate.antt =====
-- src/sync/keys.js, `validateKey`.
use canvas_stored.Prelude.{
  ℕ, ◌+◌, Bool, true, false, not, ◌&&◌, ◌||◌, Option, none, some, List, [], ◌∷◌, Text, codes,
  text_eq, ltb, leb, ◌==◌, if◌then◌else◌, any,
}
use canvas_stored.Keys.Segments.{split, starts_with, byte_length}

-- The reasons that it returns, none when the key can be synced.
pub data Reason : Type 0 where
  empty nul traversal absolute too_long segment_too_long reserved_name illegal_chars : Reason
  trailing_dot_or_space : Reason

abbrev pub max_key_bytes : ℕ
max_key_bytes = 4096

abbrev pub max_segment_bytes : ℕ
max_segment_bytes = 255

unfoldable pub is_letter : ℕ → Bool
is_letter c = leb b'a' c && leb c b'z' || leb b'A' c && leb c b'Z'

-- `/^[a-zA-Z]:[\\/]/`
unfoldable pub has_drive : Text → Bool
unfolding is_letter
has_drive (a ∷ b ∷ c ∷ rest) = is_letter a && (b == b':' && (c == 92 || c == b'/'))
has_drive _ = false

-- The `i` flag folds ASCII letters only.
abbrev fold_case : ℕ → ℕ
fold_case c = if leb b'A' c && leb c b'Z' then c + 32 else c

-- What `.` does not match: a line terminator.
abbrev is_line_end : ℕ → Bool
is_line_end c = c == 10 || (c == 13 || (c == 0x2028 || c == 0x2029))

-- `(\..*)?$`
abbrev pub is_extension : Text → Bool
is_extension [] = true
is_extension (c ∷ cs) = c == b'.' && not (any is_line_end cs)

-- `^name(\..*)?$` on the folded segment
unfoldable pub names_device : Text → Text → Bool
names_device [] seg = is_extension seg
names_device (c ∷ cs) [] = false
names_device (c ∷ cs) (d ∷ ds) =
    let rest = names_device cs ds in if fold_case d == c then rest else false

abbrev pub device_names : List Text
device_names =
    codes "con"
    ∷ codes "prn"
    ∷ codes "aux"
    ∷ codes "nul"
    ∷ codes "com1"
    ∷ codes "com2"
    ∷ codes "com3"
    ∷ codes "com4"
    ∷ codes "com5"
    ∷ codes "com6"
    ∷ codes "com7"
    ∷ codes "com8"
    ∷ codes "com9"
    ∷ codes "lpt1"
    ∷ codes "lpt2"
    ∷ codes "lpt3"
    ∷ codes "lpt4"
    ∷ codes "lpt5"
    ∷ codes "lpt6"
    ∷ codes "lpt7"
    ∷ codes "lpt8"
    ∷ codes "lpt9"
    ∷ []

-- `WINDOWS_RESERVED.test(seg)`
unfoldable pub is_reserved : Text → Bool
unfolding names_device
is_reserved seg = any (λ name. names_device name seg) device_names

-- `[<>:"|?*\x00-\x1f]`
unfoldable pub is_illegal : ℕ → Bool
is_illegal c = any (λ i. c == i) (b'<' ∷ b'>' ∷ b':' ∷ 34 ∷ b'|' ∷ b'?' ∷ b'*' ∷ []) || leb c 0x1f

-- `/[. ]$/`
unfoldable pub ends_badly : Text → Bool
ends_badly [] = false
ends_badly (c ∷ []) = c == b'.' || c == b' '
ends_badly (c ∷ d ∷ cs) = ends_badly (d ∷ cs)

-- One round of the loop over the segments.
unfoldable pub check_segment : Text → Option Reason
unfolding is_reserved is_illegal ends_badly
check_segment seg =
    if text_eq seg [] || (text_eq seg (codes ".") || text_eq seg (codes ".."))
    then some traversal
    else if ltb max_segment_bytes (byte_length seg)
    then some segment_too_long
    else if is_reserved seg
    then some reserved_name
    else if any is_illegal seg
    then some illegal_chars
    else if ends_badly seg
    then some trailing_dot_or_space
    else none

-- The first reason that a segment gives.
abbrev pub or_next : Option Reason → Option Reason → Option Reason
or_next none next = next
or_next (some reason) next = some reason

unfoldable pub check_segments : List Text → Option Reason
unfolding check_segment
check_segments [] = none
check_segments (seg ∷ segs) = or_next (check_segment seg) (check_segments segs)

-- The argument is none where the source is given something that is no string.
unfoldable pub validate_key : Option Text → Option Reason
unfolding has_drive check_segments
validate_key none = some empty
validate_key (some []) = some empty
validate_key (some (c ∷ cs)) =
    let key = c ∷ cs in
    if any (λ x. x == 0) key
    then some nul
    else if starts_with key (codes "/") || has_drive key
    then some absolute
    else if ltb max_key_bytes (byte_length key)
    then some too_long
    else check_segments (split b'/' key)
