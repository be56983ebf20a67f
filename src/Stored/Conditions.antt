-- ===== src/Stored/Conditions.antt =====
-- src/index.js: `#checkPrecondition`, the `If-Match` and `If-None-Match` of HTTP over the index.
use canvas_stored.Prelude.{
  ℕ, Bool, true, false, not, ◌&&◌, ◌||◌, Option, none, some, [], ◌∷◌, any, Text, codes, text_eq,
  is_some, or_else, leb, ◌==◌, if◌then◌else◌,
}
use canvas_stored.Index.Rows.{Location, Meta}
use canvas_stored.Ledger.Rows.{lower_case}

-- The white space that `trim` takes off.
unfoldable pub is_space : ℕ → Bool
is_space c =
    leb 9 c && leb c 13
    || (leb 0x2000 c && leb c 0x200a
        || any (λ s. c == s)
            (32 ∷ 160 ∷ 0x1680 ∷ 0x2028 ∷ 0x2029 ∷ 0x202f ∷ 0x205f ∷ 0x3000 ∷ 0xfeff ∷ []))

unfoldable pub trim_left : Text → Text
unfolding is_space
trim_left [] = []
trim_left (c ∷ cs) = let rest = trim_left cs in if is_space c then rest else c ∷ cs

abbrev pub with_char : ℕ → Text → Text
unfolding is_space
with_char c [] = if is_space c then [] else c ∷ []
with_char c (d ∷ ds) = c ∷ (d ∷ ds)

unfoldable pub trim_right : Text → Text
unfolding is_space
trim_right [] = []
trim_right (c ∷ cs) = with_char c (trim_right cs)

-- `trim()`
unfoldable pub trim : Text → Text
unfolding trim_left trim_right
trim text = trim_right (trim_left text)

-- `replace(/^W\//, '')`
abbrev pub drop_weak : Text → Text
drop_weak (a ∷ (b ∷ cs)) = if a == b'W' && b == b'/' then cs else a ∷ (b ∷ cs)
drop_weak cs = cs

-- `replace(/^"|"$/g, '')`: one quotation mark in front, and one at the end.
abbrev pub drop_first_quote : Text → Text
drop_first_quote [] = []
drop_first_quote (c ∷ cs) = if c == 34 then cs else c ∷ cs

abbrev pub with_last : ℕ → Text → Text → Text
with_last c [] rest = if c == 34 then [] else c ∷ []
with_last c (d ∷ ds) rest = c ∷ rest

unfoldable pub drop_last_quote : Text → Text
drop_last_quote [] = []
drop_last_quote (c ∷ cs) = let rest = drop_last_quote cs in with_last c cs rest

-- `strip`. The letters of a digest are ASCII, which `toLowerCase` is here.
unfoldable pub strip : Text → Text
unfolding trim drop_last_quote lower_case
strip v = lower_case (drop_last_quote (drop_first_quote (drop_weak (trim v))))

-- What a refused caller is told: what is there.
pub record Described : Type 0 where
  pub id : Text
  pub sha256 : Option Text
  pub size : Option ℕ
  pub mtime : Option ℕ

abbrev pub size_in : Option Location → Option ℕ
size_in none = none
size_in (some loc) = loc.size

abbrev pub mtime_in : Option Location → Option ℕ
mtime_in none = none
mtime_in (some loc) = loc.mtime

-- `a ?? b`
abbrev pub first_of : Option ℕ → Option ℕ → Option ℕ
first_of none b = b
first_of (some a) b = some a

unfoldable pub describe : Option Meta → Option Location → Option Described
describe none loc = none
describe (some m) loc = some (record {
  id = m.id;
  sha256 = m.sha256;
  size = first_of (size_in loc) m.size;
  mtime = mtime_in loc;
})

pub data Verdict : Type 0 where
  goes_on : Verdict
  refused : Option Described → Verdict

-- `ifNoneMatch != null && String(ifNoneMatch).trim() === '*'`
unfoldable pub wants_free : Option Text → Bool
unfolding trim
wants_free none = false
wants_free (some v) = text_eq (trim v) (codes "*")

-- `want === '*' || want === have || want === id`
unfoldable pub matches : Text → Meta → Bool
unfolding strip lower_case
matches want m =
    let v = strip want in
    text_eq v (codes "*")
    || (text_eq v (lower_case (or_else m.sha256 [])) || text_eq v (lower_case m.id))

abbrev pub match_fails : Option Text → Option Meta → Bool
unfolding matches
match_fails none current = false
match_fails (some want) none = true
match_fails (some want) (some m) = not (matches want m)

unfoldable pub check_precondition :
    Option Meta → Option Location → Option Text → Option Text → Verdict
unfolding wants_free matches describe
check_precondition current loc if_match if_none_match =
    if wants_free if_none_match && is_some current
    then refused (describe current loc)
    else if match_fails if_match current
    then refused (describe current loc)
    else goes_on
