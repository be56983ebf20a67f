-- ===== src/Stored/Urls.antt =====
-- src/index.js: `#parseStoredUrl`, the URLs that `#describeLocation` prints, and what is read by them.
use mathlib.Core.Path.{subst}
use canvas_stored.Prelude.{
  ℕ, ◌++◌, ◌≡◌, ◌↔◌, refl, ap, ◌∙◌, false, Option, none, some, [], ◌∷◌, arith, Text, codes, any,
  ◌==◌, ==_iff, some_eq, if_intro, if◌then◌else◌,
}
use canvas_stored.Index.Listing.{rest_of}

pub record Address : Type 0 where
  pub backend : Text
  pub key : Text

abbrev pub scheme : Text
scheme = codes "stored://"

-- `stored://${backend}/${key}`
unfoldable pub url_of : Address → Text
url_of a = scheme ++ (a.backend ++ (b'/' ∷ a.key))

-- The slices of a text before and behind its first slash, which `indexOf` finds.
abbrev pub one_more : ℕ → Option Address → Option Address
one_more c none = none
one_more c (some a) = some (record a { backend = c ∷ a.backend })

unfoldable pub cut_first : Text → Option Address
cut_first [] = none
cut_first (c ∷ cs) =
    let rest = one_more c (cut_first cs) in
    if c == b'/' then some (record { backend = []; key = cs }) else rest

abbrev pub cut_rest : Option Text → Option Address
unfolding cut_first
cut_rest none = none
cut_rest (some rest) = cut_first rest

unfoldable pub parse_stored_url : Text → Option Address
unfolding rest_of cut_first
parse_stored_url url = cut_rest (rest_of scheme url)

-- The name of a backend has no slash.
abbrev pub IsName : Text → Type 0
IsName name = any (λ c. c == b'/') name ≡ false

cut_first-url :
    (name key : Text)
    → IsName name
    → cut_first (name ++ (b'/' ∷ key)) ≡ some (record { backend = name; key = key })
unfolding cut_first
cut_first-url [] key h = refl
cut_first-url (c ∷ cs) key h = ground (arith, h, cut_first-url cs key)

-- The text that was cut at its first slash.
abbrev Cuts : Text → Option Address → Type 0
Cuts text none = Unit
Cuts text (some a) = IsName a.backend × (text ≡ a.backend ++ (b'/' ∷ a.key))

one_more-Cuts :
    (c : ℕ) (text : Text) (o : Option Address)
    → (c == b'/') ≡ false
    → Cuts text o
    → Cuts (c ∷ text) (one_more c o)
one_more-Cuts c text none n h = tt
one_more-Cuts c text (some a) n h = (ground (arith, n, h.0), ap (λ t. c ∷ t) h.1)

cut_first-Cuts : (text : Text) → Cuts text (cut_first text)
unfolding cut_first
cut_first-Cuts [] = tt
cut_first-Cuts (c ∷ cs) =
    if_intro (Cuts (c ∷ cs)) (c == b'/') (λ h. (refl, ap (λ d. d ∷ cs) ((==_iff c b'/').0 h)))
      (λ n. one_more-Cuts c cs (cut_first cs) n (cut_first-Cuts cs))

rest_of-some : (head text rest : Text) → rest_of head text ≡ some rest → text ≡ head ++ rest
unfolding rest_of
rest_of-some [] text rest h = some_eq h
rest_of-some (c ∷ cs) [] rest h = cc
rest_of-some (c ∷ cs) (d ∷ ds) rest h = ground (arith, h, rest_of-some cs ds rest, ==_iff c d)

-- What the text behind the scheme gives.
parsed_rest :
    (url : Text) (a : Address) (o : Option Text)
    → rest_of scheme url ≡ o
    → cut_rest o ≡ some a
    → IsName a.backend × (url ≡ url_of a)
unfolding cut_first url_of
parsed_rest url a none h e = cc
parsed_rest url a (some rest) h e =
    let cuts = subst (Cuts rest) e (cut_first-Cuts rest) in
    (cuts.0, rest_of-some scheme url rest h ∙ ap (λ t. scheme ++ t) cuts.1)

url-parsed : (a : Address) → IsName a.backend → parse_stored_url (url_of a) ≡ some a
unfolding parse_stored_url url_of
url-parsed a h = cut_first-url a.backend a.key h

parsed :
    (url : Text) (a : Address) → parse_stored_url url ≡ some a → IsName a.backend × (url ≡ url_of a)
unfolding parse_stored_url
parsed url a h = parsed_rest url a (rest_of scheme url) refl h

-- A text is read as the URL of a backend and a key exactly if it is the one that is printed for them,
-- and the name of the backend has no slash.
pub parse_stored_url_iff :
    (url : Text) (a : Address)
    → (parse_stored_url url ≡ some a) ↔ (IsName a.backend × (url ≡ url_of a))
parse_stored_url_iff url a = (parsed url a, λ h. ap parse_stored_url h.1 ∙ url-parsed a h.0)
