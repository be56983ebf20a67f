-- ===== src/Stored/Retention.antt =====
-- src/index.js: the entries of the retained bytes, and the calls of `dropRetained`. The names of the
-- registered backends are an argument.
use canvas_stored.Prelude.{
  ℕ, ◌++◌, Bool, true, false, not, Option, none, some, List, [], ◌∷◌, any, keep, Text, codes,
  text_eq, starts_with, if◌then◌else◌,
}

-- An entry. The lists that an old one lacks are `none`, `trash_version` says that it is not old.
pub record Entry : Type 0 where
  pub sha256 : Text
  pub backend : Text
  pub size : Option ℕ
  pub mime_type : Option Text
  pub id : Option Text
  pub keys : List Text
  pub backends : Option (List Text)
  pub version_keys : Option (List Text)
  pub first_at : Option ℕ
  pub last_at : Option ℕ
  pub trash_version : Bool
  pub legacy_keys : Option (List Text)
  pub legacy_at : Option ℕ

-- What is displaced: the fields of an entry of the index, and the time of the location at the key.
pub record Content : Type 0 where
  pub id : Option Text
  pub size : Option ℕ
  pub mime_type : Option Text
  pub sha256 : Option Text
  pub mtime : Option ℕ

pub data Reason : Type 0 where
  version deletion : Reason

abbrev pub list_or : Option (List Text) → List Text → List Text
list_or none other = other
list_or (some l) other = l

abbrev pub has_text : Text → List Text → Bool
has_text k l = any (λ j. text_eq j k) l

-- `[...new Set(texts)]`: the first of each.
unfoldable pub unique : List Text → List Text
unique [] = []
unique (k ∷ l) = k ∷ keep (λ j. not (text_eq j k)) (unique l)

abbrev pub address_of : Text → Text → Text
address_of name key = name ++ (codes ":" ++ key)

unfoldable pub retained_backend_names : List Text → Option Entry → List Text
unfolding unique
retained_backend_names names none = []
retained_backend_names names (some e) = unique (
    list_or e.backends []
    ++ ((if text_eq e.backend [] then [] else e.backend ∷ [])
        ++ keep (λ name. any (starts_with (name ++ codes ":")) e.keys) names))

-- The fields of the entry before, if there is one.
abbrev pub keys_in : Option Entry → List Text
keys_in none = []
keys_in (some e) = e.keys

abbrev pub versions_in : Option Entry → List Text
versions_in none = []
versions_in (some e) = list_or e.version_keys []

abbrev backends_in : List Text → Option Entry → List Text
unfolding retained_backend_names
backends_in names none = []
backends_in names (some e) = list_or e.backends (retained_backend_names names (some e))

abbrev backend_in : Option Entry → Text → Text
backend_in none name = name
backend_in (some e) name = if text_eq e.backend [] then name else e.backend

-- `a ?? b`
abbrev first_given {ℓ} : {A : Type ℓ} → Option A → Option A → Option A
first_given none b = b
first_given (some a) b = some a

abbrev size_in : Option Entry → Option ℕ
size_in none = none
size_in (some e) = e.size

abbrev mime_in : Option Entry → Option Text
mime_in none = none
mime_in (some e) = e.mime_type

abbrev id_in : Option Entry → Option Text
id_in none = none
id_in (some e) = e.id

abbrev first_in : Option Entry → Option ℕ
first_in none = none
first_in (some e) = e.first_at

abbrev legacy_in : Option Entry → List Text
legacy_in none = []
legacy_in (some e) = list_or e.legacy_keys (if e.trash_version then [] else e.keys)

abbrev legacy_at_in : Option Entry → Option ℕ
legacy_at_in none = none
legacy_at_in (some e) = first_given e.legacy_at e.last_at

abbrev versions_of : Reason → Text → List Text
versions_of version address = address ∷ []
versions_of deletion address = []

-- The entry that `#retain` writes; `kept` is the size that the backend tells.
unfoldable pub retained_entry :
    List Text → Option Entry → Text → Text → Text → Content → Option ℕ → Reason → ℕ → Entry
unfolding unique retained_backend_names
retained_entry names prev name key sha content kept reason now = record {
  sha256 = sha;
  backend = backend_in prev name;
  size = first_given kept (first_given (size_in prev) content.size);
  mime_type = first_given content.mime_type (mime_in prev);
  id = first_given content.id (id_in prev);
  keys = unique (keys_in prev ++ (address_of name key ∷ []));
  backends = some (unique (backends_in names prev ++ (name ∷ [])));
  version_keys = some (unique (versions_in prev ++ versions_of reason (address_of name key)));
  first_at = first_given (first_in prev) (some now);
  last_at = some now;
  trash_version = true;
  legacy_keys = some (legacy_in prev);
  legacy_at = legacy_at_in prev;
}

-- What a backend answers to `dropRetained`, or that it is not there to be asked.
pub data Drop : Type 0 where
  dropped : Drop
  drop_failed : Drop
  unavailable : Drop

abbrev pub add_drop : Text → Drop → Bool × List Text → Bool × List Text
add_drop name dropped rest = (rest.0, name ∷ rest.1)
add_drop name drop_failed rest = (false, name ∷ [])
add_drop name unavailable rest = (false, [])

-- The loop of `discardTrashBytes`: whether it goes through, and the backends that were asked.
unfoldable pub drop_all : (Text → Drop) → List Text → Bool × List Text
drop_all drops [] = (true, [])
drop_all drops (name ∷ names) = add_drop name (drops name) (drop_all drops names)

-- The loop of a sweep asks those that are there.
abbrev pub skip_drop : Drop → Bool → Bool
skip_drop dropped rest = rest
skip_drop drop_failed rest = false
skip_drop unavailable rest = rest

unfoldable pub drop_present : (Text → Drop) → List Text → Bool
drop_present drops [] = true
drop_present drops (name ∷ names) = skip_drop (drops name) (drop_present drops names)
