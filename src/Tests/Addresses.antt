-- ===== src/Tests/Addresses.antt =====
-- src/index.js: runs of the URLs, the keys, the preconditions and the plans of transfers.
use canvas_stored.Prelude.{◌≡◌, ◌↔◌, ◌||◌, refl, true, false, none, some, [], ◌∷◌, codes, text_eq}
use canvas_stored.Keys.Segments.{split}
use canvas_stored.Keys.Conflict.{decimal}
use canvas_stored.Keys.Safety.{resolve}
use canvas_stored.Replicas.Validate.{safe_key}
use canvas_stored.Index.Rows.{Meta, Location}
use canvas_stored.Stored.Urls.{Address, IsName, url_of, parse_stored_url, parse_stored_url_iff}
use canvas_stored.Stored.Names.{is_safe_key, normalize_key}
use canvas_stored.Stored.Conditions.{check_precondition, goes_on}
use canvas_stored.Stored.Inside.{safe_key-resolve}
use canvas_stored.Stored.Transfers.{
  Copy, Holding, Drive, View, Request, policy_of, planned, plan_transfer, plain, try_names,
}
use canvas_stored.Stored.Locations.{merge_locations, hold_keys, release_keys}
use canvas_stored.Stored.Held.{count, release_keys-hold_keys}
use canvas_stored.Stored.Planned.{LosesNone, plan_transfer-LosesNone}

abbrev photo : Address
photo = record { backend = codes "nas"; key = codes "a/b.jpg" }

parsed_photo : parse_stored_url (codes "stored://nas/a/b.jpg") ≡ some photo
unfolding parse_stored_url
parsed_photo = refl

parse_stored_url_iff_example :
    (parse_stored_url (codes "stored://nas/a/b.jpg") ≡ some photo)
    ↔ (IsName photo.backend × (codes "stored://nas/a/b.jpg" ≡ url_of photo))
parse_stored_url_iff_example = parse_stored_url_iff (codes "stored://nas/a/b.jpg") photo

safe_key-resolve_example :
    (safe_key (codes "a/b.jpg") ≡ true → is_safe_key (codes "a/b.jpg") ≡ true)
    × (is_safe_key (codes "a/b.jpg") ≡ true
        → resolve [] (split b'/' (codes "a/b.jpg")) ≡ split b'/' (codes "a/b.jpg"))
safe_key-resolve_example = safe_key-resolve (codes "a/b.jpg")

normalized : normalize_key (λ t. t) false (codes "/Fotky//2019/") ≡ codes "Fotky/2019"
unfolding normalize_key
normalized = refl

abbrev stored_photo : Meta
stored_photo = record {
  id = codes "sha256:ab";
  size = some 3;
  sha256 = some (codes "ab");
  locations = [];
  modified = 1;
  created = 1;
}

matched : check_precondition (some stored_photo) none (some (codes "W/\"AB\"")) none ≡ goes_on
unfolding check_precondition
matched = refl

-- A disk whose `b.jpg` and `b-1.jpg` are taken.
abbrev disk : Drive
disk = record {
  can_read = true;
  can_write = true;
  is_protocol = false;
  is_remote = false;
  is_live = true;
  has = λ key. text_eq key (codes "b.jpg") || text_eq key (codes "b-1.jpg");
}

abbrev view : View
view = record { drive = λ name. some disk; id_at = λ name key. none }

abbrev home : Copy
home = record { backend = codes "home"; key = codes "b.jpg"; synced = true }

abbrev holding : Holding
holding = record { id = codes "sha256:ab"; locations = home ∷ [] }

abbrev renames : Request
renames = record {
  to = codes "nas" ∷ [];
  from = none;
  key = none;
  conflict_key = some (codes "c.jpg");
  on_conflict = some (codes "rename");
}

renamed :
    plan_transfer view (some holding) renames
    ≡ planned home
        (record { name = codes "nas"; key = codes "c.jpg"; overwrite = false } ∷ [])
        (codes "b.jpg")
unfolding plan_transfer plain
renamed = refl

numbered : try_names disk.has (codes "b") (codes ".jpg") 5 1 ≡ some (codes "b-2.jpg")
unfolding try_names decimal
numbered = refl

plan_transfer-LosesNone_example :
    LosesNone view
      (codes "sha256:ab")
      (policy_of (some (codes "rename")))
      (plan_transfer view (some holding) renames)
plan_transfer-LosesNone_example = plan_transfer-LosesNone view holding renames

abbrev at_home : Location
at_home = record { backend = codes "home"; key = codes "a"; size = some 1; mtime = none }

merged :
    merge_locations (at_home ∷ []) (record at_home { size = some 2 } ∷ [])
    ≡ record at_home { size = some 2 } ∷ []
unfolding merge_locations
merged = refl

release_keys-hold_keys_example :
    count (codes "home:a") (
      release_keys
        (hold_keys (hold_keys [] (codes "home:a" ∷ [])) (codes "home:a" ∷ codes "nas:a" ∷ []))
        (codes "home:a" ∷ []))
    ≡ 1
release_keys-hold_keys_example =
    release_keys-hold_keys (codes "home:a" ∷ []) (codes "home:a" ∷ codes "nas:a" ∷ []) []
      (codes "home:a") tt
