-- ===== src/Ledger/Rows.antt =====
-- src/sync/Ledger.js: the rows of the sub-database and their keys.
use canvas_stored.Prelude.{
  ℕ, ◌+◌, ◌++◌, ◌&&◌, Option, none, some, map, Text, codes, leb, ◌==◌, if◌then◌else◌,
}

-- What the device and the hub last agreed on for a key.
pub record Base : Type 0 where
  pub sha256 : Text
  pub size : Option ℕ
  pub mtime : Option ℕ
  pub remote_seq : ℕ
  pub doc_id : Option ℕ
  pub version : Option ℕ
  pub time : ℕ

pub record Skip : Type 0 where
  pub reason : Text
  pub time : ℕ

-- The fields of `state` that the mirror keeps there, absent ones `none`.
pub record EngineState : Type 0 where
  pub conflicts : Option ℕ
  pub reverted : Option ℕ
  pub last_sync_at : Option ℕ

pub data Row : Type 0 where
  base_row : Base → Row
  cursor_row : ℕ → Row
  skip_row : Skip → Row
  state_row : EngineState → Row

pub data Kind : Type 0 where
  base cursor skip state : Kind

abbrev pub kind_name : Kind → Text
kind_name base = codes "base"
kind_name cursor = codes "cursor"
kind_name skip = codes "skip"
kind_name state = codes "state"

-- `${kind}/${this.#mirror}` and `${kind}/${this.#mirror}/${key}`
unfoldable pub row_key : Kind → Text → Option Text → Text
row_key kind mirror none = kind_name kind ++ (codes "/" ++ mirror)
row_key kind mirror (some key) = kind_name kind ++ (codes "/" ++ (mirror ++ (codes "/" ++ key)))

-- `String.prototype.toLowerCase` on ASCII text, which a hexadecimal digest is.
unfoldable pub lower_char : ℕ → ℕ
lower_char c = if leb b'A' c && leb c b'Z' then c + 32 else c

unfoldable pub lower_case : Text → Text
unfolding lower_char
lower_case = map lower_char

-- `int` of `setBase`: a number that is not positive counts as absent.
unfoldable pub positive : Option ℕ → Option ℕ
positive none = none
positive (some n) = if n == 0 then none else some n

-- The second argument of `setBase`.
pub record BaseInput : Type 0 where
  pub sha256 : Option Text
  pub size : Option ℕ
  pub mtime : Option ℕ
  pub remote_seq : ℕ
  pub doc_id : Option ℕ
  pub version : Option ℕ

-- The row that `setBase` writes.
unfoldable pub base_of : Text → BaseInput → ℕ → Base
unfolding lower_case positive
base_of sha256 input now = record {
  sha256 = lower_case sha256;
  size = input.size;
  mtime = input.mtime;
  remote_seq = input.remote_seq;
  doc_id = positive input.doc_id;
  version = positive input.version;
  time = now;
}

-- The third argument of `moveBase`: an absent field leaves the row's own.
pub record BasePatch : Type 0 where
  pub remote_seq : Option ℕ
  pub doc_id : Option (Option ℕ)
  pub version : Option (Option ℕ)

abbrev pub no_patch : BasePatch
no_patch = record { remote_seq = none; doc_id = none; version = none }

abbrev or_own {ℓ} : {A : Type ℓ} → Option A → A → A
or_own none a = a
or_own (some b) a = b

-- `{ ...base, ...patch, at: Date.now() }`
unfoldable pub patched : Base → BasePatch → ℕ → Base
patched b p now = record b {
  remote_seq = or_own p.remote_seq b.remote_seq;
  doc_id = or_own p.doc_id b.doc_id;
  version = or_own p.version b.version;
  time = now;
}

-- `{ ...this.getState(), ...patch }`
abbrev overlay {ℓ} : {A : Type ℓ} → Option A → Option A → Option A
overlay old none = old
overlay old (some a) = some a

unfoldable pub merged_state : EngineState → EngineState → EngineState
merged_state old patch = record {
  conflicts = overlay old.conflicts patch.conflicts;
  reverted = overlay old.reverted patch.reverted;
  last_sync_at = overlay old.last_sync_at patch.last_sync_at;
}
