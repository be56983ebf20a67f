-- ===== src/Mirror/Engine.antt =====
-- src/sync/Mirror.js: the engine's options and state, and the small methods over them. The
-- parameters are the three sub-databases, the text functions of the platform and of `picomatch`, and
-- the local backend's own ignore test.
use canvas_stored.Prelude.{
  ℕ, ◌++◌, Bool, not, ◌&&◌, ◌||◌, Option, none, some, List, [], ◌∷◌, Text, codes, text_eq, any,
  ◌==◌, if◌then◌else◌,
}
use canvas_stored.Lmdb.{Table, nat_key, text_key}
use canvas_stored.Keys.Normalize.{normalize_key}
use canvas_stored.Keys.Validate.{
  Reason, empty, nul, traversal, absolute, too_long, segment_too_long, reserved_name, illegal_chars,
  trailing_dot_or_space,
}
use canvas_stored.Keys.Scope.{ignore_defaults, is_ignored, matches_prefixes}
use canvas_stored.Jobs.Types.{is_pending, Job, Payload, Request, Queue}
use canvas_stored.Jobs.Methods.{append, cancel, by_key}
use canvas_stored.Ledger.Rows.{Base, BaseInput, Row}
use canvas_stored.Ledger.Methods.{get_base, set_base, remove_base, put_skip, is_skipped}
use canvas_stored.Mirror.Decide.{
  Direction, SkipReason, local_only, remote_changed, remote_only, both_changed, Sides,
}

pub record Options : Type 0 where
  pub id : Text
  pub prefixes : List Text
  pub ignore : List Text
  pub propagates : Bool
  pub direction : Direction

-- A location of an index entry: `Lloc` and `Rloc`.
pub record Location : Type 0 where
  pub size : Option ℕ
  pub mtime : Option ℕ

-- What the index and the hub's driver say of a key: `#local3` without the ledger's part, `describe`
-- and `head`. Whether the index has an entry (`Lmeta`, `Rmeta`) is `local_known` and
-- `remote_known`, and the entries' own sizes are `local_size` and `remote_size`.
pub record View : Type 0 where
  pub local_sha : Option Text
  pub remote_sha : Option Text
  pub local_known : Bool
  pub remote_known : Bool
  pub local_at : Option Location
  pub remote_at : Option Location
  pub local_size : Option ℕ
  pub remote_size : Option ℕ
  pub doc_id : Option ℕ
  pub version : Option ℕ
  pub head : ℕ

abbrev pub size_of : Option Location → Option ℕ
size_of none = none
size_of (some l) = l.size

abbrev pub mtime_of : Option Location → Option ℕ
mtime_of none = none
mtime_of (some l) = l.mtime

abbrev pub sha_of : Option Base → Option Text
sha_of none = none
sha_of (some b) = some b.sha256

-- `Map.set`, on the pairs of `#applied`.
unfoldable pub set_applied : List (ℕ × ℕ) → ℕ → ℕ → List (ℕ × ℕ)
set_applied [] doc version = (doc, version) ∷ []
set_applied ((d, v) ∷ pairs) doc version =
    let rest = set_applied pairs doc version in
    if d == doc then (doc, version) ∷ pairs else (d, v) ∷ rest

abbrev pub note_applied : List (ℕ × ℕ) → Option ℕ → Option ℕ → List (ℕ × ℕ)
note_applied pairs (some doc) (some version) = set_applied pairs doc version
note_applied pairs _ _ = pairs

-- The strings of `validateKey`'s reasons, as `#skip` stores them.
abbrev pub reason_name : Reason → Text
reason_name empty = codes "empty"
reason_name nul = codes "nul"
reason_name traversal = codes "traversal"
reason_name absolute = codes "absolute"
reason_name too_long = codes "too-long"
reason_name segment_too_long = codes "segment-too-long"
reason_name reserved_name = codes "reserved-name"
reason_name illegal_chars = codes "illegal-chars"
reason_name trailing_dot_or_space = codes "trailing-dot-or-space"

abbrev pub skip_name : SkipReason → Text
skip_name local_only = codes "local-only"
skip_name remote_changed = codes "remote-changed"
skip_name remote_only = codes "remote-only"
skip_name both_changed = codes "conflict"

abbrev pub is_rename : Text → Bool
is_rename kind = text_eq kind (codes "rename-remote") || text_eq kind (codes "rename-local")

-- An older pending decision that `#enqueue` cancels.
unfoldable pub is_superseded : Text → Job → Bool
is_superseded kind job =
    is_pending job.state && (not (text_eq job.kind kind) && not (is_rename job.kind))

-- The argument that the mirror gives to `append`.
unfoldable pub request : Text → Text → Text → Payload → Option Text → Request
request kind mirror key payload dedupe = record {
  kind = kind;
  mirror = some mirror;
  key = some key;
  payload = payload;
  dedupe = dedupe;
  not_before = 0;
}

-- The fields of the engine that decisions read and write.
pub record Engine (jt : Table nat_key Job) (dt : Table text_key ℕ) (rt : Table text_key Row)
    : Type 0 where
  pub queue : Queue jt dt
  pub rows : rt.Db
  pub applied : List (ℕ × ℕ)
  pub dirty : List Text
  pub stopping : Bool
  pub conflicts : ℕ
  pub reverted : ℕ
  pub last_sync_at : Option ℕ
  pub last_error : Option Text

module _ (nfc : Text → Text) (picomatch : List Text → Text → Bool)
    (locally_ignored : Text → Bool) where
  unfoldable pub in_scope : Options → Text → Bool
  in_scope opts key =
      matches_prefixes nfc picomatch (some key) opts.prefixes
      && (not (is_ignored nfc picomatch (some key) (ignore_defaults ++ opts.ignore))
          && not (locally_ignored key))

module _ (jt : Table nat_key Job) (dt : Table text_key ℕ) (rt : Table text_key Row)
    (opts : Options) where
  abbrev pub State : Type 0
  State = Engine jt dt rt

  -- `L`, `B` and `R` of `#local3`.
  unfoldable pub sides : State → Text → View → Sides
  sides e key view = record {
    local = view.local_sha;
    base = sha_of (get_base rt e.rows opts.id key);
    remote = view.remote_sha;
  }

  -- `Set.add` of the normalized key; the debounce timer is not modelled.
  unfoldable pub mark_dirty : (Text → Text) → State → Text → State
  mark_dirty nfc e raw =
      let key = normalize_key nfc (some raw) in
      if e.stopping || (text_eq key [] || any (text_eq key) e.dirty)
      then e
      else record e { dirty = e.dirty ++ (key ∷ []) }

  -- `#skip`, without its event.
  unfoldable pub skip_key : State → Text → Text → ℕ → State
  skip_key e key reason now =
      if is_skipped rt e.rows opts.id key
      then e
      else record e { rows = (put_skip rt e.rows opts.id key reason now).1 }

  unfoldable pub void_base : State → Text → State
  void_base e key = record e { rows = (remove_base rt e.rows opts.id key).1 }

  abbrev pub agreed : State → Option (Base × rt.Db) → Option State
  agreed e none = none
  agreed e (some (row, rows)) =
      some (record e { rows = rows; applied = note_applied e.applied row.doc_id row.version })

  -- `#agree`; none where `setBase` throws.
  unfoldable pub agree : State → Text → BaseInput → ℕ → Option State
  agree e key input now = agreed e (set_base rt e.rows opts.id key input now)

  -- The loop of `#enqueue` over the jobs that `byKey` returned.
  unfoldable pub supersede : Text → List Job → Queue jt dt → Queue jt dt
  unfolding is_superseded
  supersede kind [] q = q
  supersede kind (job ∷ jobs) q =
      supersede kind jobs (if is_superseded kind job then (cancel jt dt q job.seq).1 else q)

  abbrev pub queued : State → Option (Job × Queue jt dt) → Option State
  queued e none = none
  queued e (some (job, q)) = some (record e { queue = q })

  -- `#enqueue`; none where `append` throws.
  unfoldable pub enqueue : State → Text → Text → Payload → ℕ → Option State
  enqueue e kind key payload now = queued e (
      append jt dt (supersede kind (by_key jt dt e.queue key (some (some opts.id))) e.queue)
        (request kind opts.id key payload none) now)
