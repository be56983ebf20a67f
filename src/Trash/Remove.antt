-- ===== src/Trash/Remove.antt =====
-- src/trash.js: `remove`, the removal of a file by an operation of another side.
-- SHA-256 is a parameter; the answers to the calls that are awaited are arguments. `removeObject` of
-- the class Stored is one of these: what it writes itself of the record it is given (it quarantines
-- it, finishes it, or takes it back where it fails) is not among the sub-database's changes here.
use canvas_stored.Prelude.{
  ℕ, ◌++◌, Bool, true, false, not, ◌&&◌, ◌||◌, Option, none, some, List, [], ◌∷◌, Text, codes,
  text_eq, truthy, same, or_else, leb, length, all, ◌==◌, if◌then◌else◌, slice,
}
use canvas_stored.Lmdb.{Table, text_key}
use canvas_stored.Trash.Types.{
  file, pending, Item, Row, item_key, as_item, is_settled, Backend, Answer, answer, fails, Reply,
  Call, saved, keep_copy, drop_copy, remove_object, Ran, returns, threw, refused, went_well,
}
use canvas_stored.Trash.Rows.{save, finish, finished}

-- `/^[a-f0-9]{64}$/i`
unfoldable pub is_hex : ℕ → Bool
is_hex c = leb b'0' c && leb c b'9' || (leb b'a' c && leb c b'f' || leb b'A' c && leb c b'F')

unfoldable pub is_digest : Text → Bool
unfolding is_hex
is_digest sha = length sha == 64 && all is_hex sha

-- The id of an operation: the digest of its name, spelled as a UUID.
unfoldable pub uuid_of : Text → Text
uuid_of d =
    slice 0 8 d
    ++ (codes "-"
        ++ (slice 8 12 d
            ++ (codes "-"
                ++ (slice 12 16 d
                    ++ (codes "-" ++ (slice 16 20 d ++ (codes "-" ++ slice 20 32 d)))))))

unfoldable pub is_protected : Option Backend → Bool
is_protected none = true
is_protected (some b) = not b.can_delete || (b.read_only || not b.accepts_deletions)

abbrev pub driver_of : Option Backend → Text
driver_of none = []
driver_of (some b) = b.driver

pub record Stat : Type 0 where
  pub size : Option ℕ
  pub modified : Option ℕ

-- The answers to `verifyRoot` (`none` where the driver has none), `stat`, `get` (the bytes), whether
-- the copy into the cache goes through, and to `removeObject`.
pub record Answers : Type 0 where
  pub root : Answer (Option Bool)
  pub stat : Answer (Option Stat)
  pub content : Answer (Option Text)
  pub is_copied : Bool
  pub removal : Answer Reply

-- The record of a first attempt.
unfoldable pub removal_item : Text → Text → Text → Text → Stat → ℕ → Item
removal_item id backend key sha stat now = record {
  id = id;
  backend = backend;
  key = key;
  kind = file;
  sha256 = some sha;
  size = stat.size;
  mime_type = none;
  mtime = stat.modified;
  reason = some (codes "propagated-delete");
  deleted_at = now;
  state = pending;
  manual = true;
  recovery_ready = false;
  quarantined = false;
  legacy = false;
  cache_key = some (codes "trash:" ++ id);
  restored_at = none;
  discarded_at = none;
}

abbrev pub is_ready : Option Item → Bool
is_ready none = false
is_ready (some item) = item.recovery_ready

abbrev pub ready : Item → Item
ready item = record item { recovery_ready = true }

-- `item && (item.backend !== backendName || item.key !== key || item.sha256 !== sha256)`
unfoldable pub is_of : Text → Text → Text → Item → Bool
is_of backend key sha item =
    text_eq item.backend backend && (text_eq item.key key && same item.sha256 (some sha))

module _ (t : Table text_key Row) (days : ℕ) (sha256 : Text → Text) where
  -- After the answer of `removeObject`.
  unfoldable pub remove_answered : t.Db → Item → List Call → Answer Reply → Ran t.Db Reply
  unfolding finish
  remove_answered d item calls fails = threw d calls
  remove_answered d item calls (answer res) =
      if not res.ok
      then returns d calls res
      else returns (finish t d (some item)) (calls ++ (saved (finished item) ∷ []))
          (record res { id = some item.id })

  unfoldable pub remove_bytes : t.Db → Text → Item → Answers → List Call → Ran t.Db Reply
  unfolding remove_answered
  remove_bytes d sha item answers calls =
      remove_answered d item (calls ++ (remove_object item.backend item.key sha ∷ []))
        answers.removal

  -- Once the bytes were copied: only a copy of the digest that was asked for is good.
  unfoldable pub copied : t.Db → Text → Item → Answers → List Call → Text → Ran t.Db Reply
  unfolding remove_bytes save
  copied d sha item answers calls bytes =
      let kept = calls ++ (keep_copy item.cache_key bytes ∷ []) in
      if not answers.is_copied
      then threw d kept
      else if not (text_eq (sha256 bytes) sha)
      then returns d (kept ++ (drop_copy item.cache_key ∷ [])) (refused (codes "source-changed"))
      else remove_bytes (save t d (ready item)) sha (ready item) answers
          (kept ++ (saved (ready item) ∷ []))

  unfoldable pub copy_first :
      t.Db → Text → Item → Answers → List Call → Answer (Option Text) → Ran t.Db Reply
  unfolding copied
  copy_first d sha item answers calls fails = threw d calls
  copy_first d sha item answers calls (answer none) =
      returns d calls (refused (codes "source-unreadable"))
  copy_first d sha item answers calls (answer (some bytes)) = copied d sha item answers calls bytes

  unfoldable pub remove_recoverable : t.Db → Text → Item → Answers → Ran t.Db Reply
  unfolding copy_first remove_bytes save
  remove_recoverable d sha item answers =
      if item.recovery_ready
      then remove_bytes (save t d item) sha item answers (saved item ∷ [])
      else copy_first (save t d item) sha item answers (saved item ∷ []) answers.content

  abbrev pub is_missing : Reply → Reply
  is_missing r = record r { id = none; missing = true }

  unfoldable pub remove_absent : t.Db → Text → Option Item → Ran t.Db Reply
  unfolding finish
  remove_absent d id none = returns d [] (is_missing (went_well id))
  remove_absent d id (some item) =
      if item.recovery_ready
      then returns (finish t d (some item)) (saved (finished item) ∷ []) (went_well id)
      else returns d [] (is_missing (went_well id))

  unfoldable pub remove_seen :
      t.Db
      → Text
      → Text
      → Text
      → Text
      → ℕ
      → Answers
      → Option Item
      → Answer (Option Stat)
      → Ran t.Db Reply
  unfolding remove_absent remove_recoverable removal_item
  remove_seen d id backend key sha now answers item fails = threw d []
  remove_seen d id backend key sha now answers item (answer none) = remove_absent d id item
  remove_seen d id backend key sha now answers item (answer (some stat)) =
      remove_recoverable d sha (or_else item (removal_item id backend key sha stat now)) answers

  unfoldable pub remove_rooted :
      t.Db
      → Text
      → Text
      → Text
      → Text
      → ℕ
      → Answers
      → Option Item
      → Answer (Option Bool)
      → Ran t.Db Reply
  unfolding remove_seen
  remove_rooted d id backend key sha now answers item fails = threw d []
  remove_rooted d id backend key sha now answers item (answer root) =
      if not (or_else root true)
      then returns d [] (refused (codes "backend-unavailable"))
      else remove_seen d id backend key sha now answers item answers.stat

  -- With the record of an earlier attempt, if there is one.
  unfoldable pub remove_again :
      t.Db → Text → Text → Text → Text → ℕ → Answers → Option Item → Ran t.Db Reply
  unfolding remove_rooted is_of
  remove_again d id backend key sha now answers none =
      remove_rooted d id backend key sha now answers none answers.root
  remove_again d id backend key sha now answers (some item) =
      if not (is_of backend key sha item)
      then returns d [] (refused (codes "operation-conflict"))
      else if is_settled item.state
      then returns d [] (record (went_well id) { state = some item.state })
      else remove_rooted d id backend key sha now answers (some item) answers.root

  unfoldable pub remove :
      t.Db → Text → Text → Option Text → Option Text → Option Backend → Answers → ℕ → Ran t.Db Reply
  unfolding remove_again is_digest is_protected uuid_of
  remove d backend key operation sha found answers now =
      let id = uuid_of (sha256 (or_else operation [])) in
      if not (truthy operation) || not (is_digest (or_else sha []))
      then returns d [] (refused (codes "content-identity-required"))
      else if is_protected found
      then returns d [] (refused (codes "protected-backend"))
      else if not (text_eq (driver_of found) (codes "file"))
          && not (text_eq (driver_of found) (codes "cacache"))
      then returns d [] (refused (codes "conditional-removal-unsupported"))
      else if text_eq (driver_of found) (codes "file") && days == 0
      then returns d [] (refused (codes "file-recovery-unavailable"))
      else remove_again d id backend key (or_else sha []) now answers
          (as_item (t.get d (item_key id)))
