-- ===== src/Index/Log.antt =====
-- src/index/index.js: `#append`, `changes` and `trimChanges`.
use canvas_stored.Prelude.{
  ℕ, ◌+◌, ◌-◌, ◌++◌, max, Bool, true, false, ◌&&◌, ◌||◌, Option, none, some, List, [], ◌∷◌, Text,
  codes, text_eq, ltb, leb, or_else, first_some, length, keep, if◌then◌else◌,
}
use canvas_stored.Lmdb.{Table, nat_key, text_key}
use canvas_stored.Index.Rows.{Meta, Op, put_op, rename_op, Change, Logged, Index}

-- `CHANGES_SEQ_KEY`
abbrev pub seq_row : Text
seq_row = codes "changes.seq"

abbrev pub is_put : Op → Bool
is_put put_op = true
is_put _ = false

abbrev pub is_rename_op : Op → Bool
is_rename_op rename_op = true
is_rename_op _ = false

-- `p.backend === clean.backend && p.key === clean.key`
unfoldable pub same_place : Change → Change → Bool
same_place a b = text_eq a.backend b.backend && text_eq a.key b.key

-- `this.#pending.find(…)`
unfoldable pub find_pending : Change → List Logged → Option Logged
unfolding same_place
find_pending c [] = none
find_pending c (p ∷ pending) =
    let rest = find_pending c pending in if same_place p.change c then some p else rest

-- `merged`
unfoldable pub merged : Logged → Change → ℕ → Logged
merged prior c now = record {
  seq = prior.seq;
  time = now;
  change =
      if is_rename_op prior.change.op && is_put c.op
      then record c { op = rename_op; from = prior.change.from }
      else c;
}

-- `Object.assign(prior, merged)`: a field that `merged` has not stays as it was.
unfoldable pub assigned : Logged → Logged → Logged
assigned prior next = record next {
  change = record next.change {
    from = first_some next.change.from prior.change.from;
    origin = first_some next.change.origin prior.change.origin;
  };
}

-- The pending entries with the first one at that place replaced.
unfoldable pub replace_pending : Change → Logged → List Logged → List Logged
unfolding same_place
replace_pending c next [] = []
replace_pending c next (p ∷ pending) =
    let rest = replace_pending c next pending in
    if same_place p.change c then next ∷ pending else p ∷ rest

-- What `changes` returns.
pub record Page : Type 0 where
  pub changes : List Logged
  pub head : ℕ
  pub oldest : Option ℕ
  pub cursor : ℕ
  pub cursor_too_old : Bool

-- `backend && value.backend !== backend` skips.
unfoldable pub of_backend : Option Text → Logged → Bool
of_backend none e = true
of_backend (some []) e = true
of_backend (some (c ∷ cs)) e = text_eq e.change.backend (c ∷ cs)

-- `getRange({ start: from + 1 })`
unfoldable pub after : ℕ → List (ℕ × Logged) → List (ℕ × Logged)
after from rows = keep (λ row. ltb from row.0) rows

-- The loop over these rows, for at most `limit` entries: the entries, and the cursor.
unfoldable pub take_page : Option Text → ℕ → ℕ → List (ℕ × Logged) → List Logged × ℕ
unfolding of_backend
take_page backend limit cursor [] = ([], cursor)
take_page backend limit cursor ((key, e) ∷ rows) =
    let hit = of_backend backend e in
    let rest = take_page backend (if hit then limit - 1 else limit) key rows in
    if hit then if leb limit 1 then (e ∷ [], key) else (e ∷ rest.0, rest.1) else rest

abbrev pub first_key : List (ℕ × Logged) → Option ℕ
first_key [] = none
first_key ((key, e) ∷ rows) = some key

-- The loop of `trimChanges`: the keys up to the first row that stays.
unfoldable pub doomed : (ℕ → Logged → Bool) → List (ℕ × Logged) → List ℕ
doomed is_old [] = []
doomed is_old ((key, e) ∷ rows) =
    let rest = doomed is_old rows in if is_old key e then key ∷ rest else []

module _ (mt : Table text_key Meta) (pt : Table text_key Text) (ct : Table nat_key Logged)
    (st : Table text_key ℕ) where
  abbrev I : Type 0
  I = Index mt pt ct st

  unfoldable pub append_fresh : I → Change → ℕ → I
  append_fresh i c now =
      let seq = i.seq + 1 in
      let full : Logged = record { seq = seq; time = now; change = c } in
      record i {
        changes = ct.put i.changes seq full;
        counters = st.put i.counters seq_row seq;
        seq = seq;
        pending = i.pending ++ (full ∷ []);
        appends = i.appends + 1;
      }

  unfoldable pub append_over : I → Change → ℕ → Option Logged → I
  unfolding append_fresh
  append_over i c now none = append_fresh i c now
  append_over i c now (some prior) =
      let next = merged prior c now in
      record i {
        changes = ct.put i.changes prior.seq next;
        pending = replace_pending c (assigned prior next) i.pending;
      }

  -- `#append`
  unfoldable pub append : I → Change → ℕ → I
  unfolding append_over
  append i c now = append_over i c now (find_pending c i.pending)

  -- `changes`, for a limit that counts (`Math.max(1, …)`).
  unfoldable pub changes : I → Option Text → ℕ → ℕ → Page
  unfolding take_page after
  changes i backend since limit =
      let rows = ct.range i.changes in
      let too_old = ltb (since + 1) (or_else (first_key rows) (i.seq + 1)) in
      let (entries, cursor) =
        if too_old then ([], since) else take_page backend (max 1 limit) since (after since rows) in
      record {
        changes = entries;
        head = i.seq;
        oldest = first_key rows;
        cursor = cursor;
        cursor_too_old = too_old;
      }

  unfoldable pub remove_rows : List ℕ → ct.Db → ct.Db
  remove_rows [] d = d
  remove_rows (key ∷ keys) d = remove_rows keys (ct.remove d key)

  -- `trimChanges`: the number removed. `key < seq - keep + 1` is read without subtracting.
  unfoldable pub trim_changes : I → ℕ → ℕ → ℕ → ℕ × I
  unfolding remove_rows doomed
  trim_changes i kept max_age now =
      let old =
        λ (key : ℕ) (e : Logged). ltb (key + kept) (i.seq + 1) || ltb (e.time + max_age) now in
      let keys = doomed old (ct.range i.changes) in
      (length keys, record i { changes = remove_rows keys i.changes })
