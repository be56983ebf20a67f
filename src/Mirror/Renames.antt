-- ===== src/Mirror/Renames.antt =====
-- src/sync/Mirror.js: the jobs `#runRenameRemote` and `#runRenameLocal`.
use canvas_stored.Prelude.{
  ℕ, Bool, false, not, ◌||◌, Option, none, some, List, [], ◌∷◌, Text, codes, text_eq, truthy, same,
  or_else, first_some, if◌then◌else◌,
}
use canvas_stored.Lmdb.{Table, nat_key, text_key}
use canvas_stored.Jobs.Types.{Job}
use canvas_stored.Jobs.Methods.{append}
use canvas_stored.Ledger.Rows.{Base, Row, BasePatch}
use canvas_stored.Ledger.Methods.{get_base, move_base}
use canvas_stored.Mirror.Engine.{
  Options, View, sides, agree, note_applied, void_base, mark_dirty, request, queued,
}
use canvas_stored.Mirror.Redecide.{rename_dedupe, ends}
use canvas_stored.Mirror.Answers.{
  Failure, Reply, reply, throws, Transfer, Call, rename_on_hub, rename_here, Ran, failure, fails,
  done, finish, fresh_remote,
}
use canvas_stored.Mirror.Transfers.{S, later}

-- The result that `#runRenameRemote` makes of an error of `renameObject`.
unfoldable pub caught : Failure → Transfer
caught f = record {
  ok = false;
  reason =
      if same f.code (some (codes "PRECONDITION_FAILED"))
      then codes "precondition-failed"
      else if same f.code (some (codes "NOT_FOUND"))
      then codes "not-found"
      else if same f.code (some (codes "TARGET_EXISTS"))
      then codes "target-exists"
      else codes "transfer-failed";
  code = f.code;
  error = some f.message;
  current = none;
  seq = none;
  mtime = none;
  doc_id = none;
  version = none;
}

abbrev pub result_of : Reply Transfer → Transfer
result_of (reply res) = res
result_of (throws f) = caught f

module _ (jt : Table nat_key Job) (dt : Table text_key ℕ) (rt : Table text_key Row) (opts : Options)
    (nfc : Text → Text) (picomatch : List Text → Text → Bool) (locally_ignored : Text → Bool) where
  abbrev E : Type 0
  E = S jt dt rt opts nfc picomatch locally_ignored

  abbrev mark_both : E → Text → Text → E
  mark_both e from to = mark_dirty jt dt rt opts nfc (mark_dirty jt dt rt opts nfc e from) to

  -- The rename is queued again.
  unfoldable pub again : E → Text → Text → ℕ → Option E
  again e from to now = queued jt dt rt opts e (
      append jt dt e.queue
        (request (codes "rename-remote") opts.id to
          (ends jt dt rt opts nfc picomatch locally_ignored from to)
          (some (rename_dedupe (codes "rename-remote") from to)))
        now)

  -- The hub has no file at the old key.
  abbrev source_gone : E → Text → Text → ℕ → List Call → Reply View → Ran E
  source_gone e from to now calls (throws f) = fails e calls f
  source_gone e from to now calls (reply view) =
      if view.remote_known
      then finish e calls (again e from to now)
      else later jt dt rt opts nfc picomatch locally_ignored (void_base jt dt rt opts e to) to calls

  -- The hub has another file at the new key, or another version at the old one.
  abbrev target_taken : E → Text → Text → List Call → Reply View → Ran E
  target_taken e from to calls (throws f) = fails e calls f
  target_taken e from to calls (reply view) =
      done (mark_both (void_base jt dt rt opts e to) from to) calls

  -- `#runRenameRemote` after its `renameObject` call.
  unfoldable pub renamed_on_hub :
      E → Text → Text → View → View → Reply View → ℕ → List Call → Base → Transfer → Ran E
  unfolding again
  renamed_on_hub e from to view_from view_to polled now calls b res =
      if res.ok
      then finish e calls (
          agree jt dt rt opts e to
            (record {
              sha256 = some b.sha256;
              size = b.size;
              mtime = b.mtime;
              remote_seq = or_else res.seq b.remote_seq;
              doc_id = first_some res.doc_id b.doc_id;
              version = res.version;
            })
            now)
      else if text_eq res.reason (codes "not-found")
      then source_gone e from to now calls (fresh_remote (some b.sha256) view_from polled)
      else if text_eq res.reason (codes "target-exists")
          || text_eq res.reason (codes "precondition-failed")
      then target_taken e from to calls (fresh_remote (some (codes "∅")) view_to polled)
      else fails e calls (failure res to)

  abbrev rename_remote_of :
      E → Text → Text → View → View → Reply View → Reply Transfer → ℕ → Option Base → Ran E
  rename_remote_of e from to view_from view_to polled sent now none =
      later jt dt rt opts nfc picomatch locally_ignored e to []
  rename_remote_of e from to view_from view_to polled sent now (some b) =
      renamed_on_hub e from to view_from view_to polled now (rename_on_hub b.sha256 ∷ []) b
        (result_of sent)

  unfoldable pub run_rename_remote :
      E → Text → Text → View → View → Reply View → Reply Transfer → ℕ → Ran E
  unfolding renamed_on_hub
  run_rename_remote e from to view_from view_to polled sent now =
      rename_remote_of e from to view_from view_to polled sent now (get_base rt e.rows opts.id to)

  -- The ledger after a local rename, and the pair that is noted as applied.
  abbrev moved_here : E → Option Base × rt.Db → E
  moved_here e (none, rows) = record e { rows = rows }
  moved_here e (some b, rows) = record e {
    rows = rows;
    applied = note_applied e.applied b.doc_id b.version;
  }

  -- `#runRenameLocal` after its `move` call; `view` is the new key's then. A driver that knows the
  -- key describes it with both fields.
  unfoldable pub renamed_here :
      E → Text → Text → View → Bool → ℕ → List Call → Reply Transfer → Ran E
  renamed_here e from to view described now calls (throws f) = fails e calls f
  renamed_here e from to view described now calls (reply res) =
      let patch : BasePatch = record {
        remote_seq = some view.head;
        doc_id = if described then some view.doc_id else none;
        version = if described then some view.version else none;
      } in
      if res.ok
      then done (moved_here e (move_base rt e.rows opts.id from to patch now)) calls
      else if text_eq res.reason (codes "not-found")
          || (text_eq res.reason (codes "no-source") || text_eq res.reason (codes "target-exists"))
      then done (mark_both e from to) calls
      else fails e calls (failure res to)

  -- `#runRenameLocal`; `target` is whether the index has a local entry at the new key.
  unfoldable pub run_rename_local :
      E → Text → Text → View → View → Bool → Bool → Reply Transfer → ℕ → Ran E
  unfolding renamed_here
  run_rename_local e from to view_from view_to target described sent now =
      let s = sides jt dt rt opts e from view_from in
      if not (truthy s.local) || (not (same s.local s.base) || target)
      then done (mark_both e from to) []
      else renamed_here e from to view_to described now (rename_here ∷ []) sent
