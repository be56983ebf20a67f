-- ===== src/Replicas/Retired.antt =====
-- src/sync/ReplicaService.js: which old copies `#apply` removes, by what it sees.
use canvas_stored.Prelude.{
  ℕ, ◌≡◌, refl, Bool, true, false, not, ◌&&◌, Option, none, some, List, [], ◌∷◌, arith, Text, codes,
  text_eq, text_eq_refl, same, same_iff, if◌then◌else◌, if_intro,
}
use canvas_stored.Lmdb.{Table, text_key}
use canvas_stored.Replicas.Types.{
  Replica, Owner, Op, Failure, Tried, did, failed, Backend, Ingress, Service, capabilities,
}
use canvas_stored.Replicas.Outcomes.{Seen, id_of, is_there}
use canvas_stored.Replicas.Place.{
  has_place, Call, remove_directory, remove_object, Reply, Applied, ended, other_claims,
}
use canvas_stored.Replicas.Retire.{names_place, Retiring, stays, retired, retire_file, retire_one}

module _ (ot : Table text_key Op) (wt : Table text_key Owner) (it : Table text_key Ingress)
    (mt : Table text_key ℕ) (keeps : Bool) (backends : Text → Option Backend) where
  retired-calls :
      (s : Service ot wt it mt) (op : Op) (calls : List Call) (code : Text) (res : Tried Reply)
      → (retired ot wt it mt keeps backends s op calls code res).calls ≡ calls
  unfolding retired
  retired-calls s op calls code (failed f) = refl
  retired-calls s op calls code (did res) = ground arith

  -- Nothing is called, or the removal of the old file as it was verified, where the backend can bring
  -- it back.
  abbrev pub retires : Replica → Tried Seen → List Call → Bool
  retires old found [] = true
  retires old (did found) (remove_object backend key match ∷ []) =
      text_eq backend old.backend
      && (text_eq key old.key
          && (same match old.content_id
              && (same (id_of found) old.content_id
                  && (capabilities keeps (backends old.backend)).retire)))
  retires old found _ = false

  retire_file-retires :
      (s : Service ot wt it mt) (op : Op) (old : Replica) (a : Retiring) (found : Tried Seen)
      → retires old found (retire_file ot wt it mt keeps backends s op old a found).calls ≡ true
  unfolding retire_file
  retire_file-retires s op old a (failed f) = refl
  retire_file-retires s op old a (did found) =
      let P : Applied (Service ot wt it mt) → Type 0 =
        λ out. retires old (did found) out.calls ≡ true in
      if_intro P (not (is_there found)) (λ h. refl)
        (λ h.
          if_intro P (not (same (id_of found) old.content_id)) (λ h. refl)
            (λ same_id.
              if_intro P (not (capabilities keeps (backends old.backend)).retire) (λ h. refl)
                (λ can.
                  rw
                    (retired-calls s op (remove_object old.backend old.key old.content_id ∷ [])
                      (codes "REMOVE_FAILED") a.removed)
                    (ground (
                      arith,
                      same_id,
                      can,
                      text_eq_refl old.backend,
                      text_eq_refl old.key,
                      same_iff old.content_id old.content_id,
                    )))))

  -- Nothing is called, or the removal of the directory, which is refused unless it is empty.
  abbrev pub clears : Replica → List Call → Bool
  clears old [] = true
  clears old (remove_directory backend key ∷ []) =
      text_eq backend old.backend && text_eq key old.key
  clears old _ = false

  -- A copy that has no place any more: it is kept equal and managed here, no one else claims it, and
  -- the plan neither has it as an outcome nor preserves it.
  abbrev pub is_retirable : Op → Replica → Bool → Bool
  is_retirable op old claimed =
      old.is_mirror
      && (old.managed
          && (not claimed
              && (not (has_place old.backend old.key op.outcomes)
                  && not (names_place old.backend old.key op.plan.preserve))))

  stays-is_retirable :
      (op : Op) (old : Replica) (claimed : Bool)
      → stays op old claimed ≡ false
      → is_retirable op old claimed ≡ true
  unfolding stays
  stays-is_retirable op old claimed h = ground (arith, h)

  -- The calls for a copy of the base: none where it stays.
  abbrev pub removes : Op → Replica → Bool → Tried Seen → List Call → Bool
  removes op old claimed found [] = true
  removes op old claimed found (call ∷ calls) =
      is_retirable op old claimed
      && (if old.is_directory then clears old (call ∷ calls) else retires old found (call ∷ calls))

  removes_any :
      (op : Op) (old : Replica) (claimed : Bool) (found : Tried Seen) (calls : List Call)
      → stays op old claimed ≡ false
      → (if old.is_directory then clears old calls else retires old found calls) ≡ true
      → removes op old claimed found calls ≡ true
  removes_any op old claimed found [] n h = refl
  removes_any op old claimed found (call ∷ calls) n h =
      ground (arith, stays-is_retirable op old claimed n, h)

  ended-clears :
      (s : Service ot wt it mt) (op : Op) (old : Replica) (f : Option Failure)
      → clears old (ended s op (remove_directory old.backend old.key ∷ []) f).calls ≡ true
  ended-clears s op old none = ground (arith, text_eq_refl old.backend, text_eq_refl old.key)
  ended-clears s op old (some f) = ground (arith, text_eq_refl old.backend, text_eq_refl old.key)

  clears_or_retires :
      (old : Replica) (found : Tried Seen) (b : Bool) (x y : Applied (Service ot wt it mt))
      → clears old x.calls ≡ true
      → retires old found y.calls ≡ true
      → (if b
          then clears old (if b then x else y).calls
          else retires old found (if b then x else y).calls)
        ≡ true
  clears_or_retires old found true x y h k = h
  clears_or_retires old found false x y h k = k

  retired-removes :
      (s : Service ot wt it mt) (op : Op) (old : Replica) (a : Retiring) (claimed : Bool)
      → stays op old claimed ≡ false
      → removes op old claimed a.found
          (if old.is_directory
            then ended s op (remove_directory old.backend old.key ∷ []) a.cleared
            else retire_file ot wt it mt keeps backends s op old a a.found).calls
        ≡ true
  retired-removes s op old a claimed n = removes_any op old claimed a.found _ n (
      clears_or_retires old a.found old.is_directory _ _ (ended-clears s op old a.cleared)
        (retire_file-retires s op old a a.found))

  -- For a copy that the owner had, `#apply` calls for nothing, or for one removal. It calls for none
  -- where the copy is an outcome of the plan, or is preserved, or is not kept equal, or is not managed
  -- here, or is claimed by another owner or operation. A directory is removed only by the call that
  -- refuses one with content; a file only as what was verified last, which it was seen to be, on that
  -- condition, and where its backend can bring it back.
  pub retire_one-removes :
      (s : Service ot wt it mt) (op : Op) (old : Replica) (a : Retiring)
      → removes op old
          (other_claims ot wt it mt keeps backends s op old.backend old.key)
          a.found
          (retire_one ot wt it mt keeps backends s op old a).calls
        ≡ true
  unfolding retire_one
  retire_one-removes s op old a =
      let claimed = other_claims ot wt it mt keeps backends s op old.backend old.key in
      let P : Applied (Service ot wt it mt) → Type 0 =
        λ out. removes op old claimed a.found out.calls ≡ true in
      if_intro P a.is_held (λ h. refl)
        (λ h.
          if_intro P (stays op old claimed) (λ h. refl) (λ n. retired-removes s op old a claimed n))
