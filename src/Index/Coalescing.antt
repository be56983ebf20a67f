-- ===== src/Index/Coalescing.antt =====
-- src/index/index.js: `#append` logs one entry for a key within a transaction.
use canvas_stored.Prelude.{
  ℕ, ◌+◌, ◌++◌, ◌≡◌, refl, true, ◌&&◌, Option, none, some, List, [], ◌∷◌, arith, Text, text_eq_refl,
  is_some, if◌then◌else◌, if_intro,
}
use canvas_stored.Lmdb.{Table, nat_key, text_key, get-put_self}
use canvas_stored.Index.Rows.{Meta, Change, Logged, Index}
use canvas_stored.Index.Log.{
  is_put, is_rename_op, same_place, find_pending, merged, assigned, replace_pending, append,
  append_over, append_fresh,
}

module _ (c : Change) where
  same_place_refl : same_place c c ≡ true
  unfolding same_place
  same_place_refl = ground (arith, text_eq_refl c.backend, text_eq_refl c.key)

  merged-place : (prior : Logged) (now : ℕ) → same_place (merged prior c now).change c ≡ true
  unfolding merged same_place
  merged-place prior now =
      if_intro (λ (d : Change). same_place d c ≡ true) (is_rename_op prior.change.op && is_put c.op)
        (λ _. same_place_refl) (λ _. same_place_refl)

  assigned-place :
      (prior next : Logged)
      → same_place next.change c ≡ true
      → same_place (assigned prior next).change c ≡ true
  unfolding assigned same_place
  assigned-place prior next h = h

  find_pending-fresh :
      (pending : List Logged) (full : Logged)
      → find_pending c pending ≡ none
      → same_place full.change c ≡ true
      → find_pending c (pending ++ (full ∷ [])) ≡ some full
  unfolding find_pending
  find_pending-fresh [] full h p = ground arith
  find_pending-fresh (q ∷ pending) full h p = ground (arith, find_pending-fresh pending full)

  find_pending-replaced :
      (pending : List Logged) (next prior : Logged)
      → find_pending c pending ≡ some prior
      → same_place next.change c ≡ true
      → find_pending c (replace_pending c next pending) ≡ some next
  unfolding find_pending replace_pending
  find_pending-replaced [] next prior h p = cc
  find_pending-replaced (q ∷ pending) next prior h p =
      ground (arith, find_pending-replaced pending next prior)

module _ (mt : Table text_key Meta) (pt : Table text_key Text) (ct : Table nat_key Logged)
    (st : Table text_key ℕ) where
  -- What `append` leaves of a change: the log's row, and the pending entry that names it.
  pub record IsLogged (i : Index mt pt ct st) (c : Change) (j : Index mt pt ct st) : Type 0 where
    pub row : Logged
    pub entry : Logged
    pub on_row : ct.get j.changes row.seq ≡ some row
    pub waits : find_pending c j.pending ≡ some entry
    pub same_seq : entry.seq ≡ row.seq
    pub same_id : row.change.id ≡ c.id
    pub in_place : same_place row.change c ≡ true
    pub head : j.seq ≡ (if is_some (find_pending c i.pending) then i.seq else i.seq + 1)

  append_over-IsLogged :
      (i : Index mt pt ct st) (c : Change) (now : ℕ) (o : Option Logged)
      → find_pending c i.pending ≡ o
      → IsLogged i c (append_over mt pt ct st i c now o)
  unfolding append_over append_fresh merged assigned
  append_over-IsLogged i c now none e = record {
    row = record { seq = i.seq + 1; time = now; change = c };
    entry = record { seq = i.seq + 1; time = now; change = c };
    on_row = get-put_self ct i.changes (i.seq + 1) _;
    waits = find_pending-fresh c i.pending _ e (same_place_refl c);
    same_seq = refl;
    same_id = refl;
    in_place = same_place_refl c;
    head = ground arith;
  }
  append_over-IsLogged i c now (some prior) e = record {
    row = merged prior c now;
    entry = assigned prior (merged prior c now);
    on_row = get-put_self ct i.changes prior.seq (merged prior c now);
    waits =
        find_pending-replaced c i.pending _ prior e
          (assigned-place c prior (merged prior c now) (merged-place c prior now));
    same_seq = refl;
    same_id = ground arith;
    in_place = merged-place c prior now;
    head = ground arith;
  }

  -- After `#append` a row of the log has the change's id and place, under the number of the pending
  -- entry that is found at that place;
  -- the counter goes up only if there was no such entry.
  pub append-IsLogged :
      (i : Index mt pt ct st) (c : Change) (now : ℕ) → IsLogged i c (append mt pt ct st i c now)
  unfolding append
  append-IsLogged i c now = append_over-IsLogged i c now (find_pending c i.pending) refl
