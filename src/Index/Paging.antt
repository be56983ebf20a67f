-- ===== src/Index/Paging.antt =====
-- src/index/index.js: a reader that tails the change log page by page sees each entry once.
use mathlib.Core.Path.{subst}
use canvas_stored.Prelude.{
  ℕ, ◌-◌, ◌++◌, ◌≤◌, ◌≡◌, refl, sym, ◌∙◌, ap, max, Bool, false, Option, List, [], ◌∷◌, map, arith,
  Text, ltb, length, keep, if◌then◌else◌, if_intro, ◌⊎◌, inl, inr,
}
use canvas_stored.Lmdb.{Table, nat_key, text_key, Above, IsSorted}
use canvas_stored.Index.Rows.{Meta, Logged, Index}
use canvas_stored.Index.Log.{of_backend, after, take_page, changes}

-- The entries of a backend among some rows.
abbrev pub entries : Option Text → List (ℕ × Logged) → List Logged
entries backend rows = keep (of_backend backend) (map (λ row. row.1) rows)

after-Above : (c : ℕ) (rows : List (ℕ × Logged)) → Above nat_key c rows → after c rows ≡ rows
unfolding after
after-Above c [] h = refl
after-Above c ((k, e) ∷ rows) h = ground (arith, after-Above c rows h.1)

cursor_bound :
    (b : Option Text) (limit c : ℕ) (rows : List (ℕ × Logged))
    → Above nat_key c rows
    → IsSorted nat_key rows
    → c ≤ (take_page b limit c rows).1
unfolding take_page
cursor_bound b limit c [] h s = omega arith
cursor_bound b limit c ((k, e) ∷ rows) h s =
    ground (arith, h.0, cursor_bound b (if of_backend b e then limit - 1 else limit) k rows s.0 s.1)

-- A page and the entries behind its cursor are all entries.
page-append :
    (b : Option Text) (limit c : ℕ) (rows : List (ℕ × Logged))
    → Above nat_key c rows
    → IsSorted nat_key rows
    → entries b rows
      ≡ (take_page b limit c rows).0 ++ entries b (after (take_page b limit c rows).1 rows)
unfolding take_page after
page-append b limit c [] h s = refl
page-append b limit c ((k, e) ∷ rows) h s =
    let next = if of_backend b e then limit - 1 else limit in
    ground (
      arith,
      after-Above k rows s.0,
      cursor_bound b next k rows s.0 s.1,
      page-append b next k rows s.0 s.1,
    )

-- A page is no longer than the limit, and where it is shorter, nothing is behind its cursor.
page-length :
    (b : Option Text) (limit c : ℕ) (rows : List (ℕ × Logged))
    → 1 ≤ limit
    → Above nat_key c rows
    → IsSorted nat_key rows
    → (length (take_page b limit c rows).0 ≤ limit)
      × ((limit ≤ length (take_page b limit c rows).0)
          ⊎ (after (take_page b limit c rows).1 rows ≡ []))
unfolding take_page after
page-length b limit c [] l h s = (omega arith, inr refl)
page-length b limit c ((k, e) ∷ rows) l h s =
    let next = if of_backend b e then limit - 1 else limit in
    ground (arith, cursor_bound b next k rows s.0 s.1, page-length b next k rows, s.0, s.1)

after-after : (a c : ℕ) (rows : List (ℕ × Logged)) → a ≤ c → after c (after a rows) ≡ after c rows
unfolding after
after-after a c [] h = refl
after-after a c ((k, e) ∷ rows) h = ground (arith, after-after a c rows h)

Above-after :
    (a c : ℕ) (rows : List (ℕ × Logged)) → Above nat_key a rows → Above nat_key a (after c rows)
unfolding after
Above-after a c [] h = tt
Above-after a c ((k, e) ∷ rows) h =
    if_intro (Above nat_key a) (ltb c k) (λ _. (h.0, Above-after a c rows h.1))
      (λ _. Above-after a c rows h.1)

after-Above_self : (c : ℕ) (rows : List (ℕ × Logged)) → Above nat_key c (after c rows)
unfolding after
after-Above_self c [] = tt
after-Above_self c ((k, e) ∷ rows) =
    if_intro (Above nat_key c) (ltb c k) (λ h. (h, after-Above_self c rows))
      (λ _. after-Above_self c rows)

after-IsSorted :
    (c : ℕ) (rows : List (ℕ × Logged)) → IsSorted nat_key rows → IsSorted nat_key (after c rows)
unfolding after
after-IsSorted c [] s = tt
after-IsSorted c ((k, e) ∷ rows) s =
    if_intro (IsSorted nat_key) (ltb c k)
      (λ _. (Above-after k c rows s.0, after-IsSorted c rows s.1)) (λ _. after-IsSorted c rows s.1)

module _ (mt : Table text_key Meta) (pt : Table text_key Text) (ct : Table nat_key Logged)
    (st : Table text_key ℕ) where
  -- Unless the cursor is too old, the entries of the backend behind `since` are those of the page,
  -- in order, and then those behind the page's cursor. A page has at most `limit` entries, and where
  -- it has fewer, no entry at all is behind its cursor.
  pub changes-append :
      (i : Index mt pt ct st) (b : Option Text) (since limit : ℕ)
      → (changes mt pt ct st i b since limit).cursor_too_old ≡ false
      → let page = changes mt pt ct st i b since limit in
        (entries b (after since (ct.range i.changes))
          ≡ page.changes ++ entries b (after page.cursor (ct.range i.changes)))
        × (length page.changes ≤ max 1 limit)
        × ((max 1 limit ≤ length page.changes) ⊎ (after page.cursor (ct.range i.changes) ≡ []))
  unfolding changes
  changes-append i b since limit h =
      let rows = ct.range i.changes in
      let seen = after since rows in
      let above = after-Above_self since rows in
      let sorted = after-IsSorted since rows (ct.range-IsSorted i.changes) in
      let out = take_page b (max 1 limit) since seen in
      let passes = cursor_bound b (max 1 limit) since seen above sorted in
      let behind = after-after since out.1 rows passes in
      let size = page-length b (max 1 limit) since seen (omega arith) above sorted in
      subst
        (λ (t : Bool).
          let (page, cursor) = if t then ([], since) else out in
          (entries b seen ≡ page ++ entries b (after cursor rows))
          × (length page ≤ max 1 limit)
          × ((max 1 limit ≤ length page) ⊎ (after cursor rows ≡ [])))
        (sym h)
        (
          page-append b (max 1 limit) since seen above sorted
              ∙ ap (λ r. out.0 ++ entries b r) behind,
          size.0,
          elim size.1 [ inl full ↦ inl full | inr rest ↦ inr (sym behind ∙ rest) ],
        )
