-- ===== src/Ledger/Separation.antt =====
-- src/sync/Ledger.js: the rows of different kinds, mirrors and keys do not meet, where the ids of
-- mirrors hold no slash.
use canvas_stored.Prelude.{
  ℕ, ◌++◌, ◌≡◌, refl, sym, ap, ◌∙◌, or_else, truthy, Bool, true, false, ◌&&◌, Option, none, some,
  [], ◌∷◌, arith, Text, any, text_eq, text_eq_iff, text_eq_refl, ◌==◌, if◌then◌else◌, Bool-ext,
}
use canvas_stored.Lmdb.{Table, text_key, get-put, get-remove}
use canvas_stored.Ledger.Rows.{
  Row, Base, BaseInput, BasePatch, base_row, base_of, lower_case, patched, Kind, base, cursor, skip,
  state, kind_name, row_key,
}
use canvas_stored.Ledger.Methods.{
  get_base, put_base, set_base, set_base_to, move_base, move_base_of,
}

-- A mirror id with no slash in it.
abbrev pub IsPlain : Text → Type 0
IsPlain m = any (λ c. c == b'/') m ≡ false

-- A text is cut at its first slash in one way.
cut_once :
    (a b x y : Text) → IsPlain a → IsPlain b → a ++ (b'/' ∷ x) ≡ b ++ (b'/' ∷ y) → (a ≡ b) × (x ≡ y)
cut_once [] [] x y p q e = (refl, ground arith)
cut_once [] (d ∷ b) x y p q e = absurd (ground arith)
cut_once (c ∷ a) [] x y p q e = absurd (ground arith)
cut_once (c ∷ a) (d ∷ b) x y p q e = ground (arith, cut_once a b x y)

-- A plain text is no text with a slash.
plain-ne-cut : (a b x : Text) → IsPlain a → a ≡ b ++ (b'/' ∷ x) → ⊥
plain-ne-cut [] [] x p e = ground arith
plain-ne-cut [] (d ∷ b) x p e = ground arith
plain-ne-cut (c ∷ a) [] x p e = ground arith
plain-ne-cut (c ∷ a) (d ∷ b) x p e = plain-ne-cut a b x (ground arith) (ground arith)

kind_name-IsPlain : (k : Kind) → IsPlain (kind_name k)
kind_name-IsPlain base = refl
kind_name-IsPlain cursor = refl
kind_name-IsPlain skip = refl
kind_name-IsPlain state = refl

kind_name-injective : (k j : Kind) → kind_name k ≡ kind_name j → k ≡ j
kind_name-injective base j e = ground arith
kind_name-injective k j e = ground arith

head_cut :
    (k j : Kind) (x y : Text)
    → kind_name k ++ (b'/' ∷ x) ≡ kind_name j ++ (b'/' ∷ y)
    → (k ≡ j) × (x ≡ y)
head_cut k j x y e =
    let h =
      cut_once (kind_name k) (kind_name j) x y (kind_name-IsPlain k) (kind_name-IsPlain j) e in
    (kind_name-injective k j h.0, h.1)

-- Where the mirrors' ids hold no slash, a row's key gives back the kind, the mirror and the key in the mirror.
pub row_key-injective :
    (k j : Kind) (m n : Text) (a b : Option Text)
    → IsPlain m
    → IsPlain n
    → row_key k m a ≡ row_key j n b
    → (k ≡ j) × (m ≡ n) × (a ≡ b)
unfolding row_key
row_key-injective k j m n none none p q e = let h = head_cut k j m n e in (h.0, h.1, refl)
row_key-injective k j m n none (some b) p q e =
    let h = head_cut k j m (n ++ (b'/' ∷ b)) e in absurd (plain-ne-cut m n b p h.1)
row_key-injective k j m n (some a) none p q e =
    let h = head_cut k j (m ++ (b'/' ∷ a)) n e in absurd (plain-ne-cut n m a q (sym h.1))
row_key-injective k j m n (some a) (some b) p q e =
    let h = head_cut k j (m ++ (b'/' ∷ a)) (n ++ (b'/' ∷ b)) e in
    let r = cut_once m n a b p q h.1 in (h.0, r.0, ap some r.1)

both : (m n a b : Text) → (text_eq m n && text_eq a b) ≡ true → (m ≡ n) × (a ≡ b)
both m n a b e = ground (arith, text_eq_iff m n, text_eq_iff a b)

-- Reading a base after writing one.
base_key-eq :
    (m n a b : Text)
    → IsPlain m
    → IsPlain n
    → text_eq (row_key base m (some a)) (row_key base n (some b)) ≡ (text_eq m n && text_eq a b)
base_key-eq m n a b p q =
    Bool-ext _ _
      (λ e.
        let h = row_key-injective base base m n (some a) (some b) p q ((text_eq_iff _ _).0 e) in
        ground (arith, h, text_eq_iff m n, text_eq_iff a b))
      (λ e. let h = both m n a b e in rw (h.0, h.1) (text_eq_refl (row_key base n (some b))))

-- A base read after a move, by whether the key is the new one or the old one.
abbrev pub moved : Bool → Bool → BasePatch → ℕ → Option Base → Option Base → Option Base
moved is_to is_from patch now none old = old
moved is_to is_from patch now (some b) old =
    if is_to then some (patched b patch now) else if is_from then none else old

module _ (t : Table text_key Row) where
  -- Where the mirrors' ids hold no slash, a base that is written is read back under its mirror and
  -- key, and every other base of any mirror is as it was.
  pub get_base-put_base :
      (d : t.Db) (m n a b : Text) (row : Base)
      → IsPlain m
      → IsPlain n
      → get_base t (put_base t d m a row) n b
        ≡ (if text_eq m n && text_eq a b then some row else get_base t d n b)
  unfolding get_base put_base
  get_base-put_base d m n a b row p q = ground (
    arith,
    get-put t d (row_key base m (some a)) (row_key base n (some b)) (base_row row),
    base_key-eq m n a b p q,
  )

  get_base-remove :
      (d : t.Db) (m n a b : Text)
      → IsPlain m
      → IsPlain n
      → get_base t (t.remove d (row_key base m (some a))) n b
        ≡ (if text_eq m n && text_eq a b then none else get_base t d n b)
  unfolding get_base
  get_base-remove d m n a b p q = ground (
    arith,
    get-remove t d (row_key base m (some a)) (row_key base n (some b)),
    base_key-eq m n a b p q,
  )

  -- What a call of `setBase` on the mirror `m` and the key `a` did, as seen at the key `b` of `n`.
  abbrev pub SetBase : t.Db → Text → Text → Text → Text → BaseInput → Option (Base × t.Db) → Type 0
  SetBase d n m a b input none = truthy input.sha256 ≡ false
  SetBase d n m a b input (some (row, d')) =
      (truthy input.sha256 ≡ true)
      × (row.sha256 ≡ lower_case (or_else input.sha256 []))
      × (get_base t d' n b ≡ (if text_eq m n && text_eq a b then some row else get_base t d n b))

  -- Where the mirrors' ids hold no slash, `setBase` keeps the digest in lower case, under that mirror
  -- and key alone; without a digest it throws and nothing is written.
  pub set_base_lem :
      (d : t.Db) (m n a b : Text) (input : BaseInput) (now : ℕ)
      → IsPlain m
      → IsPlain n
      → SetBase d n m a b input (set_base t d m a input now)
  unfolding set_base set_base_to base_of put_base
  set_base_lem d m n a b input now p q = go input.sha256 refl
    where
      go :
          (o : Option Text)
          → input.sha256 ≡ o
          → SetBase d n m a b input (set_base_to t d m a input now o)
      go none e = rw e refl
      go (some []) e = rw e refl
      go (some (c ∷ cs)) e =
          (rw e refl, rw e refl, get_base-put_base d m n a b (base_of (c ∷ cs) input now) p q)

  -- Where the mirrors' ids hold no slash, `moveBase` moves the row with its digest to the new key, stamped and patched, and no other row
  -- of any mirror changes; where there is no row it changes nothing.
  pub move_base_lem :
      (d : t.Db) (m n from to k : Text) (patch : BasePatch) (now : ℕ)
      → IsPlain m
      → IsPlain n
      → get_base t (move_base t d m from to patch now).1 n k
        ≡ moved
            (text_eq m n && text_eq to k)
            (text_eq m n && text_eq from k)
            patch
            now
            (get_base t d m from)
            (get_base t d n k)
  unfolding move_base move_base_of put_base
  move_base_lem d m n from to k patch now p q = go (get_base t d m from) refl
    where
      go :
          (o : Option Base)
          → get_base t d m from ≡ o
          → get_base t (move_base_of t d m from to patch now o).1 n k
            ≡ moved
                (text_eq m n && text_eq to k)
                (text_eq m n && text_eq from k)
                patch
                now
                o
                (get_base t d n k)
      go none e = refl
      go (some b) e =
          get_base-put_base (t.remove d (row_key base m (some from))) m n to k (patched b patch now)
            p q
          ∙ ap (λ rest. if text_eq m n && text_eq to k then some (patched b patch now) else rest)
              (get_base-remove d m n from k p q)
