-- ===== src/Lmdb/Sorted.antt =====
-- Association lists in strictly ascending key order: what an LMDB sub-database holds.
use mathlib.Core.Path.{subst}
use canvas_stored.Prelude.{
  ℕ, ◌≡◌, refl, ◌↔◌, Bool, true, false, Option, none, some, List, [], ◌∷◌, arith, ltb, ◌==◌,
  if◌then◌else◌, ==_iff, ltb_irrefl, ltb_trans, ltb_total, Text, text_eq, text_lt, text_eq_iff,
  text_lt_irrefl, text_lt_trans, text_lt_total, Bool-cases, All, inl, inr,
}

-- The keys of a sub-database: decidable equality and a strict total order.
pub record Key (K : Type 0) : Type 0 where
  pub eq : K → K → Bool
  pub lt : K → K → Bool
  pub eq_iff : (a b : K) → (eq a b ≡ true) ↔ (a ≡ b)
  pub lt_irrefl : (a : K) → lt a a ≡ false
  pub lt_trans : (a b c : K) → lt a b ≡ true → lt b c ≡ true → lt a c ≡ true
  pub lt_total : (a b : K) → eq a b ≡ false → lt a b ≡ false → lt b a ≡ true

abbrev pub nat_key : Key ℕ
nat_key = record {
  eq = ◌==◌;
  lt = ltb;
  eq_iff = ==_iff;
  lt_irrefl = ltb_irrefl;
  lt_trans = ltb_trans;
  lt_total = ltb_total;
}

abbrev pub text_key : Key Text
text_key = record {
  eq = text_eq;
  lt = text_lt;
  eq_iff = text_eq_iff;
  lt_irrefl = text_lt_irrefl;
  lt_trans = text_lt_trans;
  lt_total = text_lt_total;
}

module _ {K : Type 0} (o : Key K) where
  pub eq_refl : (k : K) → o.eq k k ≡ true
  eq_refl k = (o.eq_iff k k).1 refl

  eq_sym : (k j : K) → o.eq j k ≡ false → o.eq k j ≡ false
  eq_sym k j n = ground (arith, o.eq_iff j k, o.eq_iff k j)

module _ {K V : Type 0} (o : Key K) where
  unfoldable pub lookup : K → List (K × V) → Option V
  lookup k [] = none
  lookup k ((j, v) ∷ l) = if o.eq j k then some v else lookup k l

  unfoldable pub upsert : K → V → List (K × V) → List (K × V)
  upsert k v [] = (k, v) ∷ []
  upsert k v ((j, w) ∷ l) =
      let rest = (j, w) ∷ upsert k v l in
      if o.eq j k then (k, v) ∷ l else if o.lt k j then (k, v) ∷ (j, w) ∷ l else rest

  unfoldable pub without : K → List (K × V) → List (K × V)
  without k [] = []
  without k ((j, w) ∷ l) = let rest = without k l in if o.eq j k then rest else (j, w) ∷ rest

  -- Every key of the list is above `k`.
  abbrev pub Above : K → List (K × V) → Type 0
  Above k [] = Unit
  Above k ((j, v) ∷ l) = (o.lt k j ≡ true) × Above k l

  abbrev pub IsSorted : List (K × V) → Type 0
  IsSorted [] = Unit
  IsSorted ((k, v) ∷ l) = Above k l × IsSorted l

  pub lookup-upsert :
      (k j : K) (v : V) (l : List (K × V))
      → lookup j (upsert k v l) ≡ (if o.eq k j then some v else lookup j l)
  unfolding lookup upsert
  lookup-upsert k j v [] = refl
  lookup-upsert k j v ((i, w) ∷ l) =
      ground (arith, o.eq_iff k j, o.eq_iff i k, o.eq_iff i j, lookup-upsert k j v l)

  pub lookup-without :
      (k j : K) (l : List (K × V))
      → lookup j (without k l) ≡ (if o.eq k j then none else lookup j l)
  unfolding lookup without
  lookup-without k j [] = ground arith
  lookup-without k j ((i, w) ∷ l) =
      ground (arith, o.eq_iff k j, o.eq_iff i k, o.eq_iff i j, lookup-without k j l)

  Above-trans : (a b : K) (l : List (K × V)) → o.lt a b ≡ true → Above b l → Above a l
  Above-trans a b [] h k = tt
  Above-trans a b ((c, v) ∷ l) h k = (o.lt_trans a b c h k.0, Above-trans a b l h k.1)

  Above-upsert :
      (a k : K) (v : V) (l : List (K × V)) → o.lt a k ≡ true → Above a l → Above a (upsert k v l)
  unfolding upsert
  Above-upsert a k v [] h s = (h, tt)
  Above-upsert a k v ((j, w) ∷ l) h s = ground (arith, Above-upsert a k v l h s.1)

  Above-without : (a k : K) (l : List (K × V)) → Above a l → Above a (without k l)
  unfolding without
  Above-without a k [] s = tt
  Above-without a k ((j, w) ∷ l) s = ground (arith, Above-without a k l s.1)

  -- A row whose key is above `k` is found behind a row for `k` too.
  lookup_skip :
      (k : K) (v : V) (l rows : List (K × V))
      → Above k rows
      → All (λ row. lookup row.0 l ≡ some row.1) rows
      → All (λ row. lookup row.0 ((k, v) ∷ l) ≡ some row.1) rows
  unfolding lookup
  lookup_skip k v l [] a h = tt
  lookup_skip k v l ((j, w) ∷ rows) a h =
      (ground (arith, o.eq_iff k j, o.lt_irrefl j, h.0, a.0), lookup_skip k v l rows a.1 h.1)

  -- Each row of a sorted list is the one that its key finds.
  pub sorted-lookup : (l : List (K × V)) → IsSorted l → All (λ row. lookup row.0 l ≡ some row.1) l
  unfolding lookup
  sorted-lookup [] s = tt
  sorted-lookup ((k, v) ∷ l) s = (rw (eq_refl o k), lookup_skip k v l l s.0 (sorted-lookup l s.1))

  pub upsert-IsSorted : (k : K) (v : V) (l : List (K × V)) → IsSorted l → IsSorted (upsert k v l)
  unfolding upsert
  upsert-IsSorted k v [] s = (tt, tt)
  upsert-IsSorted k v ((j, w) ∷ l) s = elim (Bool-cases (o.eq j k)) [
    | inl e ↦ rw e (subst (λ i. Above i l) ((o.eq_iff j k).0 e) s.0, s.1)
    | inr n ↦ rw n (elim (Bool-cases (o.lt k j)) [
      | inl b ↦ rw b ((b, Above-trans k j l b s.0), s)
      | inr c ↦
          rw c (
            Above-upsert j k v l (o.lt_total k j (eq_sym o k j n) c) s.0,
            upsert-IsSorted k v l s.1,
          )
    ])
  ]

  pub without-IsSorted : (k : K) (l : List (K × V)) → IsSorted l → IsSorted (without k l)
  unfolding without
  without-IsSorted k [] s = tt
  without-IsSorted k ((j, w) ∷ l) s =
      ground (arith, Above-without j k l s.0, without-IsSorted k l s.1)
