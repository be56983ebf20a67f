-- ===== src/Stored/Versions.antt =====
-- src/index.js: that `discardTrashBytes` leaves the versions.
use mathlib.Core.Path.{subst}
use canvas_stored.Prelude.{
  ℕ, ◌≡◌, refl, sym, ap, ◌∙◌, Bool, true, not, ◌&&◌, ◌||◌, Option, none, some, List, [], ◌∷◌, ◌++◌,
  any, keep, arith, Text, text_eq, text_eq_iff, text_eq_refl, truthy, or_else, if_intro,
}
use canvas_stored.Lmdb.{Table, text_key, get-put_self}
use canvas_stored.Ledger.Rows.{lower_case, lower_char}
use canvas_stored.Trash.Types.{Item, Row}
use canvas_stored.Trash.Rows.{has_reference}
use canvas_stored.Replicas.Types.{Tried, did, failed}
use canvas_stored.Stored.Retention.{
  Entry, Content, version, has_text, address_of, list_or, unique, retained_entry, Drop,
}
use canvas_stored.Stored.Retained.{
  Keeper, Discarded, get_retained, record_retained, retain_answered, retain, keys_left, keeps_bytes,
  discard_found, discard_trash_bytes,
}

has_text-keep :
    (k : Text) (p : Text → Bool) (l : List Text)
    → p k ≡ true
    → has_text k l ≡ true
    → has_text k (keep p l) ≡ true
has_text-keep k p [] h m = m
has_text-keep k p (j ∷ l) h m =
    if_intro (λ out. has_text k out ≡ true) (p j) (λ g. ground (arith, m, has_text-keep k p l h))
      (λ g.
        has_text-keep k p l h
          (ground (arith, m, text_eq_iff j k, g, λ (e : j ≡ k). subst (λ i. p i ≡ true) (sym e) h)))

has_text-unique : (k : Text) (l : List Text) → has_text k l ≡ true → has_text k (unique l) ≡ true
unfolding unique
has_text-unique k [] m = m
has_text-unique k (j ∷ l) m = ground (
  arith,
  m,
  text_eq_iff j k,
  text_eq_iff k j,
  has_text-unique k l,
  has_text-keep k (λ i. not (text_eq i j)) (unique l),
)

has_text_last : (k : Text) (l : List Text) → has_text k (l ++ (k ∷ [])) ≡ true
has_text_last k [] = ground (arith, text_eq_refl k)
has_text_last k (j ∷ l) = ground (arith, has_text_last k l)

any_of_has : (k : Text) (l : List Text) → has_text k l ≡ true → any (λ j. true) l ≡ true
any_of_has k [] m = m
any_of_has k (j ∷ l) m = refl

lower_case_idem : (a : Text) → lower_case (lower_case a) ≡ lower_case a
unfolding lower_case lower_char
lower_case_idem [] = refl
lower_case_idem (c ∷ cs) = ground (arith, lower_case_idem cs)

module _ (et : Table text_key Entry) (rt : Table text_key Row) where
  -- No backend was asked to drop bytes, and the entry has the key.
  abbrev pub Keeps : Text → Text → Discarded et.Db → Type 0
  Keeps sha address out =
      (out.asked ≡ [])
      × ((e : Entry) × (et.get out.entries sha ≡ some e) × (has_text address e.keys ≡ true))

  discard_found-Keeps :
      (names : List Text) (d : et.Db) (r : rt.Db) (sha : Text) (item : Item) (drops : Text → Drop)
      (e : Entry) (address : Text)
      → has_text address (keys_left et rt r sha item e) ≡ true
      → Keeps sha address (discard_found et rt names d r sha item drops (some e))
  unfolding discard_found keeps_bytes
  discard_found-Keeps names d r sha item drops e address h =
      if_intro (Keeps sha address)
        (any (λ k. true) (keys_left et rt r sha item e) || has_reference rt r sha item.id none)
        (λ g. (refl, (_, get-put_self et d sha _, h)))
        (λ g. absurd (ground (arith, g, any_of_has address (keys_left et rt r sha item e) h)))

  keys_left-has_text :
      (r : rt.Db) (sha : Text) (item : Item) (e : Entry) (address : Text)
      → has_text address e.keys ≡ true
      → has_text address (list_or e.version_keys []) ≡ true
      → has_text address (keys_left et rt r sha item e) ≡ true
  unfolding keys_left
  keys_left-has_text r sha item e address h v = has_text-keep address _ e.keys (ground (arith, v)) h

  -- A discard of a deletion with this digest, whatever the trash has and the backends answer.
  abbrev pub Spares : et.Db → Text → Text → Type 0
  Spares d sha address =
      (names : List Text) (r : rt.Db) (item : Item) (drops : Text → Drop)
      → Keeps sha address (discard_trash_bytes et rt true names d r sha item drops)

  abbrev pub Saved : Text → Tried ((Option Entry × Option Item) × (et.Db × rt.Db)) → Type 0
  Saved address (failed f) = Unit
  Saved address (did ((none, prepared), (d, r))) = Unit
  Saved address (did ((some e, prepared), (d, r))) = Spares d e.sha256 address

  retained-Spares :
      (names : List Text) (d : et.Db) (name key sha : Text) (content : Content) (kept : Option ℕ)
      (now : ℕ) (prev : Option Entry)
      → lower_case sha ≡ sha
      → Spares
          (et.put d sha (retained_entry names prev name key sha content kept version now))
          sha
          (address_of name key)
  unfolding discard_trash_bytes get_retained retained_entry
  retained-Spares names d name key sha content kept now prev low others r item drops =
      let e = retained_entry names prev name key sha content kept version now in
      subst
        (λ o.
          Keeps sha (address_of name key)
            (discard_found et rt others (et.put d sha e) r sha item drops o))
        (sym (ap (λ s. et.get (et.put d sha e) s) low ∙ get-put_self et d sha e))
        (discard_found-Keeps others (et.put d sha e) r sha item drops e (address_of name key) (
          keys_left-has_text r sha item e (address_of name key)
            (has_text-unique (address_of name key) _ (has_text_last (address_of name key) _))
            (has_text-unique (address_of name key) _ (has_text_last (address_of name key) _))))

  retain_answered-Saved :
      (days : ℕ) (names : List Text) (d : et.Db) (r : rt.Db) (name key sha : Text)
      (content : Content) (answer : Tried (Option (Option ℕ))) (id : Text) (now : ℕ)
      → lower_case sha ≡ sha
      → Saved
          (address_of name key)
          (retain_answered et rt days names d r name key sha content answer version id now)
  unfolding retain_answered record_retained
  retain_answered-Saved days names d r name key sha content (failed f) id now low = tt
  retain_answered-Saved days names d r name key sha content (did none) id now low = tt
  retain_answered-Saved days names d r name key sha content (did (some kept)) id now low =
      retained-Spares names d name key sha content kept now (et.get d sha) low

  -- Once the bytes that a write replaces are retained, discarding any deletion with their digest
  -- leaves them: no backend is asked to drop them, and the entry still names the key of the version.
  pub retain-discard_trash_bytes :
      (days : ℕ) (names : List Text) (d : et.Db) (r : rt.Db) (name key : Text) (content : Content)
      (keeper : Option Keeper) (id : Text) (now : ℕ)
      → Saved
          (address_of name key)
          (retain et rt days names d r name key content keeper version id now)
  unfolding retain
  retain-discard_trash_bytes days names d r name key content none id now = tt
  retain-discard_trash_bytes days names d r name key content (some k) id now =
      if_intro (Saved (address_of name key))
        (not (k.is_local && k.keeps) || not (truthy content.sha256)) (λ g. tt)
        (λ g.
          retain_answered-Saved days names d r name key (lower_case (or_else content.sha256 []))
            content k.answer id now (lower_case_idem (or_else content.sha256 [])))
