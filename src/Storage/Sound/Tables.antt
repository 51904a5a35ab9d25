-- ===== src/Storage/Sound/Tables.antt =====
-- Each change of the tables keeps the index sound.
use agent_coderag.Prelude.{
  length, ℕ, ◌≡◌, ◌≢◌, refl, sym, ◌∙◌, ap, Bool, true, false, not, Option, none, some, List, [],
  ◌∷◌, Text, text_eq, ◌==◌, if◌then◌else◌, arith, ltb, nat_eq, All, All-map_of, Distinct,
  Bool-cases, Option-cases, inl, inr, contains, keep,
}
use mathlib.Core.Path.{subst}
use agent_coderag.Prelude.Dict.{lookup, insert, lookup-insert}
use agent_coderag.Core.{ok}
use agent_coderag.Storage.Db.{
  Row, Db, find_row, upsert_row, find_vector, schema_vec_width, fits, put_vector,
}
use agent_coderag.Storage.Bind.{create_vectors}
use agent_coderag.Storage.Units.{row_ids, delete_rows_where}
use agent_coderag.Storage.Units.Stored.{find_row-upsert_row}
use agent_coderag.Storage.Units.Stale.{find_vector-delete_rows_where}
use agent_coderag.Storage.Sound.{found, IsSound}

All-row_ids-upsert_row :
    (P : Text → Type 0) (r : Row) (rows : List Row)
    → P r.id
    → All P (row_ids rows)
    → All P (row_ids (upsert_row r rows))
unfolding row_ids upsert_row
All-row_ids-upsert_row P r [] h hs = (h, tt)
All-row_ids-upsert_row P r (q ∷ rows) h (hq, hs) = elim (Bool-cases (r.id == q.id)) [
  | inl e ↦ rw e (h, hs)
  | inr e ↦ rw e (hq, All-row_ids-upsert_row P r rows h hs)
]

Distinct-row_ids-upsert_row :
    (r : Row) (rows : List Row) → Distinct (row_ids rows) → Distinct (row_ids (upsert_row r rows))
unfolding row_ids upsert_row
Distinct-row_ids-upsert_row r [] h = (tt, tt)
Distinct-row_ids-upsert_row r (q ∷ rows) (n, h) = elim (Bool-cases (r.id == q.id)) [
  | inl e ↦
      let same : q.id ≡ r.id = ground arith in
      rw e (All-map_of (row_ids rows) (λ y (ne : q.id ≢ y). λ (p : r.id ≡ y). ne (same ∙ p)) n, h)
  | inr e ↦ rw e (
    All-row_ids-upsert_row (λ y. q.id ≢ y) r rows (λ p. ground arith) n,
    Distinct-row_ids-upsert_row r rows h,
  )
]

-- A row is found under its id exactly if its id is among the ids.
found-find_row : (j : Text) (rows : List Row) → found (find_row j rows) ≡ contains (row_ids rows) j
unfolding find_row row_ids
found-find_row j [] = refl
found-find_row j (r ∷ rows) = ground (arith, found-find_row j rows)

find_row-absent :
    (j : Text) (rows : List Row) → All (λ y. j ≢ y) (row_ids rows) → find_row j rows ≡ none
unfolding find_row row_ids
find_row-absent j [] h = refl
find_row-absent j (r ∷ rows) (n, h) = ground (arith, find_row-absent j rows h)

All-row_ids-keep :
    (P : Text → Type 0) (p : Row → Bool) (rows : List Row)
    → All P (row_ids rows)
    → All P (row_ids (keep p rows))
unfolding row_ids
All-row_ids-keep P p [] h = tt
All-row_ids-keep P p (r ∷ rows) (n, h) = elim (Bool-cases (p r)) [
  | inl e ↦ rw e (n, All-row_ids-keep P p rows h)
  | inr e ↦ rw e (All-row_ids-keep P p rows h)
]

Distinct-row_ids-keep :
    (p : Row → Bool) (rows : List Row) → Distinct (row_ids rows) → Distinct (row_ids (keep p rows))
unfolding row_ids
Distinct-row_ids-keep p [] h = tt
Distinct-row_ids-keep p (r ∷ rows) (n, h) = elim (Bool-cases (p r)) [
  | inl e ↦ rw e (All-row_ids-keep (λ y. r.id ≢ y) p rows n, Distinct-row_ids-keep p rows h)
  | inr e ↦ rw e (Distinct-row_ids-keep p rows h)
]

absent-keep :
    (p : Row → Bool) (j : Text) (rows : List Row)
    → All (λ y. j ≢ y) (row_ids rows)
    → contains (row_ids (keep p rows)) j ≡ false
unfolding row_ids
absent-keep p j [] h = refl
absent-keep p j (r ∷ rows) (n, h) = ground (arith, absent-keep p j rows h)

-- The row that was found has the property.
abbrev pub hit : (Row → Bool) → Option Row → Bool
hit p none = false
hit p (some r) = p r

-- An id belongs to a row with the property exactly if the one row of that id has it.
pub contains-keep-hit :
    (p : Row → Bool) (j : Text) (rows : List Row)
    → Distinct (row_ids rows)
    → contains (row_ids (keep p rows)) j ≡ hit p (find_row j rows)
unfolding find_row row_ids
contains-keep-hit p j [] h = refl
contains-keep-hit p j (r ∷ rows) (n, h) =
    let ih = contains-keep-hit p j rows h in
    let gone = absent-keep p r.id rows n in
    elim (Bool-cases (j == r.id)) [
      | inr e ↦ ground (arith, ih)
      | inl e ↦
          let same : j ≡ r.id = ground arith in
          let gone' : contains (row_ids (keep p rows)) j ≡ false =
            ap (contains (row_ids (keep p rows))) same ∙ gone in
          ground (arith, ih, gone')
    ]

-- The first row of an id is the only one, if the ids are distinct.
pub find_row-keep :
    (p : Row → Bool) (j : Text) (rows : List Row)
    → Distinct (row_ids rows)
    → find_row j (keep (λ r. not (p r)) rows)
      ≡ (if contains (row_ids (keep p rows)) j then none else find_row j rows)
unfolding find_row row_ids
find_row-keep p j [] h = refl
find_row-keep p j (r ∷ rows) (n, h) =
    let ih = find_row-keep p j rows h in
    let gone = absent-keep p r.id rows n in
    let here = find_row-absent r.id rows n in
    elim (Bool-cases (j == r.id)) [
      | inr e ↦ ground (arith, ih)
      | inl e ↦
          let same : j ≡ r.id = ground arith in
          let gone' : contains (row_ids (keep p rows)) j ≡ false =
            ap (contains (row_ids (keep p rows))) same ∙ gone in
          let here' : find_row j rows ≡ none = ap (λ k. find_row k rows) same ∙ here in
          ground (arith, ih, gone', here')
    ]

module _ {F : Type 0} where
  pub upsert_row-IsSound :
      (r : Row) (db : Db F) → IsSound db → IsSound (record db { units = upsert_row r db.units })
  unfolding find_vector schema_vec_width
  upsert_row-IsSound r db h = record {
    keyed = Distinct-row_ids-upsert_row r db.units h.keyed;
    owned = λ j has. ground (arith, find_row-upsert_row j r db.units, h.owned j);
    fitting = h.fitting;
  }

  -- A change of the metadata, the relations or the dependencies.
  pub same-IsSound :
      (db d : Db F) → d.units ≡ db.units → d.embeddings ≡ db.embeddings → IsSound db → IsSound d
  unfolding find_vector schema_vec_width
  same-IsSound db d u e h =
      let vectors : (j : Text) → find_vector j d ≡ find_vector j db = λ j. ground arith in
      let rows : (j : Text) → find_row j d.units ≡ find_row j db.units = λ j. ap (find_row j) u in
      let width : schema_vec_width d ≡ schema_vec_width db = ground arith in
      record {
        keyed = rw u h.keyed;
        owned = λ j has. rw (rows j) (h.owned j (ap found (sym (vectors j)) ∙ has));
        fitting = λ j v n has w. h.fitting j v n (sym (vectors j) ∙ has) (sym width ∙ w);
      }

  fits-length : (n : ℕ) (v : List F) → fits (some n) v ≡ true → length v ≡ n
  unfolding fits
  fits-length n v h = ground arith

  pub put_vector-IsSound :
      (j : Text) (v : List F) (db d : Db F)
      → found (find_row j db.units) ≡ true
      → put_vector j v db ≡ ok d
      → IsSound db
      → IsSound d
  unfolding put_vector find_vector schema_vec_width
  put_vector-IsSound j v db d there h s = elim (Option-cases db.embeddings) [
    | inl e ↦ absurd (ground arith)
    | inr (t, e) ↦ elim (Bool-cases (fits t.width v)) [
      | inr no_fit ↦ absurd (ground arith)
      | inl is_fit ↦
          let is : record db { embeddings = some (record t { rows = insert j v t.rows }) } ≡ d =
            ground arith in
          subst (λ (d : Db F). IsSound d) is
            (record {
              keyed = s.keyed;
              owned = λ k has. elim (Bool-cases (k == j)) [
                | inl same ↦
                    ap (λ i. found (find_row i db.units)) (let p : k ≡ j = ground arith in p)
                    ∙ there
                | inr ne ↦ s.owned k (ground (arith, lookup-insert k j v t.rows))
              ];
              fitting = λ k w n has wide. elim (Bool-cases (k == j)) [
                | inl same ↦
                    let this : v ≡ w = ground (arith, lookup-insert k j v t.rows) in
                    fits-length n w
                      (ap (λ o. fits o w) (sym wide) ∙ ap (fits t.width) (sym this) ∙ is_fit)
                | inr ne ↦
                    s.fitting k w n (ground (arith, lookup-insert k j v t.rows)) (ground arith)
              ];
            })
    ]
  ]

  pub create_vectors-IsSound :
      (n : ℕ) (db d : Db F) → create_vectors n db ≡ ok d → IsSound db → IsSound d
  unfolding create_vectors find_vector schema_vec_width lookup
  create_vectors-IsSound n db d h s = elim (Bool-cases (ltb n 1)) [
    | inl none_wide ↦ absurd (ground arith)
    | inr wide ↦ elim (Option-cases db.embeddings) [
      | inr (t, e) ↦ same-IsSound db d (ground arith) (ground arith) s
      | inl e ↦
          let is : record db { embeddings = some (record { width = some n; rows = [] }) } ≡ d =
            ground arith in
          subst (λ (d : Db F). IsSound d) is
            (record {
              keyed = s.keyed;
              owned = λ k has. absurd (ground arith);
              fitting = λ k w n has wide. absurd (ground arith);
            })
    ]
  ]

  pub delete_rows_where-IsSound :
      (p : Row → Bool) (db : Db F) → IsSound db → IsSound (delete_rows_where p db)
  unfolding delete_rows_where schema_vec_width
  delete_rows_where-IsSound p db s =
      let rows = λ (j : Text). find_row-keep p j db.units s.keyed in
      let vectors = λ (j : Text). find_vector-delete_rows_where p j db in
      record {
        keyed = Distinct-row_ids-keep (λ r. not (p r)) db.units s.keyed;
        owned = λ j has. ground (arith, rows j, vectors j, s.owned j);
        fitting = λ j v n has wide. s.fitting j v n (ground (arith, vectors j)) (ground arith);
      }
