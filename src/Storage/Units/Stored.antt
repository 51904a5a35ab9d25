-- ===== src/Storage/Units/Stored.antt =====
-- A unit that was written can be read.
use agent_coderag.Prelude.{
  ◌≡◌, refl, sym, ◌∙◌, ap, true, List, [], ◌∷◌, Text, text_eq, ◌==◌, arith, if◌then◌else◌, Option,
  Option-cases, none, some, inl, inr, ◌⊎◌, ◌↔◌, Has, Has-keep, Bool-cases,
}
use mathlib.Core.Path.{subst}
use agent_coderag.Core.{
  Outcome, RelationType, imports, calls, inherits, defines, ok, >>-ok, for_each, Relation,
  KnowledgeUnit,
}
use agent_coderag.Storage.Db.{
  same_type, same_relation, upsert_relation_row, Row, Db, to_row, map_row_to_unit, find_row,
  upsert_row, put_vector,
}
use agent_coderag.Storage.State.{Storage, write, write_keeps}
use agent_coderag.Storage.Bind.{ensure_embeddings_bound}
use agent_coderag.Storage.Units.{
  put_row, put_vector_of, bind_for, upsert_relation, upsert_unit, relations_out, get_relations,
  get_unit,
}

pub find_row-upsert_row :
    (j : Text) (r : Row) (rows : List Row)
    → find_row j (upsert_row r rows) ≡ (if j == r.id then some r else find_row j rows)
unfolding find_row upsert_row
find_row-upsert_row j r [] = ground arith
find_row-upsert_row j r (q ∷ rows) = ground (arith, find_row-upsert_row j r rows)

same_type-eq : (a b : RelationType) → same_type a b ≡ true → a ≡ b
unfolding same_type
same_type-eq imports imports h = refl
same_type-eq imports calls h = absurd (ground arith)
same_type-eq imports inherits h = absurd (ground arith)
same_type-eq imports defines h = absurd (ground arith)
same_type-eq calls imports h = absurd (ground arith)
same_type-eq calls calls h = refl
same_type-eq calls inherits h = absurd (ground arith)
same_type-eq calls defines h = absurd (ground arith)
same_type-eq inherits imports h = absurd (ground arith)
same_type-eq inherits calls h = absurd (ground arith)
same_type-eq inherits inherits h = refl
same_type-eq inherits defines h = absurd (ground arith)
same_type-eq defines imports h = absurd (ground arith)
same_type-eq defines calls h = absurd (ground arith)
same_type-eq defines inherits h = absurd (ground arith)
same_type-eq defines defines h = refl

same_relation-eq : (a b : Relation) → same_relation a b ≡ true → a ≡ b
unfolding same_relation
same_relation-eq a b h =
    let from : a.from_id ≡ b.from_id = ground arith in
    let to : a.to_id ≡ b.to_id = ground arith in
    let kind = same_type-eq a.type b.type (ground arith) in
    λ i. record { from_id = from i; to_id = to i; type = kind i }

upsert_relation_row-Has :
    (q : Relation) (rows : List Relation) (r : Relation)
    → Has r (upsert_relation_row q rows) ↔ ((r ≡ q) ⊎ Has r rows)
unfolding upsert_relation_row
upsert_relation_row-Has q [] r = (λ h. h, λ h. h)
upsert_relation_row-Has q (p ∷ rows) r = elim (Bool-cases (same_relation q p)) [
  | inl e ↦
      let same = same_relation-eq q p e in
      rw (upsert_relation_row, e)
        (
          λ h. elim h [ inl k ↦ inl k | inr m ↦ inr (inr m) ],
          λ h. elim h [
            | inl k ↦ inl k
            | inr m ↦ elim m [ inl k ↦ inl (k ∙ sym same) | inr n ↦ inr n ]
          ],
        )
  | inr e ↦
      let (there, back) = upsert_relation_row-Has q rows r in
      rw (upsert_relation_row, e)
        (
          λ h. elim h [
            | inl k ↦ inr (inl k)
            | inr m ↦ elim (there m) [ inl k ↦ inl k | inr n ↦ inr (inr n) ]
          ],
          λ h. elim h [
            | inl k ↦ inr (back (inl k))
            | inr m ↦ elim m [ inl k ↦ inl k | inr n ↦ inr (back (inr n)) ]
          ],
        )
]

-- What `get_unit` gives for a row that may be missing.
abbrev read : Option Row → List Relation → Option KnowledgeUnit
read none rels = none
read (some r) rels = some (record (map_row_to_unit r) { relations = rels })

module _ {F : Type 0} where
  upsert_relation-units :
      (r : Relation) (s : Storage F) → (upsert_relation r s).1.db.units ≡ s.db.units
  unfolding upsert_relation write
  upsert_relation-units r s = refl

  upsert_relations-units :
      (rels : List Relation) (s : Storage F)
      → (for_each rels upsert_relation s).1.db.units ≡ s.db.units
  unfolding for_each upsert_relation write
  upsert_relations-units [] s = refl
  upsert_relations-units (r ∷ rels) s = upsert_relations-units rels _

  put_vector-units :
      (id : Text) (v : List F) (db d : Db F) → put_vector id v db ≡ ok d → d.units ≡ db.units
  unfolding put_vector
  put_vector-units id v db d h = elim (Option-cases db.embeddings) [
    | inl e ↦ absurd (ground arith)
    | inr (t, e) ↦ ground arith
  ]

  put_vector-relations :
      (id : Text) (v : List F) (db d : Db F)
      → put_vector id v db ≡ ok d
      → d.relations ≡ db.relations
  unfolding put_vector
  put_vector-relations id v db d h = elim (Option-cases db.embeddings) [
    | inl e ↦ absurd (ground arith)
    | inr (t, e) ↦ ground arith
  ]

  put_vector_of-units :
      (id : Text) (v : Option (List F)) (s : Storage F)
      → (put_vector_of id v s).1.db.units ≡ s.db.units
  unfolding put_vector_of write
  put_vector_of-units id none s = refl
  put_vector_of-units id (some v) s =
      write_keeps (λ d. d.units) (put_vector id v) s (put_vector-units id v s.db)

  upsert_relations-Has :
      (rels : List Relation) (s : Storage F) (r : Relation)
      → Has r (for_each rels upsert_relation s).1.db.relations ↔ (Has r rels ⊎ Has r s.db.relations)
  unfolding for_each upsert_relation write
  upsert_relations-Has [] s r = (λ h. inr h, λ h. elim h [ inl h ↦ elim h [ ] | inr h ↦ h ])
  upsert_relations-Has (q ∷ rels) s r =
      let (there, back) =
        upsert_relations-Has rels
          (record s { db = record s.db { relations = upsert_relation_row q s.db.relations } }) r in
      let (one, two) = upsert_relation_row-Has q s.db.relations r in
      (
        λ h. elim (there h) [
          | inl k ↦ inl (inr k)
          | inr k ↦ elim (one k) [ inl p ↦ inl (inl p) | inr m ↦ inr m ]
        ],
        λ h. elim h [
          | inl k ↦ elim k [ inl p ↦ back (inr (two (inl p))) | inr m ↦ back (inl m) ]
          | inr m ↦ back (inr (two (inr m)))
        ],
      )

  put_vector_of-relations :
      (id : Text) (v : Option (List F)) (s : Storage F)
      → (put_vector_of id v s).1.db.relations ≡ s.db.relations
  unfolding put_vector_of write
  put_vector_of-relations id none s = refl
  put_vector_of-relations id (some v) s =
      write_keeps (λ d. d.relations) (put_vector id v) s (put_vector-relations id v s.db)

  -- The rows after a call of `upsert_unit` that returns: the unit's own row is in them, and the
  -- others are those that binding the embeddings left.
  upsert_unit-units :
      (u : KnowledgeUnit) (v : Option (List F)) (s : Storage F)
      → (upsert_unit u v s).0 ≡ ok tt
      → (upsert_unit u v s).1.db.units ≡ upsert_row (to_row u) (bind_for v s).1.db.units
  unfolding upsert_unit
  upsert_unit-units u v s h =
      let (b, r) = >>-ok (bind_for v) _ s tt h in
      let s1 = (bind_for v s).1 in
      let (p, r') = >>-ok (put_row (to_row u)) _ s1 tt (sym (ap (λ x. x.0) r) ∙ h) in
      let s2 = (put_row (to_row u) s1).1 in
      let (q, r'') =
        >>-ok (put_vector_of u.id v) (for_each u.relations upsert_relation) s2 tt
          (sym (ap (λ x. x.0) (r ∙ r')) ∙ h) in
      let s3 = (put_vector_of u.id v s2).1 in
      let put : s2.db.units ≡ upsert_row (to_row u) s1.db.units = unfold put_row write in refl in
      ap (λ x. x.1.db.units) (r ∙ r' ∙ r'')
      ∙ upsert_relations-units u.relations s3
      ∙ put_vector_of-units u.id v s2
      ∙ put

  pub bind_for_bound :
      (v : Option (List F)) (s : Storage F) → s.embeddings_bound ≡ true → (bind_for v s).1 ≡ s
  unfolding bind_for ensure_embeddings_bound
  bind_for_bound none s h = refl
  bind_for_bound (some v) s h = rw (ensure_embeddings_bound, h) refl

  -- The relations after a call that returns are those of the unit and those from before.
  upsert_unit-relations :
      (u : KnowledgeUnit) (v : Option (List F)) (s : Storage F) (r : Relation)
      → s.embeddings_bound ≡ true
      → (upsert_unit u v s).0 ≡ ok tt
      → Has r (upsert_unit u v s).1.db.relations ↔ (Has r u.relations ⊎ Has r s.db.relations)
  unfolding upsert_unit
  upsert_unit-relations u v s r bound h =
      let (b, w) = >>-ok (bind_for v) _ s tt h in
      let s1 = (bind_for v s).1 in
      let (p, w') = >>-ok (put_row (to_row u)) _ s1 tt (sym (ap (λ x. x.0) w) ∙ h) in
      let s2 = (put_row (to_row u) s1).1 in
      let (q, w'') =
        >>-ok (put_vector_of u.id v) (for_each u.relations upsert_relation) s2 tt
          (sym (ap (λ x. x.0) (w ∙ w')) ∙ h) in
      let s3 = (put_vector_of u.id v s2).1 in
      let put : s2.db.relations ≡ s1.db.relations = unfold put_row write in refl in
      let before : s3.db.relations ≡ s.db.relations =
        put_vector_of-relations u.id v s2
        ∙ put
        ∙ ap (λ (t : Storage F). t.db.relations) (bind_for_bound v s bound) in
      subst (λ rels. Has r (upsert_unit u v s).1.db.relations ↔ (Has r u.relations ⊎ Has r rels))
        before
        (subst
          (λ (x : Outcome (Unit {0}) × Storage F).
            Has r x.1.db.relations ↔ (Has r u.relations ⊎ Has r s3.db.relations))
          (sym (w ∙ w' ∙ w'')) (upsert_relations-Has u.relations s3 r))

  get_unit-read :
      (j : Text) (s : Storage F)
      → (get_unit j s).0 ≡ ok (read (find_row j s.db.units) (relations_out j s.db))
  unfolding get_unit get_relations
  get_unit-read j s = elim (Option-cases (find_row j s.db.units)) [
    | inl e ↦ rw (get_unit, e) refl
    | inr (r, e) ↦ rw (get_unit, e) refl
  ]

  -- On a storage whose embeddings are bound, after a write of a unit that returns, reading its id
  -- gives the unit, with relations that are read from the table; the relations that are read for
  -- an id are those of the unit and those from before that start there; and any other id has the
  -- row that it had, and none if it had none.
  pub get_unit-upsert_unit :
      (u : KnowledgeUnit) (v : Option (List F)) (s : Storage F) (j : Text)
      → s.embeddings_bound ≡ true
      → (upsert_unit u v s).0 ≡ ok tt
      → let after = (upsert_unit u v s).1 in
        ((get_unit u.id after).0 ≡ ok (some (record u { relations = relations_out u.id after.db })))
        × ((id : Text) (r : Relation)
            → Has r (relations_out id after.db)
              ↔ ((r.from_id ≡ id) × (Has r u.relations ⊎ Has r s.db.relations)))
        × (find_row j after.db.units
            ≡ (if j == u.id then some (to_row u) else find_row j s.db.units))
  unfolding to_row map_row_to_unit relations_out
  get_unit-upsert_unit u v s j bound h =
      let after = (upsert_unit u v s).1 in
      let rows : after.db.units ≡ upsert_row (to_row u) s.db.units =
        upsert_unit-units u v s h
        ∙ ap (λ (t : Storage F). upsert_row (to_row u) t.db.units) (bind_for_bound v s bound) in
      let found : (k : Text)
          → find_row k after.db.units
            ≡ (if k == u.id then some (to_row u) else find_row k s.db.units) =
        λ k. rw rows (find_row-upsert_row k (to_row u) s.db.units) in
      let own : find_row u.id after.db.units ≡ some (to_row u) = ground (arith, found u.id) in
      let related : (r : Relation)
          → Has r after.db.relations ↔ (Has r u.relations ⊎ Has r s.db.relations) =
        λ r. upsert_unit-relations u v s r bound h in
      (
        get_unit-read u.id after ∙ ap (λ o. ok (read o (relations_out u.id after.db))) own,
        λ id r.
            let (there, back) = Has-keep (λ r. r.from_id == id) r after.db.relations in
            (
              λ k. let (starts, has) = there k in (ground arith, (related r).0 has),
              λ (starts, has). back (ground arith, (related r).1 has),
            ),
        found j,
      )
