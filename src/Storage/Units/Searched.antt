-- ===== src/Storage/Units/Searched.antt =====
-- The relations of the units that a search finds.
use agent_coderag.Prelude.{
  ◌≡◌, refl, sym, ◌∙◌, ap, true, List, [], ◌∷◌, ◌++◌, append-nil, append_assoc, map, Text, text_eq,
  ◌==◌, arith, if◌then◌else◌, contains, keep, All, All-map_of, Bool-cases, inl, inr,
}
use agent_coderag.Prelude.Dict.{Dict, lookup, insert, lookup-insert}
use agent_coderag.Core.{Relation, KnowledgeUnit}
use agent_coderag.Storage.Db.{Db}
use agent_coderag.Storage.Units.{
  relations_at, group_relations, attach_relations, relations_out, with_relations,
}

relations_at-insert :
    (id k : Text) (rs : List Relation) (d : Dict Text (List Relation))
    → relations_at id (insert k rs d) ≡ (if id == k then rs else relations_at id d)
unfolding relations_at
relations_at-insert id k rs d = ground (arith, lookup-insert id k rs d)

-- Grouping keeps the order of the relations of each unit.
relations_at-group_relations :
    (id : Text) (rels : List Relation) (d : Dict Text (List Relation))
    → relations_at id (group_relations rels d)
      ≡ relations_at id d ++ keep (λ r. r.from_id == id) rels
unfolding group_relations
relations_at-group_relations id [] d = sym (append-nil (relations_at id d))
relations_at-group_relations id (r ∷ rels) d =
    let d' = insert r.from_id (relations_at r.from_id d ++ (r ∷ [])) d in
    let rest = relations_at-group_relations id rels d' in
    let put = relations_at-insert id r.from_id (relations_at r.from_id d ++ (r ∷ [])) d in
    elim (Bool-cases (r.from_id == id)) [
      | inl e ↦
          let same : r.from_id ≡ id = ground arith in
          let own : relations_at r.from_id d ≡ relations_at id d =
            ap (λ k. relations_at k d) same in
          let added : relations_at id d' ≡ relations_at id d ++ (r ∷ []) =
            ground (arith, put, own) in
          rw e (
            rest
            ∙ ap (λ t. t ++ keep (λ q. q.from_id == id) rels) added
            ∙ append_assoc (relations_at id d) (r ∷ []) _)
      | inr e ↦
          let kept : relations_at id d' ≡ relations_at id d = ground (arith, put) in
          rw e (rest ∙ ap (λ t. t ++ keep (λ q. q.from_id == id) rels) kept)
    ]

keep-keep-contains :
    (ids : List Text) (id : Text) (rels : List Relation)
    → contains ids id ≡ true
    → keep (λ r. r.from_id == id) (keep (λ r. contains ids r.from_id) rels)
      ≡ keep (λ r. r.from_id == id) rels
keep-keep-contains ids id [] h = refl
keep-keep-contains ids id (r ∷ rels) h = elim (Bool-cases (r.from_id == id)) [
  | inl e ↦
      let same : r.from_id ≡ id = ground arith in
      let there : contains ids r.from_id ≡ true = ap (contains ids) same ∙ h in
      rw (there, e) (ap (λ t. r ∷ t) (keep-keep-contains ids id rels h))
  | inr e ↦ ground (arith, keep-keep-contains ids id rels h)
]

All-contains :
    (units : List KnowledgeUnit)
    → All (λ (u : KnowledgeUnit). contains (map (λ u. u.id) units) u.id ≡ true) units
All-contains [] = tt
All-contains (u ∷ units) =
    (ground arith, All-map_of units (λ v h. ground arith) (All-contains units))

module _ {F : Type 0} where
  attach_relations-out :
      (db : Db F) (ids : List Text) (units : List KnowledgeUnit)
      → All (λ (u : KnowledgeUnit). contains ids u.id ≡ true) units
      → map
          (attach_relations (group_relations (keep (λ r. contains ids r.from_id) db.relations) []))
          units
        ≡ map (λ (u : KnowledgeUnit). record u { relations = relations_out u.id db }) units
  unfolding attach_relations relations_out relations_at lookup
  attach_relations-out db ids [] h = refl
  attach_relations-out db ids (u ∷ units) (there, h) =
      let found =
        relations_at-group_relations u.id (keep (λ r. contains ids r.from_id) db.relations) []
        ∙ keep-keep-contains ids u.id db.relations there in
      λ i. record u { relations = found i } ∷ attach_relations-out db ids units h i

  -- Every unit that a search finds carries, in their order, the relations that `get_relations`
  -- gives for it.
  pub with_relations-out :
      (db : Db F) (units : List KnowledgeUnit)
      → with_relations db units
        ≡ map (λ (u : KnowledgeUnit). record u { relations = relations_out u.id db }) units
  unfolding with_relations
  with_relations-out db units =
      attach_relations-out db (map (λ u. u.id) units) units (All-contains units)
