-- ===== src/Storage/Units.antt =====
-- The operations of `DuckDBStorage` on units, relations and dependencies.
pub mod Stale
pub mod Stored
pub mod Searched
use agent_coderag.Prelude.{
  ℕ, Bool, true, false, not, ◌&&◌, Option, none, some, List, [], ◌∷◌, ◌++◌, map, Text, text, ◌==◌,
  text_eq, if◌then◌else◌, keep, take, contains,
}
use agent_coderag.Prelude.Dict.{Dict, lookup, insert}
use agent_coderag.Core.{
  index_error, foreign, Relation, KnowledgeUnit, Outcome, ok, raised, Action, pure, gets, lift,
  modify, for_each, ◌>>=◌, ◌>>◌,
}
use agent_coderag.Intelligence.Embedder.{dimension, aembed}
use agent_coderag.Storage.Db.{
  Row, Db, to_row, map_row_to_unit, find_row, upsert_row, upsert_relation_row, has_vectors,
  meta_get, meta_set, meta_model_key, paths_migrated_key, put_vector, find_vector, erase_keys,
}
use agent_coderag.Storage.State.{Storage, embedder, write}
use agent_coderag.Storage.Bind.{ensure_embeddings_bound}

-- `WHERE path = ? AND id NOT IN ids`
unfoldable pub is_stale : Text → List Text → Row → Bool
is_stale path ids r = r.path == path && not (contains ids r.id)

unfoldable pub row_ids : List Row → List Text
row_ids [] = []
row_ids (r ∷ rows) = r.id ∷ row_ids rows

-- `rels_by_id.get(id, [])`
unfoldable pub relations_at : Text → Dict Text (List Relation) → List Relation
relations_at id d = elim (lookup id d) [ none ↦ [] | some rs ↦ rs ]

-- `rels_by_id`, filled by `setdefault(from_id, []).append(…)`
unfoldable pub group_relations :
    List Relation → Dict Text (List Relation) → Dict Text (List Relation)
group_relations [] d = d
group_relations (r ∷ rels) d =
    group_relations rels (insert r.from_id (relations_at r.from_id d ++ (r ∷ [])) d)

unfoldable pub attach_relations : Dict Text (List Relation) → KnowledgeUnit → KnowledgeUnit
attach_relations d u = record u { relations = relations_at u.id d }

module _ {F : Type 0} where
  unfoldable pub set_dependency_path : Text → Text → Action (Storage F) (Unit {0})
  set_dependency_path name path =
      write (λ db. ok (record db { dependencies = insert name path db.dependencies }))

  unfoldable pub get_dependency_path : Text → Action (Storage F) (Option Text)
  get_dependency_path name = gets (λ s. lookup name s.db.dependencies)

  unfoldable pub upsert_relation : Relation → Action (Storage F) (Unit {0})
  upsert_relation rel =
      write (λ db. ok (record db { relations = upsert_relation_row rel db.relations }))

  -- `INSERT OR REPLACE INTO units`, and the vector after it.
  unfoldable pub put_row : Row → Action (Storage F) (Unit {0})
  put_row r = write (λ db. ok (record db { units = upsert_row r db.units }))

  unfoldable pub put_vector_of : Text → Option (List F) → Action (Storage F) (Unit {0})
  put_vector_of id none = pure tt
  put_vector_of id (some v) = write (put_vector id v)

  unfoldable pub bind_for : Option (List F) → Action (Storage F) (Unit {0})
  bind_for none = pure tt
  bind_for (some v) = ensure_embeddings_bound

  unfoldable pub upsert_unit : KnowledgeUnit → Option (List F) → Action (Storage F) (Unit {0})
  upsert_unit u vector = do
    bind_for vector
    put_row (to_row u)
    put_vector_of u.id vector
    for_each u.relations upsert_relation

  unfoldable pub has_embedding : Text → Action (Storage F) Bool
  has_embedding id = do
    ensure_embeddings_bound
    found ← gets (λ s. find_vector id s.db)
    pure (elim found [ none ↦ false | some _ ↦ true ])

  unfoldable pub list_units : Action (Storage F) (List KnowledgeUnit)
  list_units = gets (λ s. map map_row_to_unit s.db.units)

  -- `SELECT … FROM relations WHERE from_id = ?`, and `to_id` for any other direction.
  unfoldable pub relations_out : Text → Db F → List Relation
  relations_out id db = keep (λ r. r.from_id == id) db.relations

  unfoldable pub get_relations : Text → Bool → Action (Storage F) (List Relation)
  get_relations id out =
      gets (λ s. if out then relations_out id s.db else keep (λ r. r.to_id == id) s.db.relations)

  unfoldable pub get_unit : Text → Action (Storage F) (Option KnowledgeUnit)
  get_unit id = do
    row ← gets (λ s. find_row id s.db.units)
    rels ← get_relations id true
    pure
        (elim row [ none ↦ none | some r ↦ some (record (map_row_to_unit r) { relations = rels }) ])

  unfoldable pub mark_embedding_model_synced : Action (Storage F) (Unit {0})
  mark_embedding_model_synced = do
    e ← embedder
    write (meta_set meta_model_key e.model_id)
    modify (λ s. record s { embedding_model_dirty = false })

  -- The three `DELETE` statements. The first two look up the stale ids while the rows are there.
  unfoldable pub delete_rows_where : (Row → Bool) → Db F → Db F
  delete_rows_where p db =
      let stale = row_ids (keep p db.units) in
      record db {
        units = keep (λ r. not (p r)) db.units;
        embeddings = elim db.embeddings [
          | none ↦ none
          | some t ↦ some (record t { rows = erase_keys (contains stale) t.rows })
        ];
        relations = keep (λ r. not (contains stale r.from_id)) db.relations;
      }

  -- The first statement raises where the table of the vectors is missing.
  unfoldable pub delete_stale_units : Text → List Text → Action (Storage F) (Unit {0})
  delete_stale_units path ids = do
    ensure_embeddings_bound
    write (λ db.
        if has_vectors db
        then ok (delete_rows_where (is_stale path ids) db)
        else raised (foreign (text "CatalogException")))

  unfoldable pub paths_migration_done : Action (Storage F) Bool
  paths_migration_done =
      gets (λ s. elim (meta_get paths_migrated_key s.db) [ none ↦ false | some v ↦ v == text "1" ])

  unfoldable pub mark_paths_migrated : Action (Storage F) (Unit {0})
  mark_paths_migrated = write (meta_set paths_migrated_key (text "1"))

  -- A second close does nothing. What `conn.close` and the executor may raise is left out.
  unfoldable pub close : Action (Storage F) (Unit {0})
  close = modify (λ s. record s { closed = true })

  -- The rows of the join of `units` and `unit_embeddings`.
  unfoldable pub joined : List Row → Dict Text (List F) → List (Row × List F)
  joined [] vs = []
  joined (r ∷ rows) vs = elim (lookup r.id vs) [
    | none ↦ joined rows vs
    | some v ↦ (r, v) ∷ joined rows vs
  ]

  unfoldable pub join_vectors : Db F → List (Row × List F)
  join_vectors db = elim db.embeddings [ none ↦ [] | some t ↦ joined db.units t.rows ]

  unfoldable pub with_relations : Db F → List KnowledgeUnit → List KnowledgeUnit
  with_relations db units =
      map
        (attach_relations (
          group_relations (keep (λ r. contains (map (λ u. u.id) units) r.from_id) db.relations) []))
        units

  -- `rank` is the engine's `ORDER BY array_distance(e.vec, query)`.
  module _ (rank : List F → List (Row × List F) → List (Row × List F)) where
    unfoldable pub first_row : List (List F) → Outcome (List F)
    first_row [] = raised index_error
    first_row (v ∷ vs) = ok v

    unfoldable pub hits : List F → ℕ → Db F → List KnowledgeUnit
    hits v limit db = map (λ (r, _). map_row_to_unit r) (take limit (rank v (join_vectors db)))

    -- `dim` goes into the type of the query's parameter: a vector of another width raises.
    unfoldable pub search_units : Text → ℕ → Action (Storage F) (List KnowledgeUnit)
    search_units query limit = do
      ensure_embeddings_bound
      e ← embedder
      dim ← lift (dimension e)
      vectors ← lift (aembed e (query ∷ []))
      v ← lift (first_row vectors)
      units ← gets (λ s. hits v limit s.db)
      gets (λ s. with_relations s.db units)
