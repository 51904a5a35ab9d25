-- ===== src/Storage/Sound/Reach.antt =====
-- The states that the storage reaches: openings of the database, and calls of its methods.
use agent_coderag.Prelude.{
  ◌≡◌, refl, arith, Bool, true, false, Option, none, List, [], Text, Bool-cases, Option-cases, inl,
  inr,
}
use mathlib.Core.Path.{subst}
use agent_coderag.Core.{Error, ok, Relation, KnowledgeUnit}
use agent_coderag.Intelligence.Embedder.{Embedder}
use agent_coderag.Storage.Db.{Db, find_vector, schema_vec_width}
use agent_coderag.Storage.State.{
  AccessMode, Storage, is_read_only, new_storage, finalize_rw_open, refresh_dirty_from_meta,
}
use agent_coderag.Storage.Connection.{open_db_connection, refused_open, opened, apply_rw_schema}
use agent_coderag.Storage.Bind.{ensure_embeddings_bound}
use agent_coderag.Storage.Units.{
  set_dependency_path, upsert_relation, upsert_unit, has_embedding, mark_embedding_model_synced,
  delete_stale_units, mark_paths_migrated, close, row_ids,
}
use agent_coderag.Storage.Sound.{IsSound}
use agent_coderag.Storage.Sound.Tables.{same-IsSound}
use agent_coderag.Storage.Rewrite.{delete_absolute_paths}
use agent_coderag.Storage.Sound.Methods.{
  Keeps-delete_absolute_paths, OnSound, Keeps-ensure_embeddings_bound, Keeps-set_dependency_path,
  Keeps-upsert_relation, Keeps-upsert_unit, Keeps-delete_stale_units, Keeps-has_embedding,
  Keeps-mark_embedding_model_synced, Keeps-mark_paths_migrated,
}

-- A database file that was just made.
abbrev pub empty_db : (F : Type 0) → Db F
empty_db F = record {
  units = [];
  embeddings = none;
  relations = [];
  dependencies = [];
  index_meta = none;
}

module _ {F : Type 0} where
  -- `DuckDBStorage` after an opening of the file, and after any sequence of calls; a call may return
  -- or raise. The rewrite of a path by the migration is not among them: it can take a vector away
  -- from a unit whose path holds a colon.
  pub data Reached : Storage F → Type 0 where
    created :
        (there : Bool) (e : Option (Embedder F)) (mode : AccessMode) (wipe : Bool)
        (x : Option Error) (s : Storage F)
        → (open_db_connection (ok (empty_db F)) there e mode wipe x).0 ≡ ok s
        → Reached s
    reopened :
        (before : Storage F) (there : Bool) (e : Option (Embedder F)) (mode : AccessMode)
        (wipe : Bool) (x : Option Error) (s : Storage F)
        → Reached before
        → (open_db_connection (ok before.db) there e mode wipe x).0 ≡ ok s
        → Reached s
    bound : (s : Storage F) → Reached s → Reached (ensure_embeddings_bound s).1
    unit_put :
        (u : KnowledgeUnit) (v : Option (List F)) (s : Storage F)
        → Reached s
        → Reached (upsert_unit u v s).1
    stale_deleted :
        (path : Text) (ids : List Text) (s : Storage F)
        → Reached s
        → Reached (delete_stale_units path ids s).1
    relation_put : (r : Relation) (s : Storage F) → Reached s → Reached (upsert_relation r s).1
    dependency_set :
        (name path : Text) (s : Storage F) → Reached s → Reached (set_dependency_path name path s).1
    asked : (id : Text) (s : Storage F) → Reached s → Reached (has_embedding id s).1
    model_marked : (s : Storage F) → Reached s → Reached (mark_embedding_model_synced s).1
    paths_marked : (s : Storage F) → Reached s → Reached (mark_paths_migrated s).1
    paths_deleted :
        (refuses : Db F → List Text → Option Error) (paths : List Text) (s : Storage F)
        → Reached s
        → Reached (delete_absolute_paths refuses paths s).1
    closed : (s : Storage F) → Reached s → Reached (close s).1

  finalize_rw_open-db : (w : Bool) (s : Storage F) → (finalize_rw_open w s).db ≡ s.db
  unfolding finalize_rw_open refresh_dirty_from_meta
  finalize_rw_open-db w s = ground arith

  apply_rw_schema-IsSound : (w : Bool) (db : Db F) → IsSound db → IsSound (apply_rw_schema w db)
  unfolding apply_rw_schema find_vector schema_vec_width
  apply_rw_schema-IsSound true db i = record {
    keyed = i.keyed;
    owned = λ j h. absurd (ground arith);
    fitting = λ j v n h w. absurd (ground arith);
  }
  apply_rw_schema-IsSound false db i = same-IsSound db _ refl refl i

  open_db_connection-IsSound :
      (db : Db F) (there : Bool) (e : Option (Embedder F)) (mode : AccessMode) (wipe : Bool)
      (x : Option Error) (s : Storage F)
      → (open_db_connection (ok db) there e mode wipe x).0 ≡ ok s
      → IsSound db
      → OnSound s
  unfolding open_db_connection opened new_storage
  open_db_connection-IsSound db there e mode wipe x s h i =
      elim (Bool-cases (refused_open there e mode wipe)) [
        | inl refused ↦ absurd (ground arith)
        | inr allowed ↦ elim (Bool-cases (is_read_only mode)) [
          | inl reads ↦
              let is : finalize_rw_open wipe (new_storage db e mode) ≡ s = ground arith in
              subst OnSound is (rw (finalize_rw_open-db wipe (new_storage db e mode)) i)
          | inr rw_mode ↦ elim (Option-cases x) [
            | inr (y, k) ↦ absurd (ground arith)
            | inl k ↦
                let db' = apply_rw_schema wipe db in
                let is : finalize_rw_open wipe (new_storage db' e mode) ≡ s = ground arith in
                subst OnSound is (
                  rw (finalize_rw_open-db wipe (new_storage db' e mode))
                    (apply_rw_schema-IsSound wipe db i))
          ]
        ]
      ]

  empty_db-IsSound : IsSound (empty_db F)
  unfolding find_vector schema_vec_width row_ids
  empty_db-IsSound = record {
    keyed = tt;
    owned = λ j h. absurd (ground arith);
    fitting = λ j v n h w. absurd (ground arith);
  }

  -- In every state that openings and calls reach, but for the rewrite of a path by the
  -- migration, no id is stored twice, every vector belongs to a unit that is stored, and every
  -- vector has the width of its table.
  pub Reached-IsSound : (s : Storage F) → Reached s → IsSound s.db
  unfolding close
  Reached-IsSound _ (created there e mode wipe x s h) =
      open_db_connection-IsSound _ there e mode wipe x s h empty_db-IsSound
  Reached-IsSound _ (reopened before there e mode wipe x s r h) =
      open_db_connection-IsSound _ there e mode wipe x s h (Reached-IsSound before r)
  Reached-IsSound _ (bound s r) = Keeps-ensure_embeddings_bound.after s (Reached-IsSound s r)
  Reached-IsSound _ (unit_put u v s r) = (Keeps-upsert_unit u v).after s (Reached-IsSound s r)
  Reached-IsSound _ (stale_deleted p ids s r) =
      (Keeps-delete_stale_units p ids).after s (Reached-IsSound s r)
  Reached-IsSound _ (relation_put q s r) = (Keeps-upsert_relation q).after s (Reached-IsSound s r)
  Reached-IsSound _ (dependency_set n p s r) =
      (Keeps-set_dependency_path n p).after s (Reached-IsSound s r)
  Reached-IsSound _ (asked id s r) = (Keeps-has_embedding id).after s (Reached-IsSound s r)
  Reached-IsSound _ (model_marked s r) =
      Keeps-mark_embedding_model_synced.after s (Reached-IsSound s r)
  Reached-IsSound _ (paths_marked s r) = Keeps-mark_paths_migrated.after s (Reached-IsSound s r)
  Reached-IsSound _ (paths_deleted refuses paths s r) =
      (Keeps-delete_absolute_paths refuses paths).after s (Reached-IsSound s r)
  Reached-IsSound _ (closed s r) = Reached-IsSound s r
