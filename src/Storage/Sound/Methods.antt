-- ===== src/Storage/Sound/Methods.antt =====
-- Each method that writes keeps the index sound, whether it returns or raises.
use agent_coderag.Prelude.{
  ◌∷◌, [], ◌==◌, ◌≡◌, refl, arith, ℕ, Bool, true, not, ◌&&◌, Option, none, some, List, Text, text,
  inl, inr, Option-cases, Bool-cases, text_eq, if◌then◌else◌,
}
use mathlib.Core.Path.{subst}
use agent_coderag.Prelude.Decimal.{decimal}
use agent_coderag.Core.{
  Error, foreign, Outcome, ok, raised, Outcome-cases, for_each, ◌>>◌, Relation, KnowledgeUnit,
  storage_error, embeddings_missing, Keeps, Keeps-rest, Keeps-gets, Keeps->>=, Keeps->>,
  Keeps-fail_if, Keeps-when, Keeps-for_each,
}
use agent_coderag.Intelligence.Embedder.{Embedder}
use agent_coderag.Storage.Db.{
  Db, Row, to_row, find_row, has_vectors, meta_set, meta_get, put_vector, meta_dim_key,
  meta_model_key, schema_vec_width, paths_migrated_key,
}
use agent_coderag.Storage.Db.Meta.{meta_set_tables}
use agent_coderag.Storage.State.{Storage, embedder, write, is_read_only}
use agent_coderag.Storage.Bind.{
  create_vectors, write_width, create_table_and_sync_meta, bind_embedder_dimension, bind_embeddings,
  ensure_embeddings_bound, mismatch, width_differs,
}
use agent_coderag.Storage.Bind.Gives.{bind_embedder_dimension-Gives}
use agent_coderag.Storage.Units.{
  put_row, put_vector_of, bind_for, upsert_relation, upsert_unit, set_dependency_path, is_stale,
  delete_rows_where, delete_stale_units, mark_embedding_model_synced, mark_paths_migrated,
  has_embedding,
}
use agent_coderag.Storage.Rewrite.{delete_path, delete_paths, transaction, delete_absolute_paths}
use agent_coderag.Storage.Units.Stored.{find_row-upsert_row}
use agent_coderag.Storage.Sound.{found, IsSound}
use agent_coderag.Storage.Sound.Tables.{
  upsert_row-IsSound, same-IsSound, put_vector-IsSound, create_vectors-IsSound,
  delete_rows_where-IsSound,
}

module _ {F : Type 0} where
  -- The database of the storage is sound.
  abbrev pub OnSound : Storage F → Type 0
  OnSound s = IsSound s.db

  Keeps-write :
      (f : Db F → Outcome (Db F))
      → ((db d : Db F) → f db ≡ ok d → IsSound db → IsSound d)
      → Keeps OnSound (write f)
  unfolding write
  Keeps-write f h = record {
    after = λ s i. elim (Outcome-cases (f s.db)) [
      | inl (d, e) ↦ rw (write, e) (h s.db d e i)
      | inr (x, e) ↦ rw (write, e) i
    ];
  }

  Keeps-set : (k v : Text) → Keeps OnSound (write (meta_set k v))
  Keeps-set k v =
      Keeps-write (meta_set k v)
        (λ db d h i. let same = meta_set_tables k v db d h in same-IsSound db d same.0 same.1 i)

  Keeps-embedder : Keeps OnSound embedder
  unfolding embedder
  Keeps-embedder = record {
    after = λ s i. elim (Option-cases s.own_embedder) [
      | inl e ↦ rw (embedder, e) i
      | inr (x, e) ↦ rw (embedder, e) i
    ];
  }

  Keeps-write_width : (n : ℕ) (m : Text) (w : Option Text) → Keeps OnSound (write_width n m w)
  unfolding write_width
  Keeps-write_width n m w =
      Keeps->> (Keeps-write (create_vectors n) (create_vectors-IsSound n))
        (Keeps->> (Keeps-set meta_dim_key (decimal n)) (Keeps-when _ (Keeps-set meta_model_key m)))

  Keeps-create_table_and_sync_meta :
      (n : ℕ) (m : Text) → Keeps OnSound (create_table_and_sync_meta n m)
  unfolding create_table_and_sync_meta
  Keeps-create_table_and_sync_meta n m =
      Keeps->>= (Keeps-gets {f = λ s. schema_vec_width s.db}) (λ width.
        Keeps->>= (Keeps-gets {f = λ s. meta_get meta_model_key s.db}) (λ model.
          Keeps->>= (Keeps-gets {f = λ s. is_read_only s.mode}) (λ ro.
            Keeps->> (Keeps-fail_if (width_differs width n) mismatch)
              (Keeps-when (not ro) (Keeps-write_width n m model)))))

  Keeps-bind_embedder_dimension : (e : Embedder F) → Keeps OnSound (bind_embedder_dimension e)
  Keeps-bind_embedder_dimension e = record {
    after = λ s i.
        let same = (bind_embedder_dimension-Gives e s).tables in
        same-IsSound s.db _ same.0 same.1 i;
  }

  Keeps-bind_embeddings : Keeps OnSound bind_embeddings
  unfolding bind_embeddings
  Keeps-bind_embeddings =
      Keeps->>= (Keeps-gets {f = λ s. is_read_only s.mode && not (has_vectors s.db)}) (λ missing.
        Keeps->> (Keeps-fail_if missing (storage_error (some embeddings_missing))) (
          Keeps->>= Keeps-embedder (λ e. Keeps->>= (Keeps-bind_embedder_dimension e) (λ n.
            Keeps->>= Keeps-embedder (λ e'. Keeps-create_table_and_sync_meta n e'.model_id)))))

  pub Keeps-ensure_embeddings_bound : Keeps OnSound ensure_embeddings_bound
  unfolding ensure_embeddings_bound
  Keeps-ensure_embeddings_bound =
      Keeps->>= (Keeps-gets {f = λ s. s.embeddings_bound}) (λ done.
        Keeps-when (not done) (Keeps->> Keeps-bind_embeddings (record { after = λ s i. i })))

  pub Keeps-set_dependency_path : (n p : Text) → Keeps OnSound (set_dependency_path n p)
  unfolding set_dependency_path write
  Keeps-set_dependency_path n p = record { after = λ s i. same-IsSound s.db _ refl refl i }

  pub Keeps-upsert_relation : (r : Relation) → Keeps OnSound (upsert_relation r)
  unfolding upsert_relation write
  Keeps-upsert_relation r = record { after = λ s i. same-IsSound s.db _ refl refl i }

  put_vector_of-IsSound :
      (j : Text) (v : Option (List F)) (s : Storage F)
      → found (find_row j s.db.units) ≡ true
      → OnSound s
      → OnSound (put_vector_of j v s).1
  unfolding put_vector_of write
  put_vector_of-IsSound j none s there i = i
  put_vector_of-IsSound j (some v) s there i = elim (Outcome-cases (put_vector j v s.db)) [
    | inl (d, e) ↦ rw (write, e) (put_vector-IsSound j v s.db d there e i)
    | inr (x, e) ↦ rw (write, e) i
  ]

  Keeps-bind_for : (v : Option (List F)) → Keeps OnSound (bind_for v)
  unfolding bind_for
  Keeps-bind_for none = record { after = λ s i. i }
  Keeps-bind_for (some w) = Keeps-ensure_embeddings_bound

  -- The row of the unit is there before its vector.
  Keeps-put :
      (u : KnowledgeUnit) (v : Option (List F))
      → Keeps OnSound
          (put_row (to_row u) >> (put_vector_of u.id v >> for_each u.relations upsert_relation))
  unfolding put_row write to_row
  Keeps-put u v = record {
    after = λ s i.
        Keeps-rest (put_vector_of u.id v) _ _
          (put_vector_of-IsSound u.id v _
            (ground (arith, find_row-upsert_row u.id (to_row u) s.db.units))
            (upsert_row-IsSound (to_row u) s.db i))
          (λ t. Keeps-for_each u.relations upsert_relation Keeps-upsert_relation);
  }

  pub Keeps-upsert_unit :
      (u : KnowledgeUnit) (v : Option (List F)) → Keeps OnSound (upsert_unit u v)
  unfolding upsert_unit
  Keeps-upsert_unit u v = Keeps->> (Keeps-bind_for v) (Keeps-put u v)

  Keeps-deletion :
      (p : Row → Bool)
      → Keeps OnSound (
          write (λ db.
            if has_vectors db
            then ok (delete_rows_where p db)
            else raised (foreign (text "CatalogException"))))
  Keeps-deletion p = Keeps-write _ (λ db d h i. elim (Bool-cases (has_vectors db)) [
    | inl e ↦
        subst (λ (d : Db F). IsSound d) (let is : delete_rows_where p db ≡ d = ground arith in is)
          (delete_rows_where-IsSound p db i)
    | inr e ↦ absurd (ground arith)
  ])

  pub Keeps-delete_stale_units :
      (path : Text) (ids : List Text) → Keeps OnSound (delete_stale_units path ids)
  unfolding delete_stale_units
  Keeps-delete_stale_units path ids =
      Keeps->> Keeps-ensure_embeddings_bound (Keeps-deletion (is_stale path ids))

  delete_paths-IsSound :
      (paths : List Text) (db : Db F) → IsSound db → IsSound (delete_paths paths db)
  unfolding delete_paths delete_path delete_rows_where
  delete_paths-IsSound [] db i = i
  delete_paths-IsSound (p ∷ paths) db i = delete_paths-IsSound paths (delete_path p db) (
      same-IsSound _ (delete_path p db) refl refl
        (delete_rows_where-IsSound (λ r. r.path == p) db i))

  pub Keeps-delete_absolute_paths :
      (refuses : Db F → List Text → Option Error) (paths : List Text)
      → Keeps OnSound (delete_absolute_paths refuses paths)
  unfolding delete_absolute_paths transaction
  Keeps-delete_absolute_paths refuses paths =
      Keeps-write (transaction refuses paths (delete_paths paths)) (λ db d e i.
        elim (Option-cases (refuses db paths)) [
          | inl k ↦
              subst (λ (d : Db F). IsSound d)
                (let is : delete_paths paths db ≡ d = ground arith in is)
                (delete_paths-IsSound paths db i)
          | inr (x, k) ↦ absurd (ground arith)
        ])

  pub Keeps-has_embedding : (id : Text) → Keeps OnSound (has_embedding id)
  unfolding has_embedding
  Keeps-has_embedding id = Keeps->> Keeps-ensure_embeddings_bound (record { after = λ s i. i })

  pub Keeps-mark_embedding_model_synced : Keeps OnSound mark_embedding_model_synced
  unfolding mark_embedding_model_synced
  Keeps-mark_embedding_model_synced =
      Keeps->>= Keeps-embedder
        (λ e. Keeps->> (Keeps-set meta_model_key e.model_id) (record { after = λ s i. i }))

  pub Keeps-mark_paths_migrated : Keeps OnSound mark_paths_migrated
  unfolding mark_paths_migrated
  Keeps-mark_paths_migrated = Keeps-set paths_migrated_key (text "1")
