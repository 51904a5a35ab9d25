-- ===== src/Tests/Sound.antt =====
-- The invariant of the index, and what it promises.
use agent_coderag.Prelude.{
  ℕ, ◌≡◌, refl, arith, true, false, none, some, [], ◌∷◌, text, text_eq, nat_eq, List,
}
use agent_coderag.Prelude.Dict.{lookup}
use agent_coderag.Core.{for_each}
use agent_coderag.Storage.Db.{to_row, find_vector, has_vectors, upsert_row, put_vector, fits}
use agent_coderag.Storage.State.{
  Storage, read_write, is_read_only, write, new_storage, finalize_rw_open, refresh_dirty_from_meta,
}
use agent_coderag.Storage.Connection.{open_db_connection, opened, refused_open, apply_rw_schema}
use agent_coderag.Storage.Bind.{ensure_embeddings_bound}
use agent_coderag.Storage.Units.{
  row_ids, upsert_unit, delete_stale_units, bind_for, put_row, put_vector_of,
}
use agent_coderag.Storage.Sound.{IsSound}
use agent_coderag.Storage.Sound.Reach.{Reached, created, unit_put, Reached-IsSound}
use agent_coderag.Storage.View.{contents, Change, put, drop_stale, perform, promised_all}
use agent_coderag.Storage.View.Refined.{IsReady, performed-promised}
use agent_coderag.Tests.Data.{embedder_of_two, unit_at, storage_on, fresh_db}

abbrev first_storage : Storage ℕ
first_storage = storage_on fresh_db false

opening : Reached first_storage
unfolding open_db_connection refused_open opened is_read_only apply_rw_schema new_storage
    finalize_rw_open refresh_dirty_from_meta has_vectors
opening = created true (some embedder_of_two) read_write false none first_storage refl

Reached_example :
    IsSound
      (upsert_unit
        (unit_at (text "a:f") (text "a") (text "h"))
        (some (3 ∷ 4 ∷ []))
        first_storage).1.db
Reached_example = Reached-IsSound _ (unit_put _ (some (3 ∷ 4 ∷ [])) first_storage opening)

-- An index without units, whose vectors have the width 2.
abbrev bound_storage : Storage ℕ
bound_storage =
    storage_on (record fresh_db { embeddings = some (record { width = some 2; rows = [] }) }) true

bound_storage-IsReady : IsReady bound_storage
unfolding find_vector has_vectors lookup row_ids
bound_storage-IsReady = record {
  sound = record {
    keyed = tt;
    owned = λ j h. absurd (ground arith);
    fitting = λ j v n h w. absurd (ground arith);
  };
  bound = refl;
  table = refl;
}

abbrev changes : List (Change ℕ)
changes =
    put (unit_at (text "a:f") (text "a") (text "h")) (some (3 ∷ 4 ∷ []))
    ∷ put (unit_at (text "a:g") (text "a") (text "k")) none
    ∷ drop_stale (text "a") (text "a:g" ∷ [])
    ∷ []

performed_example :
    let after = (for_each changes perform bound_storage).1 in
    IsReady after × (contents after.db ≡ promised_all changes (contents bound_storage.db))
unfolding for_each perform upsert_unit delete_stale_units bind_for ensure_embeddings_bound put_row
    put_vector_of write put_vector fits to_row has_vectors upsert_row nat_eq
performed_example = performed-promised changes bound_storage bound_storage-IsReady refl
