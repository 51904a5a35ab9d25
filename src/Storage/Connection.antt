-- ===== src/Storage/Connection.antt =====
-- code_rag/storage/db_connection.py: opening the database, with retries while it is locked.
pub mod Retry
use agent_coderag.Prelude.{
  ℕ, zero, suc, ◌+◌, Bool, true, false, not, ◌&&◌, Option, none, some, List, [], ◌∷◌, Text, text,
  ◌==◌, text_eq, leb, if◌then◌else◌,
}
use agent_coderag.Prelude.Dict.{Dict}
use agent_coderag.Core.{Error, storage_error, storage_busy_error, Outcome, ok, raised}
use agent_coderag.Intelligence.Embedder.{Embedder}
use agent_coderag.Storage.Db.{Db, meta_dim_key, meta_model_key, erase_keys}
use agent_coderag.Storage.State.{AccessMode, is_read_only, Storage, new_storage, finalize_rw_open}

-- What one call of `duckdb.connect` does: a database, `duckdb.IOException`, or another exception.
pub data Attempt (D : Type 0) : Type 0 where
  connected : D → Attempt D
  busy : Attempt D
  failed : Attempt D

-- The loop of `_connect_with_retry` from attempt k on: `clock k` is the time that is read after
-- attempt k failed. None means that the fuel ran out.
module _ {D : Type 0} (attempt : ℕ → Attempt D) (clock : ℕ → ℕ) (deadline : ℕ) where
  unfoldable pub connect_with_retry : ℕ → ℕ → Option (Outcome D)
  connect_with_retry zero k = none
  connect_with_retry (suc fuel) k =
      let again = connect_with_retry fuel (suc k) in
      elim (attempt k) [
        | connected d ↦ some (ok d)
        | failed ↦ some (raised (storage_error none))
        | busy ↦ if leb deadline (clock k) then some (raised storage_busy_error) else again
      ]

-- The executor and the connection that are open when the call ends.
pub record Held : Type 0 where
  pub executor : Bool
  pub connection : Bool

abbrev pub nothing_held : Held
nothing_held = record { executor = false; connection = false }

module _ {F : Type 0} where
  -- `apply_rw_schema`: the base tables, and with `wipe` no vectors and no metadata of theirs.
  unfoldable pub apply_rw_schema : Bool → Db F → Db F
  apply_rw_schema wipe db =
      let meta = elim db.index_meta as (λ _. Dict Text Text) [ none ↦ [] | some m ↦ m ] in
      if wipe
      then record db {
        embeddings = none;
        index_meta =
            some (erase_keys (λ k. if k == meta_dim_key then true else k == meta_model_key) meta);
      }
      else record db { index_meta = some meta }

  -- The checks of `open_db_connection` before it connects.
  unfoldable pub refused_open : Bool → Option (Embedder F) → AccessMode → Bool → Bool
  refused_open there e mode wipe =
      if wipe && is_read_only mode
      then true
      else if is_read_only mode
      then not there
      else elim e [ none ↦ true | some _ ↦ false ]

  -- `schema_error` is an exception of the engine while the tables are made.
  unfoldable pub opened :
      Db F → Option (Embedder F) → AccessMode → Bool → Option Error → Outcome (Storage F) × Held
  opened db e mode wipe schema_error =
      if is_read_only mode
      then (
        ok (finalize_rw_open wipe (new_storage db e mode)),
        record { executor = true; connection = true },
      )
      else elim schema_error [
        | some x ↦ (raised x, nothing_held)
        | none ↦ (
          ok (finalize_rw_open wipe (new_storage (apply_rw_schema wipe db) e mode)),
          record { executor = true; connection = true },
        )
      ]

  unfoldable pub open_db_connection :
      Outcome (Db F)
      → Bool
      → Option (Embedder F)
      → AccessMode
      → Bool
      → Option Error
      → Outcome (Storage F) × Held
  open_db_connection connection there e mode wipe schema_error =
      if refused_open there e mode wipe
      then (raised (storage_error none), nothing_held)
      else elim connection [
        | raised x ↦ (raised x, nothing_held)
        | ok db ↦ opened db e mode wipe schema_error
      ]
