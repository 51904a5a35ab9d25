-- ===== src/Storage/Bind.antt =====
-- Binding the embedder's width to the index: `bind_embedder_dimension` and what leads to it.
pub mod Gives
pub mod Agreement
pub mod Reopened
pub mod ReadOnly
use agent_coderag.Prelude.{
  ℕ, Bool, true, false, not, ◌&&◌, ◌||◌, Option, none, some, [], ◌∷◌, Text, ◌==◌, text_eq, nat_eq,
  if◌then◌else◌, leb, ltb, is_empty,
}
use agent_coderag.Prelude.Decimal.{decimal, digits_value}
use agent_coderag.Prelude.Strip.{strip}
use agent_coderag.Core.{
  Error, storage_corrupt, embedding_mismatch, embeddings_missing, storage_error, intelligence_error,
  Outcome, ok, raised, Action, gets, lift, modify, fail_if, when, ◌>>=◌, ◌>>◌, embedding_dim,
  embedding_probe_text, local_embedding_model_id,
}
use agent_coderag.Intelligence.Embedder.{Embedder, dimension, bind_dimension, aembed, first_width}
use agent_coderag.Storage.Db.{
  Db, has_vectors, schema_vec_width, meta_get, meta_set, meta_dim_key, meta_model_key,
}
use agent_coderag.Storage.State.{Storage, is_read_only, embedder, write}

-- `str.isdigit` on ASCII, for a text that is not empty.
unfoldable pub is_digits : Text → Bool
is_digits [] = true
is_digits (c ∷ s) = (leb b'0' c && leb c b'9') && is_digits s

abbrev pub corrupt : Error
corrupt = storage_error (some storage_corrupt)

abbrev pub mismatch : Error
mismatch = storage_error (some embedding_mismatch)

unfoldable pub parse_positive_dim : Text → Outcome ℕ
parse_positive_dim raw =
    let s = strip raw in
    if is_empty s || not (is_digits s)
    then raised corrupt
    else if ltb (digits_value 0 s) 1
    then raised corrupt
    else ok (digits_value 0 s)

-- `schema_n if schema_n is not None else d`
abbrev pub get_or_else : ℕ → Option ℕ → ℕ
get_or_else d none = d
get_or_else d (some n) = n

unfoldable pub width_differs : Option ℕ → ℕ → Bool
width_differs none dim = false
width_differs (some n) dim = not (n == dim)

unfoldable pub is_set : Option Text → Bool
is_set none = false
is_set (some t) = true

module _ {F : Type 0} where
  -- `embedder.bind_dimension(dim)` on the embedder `e` that the storage holds.
  unfoldable pub bind_to : Embedder F → ℕ → Action (Storage F) ℕ
  bind_to e dim s = elim (bind_dimension e dim) [
    | ok e' ↦ (ok dim, record s { own_embedder = some e' })
    | raised x ↦ (raised x, s)
  ]

  -- The handler: it asks for one vector to learn the width.
  unfoldable pub probe : Embedder F → Action (Storage F) ℕ
  probe e s = elim (aembed e (embedding_probe_text ∷ [])) [
    | raised x ↦ (raised x, s)
    | ok rows ↦ elim (first_width rows) [
      | none ↦ (raised intelligence_error, s)
      | some n ↦ bind_to e n s
    ]
  ]

  unfoldable pub probe_or_bind_dimension : Embedder F → Action (Storage F) ℕ
  probe_or_bind_dimension e s = elim (dimension e) [
    | raised x ↦ probe e s
    | ok already ↦ elim (bind_dimension e already) [
      | raised x ↦ probe e s
      | ok e' ↦ (ok already, record s { own_embedder = some e' })
    ]
  ]

  unfoldable pub bind_embedder_to_target : Embedder F → ℕ → Action (Storage F) ℕ
  bind_embedder_to_target e target s = elim e.bound_dimension [
    | none ↦ bind_to e target s
    | some already ↦ if not (already == target) then (raised mismatch, s) else bind_to e target s
  ]

  -- Both metadata entries are there.
  unfoldable pub bind_to_meta : Embedder F → Text → Text → Option ℕ → Action (Storage F) ℕ
  bind_to_meta e meta_dim meta_model schema_n = do
    meta_n ← lift (parse_positive_dim meta_dim)
    fail_if (width_differs schema_n meta_n) corrupt
    if meta_model == e.model_id
        then bind_embedder_to_target e (get_or_else meta_n schema_n)
        else probe_or_bind_dimension e

  -- One of them is missing: the table is older than the metadata.
  unfoldable pub bind_inferred : Embedder F → Bool → Option ℕ → Action (Storage F) ℕ
  bind_inferred e ro schema_n = do
    let inferred = get_or_else embedding_dim schema_n
    when (not ro) (write (meta_set meta_dim_key (decimal inferred)))
    when (not ro) (write (meta_set meta_model_key local_embedding_model_id))
    if e.model_id == local_embedding_model_id
        then bind_embedder_to_target e inferred
        else probe_or_bind_dimension e

  abbrev dispatch_meta :
      Embedder F → Bool → Option ℕ → Option Text → Option Text → Action (Storage F) ℕ
  dispatch_meta e ro schema_n (some dim) (some model) = bind_to_meta e dim model schema_n
  dispatch_meta e ro schema_n (some dim) none = bind_inferred e ro schema_n
  dispatch_meta e ro schema_n none model = bind_inferred e ro schema_n

  unfoldable pub bind_embedder_dimension : Embedder F → Action (Storage F) ℕ
  bind_embedder_dimension e s =
      if not s.pending_wipe && has_vectors s.db
      then dispatch_meta e (is_read_only s.mode) (schema_vec_width s.db)
          (meta_get meta_dim_key s.db) (meta_get meta_model_key s.db) s
      else probe_or_bind_dimension e s

  -- `CREATE TABLE IF NOT EXISTS unit_embeddings`, with the check of `float_vec_sql_type`.
  unfoldable pub create_vectors : ℕ → Db F → Outcome (Db F)
  create_vectors dim db = if ltb dim 1 then raised (storage_error none) else elim db.embeddings [
    | some t ↦ ok db
    | none ↦ ok (record db { embeddings = some (record { width = some dim; rows = [] }) })
  ]

  -- The writes, given the model that the metadata named before them.
  unfoldable pub write_width : ℕ → Text → Option Text → Action (Storage F) (Unit {0})
  write_width dim model_id meta_model = do
    write (create_vectors dim)
    write (meta_set meta_dim_key (decimal dim))
    when (not (is_set meta_model)) (write (meta_set meta_model_key model_id))

  unfoldable pub create_table_and_sync_meta : ℕ → Text → Action (Storage F) (Unit {0})
  create_table_and_sync_meta dim model_id = do
    schema_n ← gets (λ s. schema_vec_width s.db)
    meta_model ← gets (λ s. meta_get meta_model_key s.db)
    ro ← gets (λ s. is_read_only s.mode)
    fail_if (width_differs schema_n dim) mismatch
    when (not ro) (write_width dim model_id meta_model)

  unfoldable pub bind_embeddings : Action (Storage F) (Unit {0})
  bind_embeddings = do
    missing ← gets (λ s. is_read_only s.mode && not (has_vectors s.db))
    fail_if missing (storage_error (some embeddings_missing))
    e ← embedder
    dim ← bind_embedder_dimension e
    e' ← embedder
    create_table_and_sync_meta dim e'.model_id

  unfoldable pub ensure_embeddings_bound : Action (Storage F) (Unit {0})
  ensure_embeddings_bound = do
    done ← gets (λ s. s.embeddings_bound)
    when (not done) (do
      bind_embeddings
      modify (λ s. record s { embeddings_bound = true; pending_wipe = false }))
