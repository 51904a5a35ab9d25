-- ===== src/Tests/Data.antt =====
-- The inputs of the tests: an embedder of width 2, two units, and storages. Floats are numbers here.
use agent_coderag.Prelude.{ℕ, Bool, false, none, some, [], ◌∷◌, map, Text, text}
use agent_coderag.Prelude.Decimal.{decimal}
use agent_coderag.Core.{KnowledgeUnit, function_kind, calls}
use agent_coderag.Intelligence.Embedder.{Embedder}
use agent_coderag.Storage.Db.{Db, Row}
use agent_coderag.Storage.State.{Storage, read_write}

abbrev pub embedder_of_two : Embedder ℕ
embedder_of_two = record {
  model_id = text "m";
  bound_dimension = none;
  remote = false;
  respond = λ texts. some (map (λ t. 3 ∷ 4 ∷ []) texts);
  normalize = λ v. v;
}

abbrev pub unit_at : Text → Text → Text → KnowledgeUnit
unit_at id path hash = record {
  id = id;
  kind = function_kind;
  name = text "f";
  path = path;
  signature = none;
  docstring = none;
  summary = none;
  code_hash = hash;
  tags = [];
  metadata = [];
  relations = [];
}

abbrev pub row_at : Text → Text → Row
row_at id path = record {
  id = id;
  kind = function_kind;
  name = text "f";
  path = path;
  signature = none;
  docstring = none;
  summary = none;
  code_hash = text "h";
  tags = [];
  metadata = [];
}

abbrev pub storage_on : Db ℕ → Bool → Storage ℕ
storage_on db bound = record {
  db = db;
  own_embedder = some embedder_of_two;
  mode = read_write;
  embedding_model_dirty = false;
  embeddings_bound = bound;
  pending_wipe = false;
  closed = false;
}

-- A new index.
abbrev pub fresh_db : Db ℕ
fresh_db = record {
  units = [];
  embeddings = none;
  relations = [];
  dependencies = [];
  index_meta = some [];
}

-- An index with a stale unit, `a:g`, and with one that is still in the file.
abbrev pub full_db : Db ℕ
full_db = record {
  units =
      row_at (text "a:f") (text "a")
      ∷ row_at (text "a:g") (text "a")
      ∷ row_at (text "b:f") (text "b")
      ∷ [];
  embeddings =
      some (record {
        width = some 2;
        rows = (text "a:g", 3 ∷ 4 ∷ []) ∷ (text "a:f", 5 ∷ 6 ∷ []) ∷ [];
      });
  relations = record { from_id = text "a:g"; to_id = text "a:f"; type = calls } ∷ [];
  dependencies = [];
  index_meta = some ((text "embedding_dim", decimal 2) ∷ (text "embedding_model", text "m") ∷ []);
}
