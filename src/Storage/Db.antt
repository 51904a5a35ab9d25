-- ===== src/Storage/Db.antt =====
-- The tables of the index, and the helpers that read and write `index_meta`.
-- The SQL statements of storage/duckdb_impl.py are written as the changes that they make.
pub mod Meta
use agent_coderag.Prelude.{
  ℕ, Bool, true, false, ◌&&◌, Option, none, some, List, [], ◌∷◌, Text, text, ◌==◌, text_eq, nat_eq,
  length, if◌then◌else◌,
}
use agent_coderag.Prelude.Dict.{Dict, lookup, insert}
use agent_coderag.Core.{
  UnitKind, RelationType, imports, calls, inherits, defines, Relation, KnowledgeUnit, Json, foreign,
  Outcome, ok, raised,
}

-- A row of `units`; the JSON column is held as the value that it stands for.
pub record Row : Type 0 where
  pub id : Text
  pub kind : UnitKind
  pub name : Text
  pub path : Text
  pub signature : Option Text
  pub docstring : Option Text
  pub summary : Option Text
  pub code_hash : Text
  pub tags : List Text
  pub metadata : Dict Text Json

-- `unit_embeddings`. The width is that of the column `vec FLOAT[n]`, if it has such a type.
pub record Vectors (F : Type 0) : Type 0 where
  pub width : Option ℕ
  pub rows : Dict Text (List F)

-- A table that may be missing is an `Option`. The base tables that are missing are held as empty.
pub record Db (F : Type 0) : Type 0 where
  pub units : List Row
  pub embeddings : Option (Vectors F)
  pub relations : List Relation
  pub dependencies : Dict Text Text
  pub index_meta : Option (Dict Text Text)

abbrev pub meta_dim_key : Text
meta_dim_key = text "embedding_dim"

abbrev pub meta_model_key : Text
meta_model_key = text "embedding_model"

abbrev pub paths_migrated_key : Text
paths_migrated_key = text "paths_migrated"

-- The payload of `upsert_unit`.
unfoldable pub to_row : KnowledgeUnit → Row
to_row u = record {
  id = u.id;
  kind = u.kind;
  name = u.name;
  path = u.path;
  signature = u.signature;
  docstring = u.docstring;
  summary = u.summary;
  code_hash = u.code_hash;
  tags = u.tags;
  metadata = u.metadata;
}

unfoldable pub map_row_to_unit : Row → KnowledgeUnit
map_row_to_unit r = record {
  id = r.id;
  kind = r.kind;
  name = r.name;
  path = r.path;
  signature = r.signature;
  docstring = r.docstring;
  summary = r.summary;
  code_hash = r.code_hash;
  tags = r.tags;
  metadata = r.metadata;
  relations = [];
}

-- `SELECT … FROM units WHERE id = ?`
unfoldable pub find_row : Text → List Row → Option Row
find_row id [] = none
find_row id (r ∷ rows) = if id == r.id then some r else find_row id rows

-- `INSERT OR REPLACE INTO units`: the key is `id`.
unfoldable pub upsert_row : Row → List Row → List Row
upsert_row r [] = r ∷ []
upsert_row r (q ∷ rows) = if r.id == q.id then r ∷ rows else q ∷ upsert_row r rows

unfoldable pub same_type : RelationType → RelationType → Bool
same_type imports imports = true
same_type calls calls = true
same_type inherits inherits = true
same_type defines defines = true
same_type _ _ = false

unfoldable pub same_relation : Relation → Relation → Bool
same_relation a b = a.from_id == b.from_id && (a.to_id == b.to_id && same_type a.type b.type)

-- `INSERT OR REPLACE INTO relations`: the key is the whole row.
unfoldable pub upsert_relation_row : Relation → List Relation → List Relation
upsert_relation_row r [] = r ∷ []
upsert_relation_row r (q ∷ rows) =
    if same_relation r q then r ∷ rows else q ∷ upsert_relation_row r rows

module _ {F : Type 0} where
  -- `_table_exists(conn, "unit_embeddings")`
  unfoldable pub has_vectors : Db F → Bool
  has_vectors db = elim db.embeddings [ none ↦ false | some _ ↦ true ]

  -- `_schema_vec_width`, where the table exists
  unfoldable pub schema_vec_width : Db F → Option ℕ
  schema_vec_width db = elim db.embeddings [ none ↦ none | some t ↦ t.width ]

  unfoldable pub meta_get : Text → Db F → Option Text
  meta_get key db = elim db.index_meta [ none ↦ none | some m ↦ lookup key m ]

  -- A write to a table that is missing raises.
  unfoldable pub meta_set : Text → Text → Db F → Outcome (Db F)
  meta_set key value db = elim db.index_meta [
    | none ↦ raised (foreign (text "CatalogException"))
    | some m ↦ ok (record db { index_meta = some (insert key value m) })
  ]

  -- A `FLOAT[n]` column takes vectors of width n.
  unfoldable pub fits : Option ℕ → List F → Bool
  fits none v = true
  fits (some n) v = length v == n

  -- `INSERT OR REPLACE INTO unit_embeddings`
  unfoldable pub put_vector : Text → List F → Db F → Outcome (Db F)
  put_vector id v db = elim db.embeddings [
    | none ↦ raised (foreign (text "CatalogException"))
    | some t ↦
        if fits t.width v
        then ok (record db { embeddings = some (record t { rows = insert id v t.rows }) })
        else raised (foreign (text "ConversionException"))
  ]

  -- `SELECT 1 FROM unit_embeddings WHERE id = ?`
  unfoldable pub find_vector : Text → Db F → Option (List F)
  find_vector id db = elim db.embeddings [ none ↦ none | some t ↦ lookup id t.rows ]

-- `DELETE FROM … WHERE key IN ids`
unfoldable pub erase_keys {ℓ} : {V : Type ℓ} → (Text → Bool) → Dict Text V → Dict Text V
erase_keys p [] = []
erase_keys p ((k, v) ∷ d) = let rest = erase_keys p d in if p k then rest else (k, v) ∷ rest
