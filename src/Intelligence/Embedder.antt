-- ===== src/Intelligence/Embedder.antt =====
-- The embedders of intelligence/embedder.py and intelligence/openai_embedder.py. `F` stands for
-- the floats. The model run and the HTTP request are the field `respond`, which gives no rows
-- where they raise; `normalize` is the L2 normalisation of one row.
use agent_coderag.Prelude.{
  ℕ, Bool, true, not, ◌&&◌, Option, none, some, List, [], ◌∷◌, map, Text, ◌==◌, nat_eq, ltb, length,
  if◌then◌else◌,
}
use agent_coderag.Core.{intelligence_error, value_error, foreign, Outcome, ok, raised}

pub record Embedder (F : Type 0) : Type 0 where
  pub model_id : Text
  pub bound_dimension : Option ℕ
  pub remote : Bool
  pub respond : List Text → Option (List (List F))
  pub normalize : List F → List F

module _ {F : Type 0} where
  -- The property `dimension`.
  unfoldable pub dimension : Embedder F → Outcome ℕ
  dimension e = elim e.bound_dimension [ none ↦ raised intelligence_error | some n ↦ ok n ]

  unfoldable pub bind_dimension : Embedder F → ℕ → Outcome (Embedder F)
  bind_dimension e dim = if ltb dim 1 then raised intelligence_error else elim e.bound_dimension [
    | none ↦ ok (record e { bound_dimension = some dim })
    | some n ↦ if dim == n then ok e else raised intelligence_error
  ]

  -- `for vec in raw: if len(vec) != n: raise`
  unfoldable pub all_width : ℕ → List (List F) → Bool
  all_width n [] = true
  all_width n (v ∷ raw) = length v == n && all_width n raw

  -- `np.asarray(raw, dtype=float)` wants rows of one width, and `norm(axis=1)` a matrix.
  unfoldable pub as_matrix : List (List F) → Outcome (List (List F))
  as_matrix [] = raised (foreign [])
  as_matrix (v ∷ raw) = if all_width (length v) raw then ok (v ∷ raw) else raised value_error

  unfoldable pub normalized : (List F → List F) → Outcome (List (List F)) → Outcome (List (List F))
  normalized f (ok rows) = ok (map f rows)
  normalized f (raised e) = raised e

  unfoldable pub check_width : Option ℕ → List (List F) → Bool
  check_width none raw = true
  check_width (some n) raw = all_width n raw

  unfoldable pub aembed_remote : Embedder F → List Text → List (List F) → Outcome (List (List F))
  aembed_remote e texts raw =
      if not (length raw == length texts)
      then raised intelligence_error
      else if not (check_width e.bound_dimension raw)
      then raised intelligence_error
      else normalized e.normalize (as_matrix raw)

  -- `aembed` of `OpenAICompatEmbedder` and of `LocalOnnxEmbedder`.
  unfoldable pub aembed : Embedder F → List Text → Outcome (List (List F))
  aembed e texts = elim (e.respond texts) [
    | none ↦ raised intelligence_error
    | some raw ↦ if e.remote then aembed_remote e texts raw else ok (map e.normalize raw)
  ]

  -- `_probe_or_bind_dimension` of storage/duckdb_impl.py, after `dimension` or the bind failed.
  unfoldable pub first_width : List (List F) → Option ℕ
  first_width [] = none
  first_width ([] ∷ rows) = none
  first_width ((x ∷ row) ∷ rows) = some (length (x ∷ row))
