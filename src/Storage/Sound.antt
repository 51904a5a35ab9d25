-- ===== src/Storage/Sound.antt =====
-- The invariant of the index: keys, the owners of the vectors, and the widths of the vectors.
pub mod Tables
pub mod Methods
pub mod Reach
use agent_coderag.Prelude.{
  ℕ, length, ◌≡◌, Bool, true, false, Option, none, some, List, [], ◌∷◌, Text, Distinct, text_eq,
}
use agent_coderag.Storage.Db.{Db, find_row, find_vector, schema_vec_width}
use agent_coderag.Storage.Units.{row_ids}

-- Something was found.
abbrev pub found {ℓ} : {A : Type ℓ} → Option A → Bool
found none = false
found (some a) = true

-- No id is stored twice, every vector belongs to a unit, and has the width of the table.
pub record IsSound {F : Type 0} (db : Db F) : Type 0 where
  pub keyed : Distinct (row_ids db.units)
  pub owned : (j : Text) → found (find_vector j db) ≡ true → found (find_row j db.units) ≡ true
  pub fitting :
      (j : Text) (v : List F) (n : ℕ)
      → find_vector j db ≡ some v
      → schema_vec_width db ≡ some n
      → length v ≡ n
