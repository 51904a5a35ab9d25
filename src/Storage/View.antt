-- ===== src/Storage/View.antt =====
-- What the index promises to its callers, without the order of its rows and its metadata: for each
-- id the unit, and for each id the vector. `upsert_unit` is an update at one id, and
-- `delete_stale_units` forgets the units with a property, and their vectors.
pub mod Refined
use agent_coderag.Prelude.{
  ℕ, Bool, true, false, Option, none, some, List, [], ◌∷◌, Text, ◌==◌, text_eq, if◌then◌else◌,
}
use agent_coderag.Core.{KnowledgeUnit, Action}
use agent_coderag.Storage.Db.{Row, Db, to_row, find_row, find_vector}
use agent_coderag.Storage.State.{Storage}
use agent_coderag.Storage.Units.{is_stale, upsert_unit, delete_stale_units}
use agent_coderag.Storage.Sound.Tables.{hit}

pub record Contents (F : Type 0) : Type 0 where
  pub unit : Text → Option Row
  pub vector : Text → Option (List F)

-- A change that indexing makes.
pub data Change (F : Type 0) : Type 0 where
  put : KnowledgeUnit → Option (List F) → Change F
  drop_stale : Text → List Text → Change F

module _ {F : Type 0} where
  unfoldable pub contents : Db F → Contents F
  contents db = record { unit = λ j. find_row j db.units; vector = λ j. find_vector j db }

  -- A unit that comes without a vector keeps the one that it has.
  unfoldable pub set_vector :
      Text → Option (List F) → (Text → Option (List F)) → Text → Option (List F)
  set_vector id none old j = old j
  set_vector id (some v) old j = if j == id then some v else old j

  unfoldable pub put_unit : KnowledgeUnit → Option (List F) → Contents F → Contents F
  put_unit u v c = record {
    unit = λ j. if j == u.id then some (to_row u) else c.unit j;
    vector = set_vector u.id v c.vector;
  }

  unfoldable pub forget : (Row → Bool) → Contents F → Contents F
  forget p c = record {
    unit = λ j. if hit p (c.unit j) then none else c.unit j;
    vector = λ j. if hit p (c.unit j) then none else c.vector j;
  }

  -- The method that makes the change, and what it promises.
  unfoldable pub perform : Change F → Action (Storage F) (Unit {0})
  perform (put u v) = upsert_unit u v
  perform (drop_stale path ids) = delete_stale_units path ids

  unfoldable pub promised : Change F → Contents F → Contents F
  promised (put u v) = put_unit u v
  promised (drop_stale path ids) = forget (is_stale path ids)

  unfoldable pub promised_all : List (Change F) → Contents F → Contents F
  promised_all [] c = c
  promised_all (x ∷ xs) c = promised_all xs (promised x c)
