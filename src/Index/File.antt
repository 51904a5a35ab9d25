-- ===== src/Index/File.antt =====
-- `_process_unit` and `sync_file`.
pub mod Fresh
use agent_coderag.Prelude.{Bool, Option, none, some, List, [], ◌∷◌, ◌++◌, map, Text, if◌then◌else◌}
use agent_coderag.Core.{KnowledgeUnit, Action, pure, lift, ◌>>=◌, ◌>>◌}
use agent_coderag.Storage.State.{Storage}
use agent_coderag.Storage.Units.{upsert_unit, has_embedding, get_unit, delete_stale_units}
use agent_coderag.Index.Units.{
  IndexStack, summarized, unit_needs_embedding, embed_and_upsert, reject_dirty_incremental,
}

abbrev pub stored_or : Text → Option Text → Text
stored_or path none = path
stored_or path (some stored) = stored

module _ {F : Type 0} (stack : IndexStack) where
  -- The list of pending units, after this one.
  unfoldable pub process_unit :
      Bool → List KnowledgeUnit → KnowledgeUnit → Action (Storage F) (List KnowledgeUnit)
  process_unit force pending u = do
    old ← get_unit u.id
    let new = summarized stack old u force
    has_vec ← has_embedding u.id
    if unit_needs_embedding has_vec new old
        then pure (pending ++ (new ∷ []))
        else upsert_unit new none >> pure pending

  unfoldable pub process_units :
      Bool → List KnowledgeUnit → List KnowledgeUnit → Action (Storage F) (List KnowledgeUnit)
  process_units force [] pending = pure pending
  process_units force (u ∷ units) pending =
      process_unit force pending u >>= process_units force units

  unfoldable pub sync_file : Text → Option Text → Bool → Action (Storage F) (Unit {0})
  sync_file path stored force = do
    reject_dirty_incremental
    units ← lift (stack.parse path stored)
    pending ← process_units force units []
    embed_and_upsert pending
    delete_stale_units (stored_or path stored) (map (λ u. u.id) units)
