-- ===== src/Storage/Rewrite.antt =====
-- The statements of the path migration: `_rewrite_path_prefix`, `commit_rewritten_path`,
-- `delete_absolute_paths` and `commit_path_migration`.
pub mod Renames
use agent_coderag.Prelude.{
  not, ◌||◌, Option, none, some, List, [], ◌∷◌, ◌++◌, map, Text, ◌==◌, text_eq, length, drop,
  starts_with, if◌then◌else◌, keep, contains,
}
use agent_coderag.Prelude.Dict.{Dict}
use agent_coderag.Core.{Error, Relation, Outcome, ok, raised, Action, for_each, ◌>>◌}
use agent_coderag.Storage.Db.{Row, Db, erase_keys}
use agent_coderag.Storage.State.{Storage, write}
use agent_coderag.Storage.Units.{row_ids, mark_paths_migrated}

-- `CASE WHEN starts_with(id, prefix) THEN new || substring(id, start) ELSE id END`, with
-- `prefix = old + ":"` and `start` at the colon.
unfoldable pub rewrite_id : Text → Text → Text → Text
rewrite_id old new id =
    if starts_with id (old ++ (b':' ∷ [])) then new ++ drop (length old) id else id

unfoldable pub rewrite_row : Text → Text → Row → Row
rewrite_row old new r =
    if r.path == old then record r { path = new; id = rewrite_id old new r.id } else r

unfoldable pub rewrite_relation : Text → Text → Relation → Relation
rewrite_relation old new r = record r {
  from_id = rewrite_id old new r.from_id;
  to_id = rewrite_id old new r.to_id;
}

unfoldable pub rewrite_vectors {ℓ} : {V : Type ℓ} → Text → Text → Dict Text V → Dict Text V
rewrite_vectors old new [] = []
rewrite_vectors old new ((id, v) ∷ d) = (rewrite_id old new id, v) ∷ rewrite_vectors old new d

module _ {F : Type 0} where
  -- The three `UPDATE` statements, where the engine accepts them.
  unfoldable pub rewrite_path_prefix : Text → Text → Db F → Db F
  rewrite_path_prefix old new db = record db {
    units = map (rewrite_row old new) db.units;
    embeddings = elim db.embeddings [
      | none ↦ none
      | some t ↦ some (record t { rows = rewrite_vectors old new t.rows })
    ];
    relations = map (rewrite_relation old new) db.relations;
  }

  -- A row of `units` whose path is in the list goes, with its vector and all its relations.
  unfoldable pub delete_path : Text → Db F → Db F
  delete_path path db =
      let ids = row_ids (keep (λ r. r.path == path) db.units) in
      record db {
        units = keep (λ r. not (r.path == path)) db.units;
        embeddings = elim db.embeddings [
          | none ↦ none
          | some t ↦ some (record t { rows = erase_keys (contains ids) t.rows })
        ];
        relations = keep (λ r. not (contains ids r.from_id || contains ids r.to_id)) db.relations;
      }

  unfoldable pub delete_paths : List Text → Db F → Db F
  delete_paths [] db = db
  delete_paths (p ∷ paths) db = delete_paths paths (delete_path p db)

  -- `refuses` says at which call the engine raises inside the transaction, for a key that is
  -- taken or any other reason; the handler then rolls back and raises again.
  module _ (refuses : Db F → List Text → Option Error) where
    unfoldable pub transaction : List Text → (Db F → Db F) → Db F → Outcome (Db F)
    transaction subject f db = elim (refuses db subject) [ some e ↦ raised e | none ↦ ok (f db) ]

    unfoldable pub commit_rewritten_path : Text → Text → Action (Storage F) (Unit {0})
    commit_rewritten_path old new =
        write (transaction (old ∷ new ∷ []) (rewrite_path_prefix old new))

    unfoldable pub delete_absolute_paths : List Text → Action (Storage F) (Unit {0})
    delete_absolute_paths paths = write (transaction paths (delete_paths paths))

    unfoldable pub commit_path_migration : List (Text × Text) → Action (Storage F) (Unit {0})
    commit_path_migration mapping = do
      for_each mapping (λ (old, new). commit_rewritten_path old new)
      mark_paths_migrated
