-- ===== src/Migration/Run.antt =====
-- `migrate_absolute_paths`.

pub mod Kept
pub mod Mark
use agent_coderag.Prelude.{
  Bool, true, false, not, ◌&&◌, ◌||◌, Option, List, [], ◌∷◌, ◌++◌, map, Text, text_eq,
  if◌then◌else◌, contains, is_empty, keep,
}
use agent_coderag.Prelude.Dict.{Dict, keys}
use agent_coderag.Core.{Error, KnowledgeUnit, Outcome, ok, raised, Action, pure, when, ◌>>=◌, ◌>>◌}
use agent_coderag.Storage.Db.{Db}
use agent_coderag.Storage.State.{Storage}
use agent_coderag.Storage.Units.{list_units, paths_migration_done, mark_paths_migrated}
use agent_coderag.Storage.Rewrite.{
  commit_rewritten_path, delete_absolute_paths, commit_path_migration,
}
use agent_coderag.Paths.Pure.{FilePath, of_text, suffix}
use agent_coderag.Paths.Resolve.{System}
use agent_coderag.Parser.Distill.{lower}
use agent_coderag.Migration.Claim.{Counter, counter_of, groups_from, olds, claim_relative_paths}

-- `_suffix`
unfoldable pub lower_suffix : FilePath → Text
lower_suffix path = lower (suffix path)

-- What the loop over the files leaves: the hashes of those that were parsed, and the suffixes of
-- the others. Any exception of the parser skips the file.
pub record Parsed : Type 0 where
  pub files : List (FilePath × Counter)
  pub skipped : List Text
  pub incomplete : Bool

module _ (parse : FilePath → Outcome (List KnowledgeUnit)) where
  unfoldable pub parse_files : List FilePath → Parsed → Parsed
  parse_files [] p = p
  parse_files (path ∷ paths) p = parse_files paths (elim (parse path) [
    | raised e ↦ record p { skipped = lower_suffix path ∷ p.skipped; incomplete = true }
    | ok units ↦ record p {
      files = p.files ++ ((path, counter_of (map (λ u. u.code_hash) units) []) ∷ []);
    }
  ])

abbrev pub nothing_parsed : Parsed
nothing_parsed = record { files = []; skipped = []; incomplete = false }

unfoldable pub orphans_of :
    Dict Text Counter → List (Text × Text) → List Text → List Text → List Text
orphans_of groups mapping failed skipped =
    keep
      (λ old.
        not (contains (olds mapping) old)
        && (not (contains failed old) && not (contains skipped (lower_suffix (of_text old)))))
      (keys groups)

module _ {F : Type 0} (refuses : Db F → List Text → Option Error) where
  -- The commits, each in its own `try`: the paths whose commit failed.
  unfoldable pub commit_all : List (Text × Text) → List Text → Action (Storage F) (List Text)
  commit_all [] failed s = (ok failed, s)
  commit_all ((old, new) ∷ mapping) failed s =
      let r = commit_rewritten_path refuses old new s in
      commit_all mapping (elim r.0 [ ok _ ↦ failed | raised e ↦ old ∷ failed ]) r.1

  -- The end of a run: the orphans go, and the migration is marked unless a file or a path failed.
  unfoldable pub finish : Bool → List Text → Action (Storage F) Bool
  finish again orphans = do
    when (not (is_empty orphans)) (delete_absolute_paths refuses orphans)
    when (not again) mark_paths_migrated
    pure true

  module _ (sys : System) (root : FilePath) (parse : FilePath → Outcome (List KnowledgeUnit)) where
    unfoldable pub migrate_groups : Dict Text Counter → List FilePath → Action (Storage F) Bool
    migrate_groups groups files = do
      let parsed = parse_files parse files nothing_parsed
      let mapping = claim_relative_paths sys root groups parsed.files
      failed ← commit_all mapping []
      finish (parsed.incomplete || not (is_empty failed))
          (orphans_of groups mapping failed parsed.skipped)

    unfoldable pub migrate_absolute_paths : List FilePath → Action (Storage F) Bool
    migrate_absolute_paths files = do
      done ← paths_migration_done
      units ← list_units
      let groups = groups_from units []
      if done
          then pure false
          else if is_empty groups
          then commit_path_migration refuses [] >> pure false
          else migrate_groups groups files
