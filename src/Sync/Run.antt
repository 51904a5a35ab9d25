-- ===== src/Sync/Run.antt =====
-- `run_sync` and `run_rebuild`, with one worker (`max_concurrency=1`). The file walk, `is_file`,
-- pathspec's match and what `.gitignore` holds are a parameter, `Project`.
pub mod Report
pub mod Closed
use agent_coderag.Prelude.{
  ℕ, Bool, true, false, not, ◌&&◌, Option, none, some, List, [], ◌∷◌, ◌++◌, map, Text, text,
  if◌then◌else◌, is_empty, length,
}
use agent_coderag.Core.{
  Error, discovery_error, KnowledgeUnit, truthy, Outcome, ok, raised, Action, pure, lift, gets,
  when, modify, ◌>>=◌, ◌>>◌,
}
use agent_coderag.Storage.Db.{Db}
use agent_coderag.Storage.State.{Storage}
use agent_coderag.Storage.Units.{paths_migration_done}
use agent_coderag.Paths.Pure.{FilePath, of_text, as_posix}
use agent_coderag.Paths.Resolve.{System, project_relative_posix, validate_path}
use agent_coderag.Migration.Run.{migrate_absolute_paths}
use agent_coderag.Index.Units.{IndexStack}
use agent_coderag.Index.Project.{sync_project_one_worker}
use agent_coderag.Sync.Files.{
  should_index, indexable_under, ignore_lines, SyncResult, result_from_failures,
}
use agent_coderag.Sync.Build.{sync_dependencies}
use agent_coderag.Sync.Build.State.{Machine, World, on_storage}

-- `max_concurrency` goes to `sync_project`, which the model runs with one worker whatever it is.
pub record SyncOptions : Type 0 where
  pub root : FilePath
  pub path : Option Text
  pub index_all : Bool
  pub force : Bool
  pub allow_build_execution : Bool
  pub max_concurrency : ℕ

-- What the code asks of the disk and of pathspec: the lines of `.gitignore`, whether some patterns
-- match a posix path, `is_file`, and `rglob("*")` with what `is_file` says of each path.
pub record Project : Type 0 where
  pub gitignore : FilePath → Option (List Text)
  pub matches : List Text → Text → Bool
  pub is_file : FilePath → Bool
  pub walk : FilePath → List (FilePath × Bool)

abbrev pub reindex_notice : Text
reindex_notice = text "Run sync --all to reindex the project after path migration."

-- `options.path if options.path else None`
unfoldable pub path_given : Option Text → Option Text
path_given path = if truthy path then path else none

unfoldable pub ignored_by : Project → FilePath → Text → Bool
ignored_by project root = project.matches (ignore_lines (project.gitignore root))

-- The parser of the stack for the migration: `distill_file(str(path))`.
unfoldable pub parse_file : IndexStack → FilePath → Outcome (List KnowledgeUnit)
parse_file stack path = stack.parse (as_posix path) none

-- The stack with its root.
unfoldable pub rooted : Machine → IndexStack → FilePath → IndexStack
rooted machine stack root = record stack {
  relative = some (λ path. project_relative_posix machine.system (of_text path) root);
}

unfoldable pub walk_of : Machine → Project → FilePath → SyncOptions → List Text
walk_of machine project walk_root o =
    indexable_under machine.system (ignored_by project o.root) (project.walk walk_root) o.root

unfoldable pub validated_path : System → SyncOptions → Outcome (Option Text)
validated_path system o = elim (path_given o.path) [
  | none ↦ ok none
  | some p ↦ elim (validate_path system (of_text p) (some o.root)) [
    | ok valid ↦ ok (some (as_posix valid))
    | raised e ↦ raised e
  ]
]

abbrev pub nothing_asked : SyncOptions → Bool
nothing_asked o = elim o.path [ none ↦ not o.index_all | some p ↦ false ]

-- `isinstance(e, DiscoveryError)`
unfoldable pub is_discovery : Error → Bool
is_discovery discovery_error = true
is_discovery _ = false

module _ {F : Type 0} where
  -- `except DiscoveryError`
  unfoldable pub except_discovery : Action (World F) (Unit {0}) → Action (World F) (Unit {0})
  except_discovery m w = elim (m w).0 [
    | ok _ ↦ (ok tt, (m w).1)
    | raised e ↦ (if is_discovery e then ok tt else raised e, (m w).1)
  ]

  -- `except Exception`: the migration counts as run.
  unfoldable pub except_migration : Action (World F) Bool → Action (World F) Bool
  except_migration m w = elim (m w).0 [ ok ran ↦ (ok ran, (m w).1) | raised e ↦ (ok true, (m w).1) ]

  unfoldable pub print_notice : Action (World F) (Unit {0})
  print_notice = modify (λ w. record w { notices = w.notices ++ (reindex_notice ∷ []) })

module _ {F : Type 0} (machine : Machine) (project : Project) (stack : IndexStack) where
  unfoldable pub run_project_sync : List Text → SyncOptions → Action (World F) (List (Text × Error))
  run_project_sync paths o =
      on_storage (sync_project_one_worker (rooted machine stack o.root) paths o.force o.index_all)

  -- The sync of these paths, with their number in the result.
  unfoldable pub sync_paths : List Text → SyncOptions → Action (World F) SyncResult
  sync_paths paths o = do
    failures ← run_project_sync paths o
    pure (result_from_failures (length paths) failures)

  unfoldable pub sync_validated_path : Text → SyncOptions → Action (World F) SyncResult
  sync_validated_path validated o =
      let target = of_text validated in
      let paths = walk_of machine project target o in
      if project.is_file target
      then if should_index machine.system (ignored_by project o.root) target (some o.root)
        then run_project_sync (as_posix target ∷ []) o >>= (λ f. pure (result_from_failures 1 f))
        else pure (result_from_failures 0 [])
      else if is_empty paths && not o.index_all
      then pure (result_from_failures (length paths) [])
      else sync_paths paths o

  module _ (refuses : Db F → List Text → Option Error) where
    unfoldable pub migrate_if_needed : Bool → SyncOptions → Action (World F) Bool
    migrate_if_needed done o =
        if done
        then pure false
        else except_migration (
            on_storage (
              migrate_absolute_paths refuses machine.system o.root (parse_file stack)
                (map of_text (walk_of machine project o.root o))))

    -- What follows the validation of the path.
    unfoldable pub sync_from : Option Text → SyncOptions → Action (World F) SyncResult
    sync_from validated o = do
      except_discovery (
          sync_dependencies machine (elim validated [ none ↦ as_posix o.root | some p ↦ p ])
            o.allow_build_execution)
      done ← on_storage paths_migration_done
      ran ← migrate_if_needed done o
      when (ran && not o.index_all) print_notice
      elim validated [
        | some p ↦ sync_validated_path p o
        | none ↦ sync_paths (walk_of machine project o.root o) o
      ]

    unfoldable pub run_sync : SyncOptions → Action (World F) SyncResult
    run_sync o =
        if nothing_asked o
        then pure (result_from_failures 0 [])
        else lift (validated_path machine.system o) >>= λ validated. sync_from validated o

    unfoldable pub run_rebuild : FilePath → Bool → ℕ → Action (World F) SyncResult
    run_rebuild root allow_build_execution max_concurrency = run_sync (record {
      root = root;
      path = none;
      index_all = true;
      force = true;
      allow_build_execution = allow_build_execution;
      max_concurrency = max_concurrency;
    })
