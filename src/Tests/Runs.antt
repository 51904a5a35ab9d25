-- ===== src/Tests/Runs.antt =====
-- The sync, the libraries of the build tools, the model files, and the workers.
use agent_coderag.Prelude.{
  ◌+◌, ◌*◌, ◌≤◌, ◌≡◌, ◌⊎◌, refl, arith, true, false, none, List, [], ◌∷◌, ◌++◌, Text, text, text_eq,
  nat_eq, All, length, ◌&&◌, if◌then◌else◌, leb,
}
use agent_coderag.Prelude.Dict.{insert, lookup}
use agent_coderag.Core.{value_error, index_error, ok, raised}
use agent_coderag.Storage.Db.{meta_get}
use agent_coderag.Storage.Units.{paths_migration_done}
use agent_coderag.Paths.Pure.{
  of_text, as_posix, join_parts, join_name, relative_to, same_bool, strip_parts, suffix,
  suffix_from, file_name, split_parts, add_part,
}
use agent_coderag.Paths.Resolve.{project_relative_posix}
use agent_coderag.Parser.Distill.{lower}
use agent_coderag.Parser.Languages.{extension_to_language}
use agent_coderag.Index.Units.{reject_dirty_incremental}
use agent_coderag.Index.File.{sync_file}
use agent_coderag.Index.Project.{sync_project_one_worker, run_worker, worker, sync_path}
use agent_coderag.Index.Pool.{
  Pool, start_pool, worker_count, new_workers, Run, done, step, Moves, here, takes, succeeds,
  empties, all_returned, gathered, returned, Worker, Entry,
}
use agent_coderag.Index.Pool.Once.{Run-Once, count, count_ended, count_failures, errors_in}
use agent_coderag.Index.Pool.Ends.{Run-Ends}
use agent_coderag.Sync.Files.{
  SyncResult, indexable_under, should_index, match_target, has_language, result_from_failures,
}
use agent_coderag.Sync.Build.{sync_dependencies, execute_gradle_init}
use agent_coderag.Sync.Build.State
use agent_coderag.Sync.Build.State.{on_storage}
use agent_coderag.Sync.Build.Confined.{
  IsConfined, sync_dependencies-IsConfined, execute_gradle_init-removed,
}
use agent_coderag.Sync.Build.Names.{lib_name}
use agent_coderag.Sync.Build.Names.Versions.{lib_name-version}
use agent_coderag.Sync.Run.{
  run_sync, sync_from, sync_paths, run_project_sync, walk_of, except_discovery, migrate_if_needed,
  rooted, ignored_by, path_given, validated_path,
}
use agent_coderag.Sync.Run.Closed.{IsUntouched, run_sync-IsUntouched}
use agent_coderag.Sync.Run.Report.{IsReport, chosen, run_sync-IsReport}
use agent_coderag.Setup.{
  is_there, run_setup, setup_files, setup_file, report, report_errors, download_file, place,
  drop_temporary, make_temporary, model_files, SetupResult,
}
use agent_coderag.Setup.Whole.{IsWhole}
use agent_coderag.Setup.Present.{run_setup-IsWhole_there}
use agent_coderag.Tests.Machines.{
  machine, root, project, stack, options, world, refuses, get, directory,
}

run_sync_closed_example : IsUntouched world (run_sync machine project stack refuses options world).1
run_sync_closed_example = run_sync-IsUntouched world machine project stack refuses options refl

abbrev result : SyncResult
result = record {
  status = text "error";
  indexed_files = 1;
  errors = (text "/repo/a.py", value_error) ∷ [];
}

run_sync_result_example : IsReport (chosen machine project options) result
unfolding run_sync validated_path path_given sync_from except_discovery sync_dependencies on_storage
    paths_migration_done migrate_if_needed meta_get lookup text_eq nat_eq sync_paths
    run_project_sync sync_project_one_worker walk_of indexable_under should_index match_target
    has_language lower suffix suffix_from file_name extension_to_language project_relative_posix
    relative_to same_bool strip_parts as_posix join_parts run_worker worker sync_path sync_file
    reject_dirty_incremental result_from_failures of_text split_parts add_part rooted ignored_by
run_sync_result_example = run_sync-IsReport machine project stack options refuses world result refl

sync_dependencies_example :
    IsConfined machine
      (of_text (text "/repo"))
      world
      (sync_dependencies machine (text "/repo") true world).1
sync_dependencies_example = sync_dependencies-IsConfined machine (text "/repo") true world

execute_gradle_init_example :
    State.is_there
      (join_name root (text ".coderag_init.gradle"))
      (execute_gradle_init machine root (text "gradle") world).1
    ≡ false
execute_gradle_init_example = execute_gradle_init-removed machine root (text "gradle") world refl

lib_name_example :
    let base = text "guava" in
    let version = text "1" in
    (lib_name (base ++ (b'-' ∷ b'3' ∷ version))
      ≡ ok (if leb b'0' b'3' && leb b'3' b'9' then base else base ++ (b'-' ∷ b'3' ∷ version)))
    × (lib_name (b'3' ∷ version) ≡ ok (b'3' ∷ version))
    × (lib_name (base ++ (b'-' ∷ [])) ≡ raised index_error)
unfolding nat_eq
lib_name_example = lib_name-version (text "guava") (text "1") b'3' refl

run_setup_example :
    IsWhole get directory (run_setup get false directory).1
    × ((a : SetupResult)
        → (run_setup get false directory).0 ≡ ok a
        → All (λ name. is_there name (run_setup get false directory).1 ≡ true) model_files)
run_setup_example = run_setup-IsWhole_there get false directory

abbrev whole_result : SetupResult
whole_result = record { downloaded = model_files; skipped = [] }

run_setup_returns : (run_setup get false directory).0 ≡ ok whole_result
unfolding run_setup setup_files setup_file report report_errors download_file place drop_temporary
    make_temporary insert lookup text_eq
run_setup_returns = refl

-- One path and one worker: it takes the path, its sync ends well, and it finds the queue empty.
abbrev one_path : List Text
one_path = text "a.py" ∷ []

abbrev last_pool : Pool
last_pool = record { workers = returned [] ∷ []; queue = []; ended = (text "a.py", none) ∷ [] }

whole_run : Run (start_pool one_path 4) 3 last_pool
unfolding start_pool worker_count new_workers
whole_run =
    step _ 2 _ _ _ []
      (step _ 1 _ _ _ ((text "a.py", none) ∷ [])
        (step _ 0 _ _ _ [] (done (start_pool one_path 4))
          (here _ _ [] _ _ [] (takes (text "a.py") [] [])))
        (here _ _ [] _ _ _ (succeeds (text "a.py") [] [])))
      (here _ _ [] _ _ [] (empties []))

Run-Once_example :
    (last_pool.queue ≡ [])
    × (count_ended (text "a.py") last_pool.ended ≡ count (text "a.py") one_path)
    × (count_failures (text "a.py") (gathered last_pool.workers)
        ≡ count_failures (text "a.py") (errors_in last_pool.ended))
unfolding worker_count all_returned
Run-Once_example = Run-Once one_path 4 3 last_pool (text "a.py") (omega arith) whole_run refl

Run-Ends_example :
    (3 ≤ 2 * length one_path + worker_count one_path 4)
    × ((all_returned last_pool.workers ≡ true)
        ⊎ ((ws : List Worker) × (q : List Text) × (new : List Entry) × Moves last_pool.workers
              last_pool.queue ws q new))
Run-Ends_example = Run-Ends one_path 4 3 last_pool whole_run
