-- ===== src/Sync/Build.antt =====
-- code_rag/services/dependencies.py: the paths of the libraries that Maven or Gradle resolves are
-- cached in the index. The build tools, the disk and decoding are a parameter, `Machine`.
pub mod Names
pub mod State
pub mod Confined
use agent_coderag.Prelude.{
  ℕ, Bool, true, false, not, ◌&&◌, ◌||◌, Option, none, some, List, [], ◌∷◌, ◌++◌, Text, text,
  text_eq, nat_eq, ◌==◌, if◌then◌else◌, is_empty, drop, length, starts_with, keep,
}
use agent_coderag.Prelude.Strip.{strip}
use agent_coderag.Core.{Outcome, ok, raised, Action, pure, lift, gets, when, for_each, ◌>>=◌, ◌>>◌}
use agent_coderag.Storage.Units.{set_dependency_path}
use agent_coderag.Paths.Pure.{FilePath, of_text, as_posix, join_name}
use agent_coderag.Paths.Resolve.{validate_path}
use agent_coderag.Sync.Build.Names.{split_on, lib_name, stem}
use agent_coderag.Parser.Comments.{splitlines, ends_with}
use agent_coderag.Sync.Build.State.{
  Finished, Machine, World, on_storage, log_errors, finally, execute, write_file, remove_file,
  is_there,
}

abbrev pub classpath_prefix : Text
classpath_prefix = text "CODERAG_CP:"

abbrev pub is_jar : Text → Bool
is_jar jar_path = not (is_empty jar_path) && ends_with jar_path (text ".jar")

module _ {F : Type 0} where
  unfoldable pub cache_jar_path : Text → Action (World F) (Unit {0})
  cache_jar_path jar_path = do
    name ← lift (lib_name (stem (of_text jar_path)))
    on_storage (set_dependency_path name jar_path)

  -- The entries of a class path that the test lets through.
  unfoldable pub cache_jar_paths : (Text → Bool) → Text → Action (World F) (Unit {0})
  cache_jar_paths wanted classpath = for_each (keep wanted (split_on b':' classpath)) cache_jar_path

  unfoldable pub cache_line : Text → Action (World F) (Unit {0})
  cache_line line =
      when (starts_with line classpath_prefix)
        (cache_jar_paths is_jar (strip (drop (length classpath_prefix) line)))

  module _ (machine : Machine) where
    -- The class path that Maven left, if it left one.
    unfoldable pub cache_maven_file : FilePath → Action (World F) (Unit {0})
    cache_maven_file cp_file = elim (machine.classpath cp_file) [
      | none ↦ pure tt
      | some content ↦ lift content >>= λ classpath.
          remove_file machine cp_file
          >> cache_jar_paths (λ jar. not (is_empty jar)) (strip classpath)
    ]

    unfoldable pub run_maven : Text → FilePath → Action (World F) (Unit {0})
    run_maven mvn root = do
      let cp_file = join_name root (text ".coderag_cp.txt")
      let output_arg = text "-Dmdep.outputFile=.coderag_cp.txt"
      process ← execute machine (mvn ∷ text "dependency:build-classpath" ∷ output_arg ∷ []) root
      if process.succeeded then cache_maven_file cp_file else lift process.stderr_decoded

    unfoldable pub sync_maven : FilePath → Action (World F) (Unit {0})
    sync_maven root = elim (machine.which (text "mvn")) [
      | none ↦ pure tt
      | some mvn ↦ lift (validate_path machine.system root none) >>= λ valid_root.
          log_errors (run_maven mvn valid_root)
    ]

    unfoldable pub run_gradle : Text → FilePath → FilePath → Action (World F) (Unit {0})
    run_gradle gradle root script = do
      write_file machine script
      process ←
          execute machine
            (gradle
              ∷ text "-q"
              ∷ text "--init-script"
              ∷ as_posix script
              ∷ text "printCodeRagCP"
              ∷ [])
            root
      if process.succeeded
          then lift process.stdout_decoded >>= (λ output. for_each (splitlines output) cache_line)
          else lift process.stderr_decoded

    unfoldable pub execute_gradle_init : FilePath → Text → Action (World F) (Unit {0})
    execute_gradle_init root gradle =
        let script = join_name root (text ".coderag_init.gradle") in
        finally (log_errors (run_gradle gradle root script))
          (gets (is_there script) >>= λ there. when there (remove_file machine script))

    unfoldable pub sync_gradle : FilePath → Action (World F) (Unit {0})
    sync_gradle root = elim (machine.which (text "gradle")) [
      | none ↦ pure tt
      | some gradle ↦ lift (validate_path machine.system root none) >>= λ valid_root.
          execute_gradle_init valid_root gradle
    ]

    unfoldable pub sync_dependencies : Text → Bool → Action (World F) (Unit {0})
    sync_dependencies project_path allow_build_execution =
        let root = of_text project_path in
        let pom_xml = machine.system.exists (join_name root (text "pom.xml")) in
        let gradle_files = machine.gradle_files root in
        if (not pom_xml && not gradle_files) || not allow_build_execution
        then pure tt
        else if pom_xml
        then sync_maven root
        else when gradle_files (sync_gradle root)
