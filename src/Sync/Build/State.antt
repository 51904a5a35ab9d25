-- ===== src/Sync/Build/State.antt =====
-- The machine that a sync runs on, and the state that it changes.
use agent_coderag.Prelude.{
  Bool, not, Option, List, [], ◌∷◌, ◌++◌, Text, text_eq, ◌==◌, keep, contains,
}
use agent_coderag.Core.{Outcome, ok, raised, Action}
use agent_coderag.Storage.State.{Storage}
use agent_coderag.Paths.Pure.{FilePath, as_posix}
use agent_coderag.Paths.Resolve.{System}

-- A subprocess that ended within its time: whether its return code was 0, and its two outputs,
-- which `decode` may refuse.
pub record Finished : Type 0 where
  pub succeeded : Bool
  pub stdout_decoded : Outcome Text
  pub stderr_decoded : Outcome (Unit {0})

-- What the code asks of the machine: `shutil.which`, `glob("build.gradle*")`, a subprocess with its
-- command and directory, the file that Maven leaves, and opening a file for a
-- write, writing it and deleting it.
pub record Machine : Type 0 where
  pub system : System
  pub which : Text → Option Text
  pub gradle_files : FilePath → Bool
  pub run : List Text → FilePath → Outcome Finished
  pub classpath : FilePath → Option (Outcome Text)
  pub create : FilePath → Outcome (Unit {0})
  pub write : FilePath → Outcome (Unit {0})
  pub unlink : FilePath → Outcome (Unit {0})

-- The index, the commands that were started with their directories, the scripts that were written
-- and are still there, and the notices on standard error.
pub record World (F : Type 0) : Type 0 where
  pub storage : Storage F
  pub executed : List (List Text × FilePath)
  pub scripts : List Text
  pub notices : List Text

-- An exception of the cleanup takes the place of the other.
abbrev last_raise : Outcome (Unit {0}) → Outcome (Unit {0}) → Outcome (Unit {0})
last_raise (ok _) r = r
last_raise (raised e) (ok _) = raised e
last_raise (raised e) (raised e') = raised e'

module _ {F : Type 0} where
  unfoldable pub on_storage : {A : Type 0} → Action (Storage F) A → Action (World F) A
  on_storage m w = ((m w.storage).0, record w { storage = (m w.storage).1 })

  -- `try: m` with `except Exception` that logs.
  unfoldable pub log_errors : Action (World F) (Unit {0}) → Action (World F) (Unit {0})
  log_errors m w = (ok tt, (m w).1)

  -- `try: m finally: cleanup`
  unfoldable pub finally :
      Action (World F) (Unit {0}) → Action (World F) (Unit {0}) → Action (World F) (Unit {0})
  finally m cleanup w = let r = cleanup (m w).1 in (last_raise (m w).0 r.0, r.1)

  unfoldable pub execute : Machine → List Text → FilePath → Action (World F) Finished
  execute machine command cwd w =
      (machine.run command cwd, record w { executed = w.executed ++ ((command, cwd) ∷ []) })

  unfoldable pub is_there : FilePath → World F → Bool
  is_there path w = contains w.scripts (as_posix path)

  -- The file is there once it is open, also where the write then raises.
  unfoldable pub write_file : Machine → FilePath → Action (World F) (Unit {0})
  write_file machine path w = elim (machine.create path) [
    | raised e ↦ (raised e, w)
    | ok _ ↦ (machine.write path, record w { scripts = as_posix path ∷ w.scripts })
  ]

  unfoldable pub remove_file : Machine → FilePath → Action (World F) (Unit {0})
  remove_file machine path w = elim (machine.unlink path) [
    | raised e ↦ (raised e, w)
    | ok _ ↦ (ok tt, record w { scripts = keep (λ p. not (p == as_posix path)) w.scripts })
  ]
