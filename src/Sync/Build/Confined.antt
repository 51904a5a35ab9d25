-- ===== src/Sync/Build/Confined.antt =====
-- What the build tools may do, and what a sync of the libraries may change.
use agent_coderag.Prelude.{
  ◌≡◌, refl, sym, ◌∙◌, ap, arith, Bool, false, not, ◌⊎◌, Option, none, some, List, [], ◌∷◌, ◌++◌,
  append-nil, append_assoc, Text, text, text_eq, ◌==◌, inl, inr, Bool-cases, Option-cases, All,
  All-append, keep, contains, is_empty,
}
use agent_coderag.Prelude.Strip.{strip}
use agent_coderag.Core.{
  Outcome, ok, Outcome-cases, Action, pure, lift, ◌>>=◌, ◌>>◌, Keeps, Keeps->>=, Keeps->>,
  Keeps-when, Keeps-if, Keeps-pure, Keeps-lift, Keeps-gets, Keeps-for_each,
}
use agent_coderag.Storage.State.{write}
use agent_coderag.Storage.Units.{set_dependency_path}
use agent_coderag.Paths.Pure.{FilePath, of_text, as_posix, join_name}
use agent_coderag.Paths.Resolve.{validate_path}
use agent_coderag.Sync.Build.Names.{lib_name, stem}
use agent_coderag.Parser.Comments.{splitlines}
use agent_coderag.Sync.Build.{
  cache_jar_path, cache_jar_paths, cache_line, cache_maven_file, run_maven, sync_maven, run_gradle,
  execute_gradle_init, sync_gradle, sync_dependencies, is_jar,
}
use agent_coderag.Sync.Build.State.{
  Machine, World, on_storage, log_errors, finally, execute, write_file, remove_file, is_there,
}

-- The command starts the Maven or the Gradle of the machine, in a directory that is allowed.
pub record IsBuild (machine : Machine) (root : FilePath) (run : List Text × FilePath) : Type 0 where
  pub tool : Text
  pub program : Text
  pub args : List Text
  pub known : (tool ≡ text "mvn") ⊎ (tool ≡ text "gradle")
  pub found : machine.which tool ≡ some program
  pub command : run.0 ≡ program ∷ args
  pub allowed : validate_path machine.system root none ≡ ok run.1

module _ {F : Type 0} (machine : Machine) (root : FilePath) (w : World F) where
  -- The units, vectors, relations and metadata are as they were, and only builds were started.
  pub record IsConfined (w' : World F) : Type 0 where
    pub units : w'.storage.db.units ≡ w.storage.db.units
    pub embeddings : w'.storage.db.embeddings ≡ w.storage.db.embeddings
    pub relations : w'.storage.db.relations ≡ w.storage.db.relations
    pub meta : w'.storage.db.index_meta ≡ w.storage.db.index_meta
    pub commands :
        (more : List (List Text × FilePath)) × (w'.executed ≡ w.executed ++ more)
        × All (IsBuild machine root) more

  Keeps-cache_jar_path : (jar : Text) → Keeps IsConfined (cache_jar_path jar)
  unfolding cache_jar_path on_storage set_dependency_path write
  Keeps-cache_jar_path jar = Keeps->>= (Keeps-lift (lib_name (stem (of_text jar)))) (λ name.
      record {
        after = λ s i. record {
          units = i.units;
          embeddings = i.embeddings;
          relations = i.relations;
          meta = i.meta;
          commands = i.commands;
        };
      })

  Keeps-cache_jar_paths :
      (wanted : Text → Bool) (classpath : Text)
      → Keeps IsConfined (cache_jar_paths wanted classpath)
  unfolding cache_jar_paths
  Keeps-cache_jar_paths wanted classpath = Keeps-for_each _ cache_jar_path Keeps-cache_jar_path

  Keeps-remove_file : (p : FilePath) → Keeps IsConfined (remove_file machine p)
  unfolding remove_file
  Keeps-remove_file p = record {
    after = λ s i. elim (Outcome-cases (machine.unlink p)) [
      | inr (x, e) ↦ rw (remove_file, e) i
      | inl (t, e) ↦
          rw (remove_file, e)
            (record {
              units = i.units;
              embeddings = i.embeddings;
              relations = i.relations;
              meta = i.meta;
              commands = i.commands;
            })
    ];
  }

  Keeps-write_file : (p : FilePath) → Keeps IsConfined (write_file machine p)
  unfolding write_file
  Keeps-write_file p = record {
    after = λ s i. elim (Outcome-cases (machine.create p)) [
      | inr (x, e) ↦ rw (write_file, e) i
      | inl (t, e) ↦
          rw (write_file, e)
            (record {
              units = i.units;
              embeddings = i.embeddings;
              relations = i.relations;
              meta = i.meta;
              commands = i.commands;
            })
    ];
  }

  Keeps-execute :
      (command : List Text) (cwd : FilePath)
      → IsBuild machine root (command, cwd)
      → Keeps IsConfined (execute machine command cwd)
  unfolding execute
  Keeps-execute command cwd build = record {
    after = λ s i. record {
      units = i.units;
      embeddings = i.embeddings;
      relations = i.relations;
      meta = i.meta;
      commands =
          let (more, same, builds) = i.commands in
          (
            more ++ ((command, cwd) ∷ []),
            ap (λ l. l ++ ((command, cwd) ∷ [])) same ∙ append_assoc w.executed more _,
            All-append _ more _ builds (build, tt),
          );
    };
  }

  Keeps-log_errors :
      {m : Action (World F) (Unit {0})} → Keeps IsConfined m → Keeps IsConfined (log_errors m)
  unfolding log_errors
  Keeps-log_errors h = record { after = λ s i. h.after s i }

  Keeps-finally :
      {m k : Action (World F) (Unit {0})}
      → Keeps IsConfined m
      → Keeps IsConfined k
      → Keeps IsConfined (finally m k)
  unfolding finally
  Keeps-finally {m} h hk = record { after = λ s i. hk.after (m s).1 (h.after s i) }

  Keeps-run_maven :
      (mvn : Text) (cwd : FilePath)
      → machine.which (text "mvn") ≡ some mvn
      → validate_path machine.system root none ≡ ok cwd
      → Keeps IsConfined (run_maven machine mvn cwd)
  unfolding run_maven cache_maven_file
  Keeps-run_maven mvn cwd found allowed =
      Keeps->>=
        (Keeps-execute _ cwd (record {
          tool = text "mvn";
          program = mvn;
          args = _;
          known = inl refl;
          found = found;
          command = refl;
          allowed = allowed;
        }))
        (λ process. Keeps-if process.succeeded (file (machine.classpath _)) (Keeps-lift _))
    where
      file :
          (o : Option (Outcome Text))
          → Keeps IsConfined (elim o as (λ _. Action (World F) (Unit {0})) [
            | none ↦ pure tt
            | some content ↦ lift content >>= λ classpath.
                remove_file machine (join_name cwd (text ".coderag_cp.txt"))
                >> cache_jar_paths (λ jar. not (is_empty jar)) (strip classpath)
          ])
      file none = Keeps-pure tt
      file (some content) =
          Keeps->>= (Keeps-lift content)
            (λ classpath. Keeps->> (Keeps-remove_file _) (Keeps-cache_jar_paths _ _))

  Keeps-sync_maven : Keeps IsConfined (sync_maven machine root)
  unfolding sync_maven
  Keeps-sync_maven = record {
    after = λ s i. elim (Option-cases (machine.which (text "mvn"))) [
      | inl e ↦ rw (sync_maven, e) i
      | inr (mvn, e) ↦ elim (Outcome-cases (validate_path machine.system root none)) [
        | inr (x, k) ↦ rw (sync_maven, e, k) i
        | inl (cwd, k) ↦
            rw (sync_maven, e, k) ((Keeps-log_errors (Keeps-run_maven mvn cwd e k)).after s i)
      ]
    ];
  }

  Keeps-cache_line : (line : Text) → Keeps IsConfined (cache_line line)
  unfolding cache_line
  Keeps-cache_line line = Keeps-when _ (Keeps-cache_jar_paths is_jar _)

  Keeps-run_gradle :
      (gradle : Text) (cwd script : FilePath)
      → machine.which (text "gradle") ≡ some gradle
      → validate_path machine.system root none ≡ ok cwd
      → Keeps IsConfined (run_gradle machine gradle cwd script)
  unfolding run_gradle
  Keeps-run_gradle gradle cwd script found allowed = Keeps->> (Keeps-write_file script) (
      Keeps->>=
        (Keeps-execute _ cwd (record {
          tool = text "gradle";
          program = gradle;
          args = _;
          known = inr refl;
          found = found;
          command = refl;
          allowed = allowed;
        }))
        (λ process.
          Keeps-if process.succeeded
            (Keeps->>= (Keeps-lift process.stdout_decoded)
              (λ output. Keeps-for_each (splitlines output) cache_line Keeps-cache_line))
            (Keeps-lift process.stderr_decoded)))

  Keeps-execute_gradle_init :
      (gradle : Text) (cwd : FilePath)
      → machine.which (text "gradle") ≡ some gradle
      → validate_path machine.system root none ≡ ok cwd
      → Keeps IsConfined (execute_gradle_init machine cwd gradle)
  unfolding execute_gradle_init
  Keeps-execute_gradle_init gradle cwd found allowed =
      let script = join_name cwd (text ".coderag_init.gradle") in
      Keeps-finally (Keeps-log_errors (Keeps-run_gradle gradle cwd script found allowed)) (
        Keeps->>= (Keeps-gets {f = is_there script})
          (λ there. Keeps-when there (Keeps-remove_file script)))

  Keeps-sync_gradle : Keeps IsConfined (sync_gradle machine root)
  unfolding sync_gradle
  Keeps-sync_gradle = record {
    after = λ s i. elim (Option-cases (machine.which (text "gradle"))) [
      | inl e ↦ rw (sync_gradle, e) i
      | inr (gradle, e) ↦ elim (Outcome-cases (validate_path machine.system root none)) [
        | inr (x, k) ↦ rw (sync_gradle, e, k) i
        | inl (cwd, k) ↦
            rw (sync_gradle, e, k) ((Keeps-execute_gradle_init gradle cwd e k).after s i)
      ]
    ];
  }

contains-keep : (x : Text) (xs : List Text) → contains (keep (λ p. not (p == x)) xs) x ≡ false
contains-keep x [] = refl
contains-keep x (p ∷ xs) = ground (arith, contains-keep x xs)

module _ {F : Type 0} where
  -- Whatever the build tools do, and whether the call returns or raises, a sync of the libraries
  -- changes no unit, vector, relation or metadata, and starts only the Maven or the Gradle that the
  -- machine finds by name, in the validated directory of the project.
  pub sync_dependencies-IsConfined :
      (machine : Machine) (path : Text) (allow : Bool) (w : World F)
      → IsConfined machine (of_text path) w (sync_dependencies machine path allow w).1
  unfolding sync_dependencies
  sync_dependencies-IsConfined machine path allow w =
      let root = of_text path in
      (Keeps-if _ (Keeps-pure tt) (
          Keeps-if _ (Keeps-sync_maven machine root w)
            (Keeps-when (machine.gradle_files root) (Keeps-sync_gradle machine root w)))).after
        w
        (record {
          units = refl;
          embeddings = refl;
          relations = refl;
          meta = refl;
          commands = ([], sym (append-nil w.executed), tt);
        })

  -- The script for Gradle is gone at the end, whatever the build did, unless deleting it raises.
  pub execute_gradle_init-removed :
      (machine : Machine) (root : FilePath) (gradle : Text) (w : World F)
      → let script = join_name root (text ".coderag_init.gradle") in
        machine.unlink script ≡ ok tt
        → is_there script (execute_gradle_init machine root gradle w).1 ≡ false
  unfolding execute_gradle_init finally is_there remove_file
  execute_gradle_init-removed machine root gradle w h =
      let script = join_name root (text ".coderag_init.gradle") in
      let after = (log_errors (run_gradle machine gradle root script) w).1 in
      elim (Bool-cases (contains after.scripts (as_posix script))) [
        | inl e ↦ rw (e, remove_file, h) (contains-keep (as_posix script) after.scripts)
        | inr e ↦ rw e e
      ]
