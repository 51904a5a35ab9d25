-- ===== src/Tests/Machines.antt =====
-- The machine, the project and the ports of the tests.
use agent_coderag.Config.Settings.{written}
use agent_coderag.Prelude.{ℕ, true, false, none, some, List, [], ◌∷◌, Text, text, Option}
use agent_coderag.Core.{Error, value_error, ok, raised}
use agent_coderag.Storage.Db.{Db, paths_migrated_key}
use agent_coderag.Paths.Pure.{FilePath}
use agent_coderag.Paths.Resolve.{System}
use agent_coderag.Index.Units.{IndexStack}
use agent_coderag.Sync.Build.State.{Machine, World}
use agent_coderag.Sync.Run.{Project, SyncOptions}
use agent_coderag.Api.Client.{Ports}
use agent_coderag.Setup.{Download, complete, Directory}
use agent_coderag.Tests.Data.{embedder_of_two, storage_on, fresh_db}

abbrev pub path_of : List Text → FilePath
path_of parts = record { absolute = true; parts = parts }

abbrev pub system : System
system = record {
  exists = λ p. true;
  resolve = λ p. p;
  cwd = path_of (text "repo" ∷ []);
  temp_dir = path_of (text "tmp" ∷ []);
  global_dir = path_of (text "share" ∷ []);
  home = path_of (text "home" ∷ []);
}

-- Maven and Gradle are there; Maven leaves the path of one library.
abbrev pub machine : Machine
machine = record {
  system = system;
  which = λ name. some name;
  gradle_files = λ p. true;
  run = λ command cwd.
      ok (record { succeeded = true; stdout_decoded = ok []; stderr_decoded = ok tt });
  classpath = λ p. some (ok (text "/m2/guava-31.jar"));
  create = λ p. ok tt;
  write = λ p. ok tt;
  unlink = λ p. ok tt;
}

abbrev pub root : FilePath
root = path_of (text "repo" ∷ [])

-- One file, that no pattern ignores.
abbrev pub project : Project
project = record {
  gitignore = λ root. none;
  matches = λ lines path. false;
  is_file = λ p. false;
  walk = λ p. (path_of (text "repo" ∷ text "a.py" ∷ []), true) ∷ [];
}

-- No file can be parsed.
abbrev pub stack : IndexStack
stack = record {
  parse = λ path stored. raised value_error;
  summarize = λ code name. none;
  relative = none;
}

abbrev pub options : SyncOptions
options = record {
  root = root;
  path = none;
  index_all = true;
  force = false;
  allow_build_execution = false;
  max_concurrency = 1;
}

-- An index whose paths were migrated.
abbrev pub migrated_db : Db ℕ
migrated_db = record fresh_db { index_meta = some ((paths_migrated_key, text "1") ∷ []) }

abbrev pub world : World ℕ
world = record { storage = storage_on migrated_db false; executed = []; scripts = []; notices = [] }

abbrev pub refuses : Db ℕ → List Text → Option Error
refuses db ids = none

abbrev pub ports : Ports ℕ
ports = record {
  root = root;
  allow_build_execution = false;
  relative_paths = false;
  zero_temperature = 0;
  writing = written;
  respond = λ c texts. none;
  normalize = λ v. v;
  local_embedder = ok embedder_of_two;
  connect = λ db. ok db;
  schema_error = none;
  machine = machine;
  project = project;
  parse = stack.parse;
  complete = λ request. none;
  refuses = refuses;
  rank = λ v rows. rows;
  jars = record { exists = λ p. true; names = λ p. some []; read_error = λ p. [] };
  libraries = record {
    crates = record {
      system = system;
      distill_file = λ p. ok [];
      packages = λ p. none;
      is_alnum = λ c. true;
    };
    packages = record {
      system = system;
      distill_file = λ p. ok [];
      glob = λ p name. [];
      load_json = λ p. raised value_error;
    };
    sources = record {
      system = system;
      distill_file = λ p. ok [];
      go_files = λ p. [];
      cs_files = λ p. [];
      is_upper = λ c. true;
    };
    extract_python = λ name. ok (text "report");
  };
}

abbrev pub get : Text → Download
get name = complete (text "model")

abbrev pub directory : Directory
directory = record { files = []; temporary = []; events = [] }
