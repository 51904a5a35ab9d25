-- ===== src/Discovery/Java.antt =====
-- code_rag/discovery/providers/java.py: the classes in the library that the index has a path for.
use agent_coderag.Prelude.{
  ℕ, zero, suc, ◌-◌, Bool, not, ◌&&◌, Option, none, some, List, [], ◌∷◌, ◌++◌, map, Text, text,
  ◌==◌, nat_eq, contains, if◌then◌else◌, is_empty, keep, take, length, starts_with,
}
use agent_coderag.Core.{Action, pure, ◌>>=◌}
use agent_coderag.Storage.State.{Storage}
use agent_coderag.Storage.Units.{get_dependency_path}
use agent_coderag.Sync.Build.Names.{join_with}
use agent_coderag.Parser.Comments.{ends_with}

-- What the provider asks of the disk: `os.path.exists`, and the names in a JAR file, none where it
-- cannot be read, with the text of the exception.
pub record Jars : Type 0 where
  pub exists : Text → Bool
  pub names : Text → Option (List Text)
  pub read_error : Text → Text

unfoldable pub cached_jar_miss_message : Text → Text
cached_jar_miss_message name =
    text "Error: Could not find cached JAR for '" ++ (name ++ text "'. Run 'sync' first.")

-- `s.replace(sub, "")`: `skip` characters of an occurrence are still to be left out.
unfoldable pub remove_all : Text → ℕ → Text → Text
remove_all sub skip [] = []
remove_all sub (suc skip) (c ∷ s) = remove_all sub skip s
remove_all sub zero (c ∷ s) =
    let found = starts_with (c ∷ s) sub in
    let rest = remove_all sub (if found then length sub - 1 else 0) s in
    if found then rest else c ∷ rest

unfoldable pub class_name : Text → Text
class_name entry = remove_all (text ".class") 0 (map (λ c. if c == b'/' then b'.' else c) entry)

unfoldable pub class_files : List Text → List Text
class_files names = keep (λ f. ends_with f (text ".class") && not (contains f b'$')) names

unfoldable pub class_line : Text → Text
class_line entry = text "- **Class: " ++ (class_name entry ++ text "**")

unfoldable pub jar_report : Jars → Text → Text → Text
jar_report jars name jar_path = elim (jars.names jar_path) [
  | none ↦ text "Error reading JAR " ++ (jar_path ++ (text ": " ++ jars.read_error jar_path))
  | some names ↦
      if is_empty (class_files names)
      then text "No public classes found in " ++ jar_path
      else join_with b'\n' (
          (text "# Public API for Java Library '" ++ (name ++ text "':"))
          ∷ map class_line (take 20 (class_files names)))
]

unfoldable pub report_at : Jars → Text → Option Text → Text
report_at jars name none = cached_jar_miss_message name
report_at jars name (some jar_path) =
    if is_empty jar_path
    then cached_jar_miss_message name
    else if jars.exists jar_path
    then jar_report jars name jar_path
    else cached_jar_miss_message name

-- `extract_api` without a storage.
unfoldable pub extract_java_api_alone : {S : Type 0} → Text → Action S Text
extract_java_api_alone name = pure (cached_jar_miss_message name)

module _ {F : Type 0} where
  -- `extract_api` with the storage of the provider set.
  unfoldable pub extract_java_api : Jars → Text → Action (Storage F) Text
  extract_java_api jars name = get_dependency_path name >>= λ path. pure (report_at jars name path)
