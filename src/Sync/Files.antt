-- ===== src/Sync/Files.antt =====
-- `should_index`, `_indexable_under` and `_result_from_failures`. The match of a `.gitignore`
-- pattern is pathspec's: `ignored` says which posix paths it matches.
pub mod Chosen
use agent_coderag.Prelude.{
  ℕ, Bool, true, false, ◌&&◌, Option, none, some, List, [], ◌∷◌, ◌++◌, Text, text, text_eq,
  if◌then◌else◌, is_empty,
}
use agent_coderag.Prelude.Dict.{lookup}
use agent_coderag.Core.{Error, Outcome, ok, raised}
use agent_coderag.Paths.Pure.{FilePath, as_posix, suffix}
use agent_coderag.Paths.Resolve.{System, project_relative_posix}
use agent_coderag.Parser.Distill.{lower}
use agent_coderag.Parser.Languages.{extension_to_language}

-- The patterns that `load_ignore_patterns` puts behind those of `.gitignore`.
unfoldable pub common_excludes : List Text
common_excludes =
    text "node_modules/"
    ∷ text "venv/"
    ∷ text ".venv/"
    ∷ text "__pycache__/"
    ∷ text ".git/"
    ∷ text ".idea/"
    ∷ text ".vscode/"
    ∷ text ".onnx"
    ∷ text ".db"
    ∷ text ".ai/"
    ∷ []

unfoldable pub ignore_lines : Option (List Text) → List Text
ignore_lines none = common_excludes
ignore_lines (some lines) = lines ++ common_excludes

unfoldable pub has_language : FilePath → Bool
has_language path = elim (lookup (lower (suffix path)) extension_to_language) [
  | none ↦ false
  | some lang ↦ true
]

unfoldable pub match_target : System → FilePath → Option FilePath → Outcome Text
match_target sys path none = ok (as_posix path)
match_target sys path (some root) = project_relative_posix sys path root

unfoldable pub should_index : System → (Text → Bool) → FilePath → Option FilePath → Bool
should_index sys ignored path root = elim (match_target sys path root) [
  | raised e ↦ false
  | ok target ↦ if ignored target then false else has_language path
]

-- `walked` are the files that `rglob` finds, with what `is_file` says of each.
unfoldable pub indexable_under :
    System → (Text → Bool) → List (FilePath × Bool) → FilePath → List Text
indexable_under sys ignored [] root = []
indexable_under sys ignored ((p, is_file) ∷ walked) root =
    let rest = indexable_under sys ignored walked root in
    if is_file && should_index sys ignored p (some root) then as_posix p ∷ rest else rest

pub record SyncResult : Type 0 where
  pub status : Text
  pub indexed_files : ℕ
  pub errors : List (Text × Error)

unfoldable pub result_from_failures : ℕ → List (Text × Error) → SyncResult
result_from_failures indexed failures = record {
  status = if is_empty failures then text "success" else text "error";
  indexed_files = indexed;
  errors = failures;
}
