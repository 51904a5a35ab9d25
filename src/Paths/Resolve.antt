-- ===== src/Paths/Resolve.antt =====
-- code_rag/paths.py, code_rag/core/utils.py and `format_unit_path` of services/search.py.
pub mod Allowed
pub mod Upwards
pub mod Display
use agent_coderag.Prelude.{
  ℕ, zero, suc, Bool, true, false, Option, none, some, List, [], ◌∷◌, Text, text, text_eq,
  if◌then◌else◌, is_empty,
}
use agent_coderag.Core.{Outcome, ok, raised, value_error}
use agent_coderag.Paths.Pure.{
  FilePath, of_text, as_posix, joinpath, join_name, parent, relative_to, is_relative_to,
}

-- What the code asks of the system: `Path.exists`, `Path.resolve` and the known directories.
pub record System : Type 0 where
  pub exists : FilePath → Bool
  pub resolve : FilePath → FilePath
  pub cwd : FilePath
  pub temp_dir : FilePath
  pub global_dir : FilePath
  pub home : FilePath

unfoldable pub is_under : FilePath → List FilePath → Bool
is_under p [] = false
is_under p (d ∷ dirs) = if is_relative_to p d then true else is_under p dirs

module _ (sys : System) where
  unfoldable pub default_db_path : Option FilePath → FilePath
  default_db_path root =
      let root_path = elim root as (λ _. FilePath) [ none ↦ sys.cwd | some r ↦ r ] in
      let cwd_legacy = join_name sys.cwd (text "code_rag.db") in
      let root_legacy = join_name root_path (text "code_rag.db") in
      if sys.exists cwd_legacy
      then cwd_legacy
      else if sys.exists root_legacy
      then root_legacy
      else join_name root_path (text ".coderag.db")

  unfoldable pub resolve_db_path : Option Text → Option FilePath → FilePath
  resolve_db_path none root = default_db_path root
  resolve_db_path (some db) root =
      let path = of_text db in if path.absolute then path else joinpath sys.cwd path

  unfoldable pub project_relative_posix : FilePath → FilePath → Outcome Text
  project_relative_posix path root = elim (relative_to (sys.resolve path) (sys.resolve root)) [
    | ok rel ↦ ok (as_posix rel)
    | raised e ↦ raised e
  ]

  -- `for _ in range(max_levels)`: the levels that are left.
  unfoldable pub search_upwards : ℕ → FilePath → Text → Option FilePath
  search_upwards zero curr target = none
  search_upwards (suc levels) curr target =
      let above = search_upwards levels (parent curr) target in
      if sys.exists (join_name curr target)
      then some (join_name curr target)
      else if is_empty curr.parts
      then none
      else above

  unfoldable pub find_directory_upwards : FilePath → Text → Option FilePath
  find_directory_upwards start target = search_upwards 5 (sys.resolve start) target

  unfoldable pub check_path : FilePath → FilePath
  check_path resolved = if sys.exists resolved then resolved else sys.resolve (parent resolved)

  unfoldable pub dev_caches : List FilePath
  dev_caches =
      let home = sys.resolve sys.home in
      sys.resolve (join_name home (text ".m2"))
      ∷ sys.resolve (join_name home (text ".gradle"))
      ∷ sys.resolve (join_name home (text ".nuget"))
      ∷ sys.resolve (join_name home (text ".cargo"))
      ∷ []

  -- The directory that holds `.git`, if one of the five directories from here up does.
  unfoldable pub repo_dirs : List FilePath
  repo_dirs = elim (find_directory_upwards sys.cwd (text ".git")) [
    | none ↦ []
    | some git ↦ sys.resolve (parent git) ∷ []
  ]

  unfoldable pub root_or_cwd : Option FilePath → FilePath
  root_or_cwd none = sys.resolve sys.cwd
  root_or_cwd (some r) = sys.resolve r

  unfoldable pub validate_path : FilePath → Option FilePath → Outcome FilePath
  validate_path path root =
      let resolved = sys.resolve path in
      let checked = check_path resolved in
      if is_relative_to checked (root_or_cwd root)
      then ok resolved
      else if is_relative_to checked (sys.resolve sys.temp_dir)
      then ok resolved
      else if is_relative_to checked (sys.resolve sys.global_dir)
      then ok resolved
      else if is_under checked dev_caches
      then ok resolved
      else if is_under checked repo_dirs
      then ok resolved
      else raised value_error

  -- services/search.py
  unfoldable pub format_unit_path : Text → FilePath → Bool → Text
  format_unit_path stored root relative_paths =
      if (of_text stored).absolute
      then stored
      else if relative_paths
      then stored
      else as_posix (sys.resolve (joinpath root (of_text stored)))
