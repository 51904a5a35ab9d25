-- ===== src/Tests/Migration.antt =====
-- The migration to relative paths.
use agent_coderag.Prelude.{
  ◌≡◌, ℕ, starts_with, inl, inr, Has, nat_eq, refl, true, none, some, List, [], ◌∷◌, Text, text,
  text_eq, Distinct,
}
use agent_coderag.Core.{raised, value_error, Outcome, KnowledgeUnit}
use agent_coderag.Storage.Db.{find_vector, find_row, Db, map_row_to_unit}
use agent_coderag.Prelude.Dict.{insert, lookup}
use agent_coderag.Paths.Pure.{
  FilePath, of_text, relative_to, same_bool, strip_parts, split_parts, add_part, suffix, file_name,
  suffix_from,
}
use agent_coderag.Paths.Resolve.{System, project_relative_posix}
use agent_coderag.Storage.Rewrite.{rewrite_path_prefix, rewrite_row, rewrite_vectors, rewrite_id}
use agent_coderag.Migration.Claim.{
  olds, claim_by_place, news, groups_from, claim_files, claim_places, claim_relative_paths,
}
use agent_coderag.Migration.Claim.Once.{claim_relative_paths-Distinct}
use agent_coderag.Migration.Run.{parse_files, lower_suffix, migrate_absolute_paths}
use agent_coderag.Migration.Run.Kept.{migrate_absolute_paths-Has}
use agent_coderag.Tests.Data.{unit_at, row_at, storage_on, full_db}

abbrev path_of : List Text → FilePath
path_of parts = record { absolute = true; parts = parts }

abbrev system : System
system = record {
  exists = λ p. true;
  resolve = λ p. p;
  cwd = path_of [];
  temp_dir = path_of [];
  global_dir = path_of [];
  home = path_of [];
}

abbrev root : FilePath
root = path_of (text "repo" ∷ [])

abbrev file : FilePath
file = path_of (text "repo" ∷ text "a.py" ∷ [])

abbrev old_units : List KnowledgeUnit
old_units =
    unit_at (text "/repo/a.py:f") (text "/repo/a.py") (text "h")
    ∷ unit_at (text "/old/b.py:f") (text "/old/b.py") (text "k")
    ∷ []

claim_relative_paths_example :
    let mapping =
      claim_relative_paths system root
        (groups_from old_units [])
        ((file, (text "h", 1) ∷ []) ∷ []) in
    Distinct (olds mapping) × Distinct (news mapping)
claim_relative_paths_example =
    claim_relative_paths-Distinct system root old_units ((file, (text "h", 1) ∷ []) ∷ [])

-- The parser fails on the only file.
abbrev broken : FilePath → Outcome (List KnowledgeUnit)
broken p = raised value_error

-- A file that was moved out of the project, and one that is stored under a relative path.
abbrev moved_db : Db ℕ
moved_db = record full_db {
  units = row_at (text "/old/b.py:f") (text "/old/b.py") ∷ row_at (text "a:f") (text "a") ∷ [];
}

migrate_absolute_paths_example :
    Has
      (row_at (text "/old/b.py:f") (text "/old/b.py"))
      (migrate_absolute_paths
        (λ db subject. none)
        system
        root
        broken
        (file ∷ [])
        (storage_on moved_db true)).1.db.units
unfolding claim_relative_paths claim_files parse_files claim_places groups_from claim_by_place olds
    map_row_to_unit text_eq nat_eq lower_suffix of_text insert project_relative_posix relative_to
    same_bool strip_parts split_parts add_part suffix file_name suffix_from
migrate_absolute_paths_example =
    migrate_absolute_paths-Has (row_at (text "/old/b.py:f") (text "/old/b.py")) (λ db subject. none)
      system root broken (file ∷ []) (storage_on moved_db true) (inl refl)
      (inr (refl, file, inl refl, value_error, refl, refl))

-- A path that holds a colon: the ids of its units have the form of ids of the shorter path.
abbrev colon_db : Db ℕ
colon_db = record full_db {
  units = row_at (text "/r/a:b:f") (text "/r/a:b") ∷ [];
  embeddings = some (record { width = some 2; rows = (text "/r/a:b:f", 3 ∷ 4 ∷ []) ∷ [] });
}

-- The rewrite of the shorter path takes the vector away from the unit.
colon_vector_lost_test :
    let after = rewrite_path_prefix (text "/r/a") (text "a") colon_db in
    (find_vector (text "a:b:f") after ≡ some (3 ∷ 4 ∷ []))
    × (find_row (text "a:b:f") after.units ≡ none)
    × (find_vector (text "/r/a:b:f") after ≡ none)
unfolding rewrite_path_prefix rewrite_row rewrite_vectors rewrite_id find_vector find_row text_eq
    nat_eq starts_with lookup
colon_vector_lost_test = (refl, refl, refl)
