-- ===== src/Tests/Paths.antt =====
-- The paths.
use agent_coderag.Prelude.{
  All, ◌≡◌, refl, ◌↔◌, ap, sym, ◌∙◌, ◌==◌, text_eq, nat_eq, Bool, true, false, not, ◌&&◌, some,
  List, [], ◌∷◌, ◌++◌, Text, text, arith, All-map_of, contains, contains-false, keep, keep-All,
  is_empty, Bool-cases, inl, inr,
}
use agent_coderag.Sync.Files.{indexable_under}
use agent_coderag.Sync.Files.Chosen.{IsChosen, indexable_under-IsChosen}
use agent_coderag.Core.{ok}
use agent_coderag.Paths.Pure.{
  FilePath, as_posix, joinpath, join_name, parent, drop_last, join_parts, relative_to, same_bool,
  strip_parts,
}
use agent_coderag.Paths.Pure.Relative.{IsPart}
use agent_coderag.Paths.Resolve.{
  System, validate_path, check_path, project_relative_posix, format_unit_path, search_upwards,
  find_directory_upwards,
}
use agent_coderag.Paths.Resolve.Allowed.{LiesUnderOne, allowed_dirs, validate_path_iff}
use agent_coderag.Paths.Resolve.Upwards.{IsNearest, find_directory_upwards-IsNearest}
use agent_coderag.Paths.Resolve.Display.{IsResolver, format_unit_path-project_relative_posix}

abbrev path_of : List Text → FilePath
path_of parts = record { absolute = true; parts = parts }

abbrev is_part : Text → Bool
is_part t = not (contains t b'/') && (not (is_empty t) && not (t == text "."))

-- The process runs in the root directory, and there are no links.
abbrev resolve_at_root : FilePath → FilePath
resolve_at_root p = path_of (keep is_part p.parts)

abbrev repo : FilePath
repo = path_of (text "repo" ∷ [])

abbrev repo_file : FilePath
repo_file = path_of (text "repo" ∷ text "a.py" ∷ [])

-- A repository with one file.
abbrev system : System
system = record {
  exists = λ p. contains (text "/repo" ∷ text "/repo/.git" ∷ text "/repo/a.py" ∷ []) (as_posix p);
  resolve = resolve_at_root;
  cwd = path_of [];
  temp_dir = path_of (text "tmp" ∷ []);
  global_dir = path_of (text "data" ∷ []);
  home = path_of (text "home" ∷ []);
}

IsPart-is_part : (t : Text) → is_part t ≡ true → IsPart t
unfolding nat_eq
IsPart-is_part t h = (contains-false b'/' t (ground arith), λ e. ground arith, λ e. ground arith)

keep-keep : (p : Text → Bool) (xs : List Text) → keep p (keep p xs) ≡ keep p xs
keep-keep p [] = refl
keep-keep p (x ∷ xs) = elim (Bool-cases (p x)) [
  | inl h ↦ rw (h) (rw h (ap (λ t. x ∷ t) (keep-keep p xs)))
  | inr h ↦ rw h (keep-keep p xs)
]

keep-append : (p : Text → Bool) (xs ys : List Text) → keep p (xs ++ ys) ≡ keep p xs ++ keep p ys
keep-append p [] ys = refl
keep-append p (x ∷ xs) ys = elim (Bool-cases (p x)) [
  | inl h ↦ rw h (ap (λ t. x ∷ t) (keep-append p xs ys))
  | inr h ↦ rw h (keep-append p xs ys)
]

system-IsResolver : IsResolver system
unfolding joinpath
system-IsResolver = record {
  is_absolute = λ p. refl;
  is_clean = λ p. All-map_of _ (λ t. IsPart-is_part t) (keep-All is_part p.parts);
  resolve_again = λ p. ap path_of (keep-keep is_part p.parts);
  resolve_below = λ p q rel.
      rw (joinpath, rel)
        (ap path_of (
          keep-append is_part p.parts q.parts
          ∙ ap (λ t. t ++ keep is_part q.parts) (sym (keep-keep is_part p.parts))
          ∙ sym (keep-append is_part (keep is_part p.parts) q.parts)));
}

validate_path_example : (validate_path system repo_file (some repo) ≡ ok repo_file) ↔ (
    (repo_file ≡ resolve_at_root repo_file)
    × LiesUnderOne
        (check_path system (resolve_at_root repo_file))
        (allowed_dirs system (some repo)))
validate_path_example = validate_path_iff system repo_file (some repo) repo_file

find_directory_upwards_example :
    IsNearest system 5
      (resolve_at_root repo_file)
      (text ".git")
      (path_of (text "repo" ∷ text ".git" ∷ []))
unfolding find_directory_upwards search_upwards join_name parent drop_last as_posix join_parts
    nat_eq text_eq
find_directory_upwards_example =
    find_directory_upwards-IsNearest system repo_file (text ".git")
      (path_of (text "repo" ∷ text ".git" ∷ [])) refl

format_unit_path_example :
    (format_unit_path system (text "a.py") repo false ≡ as_posix (resolve_at_root repo_file))
    × (format_unit_path system (text "a.py") repo true ≡ text "a.py")
unfolding project_relative_posix relative_to same_bool strip_parts nat_eq text_eq as_posix
    join_parts
format_unit_path_example =
    format_unit_path-project_relative_posix system system-IsResolver repo_file repo (text "a.py")
      refl

indexable_under_example : All (IsChosen system (λ t. t == text ".git") repo) (
    indexable_under system
      (λ t. t == text ".git")
      ((repo_file, true) ∷ (path_of (text "repo" ∷ text ".git" ∷ []), true) ∷ [])
      repo)
indexable_under_example =
    indexable_under-IsChosen system (λ t. t == text ".git")
      ((repo_file, true) ∷ (path_of (text "repo" ∷ text ".git" ∷ []), true) ∷ []) repo
