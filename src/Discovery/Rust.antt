-- ===== src/Discovery/Rust.antt =====
-- code_rag/discovery/providers/rust.py: the public units of a crate, from its entry files and the
-- modules that they name, down to a depth.
pub mod Module
use agent_coderag.Prelude.{
  ℕ, zero, suc, Bool, true, false, not, ◌&&◌, ◌||◌, Option, none, some, List, [], ◌∷◌, ◌++◌, map,
  Text, text, ◌==◌, text_eq, nat_eq, if◌then◌else◌, is_empty, keep, take, contains,
}
use agent_coderag.Prelude.Dict.{Dict, lookup, insert}
use agent_coderag.Core.{
  UnitKind, module_kind, class_kind, function_kind, method_kind, KnowledgeUnit, string, number,
  Outcome, ok, raised, truthy,
}
use agent_coderag.Parser.Comments.{splitlines, has_part, join}
use agent_coderag.Index.Units.{text_or_empty, raw_code}
use agent_coderag.Paths.Pure.{FilePath, of_text, as_posix, join_name, parent, file_name}
use agent_coderag.Paths.Resolve.{System, find_directory_upwards, validate_path}
use agent_coderag.Discovery.Walk.{Explorer, no_walk, is_module, extract_all}
use agent_coderag.Discovery.Report.{library_report}
use agent_coderag.Discovery.Rust.Module.{mod_name}

-- What the provider calls: the parser, and `cargo metadata` in a directory, none where it fails,
-- with the name and the manifest of each package.
pub record Crates : Type 0 where
  pub system : System
  pub distill_file : Text → Outcome (List KnowledgeUnit)
  pub packages : FilePath → Option (List (Text × Option Text))
  pub is_alnum : ℕ → Bool

-- `u.kind != "module" and u.signature and "pub" in u.signature`
unfoldable pub is_public : KnowledgeUnit → Bool
is_public u =
    not (is_module u.kind)
    && (truthy u.signature && has_part (text "pub") (text_or_empty u.signature))

unfoldable pub is_mod_item : KnowledgeUnit → Bool
is_mod_item u = elim (lookup (text "node_type") u.metadata) [
  | none ↦ false
  | some j ↦ elim j [ string t ↦ t == text "mod_item" | number n ↦ false ]
]

module _ (crates : Crates) where
  unfoldable pub resolve_mod_path : FilePath → Text → Option FilePath
  resolve_mod_path base name =
      let p1 = join_name base (name ++ text ".rs") in
      let p2 = join_name (join_name base name) (text "mod.rs") in
      if crates.system.exists p1 then some p1 else if crates.system.exists p2 then some p2 else none

  unfoldable pub parse_submodule : FilePath → KnowledgeUnit → Option FilePath
  parse_submodule current u =
      let raw = raw_code u in
      if is_module u.kind && is_mod_item u
      then (if contains raw b';' && not (contains raw b'{')
          then elim (mod_name raw) [
            | none ↦ none
            | some name ↦ resolve_mod_path (parent current) name
          ]
          else none)
      else none

  unfoldable pub crate_explorer : Explorer
  crate_explorer = record {
    exists = crates.system.exists;
    distill_file = crates.distill_file;
    is_listed = is_public;
    target = parse_submodule;
  }

  -- `src/lib.rs` and `src/main.rs`, those that are there.
  unfoldable pub target_files : FilePath → List FilePath
  target_files crate_root =
      let src = join_name crate_root (text "src") in
      keep crates.system.exists
        (join_name src (text "lib.rs") ∷ join_name src (text "main.rs") ∷ [])

  unfoldable pub all_chars : (ℕ → Bool) → Text → Bool
  all_chars p [] = true
  all_chars p (c ∷ s) = p c && all_chars p s

  unfoldable pub find_package : Text → List (Text × Option Text) → Option FilePath
  find_package name [] = none
  find_package name ((n, manifest) ∷ packages) =
      let rest = find_package name packages in
      if n == name && truthy manifest
      then some (parent (of_text (text_or_empty manifest)))
      else rest

  unfoldable pub find_crate_root : Text → Outcome (Option FilePath)
  find_crate_root name =
      if all_chars (λ c. crates.is_alnum c || (c == b'_' || c == b'-')) name
      then elim (find_directory_upwards crates.system (of_text (text ".")) (text "Cargo.toml")) [
        | none ↦ ok none
        | some manifest ↦ elim (validate_path crates.system (parent manifest) none) [
          | raised e ↦ raised e
          | ok dir ↦ elim (crates.packages dir) [
            | none ↦ ok none
            | some packages ↦ ok (find_package name packages)
          ]
        ]
      ]
      else ok none

  -- The report on a crate whose source is there.
  unfoldable pub crate_report : Text → FilePath → Text
  crate_report name crate_root =
      let targets = target_files crate_root in
      if is_empty targets
      then text "Error: Could not find entry points for crate '"
        ++ (name ++ (text "' in " ++ as_posix crate_root))
      else library_report (text "# Public API for Rust Crate '" ++ (name ++ text "':"))
          (text "No public entities found for crate '" ++ (name ++ text "'."))
          (extract_all crate_explorer targets no_walk).results

  unfoldable pub extract_rust_api : Text → Outcome Text
  extract_rust_api name = elim (find_crate_root name) [
    | raised e ↦ raised e
    | ok none ↦ ok (text "Error: Could not find source for Rust crate '" ++ (name ++ text "'."))
    | ok (some crate_root) ↦ ok (crate_report name crate_root)
  ]
