-- ===== src/Discovery/Javascript.antt =====
-- code_rag/discovery/providers/javascript.py: the units of a package in `node_modules`, from its
-- entry files and the local files that they export from.
pub mod Export
use agent_coderag.Prelude.{
  Bool, true, false, not, ◌&&◌, Option, none, some, List, [], ◌∷◌, ◌++◌, map, Text, text, text_eq,
  ◌==◌, if◌then◌else◌, is_empty, take, contains, starts_with, drop, length, ◌-◌,
}
use agent_coderag.Prelude.Dict.{lookup}
use agent_coderag.Core.{
  discovery_error, value_error, KnowledgeUnit, string, number, Outcome, ok, raised,
}
use agent_coderag.Parser.Comments.{has_part}
use agent_coderag.Index.Units.{raw_code}
use agent_coderag.Paths.Pure.{
  FilePath, of_text, as_posix, joinpath, join_name, parent, drop_last, file_name, suffix,
}
use agent_coderag.Paths.Resolve.{System, find_directory_upwards}
use agent_coderag.Discovery.Walk.{Explorer, Walk, no_walk, is_module, extract_all}
use agent_coderag.Discovery.Report.{library_report}
use agent_coderag.Discovery.Javascript.Export.{from_target}

-- A field of `package.json`: a text, or another value, which raises where a path is made of it.
pub data Field : Type 0 where
  absent : Field
  path : Text → Field
  other : Field

-- What the code reads of `package.json`; the types are those of the export `.`.
pub record PackageJson : Type 0 where
  pub types : Field
  pub typings : Field
  pub exported_types : Field
  pub module_file : Field
  pub main : Field

-- What the provider calls: the parser, `glob` for one name, and `json.load`.
pub record Packages : Type 0 where
  pub system : System
  pub distill_file : Text → Outcome (List KnowledgeUnit)
  pub glob : FilePath → Text → List FilePath
  pub load_json : FilePath → Outcome PackageJson

unfoldable pub is_export : KnowledgeUnit → Bool
is_export u = elim (lookup (text "node_type") u.metadata) [
  | none ↦ false
  | some j ↦ elim j [ string t ↦ has_part (text "export") t | number n ↦ false ]
]

-- `p.with_suffix(ext)`: the suffix that the name has is replaced.
unfoldable pub with_suffix : FilePath → Text → FilePath
with_suffix p ext =
    let name = file_name p.parts in
    join_name (parent p) (take (length name - length (suffix p)) name ++ ext)

module _ (packages : Packages) where
  unfoldable pub first_there : List FilePath → Option FilePath
  first_there [] = none
  first_there (p ∷ ps) = if packages.system.exists p then some p else first_there ps

  unfoldable pub resolve_local_path : FilePath → Text → Option FilePath
  resolve_local_path base target =
      let p = packages.system.resolve (joinpath base (of_text target)) in
      first_there (
        with_suffix p (text ".d.ts")
        ∷ with_suffix p (text ".ts")
        ∷ with_suffix p (text ".js")
        ∷ join_name p (text "index.d.ts")
        ∷ join_name p (text "index.ts")
        ∷ join_name p (text "index.js")
        ∷ [])

  -- The file that `_follow_exports` goes on with.
  unfoldable pub follow_exports : FilePath → KnowledgeUnit → Option FilePath
  follow_exports current u =
      if is_module u.kind && is_export u
      then elim (from_target (raw_code u)) [
        | none ↦ none
        | some target ↦
            if starts_with target (text ".")
            then resolve_local_path (parent current) target
            else none
      ]
      else none

  unfoldable pub package_explorer : Explorer
  package_explorer = record {
    exists = packages.system.exists;
    distill_file = packages.distill_file;
    is_listed = λ u. not (is_module u.kind);
    target = follow_exports;
  }

  unfoldable pub find_package_root : Text → Option FilePath
  find_package_root name =
      elim (find_directory_upwards packages.system (of_text (text ".")) (text "node_modules")) [
        | none ↦ none
        | some modules ↦
            let dir = joinpath modules (of_text name) in
            if packages.system.exists dir then some dir else none
      ]

  -- The file of a field, if it is there.
  unfoldable pub field_file : FilePath → Field → Outcome (List FilePath)
  field_file root absent = ok []
  field_file root other = raised value_error
  field_file root (path t) =
      let p = joinpath root (of_text t) in ok (if packages.system.exists p then p ∷ [] else [])

  unfoldable pub both_files :
      Outcome (List FilePath) → Outcome (List FilePath) → Outcome (List FilePath)
  both_files (raised e) b = raised e
  both_files (ok ps) (raised e) = raised e
  both_files (ok ps) (ok qs) = ok (ps ++ qs)

  -- `if export_target and export_target not in targets`
  unfoldable pub add_export : List FilePath → List FilePath → List FilePath
  add_export targets [] = targets
  add_export targets (p ∷ ps) =
      if contains (map as_posix targets) (as_posix p) then targets else targets ++ (p ∷ [])

  unfoldable pub targets_of : FilePath → PackageJson → Outcome (List FilePath)
  targets_of root d = elim (both_files (field_file root d.types) (field_file root d.typings)) [
    | raised e ↦ raised e
    | ok typed ↦ elim (field_file root d.exported_types) [
      | raised e ↦ raised e
      | ok exported ↦
          let targets = add_export typed exported in
          if is_empty targets
          then both_files (field_file root d.module_file) (field_file root d.main)
          else ok targets
    ]
  ]

  -- Any exception gives no files.
  unfoldable pub get_target_files : FilePath → List FilePath
  get_target_files root =
      let file = join_name root (text "package.json") in
      if not (packages.system.exists file)
      then (if is_empty (packages.glob root (text "index.d.ts"))
          then packages.glob root (text "index.js")
          else packages.glob root (text "index.d.ts"))
      else elim (packages.load_json file) [
        | raised e ↦ []
        | ok d ↦ elim (targets_of root d) [ raised e ↦ [] | ok targets ↦ targets ]
      ]

  unfoldable pub package_report : Text → FilePath → Outcome Text
  package_report name root =
      let targets = get_target_files root in
      if is_empty targets
      then raised discovery_error
      else ok (
          library_report
            (text "# Public API for JavaScript/TypeScript Library '" ++ (name ++ text "':"))
            (text "No public entities found for '" ++ (name ++ text "'."))
            (extract_all package_explorer (take 3 targets) no_walk).results)

  unfoldable pub extract_javascript_api : Text → Outcome Text
  extract_javascript_api name = elim (find_package_root name) [
    | some root ↦ package_report name root
    | none ↦ elim (find_package_root (text "@types/" ++ name)) [
      | some root ↦ package_report name root
      | none ↦ raised discovery_error
    ]
  ]
