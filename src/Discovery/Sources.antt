-- ===== src/Discovery/Sources.antt =====
-- code_rag/discovery/providers/go.py and csharp.py: the source files of the project around the
-- working directory, without following modules.
use agent_coderag.Prelude.{
  ℕ, Bool, not, ◌&&◌, ◌||◌, Option, none, some, List, [], ◌∷◌, ◌++◌, Text, text, text_eq,
  if◌then◌else◌, is_empty, take, contains, keep,
}
use agent_coderag.Core.{KnowledgeUnit, index_error, Outcome, ok, raised, truthy}
use agent_coderag.Parser.Comments.{join, has_part}
use agent_coderag.Index.Units.{text_or_empty}
use agent_coderag.Paths.Pure.{FilePath, of_text, as_posix, join_name, parent, file_name}
use agent_coderag.Paths.Resolve.{System, find_directory_upwards}
use agent_coderag.Discovery.Report.{entity_lines}

-- What the providers call: the parser, `glob("*.go")`, `rglob("*.cs")`, and `str.isupper` of a
-- character.
pub record Sources : Type 0 where
  pub system : System
  pub distill_file : Text → Outcome (List KnowledgeUnit)
  pub go_files : FilePath → List FilePath
  pub cs_files : FilePath → List FilePath
  pub is_upper : ℕ → Bool

unfoldable pub entities_lines : List KnowledgeUnit → List Text
entities_lines [] = []
entities_lines (u ∷ units) = entity_lines u ++ entities_lines units

unfoldable pub file_lines : FilePath → List KnowledgeUnit → List Text
file_lines path units =
    if is_empty units
    then []
    else (text "\n## From " ++ (file_name path.parts ++ text ":")) ∷ entities_lines units

-- `[u for u in units if u.name[0].isupper()]`: an empty name raises.
unfoldable pub exported : (ℕ → Bool) → List KnowledgeUnit → Outcome (List KnowledgeUnit)
exported is_upper [] = ok []
exported is_upper (u ∷ units) = elim u.name [
  | [] ↦ raised index_error
  | c ∷ s ↦ elim (exported is_upper units) [
    | raised e ↦ raised e
    | ok rest ↦ ok (if is_upper c then u ∷ rest else rest)
  ]
]

module _ (sources : Sources) where
  -- One file of the report on a Go module; an exception of its parse or of a name gives no lines.
  unfoldable pub go_file_lines : FilePath → List Text
  go_file_lines path = elim (sources.distill_file (as_posix path)) [
    | raised e ↦ []
    | ok units ↦ elim (exported sources.is_upper units) [
      | raised e ↦ []
      | ok public ↦ file_lines path (take 20 public)
    ]
  ]

  -- `seen` holds the files that were there and were taken.
  unfoldable pub go_lines : List Text → List FilePath → List Text
  go_lines seen [] = []
  go_lines seen (p ∷ paths) =
      let there = sources.system.exists p && not (contains seen (as_posix p)) in
      let rest = go_lines (if there then as_posix p ∷ seen else seen) paths in
      if there then go_file_lines p ++ rest else rest

  unfoldable pub extract_go_api : Text → Text
  extract_go_api name =
      elim (find_directory_upwards sources.system (of_text (text ".")) (text "go.mod")) [
        | none ↦ text "Error: Could not find go.mod for module '" ++ (name ++ text "'.")
        | some mod_path ↦
            let root = parent mod_path in
            join (text "\n") (
              take 150 (
                (text "# Public API for Go Module '" ++ (name ++ text "':"))
                ∷ go_lines [] (join_name root (text "main.go") ∷ sources.go_files root)))
      ]

  unfoldable pub is_public_cs : KnowledgeUnit → Bool
  is_public_cs u = truthy u.signature && has_part (text "public") (text_or_empty u.signature)

  unfoldable pub cs_file_lines : FilePath → List Text
  cs_file_lines path = elim (sources.distill_file (as_posix path)) [
    | raised e ↦ []
    | ok units ↦ file_lines path (take 10 (keep is_public_cs units))
  ]

  unfoldable pub is_built : FilePath → Bool
  is_built p = has_part (text "obj/") (as_posix p) || has_part (text "bin/") (as_posix p)

  unfoldable pub cs_lines : List Text → List FilePath → List Text
  cs_lines visited [] = []
  cs_lines visited (p ∷ paths) =
      let skipped = contains visited (as_posix p) || is_built p in
      let rest = cs_lines (if skipped then visited else as_posix p ∷ visited) paths in
      if skipped then rest else cs_file_lines p ++ rest

  -- `find_directory_upwards(…) or find_directory_upwards(…)`
  unfoldable pub find_cs_target : Option FilePath
  find_cs_target =
      elim (find_directory_upwards sources.system (of_text (text ".")) (text "*.sln")) [
        | some p ↦ some p
        | none ↦ find_directory_upwards sources.system (of_text (text ".")) (text "*.csproj")
      ]

  abbrev pub no_cs_target : Text → Text
  no_cs_target name =
      text "Error: Could not find Solution (*.sln) or Project (*.csproj) for '"
      ++ (name ++ text "'.")

  unfoldable pub extract_csharp_api : Text → Text
  extract_csharp_api name = elim find_cs_target [
    | none ↦ no_cs_target name
    | some target ↦ join (text "\n") (
        take 150 (
          (text "# Public API for CSharp Project '" ++ (name ++ text "':"))
          ∷ cs_lines [] (take 10 (sources.cs_files (parent target)))))
  ]
