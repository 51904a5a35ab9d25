-- ===== src/Discovery/Report.antt =====
-- The report that the providers for Rust and for JavaScript write on the units that they found,
-- and the lines of one unit, which those for Go and for C# write too.
use agent_coderag.Prelude.{
  Option, none, some, List, [], ◌∷◌, ◌++◌, Text, text, text_eq, if◌then◌else◌, is_empty, take,
}
use agent_coderag.Prelude.Dict.{Dict, lookup, insert}
use agent_coderag.Core.{
  UnitKind, module_kind, class_kind, function_kind, method_kind, KnowledgeUnit, truthy,
}
use agent_coderag.Parser.Comments.{splitlines, join}
use agent_coderag.Index.Units.{text_or_empty}
use agent_coderag.Paths.Pure.{of_text, file_name}
use agent_coderag.Discovery.Walk.{is_module}

-- `kind.value.capitalize()`
unfoldable pub kind_title : UnitKind → Text
kind_title module_kind = text "Module"
kind_title class_kind = text "Class"
kind_title function_kind = text "Function"
kind_title method_kind = text "Method"

unfoldable pub units_at_name : Text → Dict Text (List KnowledgeUnit) → List KnowledgeUnit
units_at_name name groups = elim (lookup name groups) [ none ↦ [] | some us ↦ us ]

-- `units_by_file`, by the name of the file, in the order of the first units.
unfoldable pub group_units :
    List KnowledgeUnit → Dict Text (List KnowledgeUnit) → Dict Text (List KnowledgeUnit)
group_units [] groups = groups
group_units (u ∷ units) groups =
    let name = file_name (of_text u.path).parts in
    group_units units (insert name (units_at_name name groups ++ (u ∷ [])) groups)

unfoldable pub first_line : Text → Text
first_line t = elim (splitlines t) [ [] ↦ [] | l ∷ ls ↦ l ]

unfoldable pub shown_signature : Option Text → Text
shown_signature none = text "None"
shown_signature (some t) = t

-- The lines of one unit, in the report of any provider.
unfoldable pub entity_lines : KnowledgeUnit → List Text
entity_lines u =
    let title = text "- **" ++ (kind_title u.kind ++ (text ": " ++ (u.name ++ text "**"))) in
    let doc = text "  *(" ++ (first_line (text_or_empty u.docstring) ++ text ")*") in
    let signature = text "  `" ++ (shown_signature u.signature ++ text "`") in
    title ∷ ((if truthy u.docstring then doc ∷ [] else []) ++ (signature ∷ []))

unfoldable pub listed_unit_lines : KnowledgeUnit → List Text
listed_unit_lines u = if is_module u.kind then [] else entity_lines u

unfoldable pub units_lines : List KnowledgeUnit → List Text
units_lines [] = []
units_lines (u ∷ units) = listed_unit_lines u ++ units_lines units

unfoldable pub groups_lines : Dict Text (List KnowledgeUnit) → List Text
groups_lines [] = []
groups_lines ((name, units) ∷ groups) =
    (text "\n## From " ++ (name ++ text ":")) ∷ (units_lines (take 20 units) ++ groups_lines groups)

unfoldable pub library_report : Text → Text → List KnowledgeUnit → Text
library_report heading nothing units =
    if is_empty units
    then nothing
    else join (text "\n") (take 150 (heading ∷ groups_lines (group_units units [])))
