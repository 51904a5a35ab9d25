-- ===== src/Parser/Languages/Second.antt =====
-- The second half of `LANGUAGE_MAP` of parsers/languages.py: the table's entries, in its order.
use agent_coderag.Prelude.{[], ◌∷◌, text}
use agent_coderag.Parser.Tree.{LanguageConfig}
use agent_coderag.Parser.Languages.Notation.{texts, text_pairs}

abbrev pub kotlin : LanguageConfig
kotlin = record {
  id = text "kotlin";
  extensions = texts (".kt" ∷ ".kts" ∷ []);
  grammar_package = text "tree_sitter_kotlin";
  entities = texts (
      "class_declaration" ∷ "function_declaration" ∷ "object_declaration" ∷ "interface_declaration"
      ∷ []);
  body_fields = texts ("body" ∷ []);
  fallback_bodies = texts ("function_body" ∷ "class_body" ∷ []);
  stub_suffix = text " { ... }";
  canonical_map = text_pairs (
      ("class_declaration", "CLASS")
      ∷ ("function_declaration", "METHOD")
      ∷ ("object_declaration", "CLASS")
      ∷ ("interface_declaration", "CLASS")
      ∷ []);
  language_function = text "language";
}

abbrev pub sql : LanguageConfig
sql = record {
  id = text "sql";
  extensions = texts (".sql" ∷ []);
  grammar_package = text "tree_sitter_sql";
  entities = texts (
      "create_table_statement" ∷ "create_view_statement" ∷ "create_function_statement"
      ∷ "create_procedure_statement" ∷ []);
  body_fields = texts ("body" ∷ []);
  fallback_bodies = texts ("block" ∷ []);
  stub_suffix = text " ...";
  canonical_map = text_pairs (
      ("create_table_statement", "CLASS")
      ∷ ("create_view_statement", "CLASS")
      ∷ ("create_function_statement", "FUNCTION")
      ∷ ("create_procedure_statement", "FUNCTION")
      ∷ []);
  language_function = text "language";
}

abbrev pub bash : LanguageConfig
bash = record {
  id = text "bash";
  extensions = texts (".sh" ∷ ".bash" ∷ []);
  grammar_package = text "tree_sitter_bash";
  entities = texts ("function_definition" ∷ []);
  body_fields = texts ("body" ∷ []);
  fallback_bodies = texts ("compound_statement" ∷ []);
  stub_suffix = text " { ... }";
  canonical_map = text_pairs (("function_definition", "FUNCTION") ∷ []);
  language_function = text "language";
}

abbrev pub r_language : LanguageConfig
r_language = record {
  id = text "r";
  extensions = texts (".r" ∷ []);
  grammar_package = text "tree_sitter_r";
  entities = texts ("function_definition" ∷ []);
  body_fields = texts ("body" ∷ []);
  fallback_bodies = texts ("braced_expression" ∷ []);
  stub_suffix = text " { ... }";
  canonical_map = text_pairs (("function_definition", "FUNCTION") ∷ []);
  language_function = text "language";
}

abbrev pub dart : LanguageConfig
dart = record {
  id = text "dart";
  extensions = texts (".dart" ∷ []);
  grammar_package = text "tree_sitter_dart";
  entities = texts ("class_definition" ∷ "function_declaration" ∷ "method_declaration" ∷ []);
  body_fields = texts ("body" ∷ []);
  fallback_bodies = texts ("function_body" ∷ []);
  stub_suffix = text " { ... }";
  canonical_map = text_pairs (
      ("class_definition", "CLASS")
      ∷ ("function_declaration", "FUNCTION")
      ∷ ("method_declaration", "METHOD")
      ∷ []);
  language_function = text "language";
}

abbrev pub scala : LanguageConfig
scala = record {
  id = text "scala";
  extensions = texts (".scala" ∷ []);
  grammar_package = text "tree_sitter_scala";
  entities =
      texts (
        "class_definition" ∷ "function_definition" ∷ "object_definition" ∷ "trait_definition" ∷ []);
  body_fields = texts ("body" ∷ []);
  fallback_bodies = texts ("template_body" ∷ "block" ∷ []);
  stub_suffix = text " { ... }";
  canonical_map = text_pairs (
      ("class_definition", "CLASS")
      ∷ ("function_definition", "METHOD")
      ∷ ("object_definition", "CLASS")
      ∷ ("trait_definition", "CLASS")
      ∷ []);
  language_function = text "language";
}

abbrev pub lua : LanguageConfig
lua = record {
  id = text "lua";
  extensions = texts (".lua" ∷ []);
  grammar_package = text "tree_sitter_lua";
  entities = texts ("function_definition" ∷ "local_function_definition" ∷ "table_constructor" ∷ []);
  body_fields = texts ("body" ∷ []);
  fallback_bodies = texts ("block" ∷ []);
  stub_suffix = text " ... end";
  canonical_map = text_pairs (
      ("function_definition", "FUNCTION")
      ∷ ("local_function_definition", "FUNCTION")
      ∷ ("table_constructor", "CLASS")
      ∷ []);
  language_function = text "language";
}

abbrev pub perl : LanguageConfig
perl = record {
  id = text "perl";
  extensions = texts (".pl" ∷ ".pm" ∷ []);
  grammar_package = text "tree_sitter_perl";
  entities = texts ("subroutine_definition" ∷ []);
  body_fields = texts ("body" ∷ []);
  fallback_bodies = texts ("block" ∷ []);
  stub_suffix = text " { ... }";
  canonical_map = text_pairs (("subroutine_definition", "FUNCTION") ∷ []);
  language_function = text "language";
}

abbrev pub haskell : LanguageConfig
haskell = record {
  id = text "haskell";
  extensions = texts (".hs" ∷ []);
  grammar_package = text "tree_sitter_haskell";
  entities = texts (
      "function_declaration" ∷ "data_declaration" ∷ "newtype_declaration" ∷ "type_declaration"
      ∷ []);
  body_fields = texts ("body" ∷ []);
  fallback_bodies = texts ("exp_apply" ∷ []);
  stub_suffix = text " = ...";
  canonical_map = text_pairs (
      ("function_declaration", "FUNCTION")
      ∷ ("data_declaration", "CLASS")
      ∷ ("newtype_declaration", "CLASS")
      ∷ ("type_declaration", "CLASS")
      ∷ []);
  language_function = text "language";
}

abbrev pub objective_c : LanguageConfig
objective_c = record {
  id = text "objective_c";
  extensions = texts (".m" ∷ ".mm" ∷ []);
  grammar_package = text "tree_sitter_objc";
  entities = texts (
      "class_interface" ∷ "class_implementation" ∷ "category_interface" ∷ "category_implementation"
      ∷ "function_definition" ∷ "method_definition" ∷ []);
  body_fields = texts ("body" ∷ []);
  fallback_bodies = texts ("compound_statement" ∷ []);
  stub_suffix = text " { ... }";
  canonical_map = text_pairs (
      ("class_interface", "CLASS")
      ∷ ("class_implementation", "CLASS")
      ∷ ("category_interface", "CLASS")
      ∷ ("category_implementation", "CLASS")
      ∷ ("function_definition", "FUNCTION")
      ∷ ("method_definition", "METHOD")
      ∷ []);
  language_function = text "language";
}

abbrev pub zig : LanguageConfig
zig = record {
  id = text "zig";
  extensions = texts (".zig" ∷ []);
  grammar_package = text "tree_sitter_zig";
  entities = texts ("function_declaration" ∷ "struct_declaration" ∷ []);
  body_fields = texts ("body" ∷ []);
  fallback_bodies = texts ("block" ∷ []);
  stub_suffix = text " { ... }";
  canonical_map =
      text_pairs (("function_declaration", "FUNCTION") ∷ ("struct_declaration", "CLASS") ∷ []);
  language_function = text "language";
}

abbrev pub elixir : LanguageConfig
elixir = record {
  id = text "elixir";
  extensions = texts (".ex" ∷ ".exs" ∷ []);
  grammar_package = text "tree_sitter_elixir";
  entities = texts ("call" ∷ []);
  body_fields = texts ("body" ∷ []);
  fallback_bodies = texts ("do_block" ∷ []);
  stub_suffix = text " do ... end";
  canonical_map = text_pairs (("call", "FUNCTION") ∷ []);
  language_function = text "language";
}

abbrev pub julia : LanguageConfig
julia = record {
  id = text "julia";
  extensions = texts (".jl" ∷ []);
  grammar_package = text "tree_sitter_julia";
  entities = texts ("function_definition" ∷ "struct_definition" ∷ "module_definition" ∷ []);
  body_fields = texts ("body" ∷ []);
  fallback_bodies = texts ("block" ∷ []);
  stub_suffix = text " ... end";
  canonical_map = text_pairs (
      ("function_definition", "FUNCTION")
      ∷ ("struct_definition", "CLASS")
      ∷ ("module_definition", "MODULE")
      ∷ []);
  language_function = text "language";
}
