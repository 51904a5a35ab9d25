-- ===== src/Parser/Languages/First.antt =====
-- The first half of `LANGUAGE_MAP` of parsers/languages.py: the table's entries, in its order.
use agent_coderag.Prelude.{[], ◌∷◌, text}
use agent_coderag.Parser.Tree.{LanguageConfig}
use agent_coderag.Parser.Languages.Notation.{texts, text_pairs}

abbrev pub python : LanguageConfig
python = record {
  id = text "python";
  extensions = texts (".py" ∷ []);
  grammar_package = text "tree_sitter_python";
  entities = texts ("class_definition" ∷ "function_definition" ∷ []);
  body_fields = texts ("body" ∷ []);
  fallback_bodies = texts ("block" ∷ []);
  stub_suffix = text " ...";
  canonical_map =
      text_pairs (("class_definition", "CLASS") ∷ ("function_definition", "FUNCTION") ∷ []);
  language_function = text "language";
}

abbrev pub javascript : LanguageConfig
javascript = record {
  id = text "javascript";
  extensions = texts (".js" ∷ ".jsx" ∷ []);
  grammar_package = text "tree_sitter_javascript";
  entities = texts (
      "class_declaration" ∷ "function_declaration" ∷ "method_definition" ∷ "arrow_function"
      ∷ "export_statement" ∷ []);
  body_fields = texts ("body" ∷ []);
  fallback_bodies = texts ("statement_block" ∷ []);
  stub_suffix = text " { ... }";
  canonical_map = text_pairs (
      ("class_declaration", "CLASS")
      ∷ ("function_declaration", "FUNCTION")
      ∷ ("method_definition", "METHOD")
      ∷ ("arrow_function", "FUNCTION")
      ∷ ("export_statement", "MODULE")
      ∷ []);
  language_function = text "language";
}

abbrev pub typescript : LanguageConfig
typescript = record {
  id = text "typescript";
  extensions = texts (".ts" ∷ ".tsx" ∷ ".d.ts" ∷ []);
  grammar_package = text "tree_sitter_typescript";
  entities = texts (
      "class_declaration" ∷ "function_declaration" ∷ "method_definition" ∷ "arrow_function"
      ∷ "interface_declaration" ∷ "type_alias_declaration" ∷ "function_signature"
      ∷ "abstract_method_definition" ∷ "export_statement" ∷ []);
  body_fields = texts ("body" ∷ []);
  fallback_bodies = texts ("statement_block" ∷ "object_type" ∷ []);
  stub_suffix = text " { ... }";
  canonical_map = text_pairs (
      ("class_declaration", "CLASS")
      ∷ ("function_declaration", "FUNCTION")
      ∷ ("method_definition", "METHOD")
      ∷ ("arrow_function", "FUNCTION")
      ∷ ("interface_declaration", "CLASS")
      ∷ ("type_alias_declaration", "CLASS")
      ∷ ("function_signature", "FUNCTION")
      ∷ ("abstract_method_definition", "METHOD")
      ∷ ("export_statement", "MODULE")
      ∷ []);
  language_function = text "language_typescript";
}

abbrev pub java : LanguageConfig
java = record {
  id = text "java";
  extensions = texts (".java" ∷ []);
  grammar_package = text "tree_sitter_java";
  entities = texts (
      "class_declaration" ∷ "method_declaration" ∷ "interface_declaration" ∷ "enum_declaration"
      ∷ []);
  body_fields = texts ("body" ∷ []);
  fallback_bodies = texts ("block" ∷ []);
  stub_suffix = text " { ... }";
  canonical_map = text_pairs (
      ("class_declaration", "CLASS")
      ∷ ("method_declaration", "METHOD")
      ∷ ("interface_declaration", "CLASS")
      ∷ ("enum_declaration", "CLASS")
      ∷ []);
  language_function = text "language";
}

abbrev pub cpp : LanguageConfig
cpp = record {
  id = text "cpp";
  extensions = texts (".cpp" ∷ ".hpp" ∷ ".cc" ∷ ".hh" ∷ []);
  grammar_package = text "tree_sitter_cpp";
  entities = texts ("class_specifier" ∷ "function_definition" ∷ "struct_specifier" ∷ []);
  body_fields = texts ("body" ∷ []);
  fallback_bodies = texts ("compound_statement" ∷ []);
  stub_suffix = text " { ... }";
  canonical_map = text_pairs (
      ("class_specifier", "CLASS")
      ∷ ("function_definition", "FUNCTION")
      ∷ ("struct_specifier", "CLASS")
      ∷ []);
  language_function = text "language";
}

abbrev pub c_sharp : LanguageConfig
c_sharp = record {
  id = text "c_sharp";
  extensions = texts (".cs" ∷ []);
  grammar_package = text "tree_sitter_c_sharp";
  entities = texts (
      "class_declaration" ∷ "method_declaration" ∷ "interface_declaration" ∷ "struct_declaration"
      ∷ "enum_declaration" ∷ []);
  body_fields = texts ("body" ∷ []);
  fallback_bodies = texts ("block" ∷ []);
  stub_suffix = text " { ... }";
  canonical_map = text_pairs (
      ("class_declaration", "CLASS")
      ∷ ("method_declaration", "METHOD")
      ∷ ("interface_declaration", "CLASS")
      ∷ ("struct_declaration", "CLASS")
      ∷ ("enum_declaration", "CLASS")
      ∷ []);
  language_function = text "language";
}

abbrev pub c_language : LanguageConfig
c_language = record {
  id = text "c";
  extensions = texts (".c" ∷ ".h" ∷ []);
  grammar_package = text "tree_sitter_c";
  entities = texts ("function_definition" ∷ "struct_specifier" ∷ []);
  body_fields = texts ("body" ∷ []);
  fallback_bodies = texts ("compound_statement" ∷ []);
  stub_suffix = text " { ... }";
  canonical_map =
      text_pairs (("function_definition", "FUNCTION") ∷ ("struct_specifier", "CLASS") ∷ []);
  language_function = text "language";
}

abbrev pub go : LanguageConfig
go = record {
  id = text "go";
  extensions = texts (".go" ∷ []);
  grammar_package = text "tree_sitter_go";
  entities = texts ("function_declaration" ∷ "method_declaration" ∷ "type_declaration" ∷ []);
  body_fields = texts ("body" ∷ []);
  fallback_bodies = texts ("block" ∷ []);
  stub_suffix = text " { ... }";
  canonical_map = text_pairs (
      ("function_declaration", "FUNCTION")
      ∷ ("method_declaration", "METHOD")
      ∷ ("type_declaration", "CLASS")
      ∷ []);
  language_function = text "language";
}

abbrev pub rust : LanguageConfig
rust = record {
  id = text "rust";
  extensions = texts (".rs" ∷ []);
  grammar_package = text "tree_sitter_rust";
  entities = texts (
      "function_item" ∷ "struct_item" ∷ "enum_item" ∷ "trait_item" ∷ "impl_item" ∷ "mod_item" ∷ []);
  body_fields = texts ("body" ∷ []);
  fallback_bodies = texts ("block" ∷ []);
  stub_suffix = text " { ... }";
  canonical_map = text_pairs (
      ("function_item", "FUNCTION")
      ∷ ("struct_item", "CLASS")
      ∷ ("enum_item", "CLASS")
      ∷ ("trait_item", "CLASS")
      ∷ ("impl_item", "CLASS")
      ∷ ("mod_item", "MODULE")
      ∷ []);
  language_function = text "language";
}

abbrev pub php : LanguageConfig
php = record {
  id = text "php";
  extensions = texts (".php" ∷ []);
  grammar_package = text "tree_sitter_php";
  entities = texts (
      "class_declaration" ∷ "function_definition" ∷ "method_declaration" ∷ "interface_declaration"
      ∷ "trait_declaration" ∷ []);
  body_fields = texts ("body" ∷ []);
  fallback_bodies = texts ("compound_statement" ∷ []);
  stub_suffix = text " { ... }";
  canonical_map = text_pairs (
      ("class_declaration", "CLASS")
      ∷ ("function_definition", "FUNCTION")
      ∷ ("method_declaration", "METHOD")
      ∷ ("interface_declaration", "CLASS")
      ∷ ("trait_declaration", "CLASS")
      ∷ []);
  language_function = text "language";
}

abbrev pub ruby : LanguageConfig
ruby = record {
  id = text "ruby";
  extensions = texts (".rb" ∷ []);
  grammar_package = text "tree_sitter_ruby";
  entities = texts ("class" ∷ "method" ∷ "module" ∷ "singleton_method" ∷ []);
  body_fields = texts ("body" ∷ []);
  fallback_bodies = texts ("do_block" ∷ "block" ∷ []);
  stub_suffix = text " ... end";
  canonical_map = text_pairs (
      ("class", "CLASS")
      ∷ ("method", "METHOD")
      ∷ ("module", "MODULE")
      ∷ ("singleton_method", "METHOD")
      ∷ []);
  language_function = text "language";
}

abbrev pub swift : LanguageConfig
swift = record {
  id = text "swift";
  extensions = texts (".swift" ∷ []);
  grammar_package = text "tree_sitter_swift";
  entities = texts (
      "class_declaration" ∷ "function_declaration" ∷ "struct_declaration" ∷ "protocol_declaration"
      ∷ "enum_declaration" ∷ []);
  body_fields = texts ("body" ∷ []);
  fallback_bodies = texts ("code_block" ∷ []);
  stub_suffix = text " { ... }";
  canonical_map = text_pairs (
      ("class_declaration", "CLASS")
      ∷ ("function_declaration", "FUNCTION")
      ∷ ("struct_declaration", "CLASS")
      ∷ ("protocol_declaration", "CLASS")
      ∷ ("enum_declaration", "CLASS")
      ∷ []);
  language_function = text "language";
}
