-- ===== src/Parser/Languages.antt =====
-- code_rag/parsers/languages.py: the languages, and the extension of each.
mod Notation
pub mod First
mod Second
use agent_coderag.Prelude.{List, [], ◌∷◌, Text}
use agent_coderag.Prelude.Dict.{Dict}
use agent_coderag.Parser.Tree.{LanguageConfig}
use agent_coderag.Parser.Languages.Notation.{text_pairs}
use agent_coderag.Parser.Languages.First.{
  python, javascript, typescript, java, cpp, c_sharp, c_language, go, rust, php, ruby, swift,
}
use agent_coderag.Parser.Languages.Second.{
  kotlin, sql, bash, r_language, dart, scala, lua, perl, haskell, objective_c, zig, elixir, julia,
}

-- `LANGUAGES`
abbrev pub languages : List LanguageConfig
languages =
    python ∷ javascript ∷ typescript ∷ java ∷ cpp ∷ c_sharp ∷ c_language ∷ go ∷ rust ∷ php ∷ ruby
    ∷ swift ∷ kotlin ∷ sql ∷ bash ∷ r_language ∷ dart ∷ scala ∷ lua ∷ perl ∷ haskell ∷ objective_c
    ∷ zig ∷ elixir ∷ julia ∷ []

abbrev pub extension_to_language : Dict Text Text
extension_to_language = text_pairs (
    (".py", "python")
    ∷ (".js", "javascript")
    ∷ (".jsx", "javascript")
    ∷ (".ts", "typescript")
    ∷ (".tsx", "typescript")
    ∷ (".d.ts", "typescript")
    ∷ (".java", "java")
    ∷ (".cpp", "cpp")
    ∷ (".hpp", "cpp")
    ∷ (".cc", "cpp")
    ∷ (".hh", "cpp")
    ∷ (".c", "c")
    ∷ (".h", "c")
    ∷ (".cs", "c_sharp")
    ∷ (".go", "go")
    ∷ (".rs", "rust")
    ∷ (".php", "php")
    ∷ (".rb", "ruby")
    ∷ (".swift", "swift")
    ∷ (".kt", "kotlin")
    ∷ (".kts", "kotlin")
    ∷ (".sql", "sql")
    ∷ (".sh", "bash")
    ∷ (".bash", "bash")
    ∷ (".r", "r")
    ∷ (".dart", "dart")
    ∷ (".scala", "scala")
    ∷ (".lua", "lua")
    ∷ (".pl", "perl")
    ∷ (".pm", "perl")
    ∷ (".hs", "haskell")
    ∷ (".m", "objective_c")
    ∷ (".mm", "objective_c")
    ∷ (".zig", "zig")
    ∷ (".ex", "elixir")
    ∷ (".exs", "elixir")
    ∷ (".jl", "julia")
    ∷ [])
