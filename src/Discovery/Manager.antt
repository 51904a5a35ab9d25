-- ===== src/Discovery/Manager.antt =====
-- code_rag/discovery/manager.py and services/discovery_api.py. The provider of Python, which reads
-- what is installed for the interpreter, is a parameter.
use agent_coderag.Prelude.{
  Option, none, some, [], ◌∷◌, Text, text, text_eq, if◌then◌else◌, is_empty,
}
use agent_coderag.Prelude.Dict.{Dict, lookup}
use agent_coderag.Core.{discovery_error, Outcome, ok, raised, Action, pure, ◌>>=◌}
use agent_coderag.Parser.Distill.{lower}
use agent_coderag.Discovery.Sources.{Sources, extract_go_api, extract_csharp_api}
use agent_coderag.Discovery.Rust.{Crates, extract_rust_api}
use agent_coderag.Discovery.Javascript.{Packages, extract_javascript_api}

pub data Provider : Type 0 where
  python java go javascript rust csharp : Provider

unfoldable pub providers : Dict Text Provider
providers =
    (text "python", python)
    ∷ (text "java", java)
    ∷ (text "go", go)
    ∷ (text "javascript", javascript)
    ∷ (text "typescript", javascript)
    ∷ (text "rust", rust)
    ∷ (text "csharp", csharp)
    ∷ (text "c_sharp", csharp)
    ∷ []

unfoldable pub get_provider : Text → Option Provider
get_provider language = lookup (lower language) providers

-- `ApiReport`
pub record ApiReport : Type 0 where
  pub library : Text
  pub language : Text
  pub report : Text

-- `lang or "python"`
unfoldable pub language_or_python : Option Text → Text
language_or_python none = text "python"
language_or_python (some t) = if is_empty t then text "python" else t

-- `raise DiscoveryError(…) from e` for any other exception.
unfoldable pub wrap_errors : {S A : Type 0} → Action S A → Action S A
wrap_errors m s = elim (m s).0 [
  | ok a ↦ (ok a, (m s).1)
  | raised e ↦ (raised discovery_error, (m s).1)
]

-- What the providers call; `extract_python` is the provider of Python.
pub record Libraries : Type 0 where
  pub crates : Crates
  pub packages : Packages
  pub sources : Sources
  pub extract_python : Text → Outcome Text

-- The provider of Java reads its storage: `extract_java` is its call.
module _ {S : Type 0} (extract_java : Text → Action S Text) (libraries : Libraries) where
  unfoldable pub extract_by : Provider → Text → Action S Text
  extract_by java name s = extract_java name s
  extract_by rust name s = (extract_rust_api libraries.crates name, s)
  extract_by javascript name s = (extract_javascript_api libraries.packages name, s)
  extract_by go name s = (ok (extract_go_api libraries.sources name), s)
  extract_by csharp name s = (ok (extract_csharp_api libraries.sources name), s)
  extract_by python name s = (libraries.extract_python name, s)

  unfoldable pub extract_api : Text → Text → Action S Text
  extract_api name language = elim (get_provider language) [
    | none ↦ λ s. (raised discovery_error, s)
    | some provider ↦ wrap_errors (extract_by provider name)
  ]

  unfoldable pub run_api : Text → Option Text → Action S ApiReport
  run_api library lang = do
    let language = language_or_python lang
    report ← extract_api library language
    pure (record { library = library; language = language; report = report })
