-- ===== src/Tests/Others.antt =====
-- The parser, the connection and the configuration.
use agent_coderag.Prelude.{
  ℕ, zero, suc, ◌≡◌, refl, ◌↔◌, ◌+◌, false, Option, none, some, [], Text, text, arith, Distinct,
  text_eq, nat_eq,
}
use agent_coderag.Prelude.Dict.{lookup}
use agent_coderag.Core.{Outcome}
use agent_coderag.Parser.Tree.{
  Node, node, end, child, LanguageConfig, name_node, resolve_name, node_text, field_child, info,
  children,
}
use agent_coderag.Parser.Distill.{Source, canonical, recursive_distill}
use agent_coderag.Parser.Languages.{languages, extension_to_language}
use agent_coderag.Parser.Languages.First.{python}
use agent_coderag.Parser.File.{config_of}
use agent_coderag.Parser.File.Agree.{extension_to_language_iff}
use agent_coderag.Parser.Unique.Ids.{ids, recursive_distill-Distinct, PlainNames}
use agent_coderag.Storage.Connection.{Attempt, connected, busy, connect_with_retry}
use agent_coderag.Storage.Connection.Retry.{IsRetried, connect_with_retry-IsRetried}
use agent_coderag.Config.Settings.{written, DistillerConfig}
use agent_coderag.Config.Update.{
  Updates, load_or_update_config, has_updates, embedding_fields_requested, distill_fields_requested,
  number_given,
}
use agent_coderag.Config.Update.Valid.{IsUpdated, load_or_update_config-IsUpdated}

-- `def f` twice in one Python file.
abbrev leaf : Text → Text → Node
leaf type content =
    node
      (record {
        type = type;
        content = content;
        start_row = 0;
        end_row = 0;
        start_byte = 0;
        end_byte = 0;
      })
      end

abbrev function_f : Node
function_f =
    node
      (record {
        type = text "function_definition";
        content = text "def f";
        start_row = 0;
        end_row = 0;
        start_byte = 0;
        end_byte = 5;
      })
      (child (some (text "name")) (leaf (text "identifier") (text "f")) end)

abbrev module_of_two : Node
module_of_two =
    node
      (record {
        type = text "module";
        content = text "def f def f";
        start_row = 0;
        end_row = 0;
        start_byte = 0;
        end_byte = 11;
      })
      (child none function_f (child none function_f end))

abbrev python_file : Source
python_file = record {
  config = python;
  file_path = text "a.py";
  source = [];
  decode = λ b. b;
  sha256 = λ t. t;
}

f_plain : PlainNames python_file function_f (some module_of_two)
unfolding PlainNames canonical lookup text_eq resolve_name name_node node_text field_child info
    children
f_plain = (((λ p. omega arith, tt), (λ p. omega arith, tt)), ((tt, tt), tt))

recursive_distill_example :
    Distinct (ids (recursive_distill python_file module_of_two none [] none []).0)
unfolding PlainNames canonical info lookup text_eq
recursive_distill_example =
    recursive_distill-Distinct python_file module_of_two (tt, (f_plain, (f_plain, tt)))

extension_to_language_example :
    (lookup (text ".py") extension_to_language ≡ some (text "python")) ↔ (
      (cfg : LanguageConfig) × (config_of (text ".py") languages ≡ some cfg)
      × (cfg.id ≡ text "python"))
extension_to_language_example = extension_to_language_iff (text ".py") (text "python")

-- The file is locked twice, and the clock moves two ticks each time.
abbrev attempts : ℕ → Attempt ℕ
attempts zero = busy
attempts (suc zero) = busy
attempts (suc (suc k)) = connected 7

connect_with_retry_example :
    (r : Outcome ℕ) × (connect_with_retry attempts (λ k. k + k + 1) (0 + 5) 6 0 ≡ some r)
    × IsRetried attempts (λ k. k + k + 1) (0 + 5) 0 r
connect_with_retry_example =
    connect_with_retry-IsRetried attempts (λ k. k + k + 1) 0 5 (λ j. omega arith)

abbrev updates_of : Option Text → Option Text → Updates
updates_of url model = record {
  url = none;
  key = none;
  model = none;
  provider = none;
  timeout = some 10;
  max_concurrency = none;
  embedding_url = url;
  embedding_key = none;
  embedding_model = model;
  embedding_provider = none;
  clear_embedding = false;
}

abbrev remote_config : DistillerConfig ℕ
remote_config = record {
  model = none;
  api_base = none;
  api_key = none;
  provider = none;
  temperature = 0;
  timeout = 10;
  max_concurrency = 4;
  embedding_base = some (text "u");
  embedding_key = none;
  embedding_model = some (text "m");
  embedding_provider = none;
  relative_paths = false;
}

updated_example :
    let r =
      load_or_update_config {F = ℕ} 0 written
        (updates_of (some (text "u")) (some (text "m")))
        none in
    IsUpdated written none r.0 r.1
unfolding has_updates embedding_fields_requested distill_fields_requested number_given
updated_example =
    load_or_update_config-IsUpdated {F = ℕ} 0 written
      (updates_of (some (text "u")) (some (text "m"))) none refl
