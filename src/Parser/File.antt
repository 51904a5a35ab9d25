-- ===== src/Parser/File.antt =====
-- `distill_file` and `_get_parser` of parsers/tree_sitter.py, and parsers/multi_parser.py.
pub mod Agree
use agent_coderag.Prelude.{
  ℕ, Bool, true, false, Option, none, some, List, [], ◌∷◌, Text, text, ◌==◌, text_eq, nat_eq,
  if◌then◌else◌, contains,
}
use mathlib.Core.List.{reverse}
use agent_coderag.Prelude.Dict.{Dict, lookup, insert}
use agent_coderag.Core.{Error, grammar_not_found, KnowledgeUnit, Outcome, ok, raised}
use agent_coderag.Paths.Pure.{of_text, suffix}
use agent_coderag.Parser.Tree.{LanguageConfig, Node}
use agent_coderag.Parser.Distill.{lower, Source, recursive_distill}
use agent_coderag.Parser.Languages.{languages, extension_to_language}

-- `next((cfg for cfg in LANGUAGES if ext in cfg.extensions), None)`
unfoldable pub config_of : Text → List LanguageConfig → Option LanguageConfig
config_of ext [] = none
config_of ext (cfg ∷ cfgs) = if contains cfg.extensions ext then some cfg else config_of ext cfgs

-- What comes of loading a grammar: it is no module, something else goes wrong, or a parser.
pub data Loaded (P : Type 0) : Type 0 where
  import_error : Loaded P
  other_error : Error → Loaded P
  loaded : P → Loaded P

-- The tree-sitter packages, the disk and the hash: `load` is asked for a grammar's package, and
-- for its function `language`, which is the one that the code always calls.
pub record Grammars : Type 1 where
  pub Parser : Type 0
  pub load : Text → Text → Loaded Parser
  pub parse : Parser → List ℕ → Outcome Node
  pub read : Text → Outcome (List ℕ)
  pub decode : List ℕ → Text
  pub sha256 : Text → Text

unfoldable pub wanted_or_empty : Bool → Error → Outcome (List KnowledgeUnit)
wanted_or_empty true e = raised e
wanted_or_empty false e = ok []

-- The last piece of a reversed path, and the name without its leading dots.
unfoldable pub last_piece : Text → Text → Text
last_piece [] name = name
last_piece (c ∷ s) name = if c == b'/' then name else last_piece s (c ∷ name)

unfoldable pub skip_dots : Text → Text
skip_dots [] = []
skip_dots (c ∷ s) = if c == b'.' then skip_dots s else c ∷ s

unfoldable pub from_last_dot : Text → Text → Text
from_last_dot [] ext = []
from_last_dot (c ∷ front) ext = if c == b'.' then b'.' ∷ ext else from_last_dot front (c ∷ ext)

-- `os.path.splitext(path)[1]`
unfoldable pub splitext : Text → Text
splitext path = from_last_dot (reverse (skip_dots (last_piece (reverse path) []))) []

module _ (g : Grammars) where
  open g use {Parser}

  -- `_get_parser`, with the parsers that are kept by language.
  unfoldable pub get_parser : LanguageConfig → Dict Text Parser → Outcome Parser × Dict Text Parser
  get_parser cfg parsers = elim (lookup cfg.id parsers) [
    | some p ↦ (ok p, parsers)
    | none ↦ elim (g.load cfg.grammar_package (text "language")) [
      | import_error ↦ (raised grammar_not_found, parsers)
      | other_error e ↦ (raised e, parsers)
      | loaded p ↦ (ok p, insert cfg.id p parsers)
    ]
  ]

  unfoldable pub distill_tree : LanguageConfig → Text → List ℕ → Node → List KnowledgeUnit
  distill_tree cfg identity source root =
      let ctx : Source = record {
        config = cfg;
        file_path = identity;
        source = source;
        decode = g.decode;
        sha256 = g.sha256;
      } in
      (recursive_distill ctx root none [] none []).0

  unfoldable pub parse_source :
      LanguageConfig → Text → Bool → List ℕ → Outcome Parser → Outcome (List KnowledgeUnit)
  parse_source cfg identity strict source (raised grammar_not_found) = raised grammar_not_found
  parse_source cfg identity strict source (raised e) = wanted_or_empty strict e
  parse_source cfg identity strict source (ok p) = elim (g.parse p source) [
    | raised e ↦ wanted_or_empty strict e
    | ok root ↦ ok (distill_tree cfg identity source root)
  ]

  unfoldable pub distill_file :
      Text → Option Text → Bool → Dict Text Parser → Outcome (List KnowledgeUnit) × Dict Text Parser
  distill_file path stored strict parsers =
      let identity = elim stored as (λ _. Text) [ none ↦ path | some t ↦ t ] in
      elim (config_of (lower (suffix (of_text path))) languages) [
        | none ↦ (ok [], parsers)
        | some cfg ↦ elim (g.read path) [
          | raised e ↦ (wanted_or_empty strict e, parsers)
          | ok source ↦
              let r = get_parser cfg parsers in (parse_source cfg identity strict source r.0, r.1)
        ]
      ]

  -- `MultiParser.distill_file`: its four calls pass on what they were given.
  unfoldable pub multi_distill_file :
      Text → Option Text → Bool → Dict Text Parser → Outcome (List KnowledgeUnit) × Dict Text Parser
  multi_distill_file path stored strict parsers =
      elim (lookup (lower (splitext path)) extension_to_language) [
        | none ↦ (ok [], parsers)
        | some lang ↦ distill_file path stored strict parsers
      ]
