-- ===== src/Discovery/Walk.antt =====
-- The walk of the providers for Rust and for JavaScript through the files of a library: the code of
-- `_recursive_extract`, which both have, with what differs in an `Explorer`.
pub mod Visited
use agent_coderag.Prelude.{
  ℕ, zero, suc, Bool, true, false, not, ◌||◌, Option, none, some, List, [], ◌∷◌, ◌++◌, Text,
  text_eq, if◌then◌else◌, keep, contains,
}
use agent_coderag.Core.{
  UnitKind, module_kind, class_kind, function_kind, method_kind, KnowledgeUnit, Outcome, ok, raised,
}
use agent_coderag.Paths.Pure.{FilePath, as_posix}

-- Whether a file is there, its units, which of them are listed, and the file that one leads to.
pub record Explorer : Type 0 where
  pub exists : FilePath → Bool
  pub distill_file : Text → Outcome (List KnowledgeUnit)
  pub is_listed : KnowledgeUnit → Bool
  pub target : FilePath → KnowledgeUnit → Option FilePath

-- The files that were visited, as texts, and the units that were found.
pub record Walk : Type 0 where
  pub visited : List Text
  pub results : List KnowledgeUnit

abbrev pub no_walk : Walk
no_walk = record { visited = []; results = [] }

-- `max_depth` is 3: levels for the depths 0 to 3.
abbrev pub all_levels : ℕ
all_levels = 4

unfoldable pub is_module : UnitKind → Bool
is_module module_kind = true
is_module class_kind = false
is_module function_kind = false
is_module method_kind = false

module _ (explorer : Explorer) where
  -- `for unit in units:` with the call on the next depth.
  unfoldable pub follow : (FilePath → Walk → Walk) → FilePath → List KnowledgeUnit → Walk → Walk
  follow next current [] w = w
  follow next current (u ∷ units) w =
      follow next current units
        (elim (explorer.target current u) [ none ↦ w | some target ↦ next target w ])

  unfoldable pub visit : FilePath → List KnowledgeUnit → Walk → Walk
  visit path units w = record {
    visited = as_posix path ∷ w.visited;
    results = w.results ++ keep explorer.is_listed units;
  }

  -- `levels` is `max_depth + 1 - depth`. A parser that raises leaves the file visited.
  unfoldable pub recursive_extract : ℕ → FilePath → Walk → Walk
  recursive_extract zero path w = w
  recursive_extract (suc levels) path w =
      if contains w.visited (as_posix path) || not (explorer.exists path)
      then w
      else elim (explorer.distill_file (as_posix path)) as (λ _. Walk) [
        | raised e ↦ visit path [] w
        | ok units ↦ follow (recursive_extract levels) path units (visit path units w)
      ]

  unfoldable pub extract_all : List FilePath → Walk → Walk
  extract_all [] w = w
  extract_all (p ∷ paths) w = extract_all paths (recursive_extract all_levels p w)
