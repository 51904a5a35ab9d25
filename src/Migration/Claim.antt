-- ===== src/Migration/Claim.antt =====
-- `_groups` and `claim_relative_paths`: which old path takes which relative path.
pub mod Absolute
pub mod Once
use agent_coderag.Prelude.{
  ℕ, ◌+◌, Bool, true, not, ◌&&◌, Option, none, some, List, [], ◌∷◌, ◌++◌, Text, ◌==◌, text_eq,
  nat_eq, if◌then◌else◌, contains,
}
use agent_coderag.Prelude.Dict.{Dict, lookup, insert}
use agent_coderag.Core.{KnowledgeUnit, ok, raised}
use agent_coderag.Paths.Pure.{FilePath, of_text}
use agent_coderag.Paths.Resolve.{System, project_relative_posix}

-- `Counter[str]`
abbrev pub Counter : Type 0
Counter = Dict Text ℕ

unfoldable pub count_at : Text → Counter → ℕ
count_at k c = elim (lookup k c) [ none ↦ 0 | some n ↦ n ]

unfoldable pub add_one : Text → Counter → Counter
add_one k c = insert k (count_at k c + 1) c

unfoldable pub counter_of : List Text → Counter → Counter
counter_of [] c = c
counter_of (k ∷ ks) c = counter_of ks (add_one k c)

-- `c == d` for counters that hold no zero: the same keys with the same counts.
unfoldable pub counts_within : Counter → Counter → Bool
counts_within [] d = true
counts_within ((k, n) ∷ c) d = count_at k d == n && counts_within c d

unfoldable pub same_counter : Counter → Counter → Bool
same_counter c d = counts_within c d && counts_within d c

unfoldable pub group_at : Text → Dict Text Counter → Counter
group_at path groups = elim (lookup path groups) [ none ↦ [] | some c ↦ c ]

-- `_groups`, after the groups of the units before.
unfoldable pub groups_from : List KnowledgeUnit → Dict Text Counter → Dict Text Counter
groups_from [] groups = groups
groups_from (u ∷ units) groups = groups_from units (
    if (of_text u.path).absolute
    then insert u.path (add_one u.code_hash (group_at u.path groups)) groups
    else groups)

-- The variables of `claim_relative_paths`. `mapping` holds the claims, oldest first.
pub record Claims : Type 0 where
  pub mapping : List (Text × Text)
  pub taken : List Text
  pub pending : List (Text × Counter)

abbrev pub no_claims : Claims
no_claims = record { mapping = []; taken = []; pending = [] }

unfoldable pub claim : Text → Text → Claims → Claims
claim old rel c = record c { mapping = c.mapping ++ ((old, rel) ∷ []); taken = rel ∷ c.taken }

unfoldable pub olds : List (Text × Text) → List Text
olds [] = []
olds ((old, rel) ∷ m) = old ∷ olds m

unfoldable pub news : List (Text × Text) → List Text
news [] = []
news ((old, rel) ∷ m) = rel ∷ news m

-- The first pending path that is not claimed and has these hashes.
unfoldable pub first_match : List (Text × Text) → Counter → List (Text × Counter) → Option Text
first_match mapping hashes [] = none
first_match mapping hashes ((old, group) ∷ pending) =
    let rest = first_match mapping hashes pending in
    if contains (olds mapping) old
    then rest
    else if not (same_counter group hashes)
    then rest
    else some old

module _ (sys : System) (root : FilePath) where
  -- One round of the first loop.
  unfoldable pub claim_by_place : Text → Counter → Claims → Claims
  claim_by_place old hashes c =
      if (of_text old).absolute
      then elim (project_relative_posix sys (of_text old) root) [
        | raised e ↦ record c { pending = c.pending ++ ((old, hashes) ∷ []) }
        | ok rel ↦ if contains c.taken rel then c else claim old rel c
      ]
      else record c { pending = c.pending ++ ((old, hashes) ∷ []) }

  unfoldable pub claim_places : Dict Text Counter → Claims → Claims
  claim_places [] c = c
  claim_places ((old, hashes) ∷ groups) c = claim_places groups (claim_by_place old hashes c)

  -- One round of the second loop: `claimed` is a part of the keys of `mapping`.
  unfoldable pub claim_by_hashes : FilePath → Counter → Claims → Claims
  claim_by_hashes path hashes c = elim (project_relative_posix sys path root) [
    | raised e ↦ c
    | ok rel ↦
        if contains c.taken rel
        then c
        else elim (first_match c.mapping hashes c.pending) [ none ↦ c | some old ↦ claim old rel c ]
  ]

  unfoldable pub claim_files : List (FilePath × Counter) → Claims → Claims
  claim_files [] c = c
  claim_files ((path, hashes) ∷ files) c = claim_files files (claim_by_hashes path hashes c)

  unfoldable pub claim_relative_paths :
      Dict Text Counter → List (FilePath × Counter) → List (Text × Text)
  claim_relative_paths groups files = (claim_files files (claim_places groups no_claims)).mapping
