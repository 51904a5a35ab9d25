-- ===== src/Sync/Build/Names.antt =====
-- The name under which the path of a library is cached.
pub mod Versions
use agent_coderag.Prelude.{
  ℕ, ◌-◌, Bool, true, false, ◌&&◌, ◌||◌, List, [], ◌∷◌, ◌++◌, Text, nat_eq, ◌==◌, if◌then◌else◌,
  is_empty, leb, ltb, take, length, starts_with,
}
use mathlib.Core.List.{reverse}
use agent_coderag.Core.{Outcome, ok, raised, index_error}
use agent_coderag.Paths.Pure.{FilePath, suffix, file_name, drop_last}

-- `s.split(sep)` for a separator of one character: there is always a first piece.
unfoldable pub split_on : ℕ → Text → List Text
split_on sep [] = [] ∷ []
split_on sep (c ∷ s) =
    let rest = split_on sep s in
    if c == sep then [] ∷ rest else elim rest [ [] ↦ (c ∷ []) ∷ [] | p ∷ ps ↦ (c ∷ p) ∷ ps ]

-- `sep.join(pieces)`
unfoldable pub join_with : ℕ → List Text → Text
join_with sep [] = []
join_with sep (p ∷ []) = p
join_with sep (p ∷ q ∷ ps) = p ++ (sep ∷ join_with sep (q ∷ ps))

-- `p.stem`
unfoldable pub stem : FilePath → Text
stem p = let name = file_name p.parts in take (length name - length (suffix p)) name

unfoldable pub last_part : List Text → Text
last_part [] = []
last_part (p ∷ []) = p
last_part (p ∷ q ∷ ps) = last_part (q ∷ ps)

-- `piece[0].isdigit()` on ASCII: an empty piece raises.
unfoldable pub starts_with_digit : Text → Outcome Bool
starts_with_digit [] = raised index_error
starts_with_digit (c ∷ s) = ok (leb b'0' c && leb c b'9')

-- `_cache_jar_path`: the stem without a version.
unfoldable pub lib_name : Text → Outcome Text
lib_name jar_name =
    let parts = split_on b'-' jar_name in
    if ltb 1 (length parts)
    then elim (starts_with_digit (last_part parts)) [
      | raised e ↦ raised e
      | ok true ↦ ok (join_with b'-' (drop_last parts))
      | ok false ↦ ok jar_name
    ]
    else ok jar_name
