-- ===== src/Discovery/Javascript/Export.antt =====
-- The target of an export: `re.search` for `from`, white space, and a text between quotes.
use agent_coderag.Prelude.{
  ℕ, Bool, true, false, not, ◌&&◌, ◌||◌, Option, none, some, [], ◌∷◌, Text, text, nat_eq, ◌==◌,
  if◌then◌else◌, is_empty, starts_with, drop,
}
use agent_coderag.Prelude.Strip.{is_spaced, lstrip}

unfoldable pub is_quote : ℕ → Bool
is_quote c = c == 39 || c == 34

-- The characters up to a quote, and whether there is one.
unfoldable pub quoted : Text → Text × Bool
quoted [] = ([], false)
quoted (c ∷ s) = let rest = quoted s in if is_quote c then ([], true) else (c ∷ rest.0, rest.1)

unfoldable pub opened_target : Text → Option Text
opened_target [] = none
opened_target (c ∷ s) =
    let r = quoted s in if is_quote c && (r.1 && not (is_empty r.0)) then some r.0 else none

-- The match at the start of the text.
unfoldable pub match_from : Text → Option Text
match_from s =
    let after = drop 4 s in
    if starts_with s (text "from") && is_spaced after then opened_target (lstrip after) else none

unfoldable pub from_target : Text → Option Text
from_target [] = none
from_target (c ∷ s) = elim (match_from (c ∷ s)) [ some t ↦ some t | none ↦ from_target s ]
