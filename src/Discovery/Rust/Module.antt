-- ===== src/Discovery/Rust/Module.antt =====
-- `re.search(r"mod\s+([a-zA-Z0-9_]+)", raw)`.
use agent_coderag.Prelude.{
  ℕ, Bool, ◌&&◌, ◌||◌, Option, none, some, [], ◌∷◌, Text, text, nat_eq, ◌==◌, if◌then◌else◌,
  is_empty, leb, starts_with, drop,
}
use agent_coderag.Prelude.Strip.{is_spaced, lstrip}

unfoldable pub is_word : ℕ → Bool
is_word c =
    (leb b'a' c && leb c b'z')
    || ((leb b'A' c && leb c b'Z') || ((leb b'0' c && leb c b'9') || c == b'_'))

unfoldable pub take_word : Text → Text
take_word [] = []
take_word (c ∷ s) = if is_word c then c ∷ take_word s else []

-- The match at the start of the text.
unfoldable pub match_mod : Text → Option Text
match_mod s =
    let after = drop 3 s in
    let word = take_word (lstrip after) in
    if starts_with s (text "mod") && is_spaced after
    then (if is_empty word then none else some word)
    else none

unfoldable pub mod_name : Text → Option Text
mod_name [] = none
mod_name (c ∷ s) = elim (match_mod (c ∷ s)) [ some word ↦ some word | none ↦ mod_name s ]
