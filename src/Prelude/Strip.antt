-- ===== src/Prelude/Strip.antt =====
-- `str.strip`.
pub mod Digits
use agent_coderag.Prelude.Base.{
  ℕ, Bool, false, ◌&&◌, ◌||◌, [], ◌∷◌, ◌==◌, nat_eq, leb, if◌then◌else◌,
}
use agent_coderag.Prelude.Texts.{Text}
use mathlib.Core.List.{reverse}

-- The characters that `str.strip` removes.
unfoldable pub is_space : ℕ → Bool
unfolding nat_eq
is_space c =
    (leb 9 c && leb c 13)
    || (leb 28 c && leb c 32)
    || c == 133
    || c == 160
    || c == 5760
    || (leb 8192 c && leb c 8202)
    || c == 8232
    || c == 8233
    || c == 8239
    || c == 8287
    || c == 12288

-- The text starts with white space.
unfoldable pub is_spaced : Text → Bool
unfolding is_space
is_spaced [] = false
is_spaced (c ∷ s) = is_space c

unfoldable pub lstrip : Text → Text
unfolding is_space
lstrip [] = []
lstrip (c ∷ s) = if is_space c then lstrip s else c ∷ s

unfoldable pub strip : Text → Text
unfolding lstrip
strip s = reverse (lstrip (reverse (lstrip s)))
