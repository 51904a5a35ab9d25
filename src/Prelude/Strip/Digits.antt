-- ===== src/Prelude/Strip/Digits.antt =====
-- `str.strip` leaves a run of digits alone.
use agent_coderag.Prelude.Base.{◌≡◌, refl, ◌∙◌, ap, false, [], ◌∷◌, arith, nat_eq, ℕ}
use agent_coderag.Prelude.Logic.{All, All-append}
use agent_coderag.Prelude.Texts.{Text}
use agent_coderag.Prelude.Decimal.{IsDigit}
use agent_coderag.Prelude.Strip.{is_space, lstrip, strip}
use mathlib.Core.List.{reverse, reverse-cons, reverse-reverse}

IsDigit-is_space : (c : ℕ) → IsDigit c → is_space c ≡ false
unfolding is_space
IsDigit-is_space c h = ground arith

lstrip_digits : (s : Text) → All IsDigit s → lstrip s ≡ s
unfolding lstrip
lstrip_digits [] h = refl
lstrip_digits (c ∷ s) (d, h) = rw (IsDigit-is_space c d) refl

All-reverse : (s : Text) → All IsDigit s → All IsDigit (reverse s)
All-reverse [] h = tt
All-reverse (c ∷ s) (d, h) =
    rw (reverse-cons c s) (All-append IsDigit (reverse s) (c ∷ []) (All-reverse s h) (d, tt))

pub strip_digits : (s : Text) → All IsDigit s → strip s ≡ s
unfolding strip
strip_digits s h =
    ap (λ t. reverse (lstrip (reverse t))) (lstrip_digits s h)
    ∙ ap reverse (lstrip_digits (reverse s) (All-reverse s h))
    ∙ reverse-reverse s
