-- ===== src/Prelude/Decimal.antt =====
-- Python's `str(n)` and `int(s)` on numbers that are not negative.
use agent_coderag.Prelude.Base.{
  ℕ, zero, suc, ◌+◌, ◌-◌, ◌*◌, ◌/◌, ◌%◌, ◌≤◌, ◌<◌, ◌≡◌, ◌≢◌, ◌∙◌, sym, refl, ap, [], ◌∷◌, ◌++◌,
  arith, if◌then◌else◌, ltb, inl, inr,
}
use agent_coderag.Prelude.Logic.{All, All-append, Bool-cases}
use agent_coderag.Prelude.Texts.{Text}

-- Each round divides by ten, so `n + 1` rounds are enough.
decimal_rounds : ℕ → ℕ → Text
decimal_rounds zero n = []
decimal_rounds (suc f) n =
    let front = decimal_rounds f (n / 10) in
    if ltb n 10 then (b'0' + n) ∷ [] else front ++ ((b'0' + n % 10) ∷ [])

unfoldable pub decimal : ℕ → Text
unfolding decimal_rounds
decimal n = decimal_rounds (suc n) n

abbrev pub IsDigit : ℕ → Type 0
IsDigit c = (b'0' ≤ c) × (c ≤ b'9')

-- The value of a run of digits, after those that were read before.
unfoldable pub digits_value : ℕ → Text → ℕ
digits_value n [] = n
digits_value n (c ∷ s) = digits_value (n * 10 + (c - b'0')) s

digits_value-append :
    (n : ℕ) (s t : Text) → digits_value n (s ++ t) ≡ digits_value (digits_value n s) t
unfolding digits_value
digits_value-append n [] t = refl
digits_value-append n (c ∷ s) t = digits_value-append (n * 10 + (c - b'0')) s t

decimal_rounds_value : (f n : ℕ) → n < f → digits_value 0 (decimal_rounds f n) ≡ n
unfolding decimal_rounds digits_value
decimal_rounds_value zero n h = elim h [ ]
decimal_rounds_value (suc f) n h = elim (Bool-cases (ltb n 10)) [
  | inl small ↦ rw small (omega arith)
  | inr large ↦ rw large (
      digits_value-append 0 (decimal_rounds f (n / 10)) ((b'0' + n % 10) ∷ [])
      ∙ ground (arith, decimal_rounds_value f (n / 10)))
]

decimal_rounds-IsDigit : (f n : ℕ) → All IsDigit (decimal_rounds f n)
unfolding decimal_rounds
decimal_rounds-IsDigit zero n = tt
decimal_rounds-IsDigit (suc f) n = elim (Bool-cases (ltb n 10)) [
  | inl small ↦ rw small (ground arith)
  | inr large ↦ rw large (
      All-append IsDigit (decimal_rounds f (n / 10)) _ (decimal_rounds-IsDigit f (n / 10))
        (omega arith))
]

concat-ne-nil : (s : Text) (c : ℕ) → s ++ c ∷ [] ≢ []
concat-ne-nil [] c = λ p. cc
concat-ne-nil (x ∷ s) c = λ p. cc

decimal_rounds-ne-nil : (f n : ℕ) → decimal_rounds (suc f) n ≢ []
unfolding decimal_rounds
decimal_rounds-ne-nil f n =
    ground (arith, concat-ne-nil (decimal_rounds f (n / 10)) (b'0' + n % 10))

-- Reading back what was printed gives the number.
pub digits_value-decimal : (n : ℕ) → digits_value 0 (decimal n) ≡ n
unfolding decimal
digits_value-decimal n = decimal_rounds_value (suc n) n (omega arith)

pub decimal-IsDigit : (n : ℕ) → All IsDigit (decimal n)
unfolding decimal
decimal-IsDigit n = decimal_rounds-IsDigit (suc n) n

pub decimal-ne-nil : (n : ℕ) → decimal n ≢ []
unfolding decimal
decimal-ne-nil n = decimal_rounds-ne-nil n n

pub decimal_inj : (m n : ℕ) → decimal m ≡ decimal n → m ≡ n
decimal_inj m n h = sym (digits_value-decimal m) ∙ ap (digits_value 0) h ∙ digits_value-decimal n
