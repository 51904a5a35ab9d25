-- ===== src/Prelude/Texts.antt =====
-- Python's `str` as the list of its code points.
use Prim.Native.Char.{code}
use Prim.Native.String.{String}
use agent_coderag.Prelude.Base.{ℕ, refl, Bool, true, false, ◌&&◌, List, [], ◌∷◌, Eq, ◌==◌, nat_eq}
use mathlib.Core.Logic.{dite}

abbrev pub Text : Type 0
Text = List ℕ

abbrev pub text : String → Text
text String.[] = []
text (String.◌∷◌ c s) = code c ∷ text s

text_dec : Discrete Text
unfolding nat_eq
text_dec [] [] = yes refl
text_dec [] (d ∷ t) = no (λ p. cc)
text_dec (c ∷ s) [] = no (λ p. cc)
text_dec (c ∷ s) (d ∷ t) =
    dite (nat_eq.dec c d) (λ p. dite (text_dec s t) (λ q. yes (cc)) (λ n. no (λ q. n (cc))))
      (λ n. no (λ q. n (cc)))

instance unfoldable pub text_eq : Eq Text
unfolding text_dec
text_eq = record { dec = text_dec }

-- `s.startswith(prefix)`
unfoldable pub starts_with : Text → Text → Bool
unfolding nat_eq
starts_with s [] = true
starts_with [] (p ∷ prefix) = false
starts_with (c ∷ s) (p ∷ prefix) = p == c && starts_with s prefix
