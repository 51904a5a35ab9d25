-- ===== src/Parser/Unique/Labels.antt =====
-- A label determines its name and its number, and a qualified name its labels.
use agent_coderag.Prelude.{
  ℕ, ◌≡◌, ◌≢◌, refl, sym, ◌∙◌, inl, inr, [], ◌∷◌, ◌++◌, Text, ◌==◌, nat_eq, arith, if◌then◌else◌,
  All, All-append, Bool-cases, All-map_of, append-nil,
}
use agent_coderag.Prelude.Decimal.{decimal, decimal_inj, decimal-IsDigit}
use agent_coderag.Parser.Distill.{label}

abbrev pub Lacks : ℕ → Text → Type 0
Lacks sep = All (λ c. c ≢ sep)

-- What may follow a piece that `sep` ends.
pub data Tail (sep : ℕ) : Text → Type 0 where
  stop : {r : Text} → r ≡ [] → Tail sep r
  more : {r : Text} (t : Text) → r ≡ sep ∷ t → Tail sep r

Tail-ne : (sep x : ℕ) (xs r : Text) → Tail sep r → x ≢ sep → r ≢ x ∷ xs
Tail-ne sep x xs r (stop e) n = λ p. cc
Tail-ne sep x xs r (more t e) n = λ p. ground (arith, n)

pub cut :
    (sep : ℕ) (xs ys r r' : Text)
    → Lacks sep xs
    → Lacks sep ys
    → Tail sep r
    → Tail sep r'
    → xs ++ r ≡ ys ++ r'
    → (xs ≡ ys) × (r ≡ r')
cut sep [] [] r r' hx hy t t' h = (refl, h)
cut sep [] (y ∷ ys) r r' hx hy t t' h = absurd (Tail-ne sep y (ys ++ r') r t hy.0 h)
cut sep (x ∷ xs) [] r r' hx hy t t' h = absurd (Tail-ne sep x (xs ++ r) r' t' hx.0 (sym h))
cut sep (x ∷ xs) (y ∷ ys) r r' hx hy t t' h =
    let (e, f) = cut sep xs ys r r' hx.1 hy.1 t t' (cc) in (cc, f)

abbrev suffix : ℕ → Text
suffix k = if k == 1 then [] else b'#' ∷ decimal k

suffix-Tail : (k : ℕ) → Tail b'#' (suffix k)
suffix-Tail k = elim (Bool-cases (k == 1)) [
  | inl one ↦ stop (rw one refl)
  | inr many ↦ more (decimal k) (rw many refl)
]

suffix_inj : (j k : ℕ) → suffix j ≡ suffix k → j ≡ k
unfolding nat_eq
suffix_inj j k h = ground (arith, decimal_inj j k)

label-eq : (n : Text) (k : ℕ) → label n k ≡ n ++ suffix k
unfolding label
label-eq n k = elim (Bool-cases (k == 1)) [
  | inl one ↦ rw one (sym (append-nil n))
  | inr many ↦ rw many
]

abbrev pub IsPlain : Text → Type 0
IsPlain n = Lacks b'.' n × Lacks b'#' n

pub label_inj :
    (m n : Text) (j k : ℕ) → IsPlain m → IsPlain n → label m j ≡ label n k → (m ≡ n) × (j ≡ k)
label_inj m n j k hm hn h =
    let (e, f) =
      cut b'#' m n (suffix j) (suffix k) hm.1 hn.1 (suffix-Tail j) (suffix-Tail k)
        (sym (label-eq m j) ∙ h ∙ label-eq n k) in
    (e, suffix_inj j k f)

pub label-Lacks : (n : Text) (k : ℕ) → IsPlain n → Lacks b'.' (label n k)
unfolding label
label-Lacks n k h = elim (Bool-cases (k == 1)) [
  | inl one ↦ rw one h.0
  | inr many ↦ rw many (
      All-append (λ c. c ≢ b'.') n (b'#' ∷ decimal k) h.0
        (omega arith, All-map_of (decimal k) (λ c d. omega arith) (decimal-IsDigit k)))
]
