-- ===== src/Prelude/Listed.antt =====
-- Membership tests, and lists that grow at the end.
use agent_coderag.Prelude.Base.{
  ◌≡◌, ◌≢◌, ◌↔◌, refl, sym, ap, ◌∙◌, Bool, true, false, ◌||◌, List, [], ◌∷◌, ◌++◌, arith, Eq,
  contains, inl, inr,
}
use agent_coderag.Prelude.Logic.{Has, All, All-map_of, Distinct, Bool-cases, Distinct-append}
use agent_coderag.Prelude.Lists.{keep}

module _ {ℓ} {A : Type ℓ} ⦃e : Eq A⦄ where
  -- What is not in a list differs from all its elements.
  pub contains-false : (x : A) (xs : List A) → contains xs x ≡ false → All (λ y. y ≢ x) xs
  contains-false x [] h = tt
  contains-false x (y ∷ xs) h = (λ p. ground arith, contains-false x xs (ground arith))

  pub contains-append :
      (x : A) (xs ys : List A) → contains (xs ++ ys) x ≡ (contains xs x || contains ys x)
  contains-append x [] ys = refl
  contains-append x (y ∷ xs) ys = ground (arith, contains-append x xs ys)

  pub Distinct-snoc :
      (xs : List A) (x : A) → Distinct xs → contains xs x ≡ false → Distinct (xs ++ (x ∷ []))
  Distinct-snoc xs x d h =
      Distinct-append {P = λ y. y ≢ x} {Q = λ y. x ≡ y} (λ a b n q. λ p. n (cc)) xs (x ∷ [])
        (contains-false x xs h) (refl, tt) d (tt, tt)

module _ {ℓ} {A : Type ℓ} where
  pub keep-All : (p : A → Bool) (xs : List A) → All (λ x. p x ≡ true) (keep p xs)
  keep-All p [] = tt
  keep-All p (x ∷ xs) = elim (Bool-cases (p x)) [
    | inl h ↦ rw h (h, keep-All p xs)
    | inr h ↦ rw h (keep-All p xs)
  ]

  pub All-keep {κ} : (P : A → Type κ) (p : A → Bool) (xs : List A) → All P xs → All P (keep p xs)
  All-keep P p [] h = tt
  All-keep P p (x ∷ xs) (hx, h) = elim (Bool-cases (p x)) [
    | inl e ↦ rw e (hx, All-keep P p xs h)
    | inr e ↦ rw e (All-keep P p xs h)
  ]

-- Every element of a list is in it.
pub All-contains {ℓ} : {A : Type ℓ} ⦃e : Eq A⦄ (xs : List A) → All (λ x. contains xs x ≡ true) xs
All-contains [] = tt
All-contains (x ∷ xs) = (ground arith, All-map_of xs (λ y h. ground (arith, h)) (All-contains xs))

-- What a selection has.
pub Has-keep :
    {A : Type 0} (p : A → Bool) (x : A) (xs : List A)
    → Has x (keep p xs) ↔ ((p x ≡ true) × Has x xs)
Has-keep p x [] = (λ h. elim h [ ], λ h. h.1)
Has-keep p x (y ∷ ys) = elim (Bool-cases (p y)) [
  | inl e ↦
      let (there, back) = Has-keep p x ys in
      rw e (
        λ h. elim h [ inl q ↦ (ap p q ∙ e, inl q) | inr h ↦ let (px, k) = there h in (px, inr k) ],
        λ (px, h). elim h [ inl q ↦ inl q | inr h ↦ inr (back (px, h)) ],
      )
  | inr e ↦
      let (there, back) = Has-keep p x ys in
      rw e (
        λ h. let (px, k) = there h in (px, inr k),
        λ (px, h). elim h [
          | inl q ↦ absurd (let no = sym px ∙ ap p q ∙ e in ground arith)
          | inr h ↦ back (px, h)
        ],
      )
]
