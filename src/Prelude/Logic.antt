-- ===== src/Prelude/Logic.antt =====
-- Case lemmas, and predicates on lists by recursion.
use agent_coderag.Prelude.Base.{
  ◌≡◌, refl, sym, ap, ◌∙◌, ◌≢◌, ◌⊎◌, inl, inr, Bool, true, false, Option, none, some, List, [], ◌∷◌,
  ◌++◌, map,
}

pub Bool-cases : (b : Bool) → (b ≡ true) ⊎ (b ≡ false)
Bool-cases true = inl refl
Bool-cases false = inr refl

pub Option-cases {ℓ} : {A : Type ℓ} (o : Option A) → (o ≡ none) ⊎ ((a : A) × (o ≡ some a))
Option-cases none = inl refl
Option-cases (some a) = inr (a, refl)

module _ {ℓ κ} {A : Type ℓ} (P : A → Type κ) where
  abbrev pub All : List A → Type κ
  All [] = Unit
  All (x ∷ xs) = P x × All xs

  pub All-append : (xs ys : List A) → All xs → All ys → All (xs ++ ys)
  All-append [] ys _ hy = hy
  All-append (x ∷ xs) ys (px, hx) hy = (px, All-append xs ys hx hy)

  pub All-append_right : (xs ys : List A) → All (xs ++ ys) → All ys
  All-append_right [] ys h = h
  All-append_right (x ∷ xs) ys h = All-append_right xs ys h.1

module _ {ℓ κ} {A : Type ℓ} {P : A → Type κ} where
  pub All-map_of {μ} : {Q : A → Type μ} (xs : List A) → ((x : A) → P x → Q x) → All P xs → All Q xs
  All-map_of [] f h = tt
  All-map_of (x ∷ xs) f (px, hx) = (f x px, All-map_of xs f hx)

module _ {ℓ κ μ ν} {A : Type ℓ} {P : A → Type κ} {Q : A → Type μ} {R : A → Type ν} where
  pub All-both : (xs : List A) → ((x : A) → P x → Q x → R x) → All P xs → All Q xs → All R xs
  All-both [] f p q = tt
  All-both (x ∷ xs) f (px, ps) (qx, qs) = (f x px qx, All-both xs f ps qs)

pub All-of {ℓ κ} : {A : Type ℓ} (P : A → Type κ) → ((x : A) → P x) → (xs : List A) → All P xs
All-of P f [] = tt
All-of P f (x ∷ xs) = (f x, All-of P f xs)

-- No element is listed twice.
abbrev pub Distinct {ℓ} : {A : Type ℓ} → List A → Type ℓ
Distinct [] = Unit
Distinct (x ∷ xs) = All (λ y. x ≢ y) xs × Distinct xs

module _ {ℓ κ μ} {A : Type ℓ} {P : A → Type κ} {Q : A → Type μ} where
  -- Lists whose elements have properties that exclude one another are distinct together.
  pub Distinct-append :
      ((x y : A) → P x → Q y → x ≢ y)
      → (xs ys : List A) → All P xs
      → All Q ys
      → Distinct xs
      → Distinct ys
      → Distinct (xs ++ ys)
  Distinct-append apart [] ys _ hy _ dy = dy
  Distinct-append apart (x ∷ xs) ys (px, hx) hy (nx, dx) dy = (
    All-append _ xs ys nx (All-map_of ys (λ y. apart x y px) hy),
    Distinct-append apart xs ys hx hy dx dy,
  )

-- The elements of two lists of one length are related, place by place.
abbrev pub Each {ℓ} : {A : Type ℓ} → (A → A → Type 0) → List A → List A → Type 0
Each R [] [] = Unit
Each R (x ∷ xs) (y ∷ ys) = R x y × Each R xs ys
Each R [] (y ∷ ys) = ⊥
Each R (x ∷ xs) [] = ⊥

pub Each-map {ℓ} :
    {A : Type ℓ} (R : A → A → Type 0) (f : A → A)
    → ((x : A) → R x (f x))
    → (xs : List A) → Each R xs (map f xs)
Each-map R f h [] = tt
Each-map R f h (x ∷ xs) = (h x, Each-map R f h xs)

-- The list has the element.
abbrev pub Has : {A : Type 0} → A → List A → Type 0
Has x [] = ⊥
Has x (y ∷ ys) = (x ≡ y) ⊎ Has x ys

pub Has-map : {A : Type 0} (f : A → A) (x : A) (xs : List A) → f x ≡ x → Has x xs → Has x (map f xs)
Has-map f x [] e h = elim h [ ]
Has-map f x (y ∷ ys) e (inl p) = inl (sym e ∙ ap f p)
Has-map f x (y ∷ ys) e (inr h) = inr (Has-map f x ys e h)
