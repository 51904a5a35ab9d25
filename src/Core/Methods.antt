-- ===== src/Core/Methods.antt =====
-- A call that may raise returns an `Outcome`. A method that also changes an object is an `Action`
-- on its state, and what it wrote before a raise stays written.
use agent_coderag.Prelude.{◌≡◌, refl, ◌⊎◌, inl, inr, arith, Bool, true, false, List, [], ◌∷◌}
use agent_coderag.Core.Types.{Error}

pub data Outcome {ℓ} (A : Type ℓ) : Type ℓ where
  ok : A → Outcome A
  raised : Error → Outcome A

pub Outcome-cases {ℓ} :
    {A : Type ℓ} (r : Outcome A) → ((a : A) × (r ≡ ok a)) ⊎ ((e : Error) × (r ≡ raised e))
Outcome-cases (ok a) = inl (a, refl)
Outcome-cases (raised e) = inr (e, refl)

abbrev pub Action {ℓ} : Type ℓ → Type ℓ → Type ℓ
Action S A = S → Outcome A × S

module _ {ℓ} {S A : Type ℓ} where
  abbrev pub pure : A → Action S A
  pure a s = (ok a, s)

  abbrev pub raise : Error → Action S A
  raise e s = (raised e, s)

  abbrev pub gets : (S → A) → Action S A
  gets f s = (ok (f s), s)

  abbrev pub lift : Outcome A → Action S A
  lift r s = (r, s)

module _ {ℓ} {S A B : Type ℓ} where
  -- The rest of a method, after a call with this outcome.
  abbrev pub proceed : Outcome A → (A → Action S B) → Action S B
  proceed (ok a) f s = f a s
  proceed (raised e) f s = (raised e, s)

  infixl 5 ◌>>=◌
  abbrev pub ◌>>=◌ : Action S A → (A → Action S B) → Action S B
  ◌>>=◌ m f s = proceed (m s).0 f (m s).1

module _ {S B : Type 0} where
  infixl 5 ◌>>◌
  abbrev pub ◌>>◌ : Action S (Unit {0}) → Action S B → Action S B
  m >> k = m >>= λ _. k

module _ {S : Type 0} where
  abbrev pub modify : (S → S) → Action S (Unit {0})
  modify f s = (ok tt, f s)

  -- `if b: raise e`
  abbrev pub fail_if : Bool → Error → Action S (Unit {0})
  fail_if true e s = (raised e, s)
  fail_if false e s = (ok tt, s)

  -- `if b: m`
  abbrev pub when : Bool → Action S (Unit {0}) → Action S (Unit {0})
  when true m = m
  when false m = pure tt

  -- `for x in xs: f(x)`
  unfoldable pub for_each : {A : Type 0} → List A → (A → Action S (Unit {0})) → Action S (Unit {0})
  for_each [] f = pure tt
  for_each (x ∷ xs) f = f x >> for_each xs f

module _ {S B : Type 0} where
  -- If a method ends well, then so did its first call, and the rest went on from there.
  pub >>-ok :
      (m : Action S (Unit {0})) (k : Action S B) (s : S) (b : B)
      → ((m >> k) s).0 ≡ ok b
      → ((m s).0 ≡ ok tt) × ((m >> k) s ≡ k (m s).1)
  >>-ok m k s b h = elim (Outcome-cases (m s).0) [
    | inl (t, e) ↦ (e, rw e)
    | inr (x, e) ↦ absurd (ground arith)
  ]

  pub >>=-ok :
      {A : Type 0} (m : Action S A) (k : A → Action S B) (s : S) (b : B)
      → ((m >>= k) s).0 ≡ ok b
      → (a : A) × ((m s).0 ≡ ok a) × ((m >>= k) s ≡ k a (m s).1)
  >>=-ok m k s b h = elim (Outcome-cases (m s).0) [
    | inl (a, e) ↦ (a, e, rw e)
    | inr (x, e) ↦ absurd (ground arith)
  ]

module _ {S : Type 0} where
  pub fail_if-ok : (b : Bool) (x : Error) (s : S) → (fail_if b x s).0 ≡ ok tt → b ≡ false
  fail_if-ok true x s h = cc
  fail_if-ok false x s h = refl
