-- ===== src/Core/Preserve.antt =====
-- What methods keep: an invariant of the state that holds after a call if it held before, whether
-- the call returned or raised.
use agent_coderag.Prelude.{
  ◌≡◌, sym, ap, ◌∙◌, arith, Bool, true, false, List, [], ◌∷◌, inl, inr, if◌then◌else◌,
}
use mathlib.Core.Path.{subst}
use agent_coderag.Core.Types.{Error}
use agent_coderag.Core.Methods.{
  Outcome, Outcome-cases, Action, lift, pure, ok, >>=-ok, gets, fail_if, when, for_each, ◌>>=◌,
  ◌>>◌,
}

pub record Keeps {S : Type 0} (I : S → Type 0) {A : Type 0} (m : Action S A) : Type 0 where
  pub after : (s : S) → I s → I (m s).1

module _ {S : Type 0} {I : S → Type 0} where
  -- What holds after the first call holds after the rest, if the rest keeps it.
  pub Keeps-rest :
      {A B : Type 0} (m : Action S A) (k : A → Action S B) (s : S)
      → I (m s).1
      → ((a : A) → Keeps I (k a))
      → I ((m >>= k) s).1
  Keeps-rest m k s i hk = elim (Outcome-cases (m s).0) [
    | inr (x, h) ↦ rw h i
    | inl (a, h) ↦ rw h ((hk a).after (m s).1 i)
  ]

  pub Keeps->>= :
      {A B : Type 0} {m : Action S A} {k : A → Action S B}
      → Keeps I m
      → ((a : A) → Keeps I (k a))
      → Keeps I (m >>= k)
  Keeps->>= {m} {k} hm hk = record { after = λ s i. Keeps-rest m k s (hm.after s i) hk }

  pub Keeps->> :
      {B : Type 0} {m : Action S (Unit {0})} {k : Action S B}
      → Keeps I m
      → Keeps I k
      → Keeps I (m >> k)
  Keeps->> hm hk = Keeps->>= hm (λ _. hk)

  pub Keeps-gets : {A : Type 0} {f : S → A} → Keeps I (gets f)
  Keeps-gets = record { after = λ s i. i }

  pub Keeps-lift : {A : Type 0} (r : Outcome A) → Keeps I (lift r)
  Keeps-lift r = record { after = λ s i. i }

  pub Keeps-pure : {A : Type 0} (a : A) → Keeps I (pure a)
  Keeps-pure a = record { after = λ s i. i }

  pub Keeps-if :
      {A : Type 0} (b : Bool) {m k : Action S A}
      → Keeps I m
      → Keeps I k
      → Keeps I (if b then m else k)
  Keeps-if true hm hk = hm
  Keeps-if false hm hk = hk

  pub Keeps-fail_if : (b : Bool) (x : Error) → Keeps I (fail_if b x)
  Keeps-fail_if true x = record { after = λ s i. i }
  Keeps-fail_if false x = record { after = λ s i. i }

  pub Keeps-when : (b : Bool) {m : Action S (Unit {0})} → Keeps I m → Keeps I (when b m)
  Keeps-when true h = h
  Keeps-when false h = record { after = λ s i. i }

  pub Keeps-for_each :
      {A : Type 0} (xs : List A) (f : A → Action S (Unit {0}))
      → ((x : A) → Keeps I (f x))
      → Keeps I (for_each xs f)
  unfolding for_each
  Keeps-for_each [] f h = record { after = λ s i. i }
  Keeps-for_each (x ∷ xs) f h = Keeps->> (h x) (Keeps-for_each xs f h)

-- Every result that the call returns has a property, whatever state it is made in.
pub record Ensures {S : Type 0} {A : Type 0} (P : A → Type 0) (m : Action S A) : Type 0 where
  pub result : (s : S) (a : A) → (m s).0 ≡ ok a → P a

module _ {S : Type 0} {A B : Type 0} {P : B → Type 0} where
  pub Ensures->>=_of :
      {Q : A → Type 0} (m : Action S A) {k : A → Action S B}
      → Ensures Q m
      → ((a : A) → Q a → Ensures P (k a))
      → Ensures P (m >>= k)
  Ensures->>=_of m {k} hm hk = record {
    result = λ s b h.
        let (a, e, rest) = >>=-ok m k s b h in
        (hk a (hm.result s a e)).result (m s).1 b (sym (ap (λ r. r.0) rest) ∙ h);
  }

  pub Ensures->>= :
      (m : Action S A) {k : A → Action S B} → ((a : A) → Ensures P (k a)) → Ensures P (m >>= k)
  Ensures->>= m hk =
      Ensures->>=_of {Q = λ a. Unit {0}} m (record { result = λ s a h. tt }) (λ a q. hk a)

module _ {S : Type 0} {B : Type 0} {P : B → Type 0} where
  pub Ensures->> : (m : Action S (Unit {0})) {k : Action S B} → Ensures P k → Ensures P (m >> k)
  Ensures->> m hk = Ensures->>= m (λ _. hk)

  pub Ensures-pure : (b : B) → P b → Ensures {S = S} P (pure b)
  Ensures-pure b p = record { result = λ s a h. subst P (let q : b ≡ a = ground arith in q) p }

  pub Ensures-if :
      (b : Bool) {m k : Action S B} → Ensures P m → Ensures P k → Ensures P (if b then m else k)
  Ensures-if true hm hk = hm
  Ensures-if false hm hk = hk
