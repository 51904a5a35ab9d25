-- ===== src/Prelude/Dict.antt =====
-- Python's `dict`, as the list of its items in insertion order.
use agent_coderag.Prelude.Logic.{All, Bool-cases}
use agent_coderag.Prelude.Base.{
  inl, inr, ◌≡◌, Option, none, some, List, [], ◌∷◌, arith, Eq, ◌==◌, if◌then◌else◌,
}

abbrev pub Dict {ℓ κ} : Type ℓ → Type κ → Type (ℓ ⊔ κ)
Dict K V = List (K × V)

abbrev pub keys {ℓ κ} : {K : Type ℓ} {V : Type κ} → Dict K V → List K
keys [] = []
keys ((k, v) ∷ d) = k ∷ keys d

abbrev pub values {ℓ κ} : {K : Type ℓ} {V : Type κ} → Dict K V → List V
values [] = []
values ((k, v) ∷ d) = v ∷ values d

module _ {ℓ κ} {K : Type ℓ} {V : Type κ} ⦃e : Eq K⦄ where
  unfoldable pub lookup : K → Dict K V → Option V
  lookup k [] = none
  lookup k ((j, v) ∷ d) = if k == j then some v else lookup k d

  -- `d[k] = v`
  unfoldable pub insert : K → V → Dict K V → Dict K V
  insert k v [] = (k, v) ∷ []
  insert k v ((j, w) ∷ d) = if k == j then (k, v) ∷ d else (j, w) ∷ insert k v d

  pub lookup-insert :
      (j k : K) (v : V) (d : Dict K V)
      → lookup j (insert k v d) ≡ (if j == k then some v else lookup j d)
  unfolding lookup insert
  lookup-insert j k v [] = ground arith
  lookup-insert j k v (_ ∷ d) = ground (arith, lookup-insert j k v d)

  -- The keys after a write are those before and this one.
  pub All-keys-insert {μ} :
      (P : K → Type μ) (k : K) (v : V) (d : Dict K V)
      → P k
      → All P (keys d)
      → All P (keys (insert k v d))
  unfolding insert
  All-keys-insert P k v [] h ds = (h, tt)
  All-keys-insert P k v ((j, w) ∷ d) h (dj, ds) = elim (Bool-cases (k == j)) [
    | inl e ↦ rw e (h, ds)
    | inr e ↦ rw e (dj, All-keys-insert P k v d h ds)
  ]
