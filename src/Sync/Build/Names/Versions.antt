-- ===== src/Sync/Build/Names/Versions.antt =====
-- What the cached name of a library is.
use agent_coderag.Prelude.{
  ℕ, ◌≡◌, refl, sym, ◌∙◌, ap, arith, true, false, ◌&&◌, List, [], ◌∷◌, ◌++◌, Text, nat_eq, ◌==◌,
  if◌then◌else◌, leb, ltb, length, contains, inl, inr, Bool-cases,
}
use agent_coderag.Core.{ok, raised, index_error}
use agent_coderag.Paths.Pure.{drop_last}
use agent_coderag.Sync.Build.Names.{split_on, join_with, last_part, starts_with_digit, lib_name}

-- There is always a first piece.
data HasFirst (sep : ℕ) (s : Text) : Type 0 where
  pieces : (p : Text) (ps : List Text) → split_on sep s ≡ p ∷ ps → HasFirst sep s

split_on-HasFirst : (sep : ℕ) (s : Text) → HasFirst sep s
unfolding split_on
split_on-HasFirst sep [] = pieces [] [] refl
split_on-HasFirst sep (c ∷ s) = elim (split_on-HasFirst sep s) [
  | pieces p ps e ↦ elim (Bool-cases (c == sep)) [
    | inl k ↦ pieces [] (split_on sep s) (ground arith)
    | inr k ↦ pieces (c ∷ p) ps (ground (arith, e))
  ]
]

join_with-head :
    (sep c : ℕ) (p : Text) (ps : List Text)
    → join_with sep ((c ∷ p) ∷ ps) ≡ c ∷ join_with sep (p ∷ ps)
unfolding join_with
join_with-head sep c p [] = refl
join_with-head sep c p (q ∷ ps) = refl

-- Splitting and joining gives the text again.
join_with-split_on : (sep : ℕ) (s : Text) → join_with sep (split_on sep s) ≡ s
unfolding split_on join_with
join_with-split_on sep [] = refl
join_with-split_on sep (c ∷ s) = elim (split_on-HasFirst sep s) [
  | pieces p ps e ↦ elim (Bool-cases (c == sep)) [
    | inl k ↦ ground (arith, join_with-split_on sep s, e)
    | inr k ↦ grind (arith, join_with-split_on sep s, e, join_with-head sep c p ps)
  ]
]

-- A text without the separator is one piece.
split_on-single : (sep : ℕ) (v : Text) → contains v sep ≡ false → split_on sep v ≡ v ∷ []
unfolding split_on
split_on-single sep [] h = refl
split_on-single sep (c ∷ v) h = ground (arith, split_on-single sep v)

-- The text behind the last separator is the last piece.
split_on-last :
    (sep : ℕ) (base v : Text)
    → contains v sep ≡ false
    → split_on sep (base ++ (sep ∷ v)) ≡ split_on sep base ++ (v ∷ [])
unfolding split_on
split_on-last sep [] v h = ground (arith, split_on-single sep v)
split_on-last sep (c ∷ base) v h = elim (split_on-HasFirst sep base) [
  | pieces p ps e ↦ ground (arith, split_on-last sep base v, e)
]

last_part-snoc : (ps : List Text) (v : Text) → last_part (ps ++ (v ∷ [])) ≡ v
unfolding last_part
last_part-snoc [] v = refl
last_part-snoc (p ∷ []) v = refl
last_part-snoc (p ∷ q ∷ ps) v = last_part-snoc (q ∷ ps) v

drop_last-snoc : (ps : List Text) (v : Text) → drop_last (ps ++ (v ∷ [])) ≡ ps
unfolding drop_last
drop_last-snoc [] v = refl
drop_last-snoc (p ∷ []) v = refl
drop_last-snoc (p ∷ q ∷ ps) v = ap (λ t. p ∷ t) (drop_last-snoc (q ∷ ps) v)

length-snoc : (p : Text) (ps : List Text) (v : Text) → ltb 1 (length ((p ∷ ps) ++ (v ∷ []))) ≡ true
length-snoc p [] v = refl
length-snoc p (q ∷ ps) v = ground arith

-- A name that ends in a dash and a piece that starts with a digit is cached without both; one
-- without a dash as it is; and one that ends in a dash raises `IndexError`.
pub lib_name-version :
    (base version : Text) (c : ℕ)
    → contains (c ∷ version) b'-' ≡ false
    → (lib_name (base ++ (b'-' ∷ c ∷ version))
        ≡ ok (if leb b'0' c && leb c b'9' then base else base ++ (b'-' ∷ c ∷ version)))
      × (lib_name (c ∷ version) ≡ ok (c ∷ version))
      × (lib_name (base ++ (b'-' ∷ [])) ≡ raised index_error)
unfolding lib_name starts_with_digit
lib_name-version base version c h = elim (split_on-HasFirst b'-' base) [
  | pieces p ps e ↦
      let split = λ (v : Text) (k : contains v b'-' ≡ false).
        split_on-last b'-' base v k ∙ ap (λ t. t ++ (v ∷ [])) e in
      let joined : join_with b'-' (p ∷ ps) ≡ base =
        ap (join_with b'-') (sym e) ∙ join_with-split_on b'-' base in
      (
        ground (
          arith,
          split (c ∷ version) h,
          length-snoc p ps (c ∷ version),
          last_part-snoc (p ∷ ps) (c ∷ version),
          drop_last-snoc (p ∷ ps) (c ∷ version),
          joined,
        ),
        ground (arith, split_on-single b'-' (c ∷ version)),
        ground (
          arith,
          split ([]) refl,
          length-snoc p ps ([]),
          last_part-snoc (p ∷ ps) ([]),
          drop_last-snoc (p ∷ ps) ([]),
          joined,
        ),
      )
]
