-- ===== src/Paths/Pure/Relative.antt =====
-- `relative_to` undoes `/`, and the posix text of a clean relative path reads back as the path.
use agent_coderag.Prelude.{
  ℕ, ◌≡◌, ◌≢◌, refl, sym, ◌∙◌, ap, Bool, true, false, List, [], ◌∷◌, ◌++◌, append-nil, append_assoc,
  Text, text, ◌==◌, text_eq, nat_eq, arith, All, some, Option-cases, inl, inr,
}
use mathlib.Core.List.{reverse, reverse-reverse, reverse-cons}
use agent_coderag.Paths.Pure.{
  FilePath, add_part, split_parts, of_text, join_parts, as_posix, strip_parts, same_bool,
  relative_to, is_relative_to,
}

pub strip_parts-append : (root parts : List Text) → strip_parts root (root ++ parts) ≡ some parts
unfolding strip_parts
strip_parts-append [] parts = refl
strip_parts-append (r ∷ root) parts = ground (arith, strip_parts-append root parts)

pub append-strip_parts :
    (root parts rest : List Text) → strip_parts root parts ≡ some rest → parts ≡ root ++ rest
unfolding strip_parts
append-strip_parts [] parts rest h = cc
append-strip_parts (r ∷ root) [] rest h = cc
append-strip_parts (r ∷ root) (p ∷ parts) rest h =
    ground (arith, append-strip_parts root parts rest)

same_bool-eq : (a b : Bool) → same_bool a b ≡ true → a ≡ b
unfolding same_bool
same_bool-eq a b h = ground arith

same_bool_self : (a : Bool) → same_bool a a ≡ true
unfolding same_bool
same_bool_self a = ground arith

-- `p` is `dir` or lies below it.
pub record LiesUnder (dir p : FilePath) : Type 0 where
  pub rest : List Text
  pub is_path : p ≡ record dir { parts = dir.parts ++ rest }

pub is_relative_to-LiesUnder : (p dir : FilePath) → is_relative_to p dir ≡ true → LiesUnder dir p
unfolding is_relative_to relative_to
is_relative_to-LiesUnder p dir h = elim (Option-cases (strip_parts dir.parts p.parts)) [
  | inl e ↦ ground (arith)
  | inr (rest, e) ↦ record {
    rest = rest;
    is_path =
        ground (
          arith,
          append-strip_parts dir.parts p.parts rest e,
          same_bool-eq p.absolute dir.absolute,
        );
  }
]

pub LiesUnder-is_relative_to : (p dir : FilePath) → LiesUnder dir p → is_relative_to p dir ≡ true
unfolding is_relative_to relative_to
LiesUnder-is_relative_to p dir h =
    rw h.is_path (ground (arith, same_bool_self dir.absolute, strip_parts-append dir.parts h.rest))

-- A part of a path as it stands in a posix text.
abbrev pub IsPart : Text → Type 0
IsPart p = All (λ c. c ≢ b'/') p × (p ≢ []) × (p ≢ text ".")

reverse_step : (c : ℕ) (s front : Text) → reverse (c ∷ s) ++ front ≡ reverse s ++ (c ∷ front)
reverse_step c s front =
    ap (λ t. t ++ front) (reverse-cons c s) ∙ append_assoc (reverse s) (c ∷ []) front

split_parts-part :
    (s front : Text)
    → All (λ c. c ≢ b'/') s
    → split_parts s front ≡ add_part (reverse s ++ front) []
unfolding split_parts
split_parts-part [] front h = refl
split_parts-part (c ∷ s) front h =
    ground (arith, split_parts-part s (c ∷ front) h.1, reverse_step c s front, h.0)

split_parts-slash :
    (s front t : Text)
    → All (λ c. c ≢ b'/') s
    → split_parts (s ++ (b'/' ∷ t)) front ≡ add_part (reverse s ++ front) (split_parts t [])
unfolding split_parts
split_parts-slash [] front t h = ground arith
split_parts-slash (c ∷ s) front t h =
    ground (arith, split_parts-slash s (c ∷ front) t h.1, reverse_step c s front, h.0)

add_part_of :
    (r p : Text) (parts : List Text)
    → reverse r ≡ p
    → p ≢ []
    → p ≢ text "."
    → add_part r parts ≡ p ∷ parts
unfolding add_part
add_part_of [] p parts e n d = absurd (n (sym e))
add_part_of (c ∷ s) p parts e n d = ground (arith, ap reverse {x = c ∷ s} {y = text "."})

add_part_lem :
    (p : Text) (parts : List Text) → IsPart p → add_part (reverse p ++ []) parts ≡ p ∷ parts
add_part_lem p parts h =
    add_part_of (reverse p ++ []) p parts (ap reverse (append-nil (reverse p)) ∙ reverse-reverse p)
      h.1 h.2

split_parts-join_parts :
    (parts : List Text) → All IsPart parts → split_parts (join_parts parts) [] ≡ parts
unfolding join_parts
split_parts-join_parts [] h = unfold split_parts add_part text_eq in refl
split_parts-join_parts (p ∷ []) h = split_parts-part p [] h.0.0 ∙ add_part_lem p [] h.0
split_parts-join_parts (p ∷ q ∷ parts) h =
    split_parts-slash p [] (join_parts (q ∷ parts)) h.0.0
    ∙ add_part_lem p _ h.0
    ∙ ap (λ t. p ∷ t) (split_parts-join_parts (q ∷ parts) h.1)

relative_start :
    (parts : List Text)
    → All IsPart parts
    → elim (join_parts parts) as (λ _. Bool) [ [] ↦ false | c ∷ _ ↦ c == b'/' ] ≡ false
unfolding join_parts
relative_start [] h = refl
relative_start ([] ∷ []) h = refl
relative_start ((c ∷ p) ∷ []) h = ground (arith, h.0.0.0)
relative_start ([] ∷ q ∷ parts) h = absurd (h.0.1 refl)
relative_start ((c ∷ p) ∷ q ∷ parts) h = ground (arith, h.0.0.0)

-- A clean path below a directory is read back from its posix text.
pub of_text-as_posix :
    (parts : List Text)
    → All IsPart parts
    → let rel : FilePath = record { absolute = false; parts = parts } in
      of_text (as_posix rel) ≡ rel
unfolding of_text as_posix
of_text-as_posix [] h = unfold split_parts add_part text_eq in refl
of_text-as_posix (p ∷ parts) h = λ i. record {
  absolute = relative_start (p ∷ parts) h i;
  parts = split_parts-join_parts (p ∷ parts) h i;
}
