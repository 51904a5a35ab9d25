-- ===== src/Parser/Unique/Scopes.antt =====
-- Ids that one scope hands out while its counts go from `lo` to `hi`.
use agent_coderag.Prelude.{
  ℕ, ◌+◌, ◌≤◌, ◌<◌, ◌≡◌, ◌≢◌, refl, sym, ◌∙◌, ap, Option, none, some, [], ◌∷◌, ◌++◌, append_assoc,
  Text, ◌==◌, text_eq, arith, if◌then◌else◌,
}
use agent_coderag.Prelude.Dict.{lookup-insert, insert}
use agent_coderag.Parser.Distill.{Counts, count_of, label, in_scope}
use agent_coderag.Parser.Unique.Labels.{Tail, more, cut, IsPlain, label_inj, label-Lacks}

pub append_cancel : (s t u : Text) → s ++ t ≡ s ++ u → t ≡ u
append_cancel [] t u h = h
append_cancel (c ∷ s) t u h = append_cancel s t u (cc)

pub in_scope_inj : (scope : Option Text) (l m : Text) → in_scope scope l ≡ in_scope scope m → l ≡ m
unfolding in_scope
in_scope_inj none l m h = h
in_scope_inj (some []) l m h = h
in_scope_inj (some (c ∷ s)) l m h = cc (append_cancel (c ∷ s) (b'.' ∷ l) (b'.' ∷ m) h)

pub in_scope-append :
    (scope : Option Text) (l m : Text) → in_scope scope (l ++ m) ≡ in_scope scope l ++ m
unfolding in_scope
in_scope-append none l m = refl
in_scope-append (some []) l m = refl
in_scope-append (some (c ∷ s)) l m = rw (append_assoc)

pub in_scope-ne-nil : (scope : Option Text) (l : Text) → l ≢ [] → in_scope scope l ≢ []
unfolding in_scope
in_scope-ne-nil none l h = h
in_scope-ne-nil (some []) l h = h
in_scope-ne-nil (some (c ∷ s)) l h = λ p. cc

pub in_scope_of_ne : (q l : Text) → q ≢ [] → in_scope (some q) l ≡ q ++ (b'.' ∷ l)
unfolding in_scope
in_scope_of_ne [] l h = absurd (h refl)
in_scope_of_ne (c ∷ s) l h = refl

pub count_of-insert :
    (m n : Text) (k : ℕ) (c : Counts)
    → count_of m (insert n k c) ≡ (if m == n then k else count_of m c)
unfolding count_of
count_of-insert m n k c = ground (arith, lookup-insert m n k c)

pub label-ne-nil : (n : Text) (k : ℕ) → n ≢ [] → label n k ≢ []
unfolding label
label-ne-nil [] k h = absurd (h refl)
label-ne-nil (c ∷ n) k h = λ p. ground arith

-- `id` is a label of the scope, alone or with more below it.
pub record Within (base : Text) (scope : Option Text) (lo hi : Counts) (id : Text) : Type 0 where
  pub name : Text
  pub number : ℕ
  pub rest : Text
  pub is_plain : IsPlain name
  pub is_tail : Tail b'.' rest
  pub above : count_of name lo < number
  pub upto : number ≤ count_of name hi
  pub is_id : id ≡ base ++ in_scope scope (label name number ++ rest)

abbrev pub Grows : Counts → Counts → Type 0
Grows lo hi = (n : Text) → count_of n lo ≤ count_of n hi

module _ {base : Text} {scope : Option Text} where
  pub Within-mono :
      {lo lo' hi hi' : Counts} {id : Text}
      → Grows lo lo'
      → Grows hi hi'
      → Within base scope lo' hi id
      → Within base scope lo hi' id
  Within-mono below above w = record {
    name = w.name;
    number = w.number;
    rest = w.rest;
    is_plain = w.is_plain;
    is_tail = w.is_tail;
    above = omega (arith, below w.name, w.above);
    upto = omega (arith, above w.name, w.upto);
    is_id = w.is_id;
  }

  pub Within-apart :
      {lo mid hi : Counts} (x y : Text)
      → Within base scope lo mid x
      → Within base scope mid hi y
      → x ≢ y
  Within-apart {mid = mid} x y v w e =
      let same = append_cancel base _ _ (sym v.is_id ∙ e ∙ w.is_id) in
      let tails = in_scope_inj scope _ _ same in
      let (labels, _) =
        cut b'.' (label v.name v.number) (label w.name w.number) v.rest w.rest
          (label-Lacks v.name v.number v.is_plain) (label-Lacks w.name w.number w.is_plain)
          v.is_tail w.is_tail tails in
      let (names, numbers) =
        label_inj v.name w.name v.number w.number v.is_plain w.is_plain labels in
      let counts = ap (λ n. count_of n mid) names in
      absurd (omega (arith, v.upto, w.above, numbers, counts))

  -- What lies below the unit that takes the next number of `n` lies within the scope.
  pub Within-below :
      (n : Text) (counts hi : Counts) (id : Text)
      → n ≢ []
      → IsPlain n
      → Within base (some (in_scope scope (label n (count_of n counts + 1)))) [] hi id
      → Within base scope counts (insert n (count_of n counts + 1) counts) id
  Within-below n counts hi id nonempty plain w = record {
    name = n;
    number = count_of n counts + 1;
    rest = b'.' ∷ (label w.name w.number ++ w.rest);
    is_plain = plain;
    is_tail = more (label w.name w.number ++ w.rest) refl;
    above = omega arith;
    upto = ground (arith, count_of-insert n n (count_of n counts + 1) counts);
    is_id =
        w.is_id
        ∙ ap (λ t. base ++ t)
            (in_scope_of_ne _ _ (in_scope-ne-nil scope _ (label-ne-nil n _ nonempty))
              ∙ sym (in_scope-append scope _ _));
  }
