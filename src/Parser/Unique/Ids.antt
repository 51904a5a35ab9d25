-- ===== src/Parser/Unique/Ids.antt =====
-- The walk gives every unit an id of its own.
use agent_coderag.Prelude.{
  ℕ, ◌+◌, ◌≡◌, ◌≢◌, refl, sym, ◌∙◌, ap, Option, none, some, List, [], ◌∷◌, ◌++◌, map, append-nil,
  append_assoc, Text, text_eq, arith, All, All-append, All-map_of, Distinct, Distinct-append,
  Bool-cases, inl, inr, text,
}
use mathlib.Core.List.{map-append}
use agent_coderag.Core.{KnowledgeUnit}
use agent_coderag.Parser.Tree.{
  Node, node, Children, end, child, resolve_name, node_text, field_child, children, parent_name,
  name_node,
}
use agent_coderag.Parser.Distill.{
  Counts, count_of, label, in_scope, qualified_name, Source, canonical, opens_scope, process_node,
  distill_as, recursive_distill, distill_children,
}
use agent_coderag.Prelude.Dict.{insert}
use agent_coderag.Parser.Unique.Labels.{IsPlain, stop}
use agent_coderag.Parser.Unique.Scopes.{
  Within, Within-mono, Within-apart, Within-below, Grows, count_of-insert, in_scope_of_ne,
  in_scope-ne-nil, label-ne-nil, append_cancel,
}

abbrev pub ids : List KnowledgeUnit → List Text
ids = map (λ u. u.id)

ne-append-cons : (q : Text) (c : ℕ) (t : Text) → q ≢ q ++ (c ∷ t)
ne-append-cons [] c t h = cc
ne-append-cons (d ∷ q) c t h = ne-append-cons q c t (cc)

node_text-ne-nil : (n : Option Node) (t : Text) → node_text n ≡ some t → t ≢ []
unfolding node_text
node_text-ne-nil n t h = λ p. ground arith

parent_name-ne-nil : (p : Option Node) (t : Text) → parent_name p ≡ some t → t ≢ []
unfolding parent_name
parent_name-ne-nil none t h = λ e. cc
parent_name-ne-nil (some p) t h = λ e. ground (
  arith,
  node_text-ne-nil (field_child (text "name") (children p)) t,
  node_text-ne-nil (field_child (text "left") (children p)) t,
)

resolve_name-ne-nil : (p : Option Node) (n : Node) → resolve_name p n ≢ []
unfolding resolve_name
resolve_name-ne-nil p n =
    named_ne (node_text (name_node n)) (parent_name p) (node_text-ne-nil (name_node n))
      (parent_name-ne-nil p)
  where
    named_ne :
        (own outer : Option Text)
        → ((t : Text) → own ≡ some t → t ≢ [])
        → ((t : Text) → outer ≡ some t → t ≢ [])
        → elim own as (λ _. Text) [
          | some t ↦ t
          | none ↦ elim outer as (λ _. Text) [ some t ↦ t | none ↦ text "anonymous" ]
        ]
          ≢ []
    named_ne (some t) outer h g = h t refl
    named_ne none (some t) h g = g t refl
    named_ne none none h g = λ e. cc

module _ (ctx : Source) where
  base : Text
  base = ctx.file_path ++ (b':' ∷ [])

  -- The names of the nodes that become units hold no `.` and no `#`.
  abbrev PlainName : Option Text → Text → Type 0
  PlainName none name = Unit
  PlainName (some raw) name = IsPlain name

  unfoldable mutual
    pub PlainNames : Node → Option Node → Type 0
    PlainNames (node i cs) parent =
        PlainName (canonical ctx (node i cs)) (resolve_name parent (node i cs))
        × PlainChildren cs (node i cs)

    pub PlainChildren : Children → Node → Type 0
    PlainChildren end parent = Unit
    PlainChildren (child f n cs) parent = PlainNames n (some parent) × PlainChildren cs parent

  -- The units that a part of the walk adds, while the counts of its scope grow.
  record Hands (scope : Option Text) (lo : Counts) (r : List KnowledgeUnit × Counts) : Type 0 where
    grows : Grows lo r.1
    within : All (Within base scope lo r.1) (ids r.0)
    distinct : Distinct (ids r.0)

  Hands-append :
      (scope : Option Text) (lo : Counts) (r r' : List KnowledgeUnit × Counts)
      → Hands scope lo r
      → Hands scope r.1 r'
      → Hands scope lo (r.0 ++ r'.0, r'.1)
  Hands-append scope lo r r' h h' = record {
    grows = λ n. omega (arith, h.grows n, h'.grows n);
    within = rw (map-append) (
        All-append (Within base scope lo r'.1) (ids r.0) (ids r'.0)
          (All-map_of (ids r.0) (λ x. Within-mono (λ n. omega arith) h'.grows) h.within)
          (All-map_of (ids r'.0) (λ x. Within-mono h.grows (λ n. omega arith)) h'.within));
    distinct = rw (map-append) (
        Distinct-append Within-apart (ids r.0) (ids r'.0) h.within h'.within h.distinct
          h'.distinct);
  }

  -- The unit of a node itself takes the next number of its name.
  Within-self :
      (scope : Option Text) (lo : Counts) (n : Text)
      → IsPlain n
      → Within base scope lo
          (insert n (count_of n lo + 1) lo)
          (base ++ in_scope scope (label n (count_of n lo + 1)))
  Within-self scope lo n plain = record {
    name = n;
    number = count_of n lo + 1;
    rest = [];
    is_plain = plain;
    is_tail = stop refl;
    above = omega arith;
    upto = ground (arith, count_of-insert n n (count_of n lo + 1) lo);
    is_id = ap (λ t. base ++ in_scope scope t) (sym (append-nil _));
  }

  Grows-insert : (n : Text) (lo : Counts) → Grows lo (insert n (count_of n lo + 1) lo)
  Grows-insert n lo m =
      ground (arith, count_of-insert m n (count_of n lo + 1) lo, ap (λ k. count_of k lo))

  self_apart :
      (q : Text) (hi : Counts) (id : Text) → q ≢ [] → Within base (some q) [] hi id → base ++ q ≢ id
  self_apart q hi id nonempty w e =
      ne-append-cons q b'.' (label w.name w.number ++ w.rest)
        (append_cancel base _ _ (e ∙ w.is_id ∙ ap (λ t. base ++ t) (in_scope_of_ne q _ nonempty)))

  process_node_id :
      (parent : Option Node) (before : List Node) (n : Node) (q : Text)
      → (process_node ctx parent before n q).id ≡ base ++ q
  unfolding process_node base
  process_node_id parent before n q = rw append_assoc

  module _ (scope : Option Text) (lo : Counts) (n : Text) where
    taken : Text × Counts
    taken = qualified_name scope n lo

    Hands-inner :
        (u : KnowledgeUnit) (r : List KnowledgeUnit × Counts)
        → u.id ≡ base ++ taken.0
        → n ≢ []
        → IsPlain n
        → Hands (some taken.0) [] r
        → Hands scope lo (u ∷ r.0, taken.1)
    unfolding taken qualified_name
    Hands-inner u r e nonempty plain h = record {
      grows = Grows-insert n lo;
      within = (
        rw e (Within-self scope lo n plain),
        All-map_of (ids r.0) (λ x. Within-below n lo r.1 x nonempty plain) h.within,
      );
      distinct = (
        rw e (
            All-map_of (ids r.0)
              (λ x.
                self_apart taken.0 r.1 x
                  (in_scope-ne-nil scope _ (label-ne-nil n (count_of n lo + 1) nonempty)))
              h.within),
        h.distinct,
      );
    }

    Hands-outer :
        (u : KnowledgeUnit) (r : List KnowledgeUnit × Counts)
        → u.id ≡ base ++ taken.0
        → IsPlain n
        → Hands scope taken.1 r
        → Hands scope lo (u ∷ r.0, r.1)
    unfolding taken qualified_name
    Hands-outer u r e plain h = record {
      grows = λ m. omega (arith, Grows-insert n lo m, h.grows m);
      within = (
        rw e (Within-mono (λ m. omega arith) h.grows (Within-self scope lo n plain)),
        All-map_of (ids r.0) (λ x. Within-mono (Grows-insert n lo) (λ m. omega arith)) h.within,
      );
      distinct = (
        rw e (All-map_of (ids r.0) (λ x. Within-apart _ x (Within-self scope lo n plain)) h.within),
        h.distinct,
      );
    }

  -- A node that becomes a unit, with its children in its own scope or in the one around it.
  Hands-distill_as :
      (o : Option Text) (below : Option Text → Counts → List KnowledgeUnit × Counts) (n : Node)
      (parent : Option Node) (before : List Node) (scope : Option Text) (lo : Counts)
      → PlainName o (resolve_name parent n)
      → ((s : Option Text) (c : Counts) → Hands s c (below s c))
      → Hands scope lo (distill_as ctx o below n parent before scope lo)
  unfolding distill_as taken
  Hands-distill_as none below n parent before scope lo plain ih = ih scope lo
  Hands-distill_as (some raw) below n parent before scope lo plain ih =
      let name = resolve_name parent n in
      elim (Bool-cases (opens_scope ctx raw)) [
        | inl opens ↦ rw opens (
            Hands-inner scope lo name _ _ (process_node_id _ _ _ _) (resolve_name-ne-nil parent n)
              plain (ih _ []))
        | inr stays ↦
            rw stays (Hands-outer scope lo name _ _ (process_node_id _ _ _ _) plain (ih scope _))
      ]

  mutual
    unfolding recursive_distill PlainNames

    recursive_distill-Hands :
        (n : Node) (parent : Option Node) (before : List Node) (scope : Option Text) (lo : Counts)
        → PlainNames n parent
        → Hands scope lo (recursive_distill ctx n parent before scope lo)
    recursive_distill-Hands (node i cs) parent before scope lo h =
        Hands-distill_as (canonical ctx (node i cs)) (distill_children ctx cs (node i cs) [])
          (node i cs) parent before scope lo h.0
          (λ s c. distill_children-Hands cs (node i cs) [] s c h.1)

    distill_children-Hands :
        (cs : Children) (parent : Node) (before : List Node) (scope : Option Text) (lo : Counts)
        → PlainChildren cs parent
        → Hands scope lo (distill_children ctx cs parent before scope lo)
    distill_children-Hands end parent before scope lo h = record {
      grows = λ n. omega arith;
      within = tt;
      distinct = tt;
    }
    distill_children-Hands (child f n cs) parent before scope lo h =
        Hands-append scope lo (recursive_distill ctx n (some parent) before scope lo) _
          (recursive_distill-Hands n (some parent) before scope lo h.0)
          (distill_children-Hands cs parent (n ∷ before) scope
            (recursive_distill ctx n (some parent) before scope lo).1 h.1)

  -- If no name of a unit holds `.` or `#`, the units of a file have different ids.
  pub recursive_distill-Distinct :
      (root : Node)
      → PlainNames root none
      → Distinct (ids (recursive_distill ctx root none [] none []).0)
  recursive_distill-Distinct root h = (recursive_distill-Hands root none [] none [] h).distinct
