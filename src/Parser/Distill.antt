-- ===== src/Parser/Distill.antt =====
-- `_recursive_distill` and the methods that it calls. Names are counted for each scope.
use agent_coderag.Prelude.{
  ℕ, ◌+◌, ◌-◌, Bool, ◌&&◌, ◌||◌, Option, none, some, List, [], ◌∷◌, ◌++◌, Text, text, ◌==◌, text_eq,
  nat_eq, if◌then◌else◌, leb, take, drop, map,
}
use agent_coderag.Prelude.Dict.{Dict, lookup, insert}
use agent_coderag.Prelude.Decimal.{decimal}
use agent_coderag.Core.{
  UnitKind, module_kind, class_kind, function_kind, method_kind, KnowledgeUnit, number, string,
  truthy,
}
use agent_coderag.Parser.Tree.{
  Node, node, Children, end, child, LanguageConfig, info, resolve_name, find_body,
}
use agent_coderag.Parser.Comments.{extract_docstring}

-- How often each name was met in the current scope.
abbrev pub Counts : Type 0
Counts = Dict Text ℕ

-- `counts.get(name, 0)`
unfoldable pub count_of : Text → Counts → ℕ
count_of n counts = elim (lookup n counts) [ none ↦ 0 | some k ↦ k ]

-- `node_name if seen == 1 else f"{node_name}#{seen}"`
unfoldable pub label : Text → ℕ → Text
label n seen = if seen == 1 then n else n ++ (b'#' ∷ decimal seen)

-- `f"{scope}.{label}" if scope else label`
unfoldable pub in_scope : Option Text → Text → Text
in_scope none l = l
in_scope (some scope) l = if truthy (some scope) then scope ++ (b'.' ∷ l) else l

-- The qualified name, and the counts after it.
unfoldable pub qualified_name : Option Text → Text → Counts → Text × Counts
qualified_name scope name counts =
    let seen = count_of name counts + 1 in
    (in_scope scope (label name seen), insert name seen counts)

-- `str.lower` on ASCII, which holds all values of the maps in languages.py.
unfoldable pub lower : Text → Text
lower = map (λ c. if leb b'A' c && leb c b'Z' then c + 32 else c)

-- `UnitKind(raw_kind)`, and `FUNCTION` for what is no kind.
unfoldable pub unit_kind : Text → UnitKind
unit_kind raw =
    if raw == text "module"
    then module_kind
    else if raw == text "class"
    then class_kind
    else if raw == text "method"
    then method_kind
    else function_kind

-- What the parser takes from elsewhere: the bytes of the file, their decoding and their hash.
pub record Source : Type 0 where
  pub config : LanguageConfig
  pub file_path : Text
  pub source : List ℕ
  pub decode : List ℕ → Text
  pub sha256 : Text → Text

module _ (ctx : Source) where
  -- `config.canonical_map.get(node.type)`; the maps hold no other false value than a missing key.
  unfoldable pub canonical : Node → Option Text
  canonical n = lookup (info n).type ctx.config.canonical_map

  unfoldable pub determine_kind : Node → UnitKind
  determine_kind n =
      unit_kind (lower (elim (canonical n) [ none ↦ text "function" | some raw ↦ raw ]))

  -- `source[start:end]`
  unfoldable pub slice : ℕ → ℕ → List ℕ
  slice start stop = take (stop - start) (drop start ctx.source)

  unfoldable pub extract_signature : Node → Text
  extract_signature n = elim (find_body ctx.config n) [
    | none ↦ (info n).content
    | some body ↦
        ctx.decode (slice (info n).start_byte (info body).start_byte)
        ++ (ctx.config.stub_suffix ++ ctx.decode (slice (info body).end_byte (info n).end_byte))
  ]

  unfoldable pub process_node : Option Node → List Node → Node → Text → KnowledgeUnit
  process_node parent before n qname = record {
    id = ctx.file_path ++ (b':' ∷ qname);
    kind = determine_kind n;
    name = resolve_name parent n;
    path = ctx.file_path;
    signature = some (extract_signature n);
    docstring = extract_docstring before;
    summary = none;
    code_hash = ctx.sha256 (info n).content;
    tags = [];
    metadata =
        (text "start_line", number ((info n).start_row + 1))
        ∷ (text "end_line", number ((info n).end_row + 1))
        ∷ (text "node_type", string (info n).type)
        ∷ (text "raw_code", string (info n).content)
        ∷ [];
    relations = [];
  }

  -- `canonical_map.get(node.type) in ("CLASS", "FUNCTION", "METHOD")`
  unfoldable pub opens_scope : Text → Bool
  opens_scope raw = raw == text "CLASS" || raw == text "FUNCTION" || raw == text "METHOD"

  -- One node: `below` gives the units of its children in a scope with its counts.
  unfoldable pub distill_as :
      Option Text
      → (Option Text → Counts → List KnowledgeUnit × Counts)
      → Node
      → Option Node
      → List Node
      → Option Text
      → Counts
      → List KnowledgeUnit × Counts
  distill_as none below n parent before scope counts = below scope counts
  distill_as (some raw) below n parent before scope counts =
      let (qname, counts') = qualified_name scope (resolve_name parent n) counts in
      let unit = process_node parent before n qname in
      let inner = below (some qname) [] in
      let outer = below scope counts' in
      if opens_scope raw then (unit ∷ inner.0, counts') else (unit ∷ outer.0, outer.1)

  -- The units of a node and of all below it, in the order in which they are appended, and the
  -- counts of the scope that the node stands in. `before` are the siblings before, nearest first.
  unfoldable mutual
    pub recursive_distill :
        Node → Option Node → List Node → Option Text → Counts → List KnowledgeUnit × Counts
    recursive_distill (node i cs) parent before scope counts =
        distill_as (canonical (node i cs)) (distill_children cs (node i cs) []) (node i cs) parent
          before scope counts

    pub distill_children :
        Children → Node → List Node → Option Text → Counts → List KnowledgeUnit × Counts
    distill_children end parent before scope counts = ([], counts)
    distill_children (child f n cs) parent before scope counts =
        let (units, counts') = recursive_distill n (some parent) before scope counts in
        let (more, counts'') = distill_children cs parent (n ∷ before) scope counts' in
        (units ++ more, counts'')
