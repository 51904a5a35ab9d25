-- ===== src/Parser/Tree.antt =====
-- What parsers/tree_sitter.py reads of a tree-sitter node, and `LanguageConfig` of
-- parsers/languages.py. The tree itself comes from the tree-sitter package.
use agent_coderag.Prelude.{
  ℕ, Option, none, some, List, [], ◌∷◌, Text, text, ◌==◌, text_eq, contains, if◌then◌else◌,
  is_empty,
}
use agent_coderag.Prelude.Dict.{Dict}

-- `content` is the node's text, decoded; the positions are rows and byte offsets.
pub record Info : Type 0 where
  pub type : Text
  pub content : Text
  pub start_row : ℕ
  pub end_row : ℕ
  pub start_byte : ℕ
  pub end_byte : ℕ

-- A child stands with the name of its field, if the grammar gives it one.
mutual
  pub data Node : Type 0 where
    node : Info → Children → Node

  pub data Children : Type 0 where
    end : Children
    child : Option Text → Node → Children → Children

unfoldable pub info : Node → Info
info (node i cs) = i

unfoldable pub children : Node → Children
children (node i cs) = cs

pub record LanguageConfig : Type 0 where
  pub id : Text
  pub extensions : List Text
  pub grammar_package : Text
  pub entities : List Text
  pub body_fields : List Text
  pub fallback_bodies : List Text
  pub stub_suffix : Text
  pub canonical_map : Dict Text Text
  pub language_function : Text

-- `node.child_by_field_name(field)`: the first child in that field.
unfoldable pub field_child : Text → Children → Option Node
field_child f end = none
field_child f (child none n cs) = field_child f cs
field_child f (child (some g) n cs) = if f == g then some n else field_child f cs

-- `for child in node.children: if child.type in types: …; break`
unfoldable pub typed_child : List Text → Children → Option Node
unfolding info
typed_child types end = none
typed_child types (child f n cs) =
    if contains types (info n).type then some n else typed_child types cs

-- `for field_name in config.body_fields: …`
unfoldable pub field_body : List Text → Children → Option Node
field_body [] cs = none
field_body (f ∷ fields) cs = elim (field_child f cs) [
  | some b ↦ some b
  | none ↦ field_body fields cs
]

-- `n.text.decode(…)` under a test that `n` is there and its text is not empty.
unfoldable pub node_text : Option Node → Option Text
unfolding info
node_text none = none
node_text (some n) = if is_empty (info n).content then none else some (info n).content

-- The node that names `n`: its field, or the first child that is an identifier.
unfoldable pub name_node : Node → Option Node
unfolding children
name_node n = elim (field_child (text "name") (children n)) [
  | some m ↦ some m
  | none ↦
      typed_child (text "identifier" ∷ text "property_identifier" ∷ text "type_identifier" ∷ [])
        (children n)
]

-- What the declaration around an anonymous node is called.
unfoldable pub parent_name : Option Node → Option Text
unfolding info children
parent_name none = none
parent_name (some p) =
    if (info p).type == text "variable_declarator"
    then node_text (field_child (text "name") (children p))
    else if (info p).type == text "assignment"
    then node_text (field_child (text "left") (children p))
    else none

unfoldable pub resolve_name : Option Node → Node → Text
resolve_name parent n = elim (node_text (name_node n)) [
  | some t ↦ t
  | none ↦ elim (parent_name parent) [ some t ↦ t | none ↦ text "anonymous" ]
]

-- `_find_body`
unfoldable pub find_body : LanguageConfig → Node → Option Node
unfolding children
find_body config n = elim (field_body config.body_fields (children n)) [
  | some b ↦ some b
  | none ↦ typed_child config.fallback_bodies (children n)
]
