-- ===== src/Schema/Node.antt =====
-- The members of TreeNode in src/schemaDescription.cpp that set what may be set once, and those that look
-- at the children.
use papuga.ErrorCode.{ok, ambiguous_reference}
use papuga.Prelude.{
  ◌≡◌, ◌↔◌, ◌⊎◌, Bool, true, false, ◌&&◌, not, Option, none, some, [], ◌∷◌, ◌++◌, ◌==◌,
  if◌then◌else◌, arith,
}
use papuga.Prelude.Int.{ℤ}
use papuga.Request.Keys.{eqb_ℤ}
use papuga.Request.Description.Expression.{Text, text_eq}
use papuga.Request.Description.State.{ResolveType, required, optional, array, array_non_empty}
use papuga.Schema.{
  ElementType, null_type, struct_type, attribute_type, FollowType, follow_null, follow_immediate,
  ValueType, type_void, element_code, follow_code, value_code, resolve_code, null_id, Related,
  NodeData, TreeNode, node, Children, no_child, child, new_data, append_child, Effect, Run,
}
use papuga.Schema.Scan.{split}

abbrev pub is_element : ElementType → ElementType → Bool
is_element a b = element_code a == element_code b

abbrev pub is_value : ValueType → ValueType → Bool
is_value a b = value_code a == value_code b

abbrev pub is_follow : FollowType → FollowType → Bool
is_follow a b = follow_code a == follow_code b

abbrev pub is_resolve : ResolveType → ResolveType → Bool
is_resolve a b = resolve_code a == resolve_code b

-- setValueTypeUnique
unfoldable pub set_value_type_unique : ValueType → NodeData → Effect NodeData
set_value_type_unique atom_type d =
    if is_value d.value_type type_void
    then (ok, record d { value_type = atom_type })
    else if not (is_value atom_type type_void) && not (is_value d.value_type atom_type)
    then (ambiguous_reference, d)
    else (ok, d)

-- setElementTypeUnique
unfoldable pub set_element_type_unique : ElementType → NodeData → Effect NodeData
set_element_type_unique element_type d =
    if is_element d.element_type null_type
    then (ok, record d { element_type = element_type })
    else if is_element d.element_type element_type
    then (ok, d)
    else (ambiguous_reference, d)

-- setIdUnique
unfoldable pub set_id_unique : ℤ → NodeData → Effect NodeData
set_id_unique id d =
    if eqb_ℤ d.id null_id
    then (ok, record d { id = id })
    else if eqb_ℤ d.id id
    then (ok, d)
    else (ambiguous_reference, d)

-- setFollowTypeUnique
unfoldable pub set_follow_type_unique : FollowType → NodeData → Effect NodeData
set_follow_type_unique follow_type d =
    if is_follow d.follow_type follow_type
    then (ok, d)
    else if is_follow d.follow_type follow_null
    then (ok, record d { follow_type = follow_type })
    else (ambiguous_reference, d)

-- The last test of setResolveTypeUnique, with its `else`, which the tests in front of it do not have.
abbrev pub or_ambiguous : ResolveType → NodeData → Effect NodeData
or_ambiguous resolve_type d =
    if is_resolve d.resolve_type array && is_resolve resolve_type required
    then (ok, d)
    else (ambiguous_reference, d)

-- The three tests with an assignment or without effect, one behind the other.
abbrev pub merged_resolve : ResolveType → ResolveType → ResolveType
merged_resolve resolve_type old =
    let merged =
      if is_resolve resolve_type array_non_empty && is_resolve old optional
      then array_non_empty
      else old in
    if is_resolve resolve_type array && is_resolve merged required then array else merged

-- setResolveTypeUnique
unfoldable pub set_resolve_type_unique : ResolveType → NodeData → Effect NodeData
set_resolve_type_unique resolve_type d =
    if is_resolve d.resolve_type required
    then (ok, record d { resolve_type = resolve_type })
    else if not (is_resolve resolve_type required) && not (is_resolve resolve_type d.resolve_type)
    then or_ambiguous resolve_type
        (record d { resolve_type = merged_resolve resolve_type d.resolve_type })
    else (ok, d)

-- addRelated
abbrev pub add_related : Related → NodeData → NodeData
add_related related d = record d { related = d.related ++ (related ∷ []) }

-- addExamples; `none` is the null pointer.
unfoldable pub add_examples : Option Text → NodeData → NodeData
unfolding split
add_examples none d = d
add_examples (some examples) d = record d { examples = d.examples ++ split b';' examples }

-- A setter on a node.
abbrev pub on_data : (NodeData → Effect NodeData) → TreeNode → Effect TreeNode
on_data set (node d cs) = let r = set d in (r.0, node r.1 cs)

-- isAttributeOnlyStruct, of the children.
abbrev pub all_attributes : Children → Bool
all_attributes no_child = true
all_attributes (child (node d cs) ts) =
    is_element d.element_type attribute_type && all_attributes ts

unfoldable pub is_attribute_only_struct : TreeNode → Bool
is_attribute_only_struct (node d cs) = is_element d.element_type struct_type && all_attributes cs

-- transformValueToSimpleContent, of a node of type ValueType, which its callers have tested.
unfoldable pub transform_value_to_simple_content : TreeNode → TreeNode
transform_value_to_simple_content (node d cs) =
    node (record d { element_type = struct_type; value_type = type_void; examples = [] })
      (append_child cs
        (node (new_data [] d.element_type d.value_type follow_immediate d.examples) no_child))

-- findNode
unfoldable pub find_node : Text → Children → Option TreeNode
unfolding text_eq
find_node name no_child = none
find_node name (child (node d cs) ts) =
    if text_eq name d.name then some (node d cs) else find_node name ts

-- The node that getOrCreateChildNode appends.
abbrev pub new_node : Text → TreeNode
new_node name = node (new_data name null_type type_void follow_null []) no_child

abbrev pub behind_child : TreeNode → Run Children → Run Children
behind_child t none = none
behind_child t (some r) = some (r.0, child t r.1)

abbrev pub in_front : Children → Run TreeNode → Run Children
in_front ts none = none
in_front ts (some r) = some (r.0, child r.1 ts)

-- getOrCreateChildNode and what is done to the node that it gives.
unfoldable pub at_child : Text → (TreeNode → Run TreeNode) → Children → Run Children
unfolding text_eq
at_child name f no_child = in_front no_child (f (new_node name))
at_child name f (child (node d cs) ts) = elim (text_eq name d.name) [
  | true ↦ in_front ts (f (node d cs))
  | false ↦ behind_child (node d cs) (at_child name f ts)
]

-- An operation on the children of a node.
abbrev pub on_children : (Children → Run Children) → TreeNode → Run TreeNode
on_children f (node d cs) = elim (f cs) [ none ↦ none | some r ↦ some (r.0, node d r.1) ]

-- A resolve type can be set if the old or the new one is the default, or they are the same: no two
-- others are merged.
pub set_resolve_type_unique_iff :
    (resolve_type : ResolveType) (d : NodeData)
    → ((set_resolve_type_unique resolve_type d).0 ≡ ok)
      ↔ ((d.resolve_type ≡ required) ⊎ (resolve_type ≡ required) ⊎ (resolve_type ≡ d.resolve_type))
unfolding set_resolve_type_unique
set_resolve_type_unique_iff resolve_type d = ground arith
