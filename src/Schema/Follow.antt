-- ===== src/Schema/Follow.antt =====
-- TreeNode::addFollow of src/schemaDescription.cpp, with addElement as an argument.
use papuga.ErrorCode.{ok, syntax_error}
use papuga.Prelude.{Bool, true, false, ◌||◌, not, Option, none, some, [], ◌==◌, if◌then◌else◌, drop}
use papuga.Prelude.Int.{ℤ}
use papuga.Request.Keys.{eqb_ℤ}
use papuga.Request.Description.Expression.{Text}
use papuga.Request.Description.State.{ResolveType, required}
use papuga.Schema.{
  ElementType, struct_type, value_type, attribute_type, FollowType, follow_immediate, follow_deep,
  ValueType, type_void, null_id, Related, NodeData, TreeNode, node, no_child, new_data,
  append_child, Effect, and_then, Run, and_run, bind_run, Parsed, thrown, parsed,
}
use papuga.Schema.Scan.{at, skip_brackets}
use papuga.Schema.Node.{
  is_element, is_value, is_resolve, set_value_type_unique, set_element_type_unique, set_id_unique,
  set_resolve_type_unique, add_related, add_examples, on_data, is_attribute_only_struct,
  transform_value_to_simple_content, on_children,
}
use papuga.Schema.Conditions.{add_condition_elements}

-- The arguments that addSubTree, addFollow and addElement pass on as they are.
pub record Added : Type 0 where
  pub id : ℤ
  pub value_type : ValueType
  pub resolve_type : ResolveType
  pub examples : Option Text
  pub related : Related

abbrev pub when : Bool → (NodeData → Effect NodeData) → NodeData → Effect NodeData
when test set d = if test then set d else (ok, d)

-- A node that gets elements below it is a struct.
unfoldable pub as_struct : TreeNode → Effect TreeNode
unfolding set_element_type_unique transform_value_to_simple_content
as_struct (node d cs) = on_data (set_element_type_unique struct_type) (
    if is_element d.element_type value_type
    then transform_value_to_simple_content (node d cs)
    else node d cs)

-- The case of a parenthesis in addFollow.
unfoldable pub set_content : Added → NodeData → Effect NodeData
unfolding set_resolve_type_unique set_element_type_unique set_value_type_unique set_id_unique
    add_examples
set_content a d = and_then (set_resolve_type_unique a.resolve_type d) (λ d.
    and_then
      (when (not (is_value a.value_type type_void)) (set_element_type_unique ElementType.value_type)
        d)
      (λ d.
        and_then
          (when (not (is_value a.value_type type_void)) (set_value_type_unique a.value_type) d)
          (λ d. and_then (set_id_unique a.id d) (λ d. (ok, add_examples a.examples d)))))

unfoldable pub follow_content : Added → TreeNode → Effect TreeNode
unfolding is_attribute_only_struct set_content add_examples
follow_content a (node d cs) =
    if is_attribute_only_struct (node d cs)
    then (
      ok,
      node d (
          append_child cs (
            node
              (add_examples a.examples
                (new_data [] ElementType.value_type a.value_type follow_immediate []))
              no_child)),
    )
    else on_data (set_content a) (node d cs)

abbrev pub is_given : Option Text → Bool
is_given none = false
is_given (some t) = true

-- The relation of a node that is no attribute, at the end of the expression.
unfoldable pub relate : Added → NodeData → Effect NodeData
unfolding set_element_type_unique
relate a d =
    and_then (when (not (eqb_ℤ a.id null_id)) (set_element_type_unique struct_type) d)
      (λ d. when (is_element d.element_type struct_type) (λ d. (ok, add_related a.related d)) d)

unfoldable pub set_kind : Added → NodeData → Effect NodeData
unfolding set_value_type_unique add_examples relate
set_kind a d =
    if is_element d.element_type attribute_type
    then and_then (set_value_type_unique a.value_type d) (λ d. (ok, add_examples a.examples d))
    else if is_given a.examples || not (is_value a.value_type type_void)
    then (syntax_error, d)
    else if not (eqb_ℤ a.related.id null_id)
    then relate a d
    else (ok, d)

-- The case of the end of the expression in addFollow.
unfoldable pub set_end : Added → NodeData → Effect NodeData
unfolding set_id_unique set_resolve_type_unique set_kind
set_end a d = and_then (when (not (eqb_ℤ a.id null_id)) (set_id_unique a.id) d) (λ d.
    and_then
      (when (not (is_resolve a.resolve_type required)) (set_resolve_type_unique a.resolve_type) d)
      (λ d. set_kind a d))

-- addElement behind one slash or two.
abbrev pub behind_slash :
    (Text → FollowType → TreeNode → Run TreeNode) → Text → TreeNode → Run TreeNode
behind_slash element src =
    if at (drop 1 src) == b'/'
    then element (drop 2 src) follow_deep
    else element (drop 1 src) follow_immediate

-- addFollow behind its conditions; `element` is addElement on the node.
unfoldable pub follow :
    (Text → FollowType → TreeNode → Run TreeNode) → Added → Text → TreeNode → Run TreeNode
unfolding as_struct follow_content set_end
follow element a src t =
    if at src == b'/'
    then and_run (as_struct t) (behind_slash element src)
    else if at src == b'@'
    then and_run (as_struct t) (element src follow_immediate)
    else if at src == b'('
    then some (follow_content a t)
    else if at src == 0
    then some (on_data (set_end a) t)
    else some (syntax_error, t)

-- addFollow
abbrev pub follow_parsed :
    (Text → FollowType → TreeNode → Run TreeNode) → Added → Parsed Text → TreeNode → Run TreeNode
follow_parsed element a (thrown e) t = some (e, t)
follow_parsed element a (parsed src) t = follow element a src t

unfoldable pub add_follow :
    (Text → FollowType → TreeNode → Run TreeNode) → Added → Text → TreeNode → Run TreeNode
unfolding as_struct add_condition_elements skip_brackets follow
add_follow element a src t =
    if at src == b'['
    then and_run (as_struct t) (λ t.
      bind_run (on_children (add_condition_elements src) t)
        (follow_parsed element a (skip_brackets src)))
    else follow element a src t
