-- ===== src/Tests/Schema.antt =====
-- The tree of elements of src/schemaDescription.cpp on concrete inputs.
use papuga.ErrorCode.{is_ok, ok, ambiguous_reference}
use papuga.Prelude.{if◌then◌else◌, List, Option, ◌≡◌, refl, inr, true, none, some, [], ◌∷◌, arith}
use papuga.Prelude.Int.{pos}
use papuga.Request.Keys.{inside, Scope}
use papuga.Request.Description.Expression.{Text}
use papuga.Request.Description.State.{required, optional, array_non_empty}
use papuga.Schema.{
  Run, follow_deep, children, node_data, null_type, struct_type, value_type, type_void, type_string,
  follow_null, follow_immediate, NodeData, no_relation, TreeNode, node, Children, no_child, child,
  new_data, parsed,
}
use papuga.Schema.Scan.{is_delimiter, parse_string, split, alt_node_list, trim}
use papuga.Schema.Node.{set_resolve_type_unique}
use papuga.Schema.Conditions.{add_condition_elements}
use papuga.Schema.Follow.{Added}
use papuga.Schema.Build.{add_sub_tree}
use papuga.Schema.Scopes.{assign_scope, node_at, scope_of, assign_scope-inside}
use papuga.Schema.Finish.References.{finish}
use papuga.Schema.Finish.Checked.{Finishes, finish-Finishes}
use papuga.Schema.Quoted.{Fails, IsPlain, add_condition_elements-quoted}
use papuga.Schema.Fuel.{Ends}
use papuga.Schema.Termination.{add_sub_tree-Ends}

abbrev a_value : Added
a_value = record {
  id = pos 7;
  value_type = type_string;
  resolve_type = required;
  examples = none;
  related = no_relation;
}

abbrev empty_tree : TreeNode
empty_tree = node (new_data [] null_type type_void follow_null []) no_child

-- "/a()"
abbrev value_path : Text
value_path = b'/' ∷ b'a' ∷ b'(' ∷ b')' ∷ []

abbrev value_tree : TreeNode
value_tree = node (new_data [] struct_type type_void follow_null []) (
    child
      (node
        (record (new_data (b'a' ∷ []) value_type type_string follow_immediate []) { id = pos 7 })
        no_child)
      no_child)

add_sub_tree_run : add_sub_tree 5 a_value value_path empty_tree ≡ some (ok, value_tree)
unfolding add_sub_tree
add_sub_tree_run = refl

-- Alternatives: the last name is not tested.
alt_node_list_run :
    alt_node_list (split b',' (b'a' ∷ b' ' ∷ b',' ∷ b'@' ∷ b'b' ∷ []))
    ≡ parsed ((b'a' ∷ []) ∷ (b'@' ∷ b'b' ∷ []) ∷ [])
unfolding alt_node_list split trim
alt_node_list_run = refl

-- A string with an escaped quote: the position is at the closing quote.
parse_string_run :
    parse_string (b'"' ∷ b'\\' ∷ b'"' ∷ b'x' ∷ b'"' ∷ b']' ∷ [])
    ≡ parsed (b'"' ∷ b'x' ∷ [], b'"' ∷ b']' ∷ [])
unfolding parse_string
parse_string_run = refl

-- What is assigned stays although the exception is thrown.
merge_run :
    set_resolve_type_unique array_non_empty
      (record (new_data [] struct_type type_void follow_null []) { resolve_type = optional })
    ≡ (
      ambiguous_reference,
      record (new_data [] struct_type type_void follow_null []) { resolve_type = array_non_empty },
    )
unfolding set_resolve_type_unique
merge_run = refl

add_sub_tree-Ends_example : Ends (add_sub_tree 5 a_value value_path empty_tree)
add_sub_tree-Ends_example = add_sub_tree-Ends 5 a_value value_path empty_tree (omega arith)

-- The root has two children, the first of which has one.
abbrev leaf : Text → Children → TreeNode
leaf name cs = node (new_data name struct_type type_void follow_immediate []) cs

abbrev small : TreeNode
small = leaf [] (
    child (leaf (b'a' ∷ []) (child (leaf (b'b' ∷ []) no_child) no_child))
      (child (leaf (b'c' ∷ []) no_child) no_child))

abbrev scoped : Text → Scope → NodeData
scoped name scope = record (new_data name struct_type type_void follow_immediate []) {
  scope = scope;
}

abbrev first : NodeData
first = scoped (b'a' ∷ []) (scope_of 1 3)

abbrev below_first : NodeData
below_first = scoped (b'b' ∷ []) (scope_of 2 3)

first_at : node_at (0 ∷ []) (assign_scope 0 small).1 ≡ some first
unfolding assign_scope
first_at = refl

below_first_at : node_at (0 ∷ 0 ∷ []) (assign_scope 0 small).1 ≡ some below_first
unfolding assign_scope
below_first_at = refl

assign_scope-inside_example : inside (scope_of 2 3) (scope_of 1 3) ≡ true
assign_scope-inside_example =
    assign_scope-inside 0 small (0 ∷ []) (0 ∷ 0 ∷ []) first below_first first_at below_first_at

a-IsPlain : IsPlain (b'a' ∷ [])
unfolding is_delimiter
a-IsPlain = (refl, tt)

-- "[a='x']"
add_condition_elements-quoted_example :
    Fails (add_condition_elements (b'[' ∷ b'a' ∷ b'=' ∷ b'\'' ∷ b'x' ∷ b'\'' ∷ b']' ∷ []) no_child)
add_condition_elements-quoted_example =
    add_condition_elements-quoted [] b'a' b'\'' (b'x' ∷ b'\'' ∷ b']' ∷ []) no_child a-IsPlain
      (omega arith) (inr refl)

abbrev names_in : Children → List Text
names_in no_child = []
names_in (child t ts) = (node_data t).name ∷ names_in ts

abbrev roots_of : Run TreeNode → Option (List Text)
roots_of none = none
roots_of (some r) = if is_ok r.0 then some (names_in (children r.1)) else none

-- "//b" below "/a" becomes a node of the root.
abbrev with_deep : TreeNode
with_deep = node (new_data [] struct_type type_void follow_null []) (
    child
      (node (new_data (b'a' ∷ []) struct_type type_void follow_immediate []) (
        child
          (node (record (new_data (b'b' ∷ []) struct_type type_void follow_deep []) { id = pos 3 })
            no_child)
          (child (leaf (b'c' ∷ []) no_child) no_child)))
      no_child)

finish_run : roots_of (finish with_deep) ≡ some ((b'a' ∷ []) ∷ (b'b' ∷ []) ∷ [])
unfolding finish
finish_run = refl

finish-Finishes_example : Finishes (finish with_deep)
finish-Finishes_example = finish-Finishes with_deep
