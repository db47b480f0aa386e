-- ===== src/Schema/Finish.antt =====
-- SchemaDescription::finish of src/schemaDescription.cpp with the passes over the tree that it makes.
pub mod Deep
pub mod References
pub mod Checked
use papuga.ErrorCode.{ErrorCode, ok, is_ok, logic_error, value_undefined}
use papuga.Prelude.{
  ℕ, Bool, true, false, ◌&&◌, ◌||◌, not, Option, none, some, List, [], ◌∷◌, ◌++◌, ◌==◌,
  if◌then◌else◌,
}
use papuga.Prelude.Int.{ℤ}
use papuga.Request.Keys.{eqb_ℤ}
use papuga.Request.Description.State.{ResolveType, required, optional, array}
use papuga.Schema.{
  null_type, struct_type, value_type, follow_immediate, Related, NodeData, TreeNode, node, Children,
  no_child, child, Effect,
}
use papuga.Schema.Node.{is_element, is_follow, is_resolve}

-- The resolve type of the relation to an id, or the one given.
abbrev pub related_resolve : List Related → ℤ → ResolveType → ResolveType
related_resolve [] id old = old
related_resolve (r ∷ rs) id old =
    if eqb_ℤ r.id id then r.resolve_type else related_resolve rs id old

-- updateResolveType, for the children with the relations of their parent.
unfoldable mutual
  pub update_resolve_type : TreeNode → TreeNode
  update_resolve_type (node d cs) = node d (update_children d.related cs)

  pub update_children : List Related → Children → Children
  update_children related no_child = no_child
  update_children related (child (node d cs) ts) =
      child
        (node (record d { resolve_type = related_resolve related d.id d.resolve_type })
          (update_children d.related cs))
        (update_children related ts)

abbrev pub all_optional : Children → Bool
all_optional no_child = true
all_optional (child (node d cs) ts) =
    (is_resolve d.resolve_type optional || is_resolve d.resolve_type array) && all_optional ts

abbrev pub inherited_resolve : NodeData → Children → NodeData
inherited_resolve d cs =
    if is_element d.element_type struct_type
      && all_optional cs
      && is_resolve d.resolve_type required
    then record d { resolve_type = optional }
    else d

-- inheritChildResolveTypeOptional
unfoldable mutual
  pub inherit_optional : TreeNode → TreeNode
  inherit_optional (node d cs) =
      let below = inherit_children cs in node (inherited_resolve d below) below

  pub inherit_children : Children → Children
  inherit_children no_child = no_child
  inherit_children (child t ts) = child (inherit_optional t) (inherit_children ts)

abbrev pub has_child : Children → Bool
has_child no_child = false
has_child (child t ts) = true

-- The tests of checkTree on a node.
unfoldable pub check_node : NodeData → Children → ErrorCode
check_node d cs =
    if is_element d.element_type null_type
    then value_undefined
    else if not (is_follow d.follow_type follow_immediate)
    then value_undefined
    else if is_element d.element_type value_type && has_child cs
    then logic_error
    else ok

-- The first code that is not `ok`.
abbrev pub first_error : ErrorCode → ErrorCode → ErrorCode
first_error a b = elim (is_ok a) [ true ↦ b | false ↦ a ]

-- checkTree
unfoldable mutual
  unfolding check_node

  pub check_tree : TreeNode → ErrorCode
  check_tree (node d cs) = first_error (check_node d cs) (check_children cs)

  pub check_children : Children → ErrorCode
  check_children no_child = ok
  check_children (child t ts) = first_error (check_tree t) (check_children ts)
