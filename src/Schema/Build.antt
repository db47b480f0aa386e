-- ===== src/Schema/Build.antt =====
-- TreeNode::addElement and TreeNode::addSubTree of src/schemaDescription.cpp.
use papuga.ErrorCode.{ok, syntax_error}
use papuga.Prelude.{
  ℕ, zero, suc, ◌-◌, Bool, true, false, ◌&&◌, ◌||◌, not, none, some, List, [], ◌∷◌, ◌==◌,
  if◌then◌else◌, length, take, drop,
}
use papuga.Request.Keys.{eqb_ℤ}
use papuga.Request.Description.Expression.{Text}
use papuga.Request.Description.State.{array}
use papuga.Schema.{
  ElementType, null_type, struct_type, attribute_type, FollowType, follow_immediate, follow_deep,
  type_void, TreeNode, node, Children, Run, and_run, bind_run, Parsed, thrown, parsed,
}
use papuga.Schema.Scan.{at, between, split, skip_brackets, skip_element, alt_node_list}
use papuga.Schema.Node.{
  is_element, is_value, is_follow, set_element_type_unique, set_follow_type_unique,
  set_resolve_type_unique, add_related, on_data, is_attribute_only_struct, find_node, new_node,
  at_child, on_children,
}
use papuga.Schema.Follow.{Added, when, add_follow}

-- What addElement does to each of alternative children, `go` being addFollow on it.
abbrev pub alternatives :
    FollowType → (TreeNode → Run TreeNode) → List Text → Children → Run Children
alternatives follow_type go [] cs = some (ok, cs)
alternatives follow_type go (name ∷ names) cs =
    bind_run (at_child name (λ t. and_run (on_data (set_follow_type_unique follow_type) t) go) cs)
      (alternatives follow_type go names)

-- The kind that addElement gives to a child: an attribute, a value, or none.
unfoldable pub child_kind : Added → Bool → Text → ElementType
child_kind a attribute rest =
    if attribute
    then attribute_type
    else if at rest == b'(' && not (is_value a.value_type type_void)
    then ElementType.value_type
    else null_type

-- The child is already an element found at any depth, with the same id.
unfoldable pub is_recursive : Added → FollowType → TreeNode → Bool
is_recursive a follow_type (node d cs) =
    is_follow follow_type follow_immediate
    && is_value a.value_type type_void
    && is_element d.element_type struct_type
    && is_follow d.follow_type follow_deep
    && eqb_ℤ a.id d.id

unfoldable pub named_child : Text → Children → TreeNode
unfolding find_node
named_child name cs = elim (find_node name cs) [ none ↦ new_node name | some t ↦ t ]

abbrev pub kinded : ElementType → (TreeNode → Run TreeNode) → TreeNode → Run TreeNode
kinded kind go t = and_run (on_data (set_element_type_unique kind) t) go

abbrev pub kinded_content : ElementType → (TreeNode → Run TreeNode) → TreeNode → Run TreeNode
kinded_content kind go t =
    and_run (on_data (set_follow_type_unique follow_immediate) t) (kinded kind go)

-- The child with its kind, which is that of its content if it only has attributes.
unfoldable pub follow_kind : ElementType → (TreeNode → Run TreeNode) → TreeNode → Run TreeNode
unfolding is_attribute_only_struct set_follow_type_unique set_element_type_unique at_child
follow_kind kind go t =
    if is_element kind null_type
    then go t
    else if is_element kind ElementType.value_type && is_attribute_only_struct t
    then on_children (at_child [] (kinded_content kind go)) t
    else kinded kind go t

-- What addElement does to the child of a name.
unfoldable pub element_child :
    Added → Bool → FollowType → ElementType → (TreeNode → Run TreeNode) → TreeNode → Run TreeNode
unfolding set_resolve_type_unique set_follow_type_unique follow_kind
element_child a attribute follow_type kind go t =
    and_run (on_data (when attribute (set_resolve_type_unique a.resolve_type)) t)
      (λ t. and_run (on_data (set_follow_type_unique follow_type) t) (follow_kind kind go))

-- addElement with a name from `start` on.
unfoldable pub named_element :
    (Text → TreeNode → Run TreeNode) → Added → Bool → Text → FollowType → TreeNode → Run TreeNode
unfolding skip_element at_child child_kind is_recursive named_child element_child
named_element go a attribute start follow_type (node d cs) =
    let rest = skip_element start in
    let name = between start rest in
    if length rest == length start
    then some (syntax_error, node d cs)
    else if not attribute && at rest == b'(' && is_recursive a follow_type (named_child name cs)
    then some (ok, node (add_related (record { id = a.id; resolve_type = array }) d) cs)
    else on_children
        (at_child name
          (element_child a attribute follow_type (child_kind a attribute rest) (go rest)))
        (node d cs)

-- addElement with alternatives; `src` begins with the opening brace.
abbrev pub alternative_elements :
    (Text → TreeNode → Run TreeNode)
    → FollowType
    → Parsed (List Text)
    → Text
    → TreeNode
    → Run TreeNode
alternative_elements go follow_type (thrown e) rest t = some (e, t)
alternative_elements go follow_type (parsed names) rest t =
    on_children (alternatives follow_type (go rest) names) t

unfoldable pub braced_element :
    (Text → TreeNode → Run TreeNode) → FollowType → Text → Parsed Text → TreeNode → Run TreeNode
unfolding split alt_node_list
braced_element go follow_type src (thrown e) t = some (e, t)
braced_element go follow_type src (parsed rest) t =
    alternative_elements go follow_type
      (alt_node_list (split b',' (take (length src - length rest - 2) (drop 1 src)))) rest t

unfoldable pub add_element_with :
    (Text → TreeNode → Run TreeNode) → Added → Text → FollowType → TreeNode → Run TreeNode
unfolding braced_element named_element skip_brackets
add_element_with go a src follow_type t =
    if at src == b'{'
    then braced_element go follow_type src (skip_brackets src) t
    else if at src == b'@'
    then named_element go a true (drop 1 src) follow_type t
    else named_element go a false src follow_type t

-- addElement, which calls addFollow on a child and that addElement again, on fuel.
unfoldable pub add_element : ℕ → Added → Text → FollowType → TreeNode → Run TreeNode
unfolding add_element_with add_follow
add_element zero a src follow_type t = none
add_element (suc fuel) a src follow_type t =
    add_element_with (add_follow (add_element fuel a) a) a src follow_type t

-- addSubTree
unfoldable pub add_sub_tree : ℕ → Added → Text → TreeNode → Run TreeNode
unfolding add_element add_follow
add_sub_tree fuel a src t =
    if at src == b'/'
    then if at (drop 1 src) == 0
      then add_follow (add_element fuel a) a (drop 1 src) t
      else add_follow (add_element fuel a) a src t
    else if at src == b'[' || at src == b'('
    then add_follow (add_element fuel a) a src t
    else add_element fuel a src follow_immediate t
