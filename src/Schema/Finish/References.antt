-- ===== src/Schema/Finish/References.antt =====
-- SchemaDescription::resolveDeepNodeReferences and relateTreeNode of src/schemaDescription.cpp, and
-- SchemaDescription::finish.
use papuga.ErrorCode.{ErrorCode, ok, is_ok, ambiguous_reference}
use papuga.Prelude.{Bool, true, false, ◌&&◌, not, Option, none, some, List, [], ◌∷◌, if◌then◌else◌}
use papuga.Prelude.Int.{ℤ}
use papuga.Request.Keys.{Scope, no_scope, defined, eqb_ℤ}
use papuga.Request.Description.Expression.{Text, text_eq}
use papuga.Request.Description.State.{ResolveType, required}
use papuga.Schema.{
  null_type, struct_type, value_type, reference_type, union_type, type_void, follow_immediate,
  null_id, NodeData, TreeNode, node, Children, no_child, child, new_data, append_child, Effect, Run,
  and_run, bind_run,
}
use papuga.Schema.Node.{is_element, is_value, set_follow_type_unique, on_data, at_child}
use papuga.Schema.Calls.{SchemaDescription}
use papuga.Schema.Scopes.{assign_scope}
use papuga.Schema.Finish.{update_resolve_type, inherit_optional, has_child, check_tree}
use papuga.Schema.Finish.Deep.{NameItemMap, Globals, declare_children, emptied}

-- The names of an id in the inverted map, in their order: invNameItemMap and equal_range.
unfoldable pub names_of : ℤ → NameItemMap → List Text
names_of id [] = []
names_of id (e ∷ es) = if eqb_ℤ e.1 id then e.0 ∷ names_of id es else names_of id es

abbrev pub is_single : List Text → Text → Bool
is_single [] name = false
is_single (t ∷ []) name = text_eq name t
is_single (t ∷ u ∷ us) name = false

-- A child of relateTreeNode.
unfoldable pub make_reference : ResolveType → NodeData → Effect NodeData
unfolding set_follow_type_unique
make_reference resolve_type d =
    let r = set_follow_type_unique follow_immediate d in
    let e = record r.1 { resolve_type = resolve_type } in
    if not (is_ok r.0)
    then r
    else if not (is_element e.element_type null_type)
        && not (is_element e.element_type reference_type)
    then (ambiguous_reference, e)
    else (ok, record e { element_type = reference_type })

unfoldable pub relate_names : ResolveType → List Text → Children → Run Children
unfolding make_reference at_child
relate_names resolve_type [] cs = some (ok, cs)
relate_names resolve_type (name ∷ names) cs =
    bind_run (at_child name (λ t. some (on_data (make_reference resolve_type) t)) cs)
      (relate_names resolve_type names)

-- relateTreeNode, and what becomes of the node's id behind it.
abbrev pub related_node : NodeData → Run Children → Run TreeNode
related_node d none = none
related_node d (some r) = some (r.0, node (if is_ok r.0 then record d { id = null_id } else d) r.1)

unfoldable pub relate_tree_node : NameItemMap → NodeData → Children → Run TreeNode
unfolding names_of relate_names
relate_tree_node items d cs =
    let names = names_of d.id items in
    if is_single names d.name && not (has_child cs) && is_element d.element_type union_type
    then some (ok, node (record d { element_type = reference_type; id = null_id }) cs)
    else related_node d (relate_names required names cs)

abbrev pub references : List Text → Children → Children
references [] cs = cs
references (name ∷ names) cs =
    references names
      (append_child cs (node (new_data name reference_type type_void follow_immediate []) no_child))

abbrev pub is_untyped_value : NodeData → Bool
is_untyped_value d = is_element d.element_type value_type && is_value d.value_type type_void

-- A value without a type becomes the union of the deep nodes with its id, if there are any.
unfoldable pub make_union : NameItemMap → NodeData → Children → TreeNode
unfolding names_of
make_union items d cs = elim (names_of d.id items) [
  | [] ↦ node d cs
  | name ∷ names ↦ node (record d { element_type = union_type }) (references (name ∷ names) cs)
]

abbrev pub is_dangling : NodeData → Scope → Bool
is_dangling d parent =
    is_element d.element_type null_type
    && is_value d.value_type type_void
    && not (eqb_ℤ d.id null_id)
    && defined parent

abbrev pub in_node : NodeData → Run Children → Run TreeNode
in_node d none = none
in_node d (some r) = some (r.0, node d r.1)

abbrev pub then_children : Children → Run TreeNode → Run Children → Run Children
then_children ts none rest = none
then_children ts (some r) none = none
then_children ts (some r) (some s) = elim (is_ok r.0) [
  | true ↦ some (s.0, child r.1 s.1)
  | false ↦ some (r.0, child r.1 ts)
]

-- resolveDeepNodeReferences
unfoldable mutual
  unfolding relate_tree_node make_union

  pub resolve_references : NameItemMap → Scope → TreeNode → Run TreeNode
  resolve_references items parent (node d cs) =
      let below = resolve_children items d.scope cs in
      if is_dangling d parent
      then relate_tree_node items (record d { element_type = union_type }) cs
      else in_node d below

  pub resolve_children : NameItemMap → Scope → Children → Run Children
  resolve_children items scope no_child = some (ok, no_child)
  resolve_children items scope (child (node d cs) ts) =
      let rest = resolve_children items scope ts in
      let inner = resolve_references items scope (node d cs) in
      then_children ts (if is_untyped_value d then some (ok, make_union items d cs) else inner) rest

-- The children of a root behind those that it has.
abbrev pub append_children : Children → Children → Children
append_children no_child ys = ys
append_children (child x xs) ys = child x (append_children xs ys)

-- The parts of finish, one behind the other.
abbrev pub as_root : TreeNode → TreeNode
as_root (node d cs) =
    node (record d { element_type = struct_type; follow_type = follow_immediate }) cs

unfoldable pub declared_tree : TreeNode → ErrorCode × TreeNode × Globals
unfolding declare_children
declared_tree (node d cs) =
    let r = declare_children true cs (record { items = []; roots = no_child }) in
    let t = node (emptied d cs r.1) (if is_ok r.0 then append_children r.1 r.2.roots else r.1) in
    (r.0, t, r.2)

unfoldable pub checked : TreeNode → Effect TreeNode
unfolding inherit_optional check_tree
checked t = (check_tree (inherit_optional t), inherit_optional t)

unfoldable pub finish : TreeNode → Run TreeNode
unfolding update_resolve_type assign_scope declared_tree resolve_references checked
finish t =
    let r = declared_tree (assign_scope 0 (update_resolve_type (as_root t))).1 in
    and_run (r.0, r.1)
      (λ t. bind_run (resolve_references r.2.items no_scope t) (λ t. some (checked t)))

-- papuga_SchemaDescription_done
abbrev pub finished : SchemaDescription → Run TreeNode → Option (Bool × SchemaDescription)
finished s none = none
finished s (some r) = some (is_ok r.0, record s { lasterr = r.0; tree = r.1; done = is_ok r.0 })

unfoldable pub schema_done : SchemaDescription → Option (Bool × SchemaDescription)
unfolding finish
schema_done s = if s.done then some (true, s) else finished s (finish s.tree)
