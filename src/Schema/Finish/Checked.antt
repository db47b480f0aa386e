-- ===== src/Schema/Finish/Checked.antt =====
-- What SchemaDescription::finish of src/schemaDescription.cpp makes sure of.
use mathlib.Core.Path.{subst}
use papuga.ErrorCode.{ErrorCode, ok, is_ok}
use papuga.Prelude.{
  ℕ, zero, suc, ◌≡◌, ◌≢◌, inl, inr, true, false, ◌&&◌, not, Option, none, some, List, [], ◌∷◌,
  if◌then◌else◌, arith, Bool-cases,
}
use papuga.Request.Description.Expression.{Text}
use papuga.Request.Description.State.{ResolveType, required}
use papuga.Request.Keys.{Scope, no_scope}
use papuga.Schema.{
  null_type, value_type, reference_type, union_type, follow_immediate, null_id, NodeData, TreeNode,
  node, Children, no_child, child, Effect, Run, and_run, bind_run,
}
use papuga.Schema.Node.{is_element, on_data, at_child}
use papuga.Schema.Fuel.{Ends, on_if, on_elim, at_child-Ends, bind_run-Ends}
use papuga.Schema.Scopes.{assign_scope}
use papuga.Schema.Finish.{
  has_child, check_node, first_error, check_tree, check_children, inherit_optional,
  update_resolve_type,
}
use papuga.Schema.Finish.Deep.{NameItemMap}
use papuga.Schema.Finish.References.{
  names_of, is_single, make_reference, relate_names, related_node, relate_tree_node,
  is_untyped_value, make_union, is_dangling, in_node, then_children, resolve_references,
  resolve_children, as_root, declared_tree, checked, finish,
}

-- The subtree at a path, which has the place of a child for each step down.
abbrev mutual
  pub tree_at : List ℕ → TreeNode → Option TreeNode
  tree_at [] t = some t
  tree_at (i ∷ path) (node d cs) = tree_in i path cs

  pub tree_in : ℕ → List ℕ → Children → Option TreeNode
  tree_in i path no_child = none
  tree_in zero path (child t ts) = tree_at path t
  tree_in (suc i) path (child t ts) = tree_in i path ts

-- A node that has a type and is reached from its parent in one step; one that is a value has no children.
abbrev pub IsChecked : TreeNode → Type 0
IsChecked (node d cs) =
    (d.element_type ≢ null_type)
    × (d.follow_type ≡ follow_immediate)
    × (d.element_type ≡ value_type → has_child cs ≡ false)

check_node-IsChecked :
    (d : NodeData) (cs : Children) → is_ok (check_node d cs) ≡ true → IsChecked (node d cs)
unfolding check_node
check_node-IsChecked d cs h = ground arith

first_error-ok :
    (a b : ErrorCode) → is_ok (first_error a b) ≡ true → (is_ok a ≡ true) × (is_ok b ≡ true)
first_error-ok a b h = elim (Bool-cases (is_ok a)) [
  | inl e ↦ (e, rw (e, first_error) at h)
  | inr e ↦ let failed : is_ok a ≡ true = rw (e, first_error) at h in absurd (ground arith)
]

mutual
  unfolding check_tree

  check_tree_at :
      (t : TreeNode) (path : List ℕ) (u : TreeNode)
      → is_ok (check_tree t) ≡ true
      → tree_at path t ≡ some u
      → IsChecked u
  check_tree_at (node d cs) [] u h e =
      subst (λ (o : Option TreeNode). elim o [ none ↦ Unit | some x ↦ IsChecked x ]) e
        (check_node-IsChecked d cs (first_error-ok (check_node d cs) (check_children cs) h).0)
  check_tree_at (node d cs) (i ∷ path) u h e =
      check_tree_in cs i path u (first_error-ok (check_node d cs) (check_children cs) h).1 e

  check_tree_in :
      (cs : Children) (i : ℕ) (path : List ℕ) (u : TreeNode)
      → is_ok (check_children cs) ≡ true
      → tree_in i path cs ≡ some u
      → IsChecked u
  check_tree_in no_child i path u h e = absurd (ground arith)
  check_tree_in (child t ts) zero path u h e =
      check_tree_at t path u (first_error-ok (check_tree t) (check_children ts) h).0 e
  check_tree_in (child t ts) (suc i) path u h e =
      check_tree_in ts i path u (first_error-ok (check_tree t) (check_children ts) h).1 e

relate_names-Ends :
    (r : ResolveType) (names : List Text) (cs : Children) → Ends (relate_names r names cs)
unfolding relate_names
relate_names-Ends r [] cs = tt
relate_names-Ends r (name ∷ names) cs =
    let one = λ (t : TreeNode). some (on_data (make_reference r) t) in
    bind_run-Ends (at_child name one cs) (relate_names r names)
      (at_child-Ends name one cs (λ t. tt)) (relate_names-Ends r names)

related_node-Ends : (d : NodeData) (r : Run Children) → Ends r → Ends (related_node d r)
related_node-Ends d none h = h
related_node-Ends d (some r) h = tt

relate_tree_node-Ends :
    (items : NameItemMap) (d : NodeData) (cs : Children) → Ends (relate_tree_node items d cs)
unfolding relate_tree_node
relate_tree_node-Ends items d cs =
    let names = names_of d.id items in
    let direct : Run TreeNode =
      some (ok, node (record d { element_type = reference_type; id = null_id }) cs) in
    on_if Ends
      (is_single names d.name && not (has_child cs) && is_element d.element_type union_type) direct
      (related_node d (relate_names required names cs)) tt
      (related_node-Ends d (relate_names required names cs) (relate_names-Ends required names cs))

in_node-Ends : (d : NodeData) (r : Run Children) → Ends r → Ends (in_node d r)
in_node-Ends d none h = h
in_node-Ends d (some r) h = tt

then_children-Ends :
    (ts : Children) (r : Run TreeNode) (rest : Run Children)
    → Ends r
    → Ends rest
    → Ends (then_children ts r rest)
then_children-Ends ts none rest h k = h
then_children-Ends ts (some r) none h k = k
then_children-Ends ts (some r) (some s) h k =
    on_elim Ends (is_ok r.0) (some (s.0, child r.1 s.1)) (some (r.0, child r.1 ts)) tt tt

mutual
  unfolding resolve_references

  resolve_references-Ends :
      (items : NameItemMap) (parent : Scope) (t : TreeNode)
      → Ends (resolve_references items parent t)
  resolve_references-Ends items parent (node d cs) =
      let below = in_node d (resolve_children items d.scope cs) in
      let dangling = relate_tree_node items (record d { element_type = union_type }) cs in
      on_if Ends (is_dangling d parent) dangling below
        (relate_tree_node-Ends items (record d { element_type = union_type }) cs)
        (in_node-Ends d (resolve_children items d.scope cs)
          (resolve_children-Ends items d.scope cs))

  resolve_children-Ends :
      (items : NameItemMap) (scope : Scope) (cs : Children) → Ends (resolve_children items scope cs)
  resolve_children-Ends items scope no_child = tt
  resolve_children-Ends items scope (child (node d cs) ts) =
      let inner = resolve_references items scope (node d cs) in
      let union : Run TreeNode = some (ok, make_union items d cs) in
      then_children-Ends ts (if is_untyped_value d then union else inner)
        (resolve_children items scope ts)
        (on_if Ends (is_untyped_value d) union inner tt
          (resolve_references-Ends items scope (node d cs)))
        (resolve_children-Ends items scope ts)

-- A run that ends, and whose tree, if there is no error, has checked nodes only.
abbrev pub Finishes : Run TreeNode → Type 0
Finishes none = ⊥
Finishes (some r) =
    is_ok r.0 ≡ true → (path : List ℕ) (u : TreeNode) → tree_at path r.1 ≡ some u → IsChecked u

and_run-Finishes :
    (r : Effect TreeNode) (next : TreeNode → Run TreeNode)
    → ((t : TreeNode) → Finishes (next t))
    → Finishes (and_run r next)
and_run-Finishes r next h = elim (Bool-cases (is_ok r.0)) [
  | inl e ↦ rw (e, and_run) (h r.1)
  | inr e ↦ rw (e, Finishes) (λ good. absurd (ground arith))
]

bind_run-Finishes :
    (r : Run TreeNode) (next : TreeNode → Run TreeNode)
    → Ends r
    → ((t : TreeNode) → Finishes (next t))
    → Finishes (bind_run r next)
bind_run-Finishes none next k h = k
bind_run-Finishes (some r) next k h = and_run-Finishes r next h

-- finish ends on every tree; if it reports no error, every node of its tree has a type and is reached from
-- its parent in one step, and those that are values have no children.
pub finish-Finishes : (t : TreeNode) → Finishes (finish t)
unfolding finish checked
finish-Finishes t =
    let r = declared_tree (assign_scope 0 (update_resolve_type (as_root t))).1 in
    let last = λ (t : TreeNode). some (checked t) in
    and_run-Finishes (r.0, r.1) (λ t. bind_run (resolve_references r.2.items no_scope t) last)
      (λ t.
        bind_run-Finishes (resolve_references r.2.items no_scope t) last
          (resolve_references-Ends r.2.items no_scope t)
          (λ t good path u e. check_tree_at (inherit_optional t) path u good e))
