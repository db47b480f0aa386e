-- ===== src/Schema/Termination.antt =====
-- That adding an expression in src/schemaDescription.cpp ends: addElement and addFollow call one another.
use papuga.ErrorCode.{ok, syntax_error}
use papuga.Prelude.{
  ℕ, zero, suc, ◌-◌, ◌≤◌, ◌<◌, inl, inr, Bool, true, false, ◌&&◌, ◌||◌, not, some, List, [], ◌∷◌,
  ◌==◌, if◌then◌else◌, length, drop, take, arith, Bool-cases,
}
use papuga.Request.Description.Expression.{Text}
use papuga.Request.Description.State.{array}
use papuga.Schema.{
  ElementType, null_type, value_type, FollowType, follow_immediate, follow_deep, TreeNode, node,
  Children, Run, and_run, bind_run, Parsed, thrown, parsed,
}
use papuga.Schema.Scan.{at, between, skip_brackets, skip_element, split, alt_node_list}
use papuga.Schema.Node.{
  is_element, set_element_type_unique, set_follow_type_unique, set_resolve_type_unique,
  is_attribute_only_struct, add_related, at_child, on_children, on_data,
}
use papuga.Schema.Conditions.{add_condition_elements}
use papuga.Schema.Follow.{
  Added, when, as_struct, follow_content, set_end, behind_slash, follow, follow_parsed, add_follow,
}
use papuga.Schema.Build.{
  alternatives, kinded, kinded_content, follow_kind, element_child, child_kind, is_recursive,
  named_child, named_element, alternative_elements, braced_element, add_element_with, add_element,
  add_sub_tree,
}
use papuga.Schema.Fuel.{Ends, on_if, and_run-Ends, bind_run-Ends, at_child-Ends, on_children-Ends}
use papuga.Schema.Positions.{length-drop_le, skip_element-shorter, Below, skip_brackets-Below}
use papuga.Schema.ConditionsEnd.{add_condition_elements-Ends}

module _ (n : ℕ) (element : Text → FollowType → TreeNode → Run TreeNode)
    (ends : (s : Text) (f : FollowType) (t : TreeNode) → length s < n → Ends (element s f t)) where
  slash-Ends : (src : Text) (t : TreeNode) → length src < n → Ends (behind_slash element src t)
  slash-Ends src t le = elim (Bool-cases (at (drop 1 src) == b'/')) [
    | inl e ↦
        rw (e, behind_slash) (ends (drop 2 src) follow_deep t (omega (arith, length-drop_le 2 src)))
    | inr e ↦
        rw (e, behind_slash)
          (ends (drop 1 src) follow_immediate t (omega (arith, length-drop_le 1 src)))
  ]

  follow-Ends :
      (a : Added) (src : Text) (t : TreeNode) → length src < n → Ends (follow element a src t)
  unfolding follow
  follow-Ends a src t le = elim (Bool-cases (at src == b'/')) [
    | inl e ↦
        rw (e, follow)
          (and_run-Ends (as_struct t) (behind_slash element src) (λ t. slash-Ends src t le))
    | inr e ↦ elim (Bool-cases (at src == b'@')) [
      | inl p ↦
          rw (e, p, follow)
            (and_run-Ends (as_struct t) (element src follow_immediate)
              (λ t. ends src follow_immediate t le))
      | inr p ↦
          let last = if at src == 0 then some (on_data (set_end a) t) else some (syntax_error, t) in
          rw (e, p, follow)
            (on_if Ends (at src == b'(') (some (follow_content a t)) last tt (
              on_if Ends (at src == 0) (some (on_data (set_end a) t)) (some (syntax_error, t)) tt
                tt))
    ]
  ]

  follow_parsed-Ends :
      (a : Added) (r : Parsed Text) (t : TreeNode) → Below n r → Ends (follow_parsed element a r t)
  follow_parsed-Ends a (thrown e) t h = tt
  follow_parsed-Ends a (parsed src) t h = follow-Ends a src t h

  add_follow-Ends :
      (a : Added) (src : Text) (t : TreeNode) → length src < n → Ends (add_follow element a src t)
  unfolding add_follow
  add_follow-Ends a src t le = elim (Bool-cases (at src == b'[')) [
    | inl e ↦
        let inside = follow_parsed element a (skip_brackets src) in
        rw (e, add_follow)
          (and_run-Ends (as_struct t)
            (λ t. bind_run (on_children (add_condition_elements src) t) inside)
            (λ t.
              bind_run-Ends (on_children (add_condition_elements src) t) inside
                (on_children-Ends (add_condition_elements src) t (add_condition_elements-Ends src))
                (λ t.
                  follow_parsed-Ends a (skip_brackets src) t
                    (skip_brackets-Below src n (omega arith)))))
    | inr e ↦ rw (e, add_follow) (follow-Ends a src t le)
  ]

-- What addElement does with a child, `go` being what ends on every node.
module _ (go : TreeNode → Run TreeNode) (goes : (t : TreeNode) → Ends (go t)) where
  alternatives-Ends :
      (f : FollowType) (names : List Text) (cs : Children) → Ends (alternatives f go names cs)
  alternatives-Ends f [] cs = tt
  alternatives-Ends f (name ∷ names) cs =
      let one = λ (t : TreeNode). and_run (on_data (set_follow_type_unique f) t) go in
      bind_run-Ends (at_child name one cs) (alternatives f go names)
        (at_child-Ends name one cs
          (λ t. and_run-Ends (on_data (set_follow_type_unique f) t) go goes))
        (alternatives-Ends f names)

  kinded-Ends : (kind : ElementType) (t : TreeNode) → Ends (kinded kind go t)
  kinded-Ends kind t = and_run-Ends (on_data (set_element_type_unique kind) t) go goes

  follow_kind-Ends : (kind : ElementType) (t : TreeNode) → Ends (follow_kind kind go t)
  unfolding follow_kind
  follow_kind-Ends kind t =
      let content = on_children (at_child [] (kinded_content kind go)) t in
      let rest =
        if is_element kind value_type && is_attribute_only_struct t
        then content
        else kinded kind go t in
      on_if Ends (is_element kind null_type) (go t) rest (goes t) (
        on_if Ends (is_element kind value_type && is_attribute_only_struct t) content
          (kinded kind go t)
          (on_children-Ends (at_child [] (kinded_content kind go)) t (λ cs.
            at_child-Ends [] (kinded_content kind go) cs (λ t.
              and_run-Ends (on_data (set_follow_type_unique follow_immediate) t) (kinded kind go)
                (kinded-Ends kind))))
          (kinded-Ends kind t))

  element_child-Ends :
      (a : Added) (attribute : Bool) (f : FollowType) (kind : ElementType) (t : TreeNode)
      → Ends (element_child a attribute f kind go t)
  unfolding element_child
  element_child-Ends a attribute f kind t =
      let rest =
        λ (t : TreeNode). and_run (on_data (set_follow_type_unique f) t) (follow_kind kind go) in
      and_run-Ends (on_data (when attribute (set_resolve_type_unique a.resolve_type)) t) rest (λ t.
        and_run-Ends (on_data (set_follow_type_unique f) t) (follow_kind kind go)
          (follow_kind-Ends kind))

-- addElement, `go` being what ends on every text of less than `n` bytes.
module _ (n : ℕ) (go : Text → TreeNode → Run TreeNode)
    (goes : (s : Text) (t : TreeNode) → length s < n → Ends (go s t)) where
  named_element-Ends :
      (a : Added) (attribute : Bool) (start : Text) (f : FollowType) (t : TreeNode)
      → length start ≤ n
      → Ends (named_element go a attribute start f t)
  unfolding named_element
  named_element-Ends a attribute start f (node d cs) le =
      elim (Bool-cases (length (skip_element start) == length start)) [
        | inl e ↦ rw (e, named_element, Ends) tt
        | inr e ↦
            let rest = skip_element start in
            let name = between start rest in
            let test = not attribute && at rest == b'(' && is_recursive a f (named_child name cs) in
            let related : Run TreeNode =
              some (ok, node (add_related (record { id = a.id; resolve_type = array }) d) cs) in
            let kind = child_kind a attribute rest in
            let below =
              on_children (at_child name (element_child a attribute f kind (go rest)))
                (node d cs) in
            let fewer : length rest < n = ground (arith, skip_element-shorter start) in
            rw (e, named_element)
              (on_if Ends test related below tt (
                on_children-Ends (at_child name (element_child a attribute f kind (go rest)))
                  (node d cs)
                  (λ cs. at_child-Ends name (element_child a attribute f kind (go rest)) cs (λ t.
                    element_child-Ends (go rest) (λ t. goes rest t fewer) a attribute f kind t))))
      ]

  alternative_elements-Ends :
      (f : FollowType) (r : Parsed (List Text)) (rest : Text) (t : TreeNode)
      → length rest < n
      → Ends (alternative_elements go f r rest t)
  alternative_elements-Ends f (thrown e) rest t le = tt
  alternative_elements-Ends f (parsed names) rest t le =
      on_children-Ends (alternatives f (go rest) names) t
        (alternatives-Ends (go rest) (λ t. goes rest t le) f names)

  braced_element-Ends :
      (f : FollowType) (src : Text) (r : Parsed Text) (t : TreeNode)
      → Below n r
      → Ends (braced_element go f src r t)
  unfolding braced_element
  braced_element-Ends f src (thrown e) t h = tt
  braced_element-Ends f src (parsed rest) t h =
      alternative_elements-Ends f
        (alt_node_list (split b',' (take (length src - length rest - 2) (drop 1 src)))) rest t h

  add_element_with-Ends :
      (a : Added) (src : Text) (f : FollowType) (t : TreeNode)
      → length src ≤ n
      → Ends (add_element_with go a src f t)
  unfolding add_element_with
  add_element_with-Ends a src f t le =
      let plain =
        if at src == b'@'
        then named_element go a true (drop 1 src) f t
        else named_element go a false src f t in
      on_if Ends (at src == b'{') (braced_element go f src (skip_brackets src) t) plain
        (braced_element-Ends f src (skip_brackets src) t (skip_brackets-Below src n le))
        (on_if Ends (at src == b'@') (named_element go a true (drop 1 src) f t)
          (named_element go a false src f t)
          (named_element-Ends a true (drop 1 src) f t (omega (arith, length-drop_le 1 src)))
          (named_element-Ends a false src f t le))

add_element-Ends :
    (fuel : ℕ) (a : Added) (src : Text) (f : FollowType) (t : TreeNode)
    → length src < fuel
    → Ends (add_element fuel a src f t)
unfolding add_element
add_element-Ends zero a src f t lt = absurd (omega arith)
add_element-Ends (suc fuel) a src f t lt =
    add_element_with-Ends fuel (add_follow (add_element fuel a) a)
      (λ s t lt.
        add_follow-Ends fuel (add_element fuel a) (λ s f t lt. add_element-Ends fuel a s f t lt) a s
          t lt)
      a src f t (omega arith)

-- With more fuel than the expression has bytes, adding it to a tree ends, be it with an error or not.
pub add_sub_tree-Ends :
    (fuel : ℕ) (a : Added) (src : Text) (t : TreeNode)
    → length src < fuel
    → Ends (add_sub_tree fuel a src t)
unfolding add_sub_tree
add_sub_tree-Ends fuel a src t lt =
    let go = add_follow (add_element fuel a) a in
    let ends =
      add_follow-Ends fuel (add_element fuel a) (λ s f t lt. add_element-Ends fuel a s f t lt) a in
    let element = add_element fuel a src follow_immediate t in
    let other = if at src == b'[' || at src == b'(' then go src t else element in
    let rooted = if at (drop 1 src) == 0 then go (drop 1 src) t else go src t in
    on_if Ends (at src == b'/') rooted other
      (on_if Ends (at (drop 1 src) == 0) (go (drop 1 src) t) (go src t)
        (ends (drop 1 src) t (omega (arith, length-drop_le 1 src))) (ends src t lt))
      (on_if Ends (at src == b'[' || at src == b'(') (go src t) element (ends src t lt)
        (add_element-Ends fuel a src follow_immediate t lt))
