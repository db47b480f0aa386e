-- ===== src/Schema/ConditionsEnd.antt =====
-- That the loops over conditions in src/schemaDescription.cpp end.
use papuga.ErrorCode.{ErrorCode, ok, is_ok, uncaught_exception}
use papuga.Prelude.{
  ℕ, zero, suc, ◌≤◌, ◌<◌, ◌≡◌, inl, inr, true, false, some, List, [], ◌∷◌, ◌==◌, length, drop,
  arith, Bool-cases,
}
use papuga.Request.Description.Expression.{Text}
use papuga.Schema.{ElementType, value_type, attribute_type, Children, Run, Parsed, thrown, parsed}
use papuga.Schema.Scan.{at, between, skip_element, skip_spaces}
use papuga.Schema.Conditions.{
  condition_examples, named_condition, condition_at, condition_element, next_list, next_condition,
  conditions, add_condition_elements,
}
use papuga.Schema.Fuel.{Ends, on_if, on_elim}
use papuga.Schema.Positions.{
  length-drop_le, skip_element-shorter, skip_spaces-shorter, BehindWithin,
  condition_examples-Within,
}

-- A condition that is no error is followed by less than `n` bytes.
abbrev Leaves : ℕ → ErrorCode × Children × Text → Type 0
Leaves n r = is_ok r.0 ≡ true → length r.2 < n

named_condition-Leaves :
    (n : ℕ) (element_type : ElementType) (name : Text) (r : Parsed (List Text × Text))
    (cs : Children) (k : ℕ)
    → BehindWithin k r
    → k < n
    → Leaves n (named_condition element_type name r cs)
unfolding named_condition
named_condition-Leaves n element_type name (thrown e) cs k h lt q = omega arith
named_condition-Leaves n element_type name (parsed r) cs k h lt q = omega arith

condition_at-Leaves :
    (element_type : ElementType) (start : Text) (cs : Children)
    → Leaves (length start) (condition_at element_type start cs)
unfolding condition_at
condition_at-Leaves element_type start cs =
    elim (Bool-cases (length (skip_element start) == length start)) [
      | inl e ↦ rw (e, condition_at, Leaves) (λ q. absurd (ground arith))
      | inr e ↦
          let rest = skip_spaces (skip_element start) in
          rw (e, condition_at)
            (named_condition-Leaves (length start) element_type (between start (skip_element start))
              (condition_examples rest) cs (length rest) (condition_examples-Within rest)
              (ground
                (arith, skip_spaces-shorter (skip_element start), skip_element-shorter start)))
    ]

condition_element-Leaves :
    (src : Text) (cs : Children) → Leaves (suc (length src)) (condition_element src cs)
unfolding condition_element
condition_element-Leaves src cs =
    let s = skip_spaces src in
    on_if (Leaves (suc (length src))) (at s == b'@') (condition_at attribute_type (drop 1 s) cs)
      (condition_at value_type s cs)
      (λ q. omega (
        arith,
        condition_at-Leaves attribute_type (drop 1 s) cs q,
        skip_spaces-shorter src,
        length-drop_le 1 s,
      ))
      (λ q. omega (arith, condition_at-Leaves value_type s cs q, skip_spaces-shorter src))

next_list-Ends :
    (n : ℕ) (loop : Text → Children → Run Children) (src : Text) (cs : Children)
    → ((s : Text) (cs : Children) → length s < n → Ends (loop s cs))
    → length src ≤ n
    → Ends (next_list loop src cs)
unfolding next_list
next_list-Ends n loop [] cs h le = tt
next_list-Ends n loop (c ∷ src) cs h le =
    on_elim Ends (c == b'[') (loop src cs) (some (ok, cs)) (h src cs (omega arith)) tt

next_condition-Ends :
    (n : ℕ) (loop : Text → Children → Run Children) (src : Text) (cs : Children)
    → ((s : Text) (cs : Children) → length s < n → Ends (loop s cs))
    → length src ≤ n
    → Ends (next_condition loop src cs)
unfolding next_condition
next_condition-Ends n loop [] cs h le = tt
next_condition-Ends n loop (c ∷ src) cs h le =
    on_elim Ends (c == b',') (loop src cs)
      (elim (c == b']') [
        | true ↦ next_list loop (skip_spaces src) cs
        | false ↦ some (uncaught_exception, cs)
      ])
      (h src cs (omega arith))
      (on_elim Ends (c == b']') (next_list loop (skip_spaces src) cs)
        (some (uncaught_exception, cs))
        (next_list-Ends n loop (skip_spaces src) cs h (omega (arith, skip_spaces-shorter src))) tt)

conditions-Ends :
    (fuel : ℕ) (src : Text) (cs : Children) → length src < fuel → Ends (conditions fuel src cs)
unfolding conditions
conditions-Ends zero src cs lt = absurd (omega arith)
conditions-Ends (suc fuel) src cs lt = elim (Bool-cases (is_ok (condition_element src cs).0)) [
  | inr e ↦ rw (e, conditions, Ends) tt
  | inl e ↦
      rw (e, conditions)
        (next_condition-Ends fuel (conditions fuel) (condition_element src cs).2
          (condition_element src cs).1 (λ s cs h. conditions-Ends fuel s cs h)
          (omega (arith, condition_element-Leaves src cs e)))
]

-- The loops over conditions end.
pub add_condition_elements-Ends :
    (src : Text) (cs : Children) → Ends (add_condition_elements src cs)
unfolding add_condition_elements
add_condition_elements-Ends src cs =
    next_list-Ends (suc (length src)) (conditions (suc (length src))) src cs
      (λ s cs h. conditions-Ends (suc (length src)) s cs h) (omega arith)
