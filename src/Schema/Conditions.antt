-- ===== src/Schema/Conditions.antt =====
-- TreeNode::addConditionElements of src/schemaDescription.cpp.
use papuga.ErrorCode.{ErrorCode, ok, is_ok, syntax_error, uncaught_exception}
use papuga.Prelude.{
  ℕ, zero, suc, true, false, ◌||◌, none, some, List, [], ◌∷◌, ◌++◌, ◌==◌, if◌then◌else◌, length,
  drop,
}
use papuga.Request.Description.Expression.{Text, text_eq}
use papuga.Schema.{
  ElementType, value_type, attribute_type, type_void, follow_immediate, node, Children, no_child,
  child, new_data, Effect, Run, Parsed, thrown, parsed,
}
use papuga.Schema.Scan.{at, between, skip_element, skip_spaces, parse_token, parse_string}
use papuga.Schema.Node.{is_element}

-- The node of a condition: a new one with its examples, or the examples added to one that is there.
unfoldable pub put_condition : Text → ElementType → List Text → Children → Effect Children
unfolding text_eq
put_condition name element_type examples no_child = (
  ok,
  child (node (new_data name element_type type_void follow_immediate examples) no_child) no_child,
)
put_condition name element_type examples (child (node d cs) ts) =
    let rest = put_condition name element_type examples ts in
    if text_eq name d.name
    then if is_element d.element_type element_type
      then (ok, child (node (record d { examples = d.examples ++ examples }) cs) ts)
      else (syntax_error, child (node d cs) ts)
    else (rest.0, child (node d cs) rest.1)

abbrev pub spaced : Parsed (Text × Text) → Parsed (List Text × Text)
spaced (thrown e) = thrown e
spaced (parsed r) = parsed (r.0 ∷ [], skip_spaces r.1)

-- The value behind an equality sign, and the position behind it.
unfoldable pub condition_value : Text → Parsed (List Text × Text)
unfolding parse_token parse_string
condition_value src =
    if at src == b'\'' || at src == b'"'
    then spaced (parse_string src)
    else spaced (parsed (parse_token src))

unfoldable pub condition_examples : Text → Parsed (List Text × Text)
unfolding condition_value
condition_examples src =
    if at src == b'=' then condition_value (skip_spaces (drop 1 src)) else parsed ([], src)

unfoldable pub named_condition :
    ElementType → Text → Parsed (List Text × Text) → Children → ErrorCode × Children × Text
unfolding put_condition
named_condition element_type name (thrown e) chld = (e, chld, [])
named_condition element_type name (parsed r) chld =
    let p = put_condition name element_type r.0 chld in (p.0, p.1, r.1)

-- A condition from its name on.
unfoldable pub condition_at : ElementType → Text → Children → ErrorCode × Children × Text
unfolding named_condition condition_examples skip_element
condition_at element_type start chld =
    if length (skip_element start) == length start
    then (syntax_error, chld, start)
    else named_condition element_type (between start (skip_element start))
        (condition_examples (skip_spaces (skip_element start))) chld

unfoldable pub condition_element : Text → Children → ErrorCode × Children × Text
unfolding condition_at
condition_element src chld =
    if at (skip_spaces src) == b'@'
    then condition_at attribute_type (drop 1 (skip_spaces src)) chld
    else condition_at value_type (skip_spaces src) chld

-- Behind a closing bracket: the next list of conditions, or the end.
unfoldable pub next_list : (Text → Children → Run Children) → Text → Children → Run Children
next_list loop src chld = elim (at src == b'[') [
  | true ↦ loop (drop 1 src) chld
  | false ↦ some (ok, chld)
]

-- Behind a condition. A `std::runtime_error` is what the C functions report as
-- papuga_UncaughtException.
unfoldable pub next_condition : (Text → Children → Run Children) → Text → Children → Run Children
unfolding next_list
next_condition loop src chld = elim (at src == b',') [
  | true ↦ loop (drop 1 src) chld
  | false ↦ elim (at src == b']') [
    | true ↦ next_list loop (skip_spaces (drop 1 src)) chld
    | false ↦ some (uncaught_exception, chld)
  ]
]

-- The two loops as one, behind an opening bracket or a comma.
unfoldable pub conditions : ℕ → Text → Children → Run Children
unfolding next_condition condition_element
conditions zero src chld = none
conditions (suc fuel) src chld =
    let r = condition_element src chld in
    elim (is_ok r.0) [ true ↦ next_condition (conditions fuel) r.2 r.1 | false ↦ some (r.0, r.1) ]

-- addConditionElements, with fuel for each byte of the expression.
unfoldable pub add_condition_elements : Text → Children → Run Children
unfolding next_list conditions
add_condition_elements src chld = next_list (conditions (suc (length src))) src chld
