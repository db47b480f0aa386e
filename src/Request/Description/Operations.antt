-- ===== src/Request/Description/Operations.antt =====
-- The operations of AutomatonDescription in src/request.cpp as one type, and what a sequence of them
-- makes of the members, whether each one succeeds or fails.
use papuga.Prelude.{Bool, Option, List, [], ◌∷◌}
use papuga.Prelude.Int.{ℤ}
use papuga.Request.Description.Expression.{Text}
use papuga.Request.Description.State.{
  Services, Description, Result, ResolveType, RequestMethodId, ResultNode, EnvAssignment,
}
use papuga.Request.Description.Calls.{
  add_inherit_from, prioritize_last_call_in_scope, add_call, set_call_arg_var, set_call_arg_item,
  open_group, close_group, finish,
}
use papuga.Request.Description.Structs.{
  add_structure, set_member_item, set_member_var, add_value, add_result_description,
  add_env_assignment,
}

pub data Operation : Type 0 where
  inherits : Text → Text → Bool → Operation
  prioritizes : Text → Operation
  calls : Text → RequestMethodId → Option Text → Option Text → ℤ → Operation
  arg_var : ℤ → Option Text → Operation
  arg_item : ℤ → ℤ → ResolveType → ℤ → Operation
  structures : Text → ℤ → ℤ → Operation
  member_item : ℤ → Option Text → ℤ → ResolveType → ℤ → Operation
  member_var : ℤ → Option Text → Option Text → Operation
  values : Text → Text → ℤ → Operation
  opens_group : ℤ → Operation
  closes_group : Operation
  results : List ResultNode → Operation
  assigns : EnvAssignment → Operation
  finishes : Operation

module _ (svc : Services) where
  abbrev pub run : Operation → Description svc → Result svc
  run (inherits t e b) d = add_inherit_from svc d t e b
  run (prioritizes e) d = prioritize_last_call_in_scope svc d e
  run (calls e m s r n) d = add_call svc d e m s r n
  run (arg_var i v) d = set_call_arg_var svc d i v
  run (arg_item i n t g) d = set_call_arg_item svc d i n t g
  run (structures e i n) d = add_structure svc d e i n
  run (member_item i n t r g) d = set_member_item svc d i n t r g
  run (member_var i n v) d = set_member_var svc d i n v
  run (values e s i) d = add_value svc d e s i
  run (opens_group g) d = open_group svc d g
  run closes_group d = close_group svc d
  run (results ns) d = add_result_description svc d ns
  run (assigns a) d = add_env_assignment svc d a
  run finishes d = finish svc d

  abbrev pub run_all : List Operation → Description svc → Description svc
  run_all [] d = d
  run_all (op ∷ ops) d = run_all ops (run op d).1
