-- ===== src/Request/Description/Errors.antt =====
-- The error code of AutomatonDescription in src/request.cpp.
mod Rules
mod Calls
mod Structs
use papuga.ErrorCode.{ErrorCode, ok, is_ok}
use papuga.Prelude.{
  ℕ, ◌≡◌, refl, ◌≢◌, if◌then◌else◌, get_or, ◌||◌, Bool, true, false, length, ◌+◌, ◌*◌, suc, inl,
  inr, Option-cases, Bool-cases, Option, none, some, List, [], ◌∷◌, arith,
}
use papuga.Prelude.Int.{ℤ, pos, negsuc, pos_part, ltb_ℤ}
use papuga.Request.Description.Expression.{Text, cut_trailing_slashes}
use papuga.Request.Description.State.{
  Services, Description, Result, CallArgDef, CallDef, StructDef, RequestMethodId, ResolveType,
  ResultNode, no_arg, ResultNodeType, constant, open_structure, close_structure, open_array,
  close_array, input_reference, result_reference, EnvAssignment, back, copy_if_defined,
  check_item_id, extract_root_tag_name, add_expression, add_result_instruction_trigger, and_then,
}
use papuga.Request.Description.Calls.{
  add_inherit_from, prioritize_last_call_in_scope, add_call, alloc_args, add_call_error,
  add_checked_call, push_call, leb_ℤ, is_assigned, assign_arg, set_arg_of, set_call_arg,
  set_call_arg_var, set_call_arg_item, open_group, close_group, finish,
}
use papuga.Request.Description.Structs.{
  add_structure, set_member_item, set_member_var, add_value, add_result_description, set_item_of,
  set_var_of, push_value, set_member_item_in, set_checked_member_item, set_member_var_in,
  add_checked_value, add_opening_trigger, add_closing_trigger, add_opening_triggers,
  add_closing_triggers, add_env_assignment, assign_member, value_expression,
}
use papuga.Request.Description.Operations.{
  Operation, run, run_all, inherits, prioritizes, calls, arg_var, arg_item, structures, member_item,
  member_var, values, opens_group, closes_group, results, assigns, finishes,
}
use papuga.Request.Description.Errors.Rules.{
  Reports, fail-Reports, done-Reports, if-Reports, option-Reports, option-Reports,
  copy_if_defined-stays, check_item_id-Reports, add_expression-Reports,
  add_result_instruction_trigger-Reports, and_then-Reports, and_then-Reports, and_then-Reports,
}
use papuga.Request.Description.Errors.Calls.{
  prioritize-Reports, push_call-Reports, add_checked_call-Reports, assign_arg-Reports,
  add_call_error-is_ok, set_arg_of-Reports, set_call_arg-Reports, set_call_arg_var-Reports,
  set_call_arg_item-Reports, add_call-Reports, open_group-Reports, close_group-Reports,
  finish-Reports,
}
use papuga.Request.Description.Errors.Structs.{
  add_structure-Reports, set_member_item_in-Reports, set_item_of-Reports, set_member_item-Reports,
  set_member_var_in-Reports, set_var_of-Reports, set_member_var-Reports, push_value-Reports,
  add_value-Reports, add_opening_trigger-Reports, add_closing_trigger-Reports,
  add_opening_triggers-Reports, add_opening_triggers-Reports, add_closing_triggers-Reports,
  add_closing_triggers-Reports, add_result_description-Reports, add_env_assignment-Reports,
}

module _ (svc : Services) where
  run-Reports : (op : Operation) (d : Description svc) → Reports svc d.errcode (run svc op d)
  unfolding add_inherit_from
  run-Reports (inherits t e b) d = add_expression-Reports svc _ _ _ (λ h. h)
  run-Reports (prioritizes e) d = prioritize-Reports svc d e
  run-Reports (calls e m s r n) d = add_call-Reports svc d e m s r n
  run-Reports (arg_var i v) d = set_call_arg_var-Reports svc d i v
  run-Reports (arg_item i n t g) d = set_call_arg_item-Reports svc d i n t g
  run-Reports (structures e i n) d = add_structure-Reports svc d e i n
  run-Reports (member_item i n t r g) d = set_member_item-Reports svc d i n t r g
  run-Reports (member_var i n v) d = set_member_var-Reports svc d i n v
  run-Reports (values e s i) d = add_value-Reports svc d e s i
  run-Reports (opens_group g) d = open_group-Reports svc d g
  run-Reports closes_group d = close_group-Reports svc d
  run-Reports (results ns) d = add_result_description-Reports svc d ns
  run-Reports (assigns a) d = add_env_assignment-Reports svc d a
  run-Reports finishes d = finish-Reports svc d

  -- Each operation that returns false leaves an error code.
  pub run-failure :
      (op : Operation) (d : Description svc)
      → (run svc op d).0 ≡ false
      → (run svc op d).1.errcode ≢ ok
  run-failure op d h = (run-Reports op d).failure h

  -- No sequence of operations resets an error code that is set.
  pub run_all-errcode :
      (ops : List Operation) (d : Description svc)
      → d.errcode ≢ ok
      → (run_all svc ops d).errcode ≢ ok
  run_all-errcode [] d h = h
  run_all-errcode (op ∷ ops) d h = run_all-errcode ops (run svc op d).1 ((run-Reports op d).stays h)
