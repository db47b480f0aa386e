-- ===== src/ErrorCode.antt =====
-- The error codes of include/papuga/typedefs.h. A function of the program that reports one through
-- a pointer returns it beside its result here.

use papuga.Prelude.{Bool, true, false, ◌≡◌, ◌↔◌, arith}

pub data ErrorCode : Type 0 where
  ok logic_error no_mem_error type_error encoding_error : ErrorCode
  buffer_overflow_error out_of_range_error nof_args_error missing_self : ErrorCode
  invalid_access unexpected_eof not_implemented value_undefined : ErrorCode
  mixed_construction duplicate_definition syntax_error uncaught_exception : ErrorCode
  execution_order atomic_value_expected structure_expected not_allowed : ErrorCode
  iterator_failed addressed_item_not_found host_object_error : ErrorCode
  ambiguous_reference max_recursion_depth_reached complexity_of_problem : ErrorCode
  invalid_request attribute_not_atomic unknown_content_type unknown_schema : ErrorCode
  missing_structure_description delegate_request_failed : ErrorCode
  service_implementation_error : ErrorCode

-- `code == papuga_Ok`
abbrev pub is_ok : ErrorCode → Bool
is_ok ok = true
is_ok _ = false

pub is_ok_iff : (code : ErrorCode) → (is_ok code ≡ true) ↔ (code ≡ ok)
is_ok_iff code = ground arith
