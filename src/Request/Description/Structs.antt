-- ===== src/Request/Description/Structs.antt =====
-- The operations of AutomatonDescription in src/request.cpp on structures, values, result
-- descriptions and assignments of the environment.
use papuga.ErrorCode.{
  no_mem_error, type_error, buffer_overflow_error, invalid_access, duplicate_definition,
  syntax_error, execution_order,
}
use papuga.Prelude.{
  ℕ, suc, ◌+◌, ◌-◌, ◌*◌, ◌%◌, ◌^◌, true, ◌||◌, Option, none, some, List, [], ◌∷◌, ◌++◌, ltb, ◌==◌,
  if◌then◌else◌, length, set, get_or, replicate,
}
use papuga.Prelude.Int.{ℤ, pos, negsuc, pos_part, ltb_ℤ}
use papuga.Request.Refs.{instantiate_value, collect_value, close_struct, atm_ref_get}
use papuga.Request.Description.Expression.{
  Text, cut_trailing_slashes, is_select_attribute_expression, insert,
}
use papuga.Request.Description.State.{
  Services, Description, Result, fail, ResolveType, required, StructMemberDef, no_member, StructDef,
  EnvAssignment, ResultNodeType, constant, open_structure, close_structure, open_array, close_array,
  input_reference, result_reference, ResultNode, max_nof_env_assignments, push_back, back, set_back,
  copy_if_defined, check_item_id, add_expression, add_result_instruction_trigger, and_then,
}
use papuga.Request.Description.Calls.{leb_ℤ, close_expression, size_of_int}

-- The expression that closes the scope of a value.
unfoldable pub value_scope_end : Text → Text
value_scope_end open_expression =
    if is_select_attribute_expression open_expression
    then open_expression
    else open_expression ++ (b'~' ∷ [])

-- The expression of a value's content, from its scope and a selector that is not empty; `none` stands
-- for a syntax error.
unfoldable pub selected : Text → ℕ → Text → Option Text
selected open_expression c cs =
    if c == b'/'
    then if get_or cs 0 0 == b'/' then some (open_expression ++ (c ∷ cs)) else none
    else if c == b'@' || c == b'('
    then some (open_expression ++ (c ∷ cs))
    else some (open_expression ++ (b'/' ∷ c ∷ cs))

unfoldable pub value_expression : Text → Text → Option Text
value_expression open_expression [] = some open_expression
value_expression open_expression (c ∷ cs) =
    if is_select_attribute_expression open_expression then none else selected open_expression c cs

-- `int mm = nofmembers * sizeof(StructMemberDef)`
abbrev pub members_size : ℤ → ℕ
members_size (pos n) = size_of_int ((n * 32) % 2 ^ 32)
members_size (negsuc n) = size_of_int ((2 ^ 64 - (n + 1) * 32) % 2 ^ 32)

module _ (svc : Services) where
  -- addStructure; an array of a negative number of members has no element, as that of arguments.
  unfoldable pub add_structure : Description svc → Text → ℤ → ℤ → Result svc
  add_structure d expression itemid nofmembers = and_then svc (check_item_id svc d itemid) (λ d1.
      if d1.done
      then fail svc d1 execution_order
      else elim (svc.alloc d1.mem (members_size nofmembers) 0) [
        | none ↦ fail svc d1 no_mem_error
        | some mem ↦
            add_expression svc
              (record d1 {
                mem = mem;
                structdefs = push_back d1.structdefs (record {
                  itemid = itemid;
                  members = replicate (pos_part nofmembers) no_member;
                });
              })
              (atm_ref_get close_struct (length d1.structdefs)) (close_expression expression)
      ])

  -- The members of the last structure with one of them replaced.
  unfoldable pub assign_member : Description svc → StructDef → ℕ → StructMemberDef → Description svc
  assign_member d struct idx mdef = record d {
    structdefs = set_back d.structdefs (record struct { members = set struct.members idx mdef });
  }

  -- setMemberItem from its last test on.
  unfoldable pub set_member_item_in :
      Description svc → StructDef → ℕ → Option Text → ℤ → ResolveType → ℤ → Result svc
  set_member_item_in d struct idx name itemid resolvetype max_tag_diff =
      if leb_ℤ (pos 0) (get_or struct.members idx no_member).itemid
      then fail svc d duplicate_definition
      else let n = copy_if_defined svc d name in
        (
          true,
          assign_member n.1 struct idx (record {
            name = n.0;
            varname = none;
            itemid = itemid;
            resolvetype = resolvetype;
            max_tag_diff = max_tag_diff;
          }),
        )

  -- setMemberItem from the test of the index on, for the last structure.
  unfoldable pub set_item_of :
      Description svc → ℤ → Option Text → ℤ → ResolveType → ℤ → StructDef → Result svc
  set_item_of d idx name itemid resolvetype max_tag_diff struct =
      if ltb_ℤ idx (pos 0) || leb_ℤ (pos (length struct.members)) idx
      then fail svc d invalid_access
      else if ltb_ℤ itemid (pos 0)
      then fail svc d type_error
      else if ltb_ℤ max_tag_diff (negsuc 0)
      then fail svc d type_error
      else set_member_item_in d struct (pos_part idx) name itemid resolvetype max_tag_diff

  -- setMemberItem after checkItemId.
  unfoldable pub set_checked_member_item :
      Description svc → ℤ → Option Text → ℤ → ResolveType → ℤ → Result svc
  set_checked_member_item d idx name itemid resolvetype max_tag_diff =
      if d.done then fail svc d execution_order else elim (back d.structdefs) [
        | none ↦ fail svc d invalid_access
        | some struct ↦ set_item_of d idx name itemid resolvetype max_tag_diff struct
      ]

  unfoldable pub set_member_item :
      Description svc → ℤ → Option Text → ℤ → ResolveType → ℤ → Result svc
  set_member_item d idx name itemid resolvetype max_tag_diff =
      and_then svc (check_item_id svc d itemid)
        (λ d1. set_checked_member_item d1 idx name itemid resolvetype max_tag_diff)

  -- setMemberVar from its last test on.
  unfoldable pub set_member_var_in :
      Description svc → StructDef → ℕ → Option Text → Text → Result svc
  set_member_var_in d struct idx name varname =
      if leb_ℤ (pos 0) (get_or struct.members idx no_member).itemid
      then fail svc d duplicate_definition
      else let v = copy_if_defined svc d (some varname) in
        let n = copy_if_defined svc v.1 name in
        (
          true,
          assign_member n.1 struct idx (record {
            name = n.0;
            varname = v.0;
            itemid = negsuc 0;
            resolvetype = required;
            max_tag_diff = pos 0;
          }),
        )

  -- setMemberVar from the test of the index on, for the last structure.
  unfoldable pub set_var_of :
      Description svc → ℤ → Option Text → Option Text → StructDef → Result svc
  set_var_of d idx name varname struct =
      if ltb_ℤ idx (pos 0) || leb_ℤ (pos (length struct.members)) idx
      then fail svc d invalid_access
      else elim varname [
        | none ↦ fail svc d type_error
        | some v ↦ set_member_var_in d struct (pos_part idx) name v
      ]

  unfoldable pub set_member_var : Description svc → ℤ → Option Text → Option Text → Result svc
  set_member_var d idx name varname =
      if d.done then fail svc d execution_order else elim (back d.structdefs) [
        | none ↦ fail svc d invalid_access
        | some struct ↦ set_var_of d idx name varname struct
      ]

  -- addValue with both expressions made.
  unfoldable pub push_value : Description svc → Text → ℤ → Text → Result svc
  push_value d open_expression itemid expr =
      and_then svc
        (add_expression svc (record d { valuedefs = push_back d.valuedefs itemid })
          (atm_ref_get instantiate_value (length d.valuedefs)) expr)
        (λ d1.
          add_expression svc d1 (atm_ref_get collect_value (length d.valuedefs))
            (value_scope_end open_expression))

  -- addValue after checkItemId; both tests on the selector come before any change.
  unfoldable pub add_checked_value : Description svc → Text → Text → ℤ → Result svc
  add_checked_value d scope_expression select_expression itemid =
      if d.done
      then fail svc d execution_order
      else let open_expression = cut_trailing_slashes scope_expression in
        elim (value_expression open_expression select_expression) [
          | none ↦ fail svc d syntax_error
          | some expr ↦ push_value d open_expression itemid expr
        ]

  unfoldable pub add_value : Description svc → Text → Text → ℤ → Result svc
  add_value d scope_expression select_expression itemid =
      and_then svc (check_item_id svc d itemid)
        (λ d1. add_checked_value d1 scope_expression select_expression itemid)

  -- The first loop of addResultDescription: what opens, and the references.
  unfoldable pub add_opening_trigger :
      Description svc → ResultNode → ℕ → ℕ → ResultNodeType → Result svc
  add_opening_trigger d node resultidx nidx constant =
      add_result_instruction_trigger svc d node.inputselect resultidx nidx
  add_opening_trigger d node resultidx nidx open_structure =
      add_result_instruction_trigger svc d node.inputselect resultidx nidx
  add_opening_trigger d node resultidx nidx open_array =
      add_result_instruction_trigger svc d node.inputselect resultidx nidx
  add_opening_trigger d node resultidx nidx result_reference =
      add_result_instruction_trigger svc
        (record d { result_variables = insert node.str d.result_variables })
        (close_expression node.inputselect) resultidx nidx
  add_opening_trigger d node resultidx nidx input_reference =
      add_result_instruction_trigger svc d (close_expression node.inputselect) resultidx nidx
  add_opening_trigger d node resultidx nidx close_structure = (true, d)
  add_opening_trigger d node resultidx nidx close_array = (true, d)

  -- The second loop: what closes.
  unfoldable pub add_closing_trigger :
      Description svc → ResultNode → ℕ → ℕ → ResultNodeType → Result svc
  add_closing_trigger d node resultidx nidx close_structure =
      add_result_instruction_trigger svc d (close_expression node.inputselect) resultidx nidx
  add_closing_trigger d node resultidx nidx close_array =
      add_result_instruction_trigger svc d (close_expression node.inputselect) resultidx nidx
  add_closing_trigger d node resultidx nidx _ = (true, d)

  unfoldable pub add_opening_triggers : List ResultNode → ℕ → ℕ → Description svc → Result svc
  add_opening_triggers [] resultidx nidx d = (true, d)
  add_opening_triggers (node ∷ nodes) resultidx nidx d =
      and_then svc (add_opening_trigger d node resultidx nidx node.node_type)
        (add_opening_triggers nodes resultidx (suc nidx))

  unfoldable pub add_closing_triggers : List ResultNode → ℕ → ℕ → Description svc → Result svc
  add_closing_triggers [] resultidx nidx d = (true, d)
  add_closing_triggers (node ∷ nodes) resultidx nidx d =
      and_then svc (add_closing_trigger d node resultidx nidx node.node_type)
        (add_closing_triggers nodes resultidx (suc nidx))

  unfoldable pub add_result_description : Description svc → List ResultNode → Result svc
  add_result_description d nodes =
      and_then svc (add_opening_triggers nodes (length d.resultdefs) 0 d) (λ d1.
        and_then svc (add_closing_triggers nodes (length d.resultdefs) 0 d1)
          (λ d2. (true, record d2 { resultdefs = push_back d2.resultdefs nodes })))

  unfoldable pub add_env_assignment : Description svc → EnvAssignment → Result svc
  add_env_assignment d a =
      if ltb max_nof_env_assignments (length d.env_assignments)
      then fail svc d buffer_overflow_error
      else (true, record d { env_assignments = push_back d.env_assignments a })
