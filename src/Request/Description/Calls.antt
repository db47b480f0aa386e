-- ===== src/Request/Description/Calls.antt =====
-- The operations of AutomatonDescription in src/request.cpp on calls, groups and inherited contexts.
use papuga.ErrorCode.{
  ErrorCode, is_ok, logic_error, no_mem_error, type_error, nof_args_error, missing_self,
  invalid_access, duplicate_definition, execution_order, addressed_item_not_found,
  complexity_of_problem,
}
use papuga.Prelude.{
  ℕ, ◌+◌, ◌-◌, ◌*◌, ◌%◌, ◌^◌, Bool, true, false, ◌&&◌, ◌||◌, not, Option, none, some, List, [], ◌∷◌,
  ◌++◌, ltb, leb, ◌==◌, if◌then◌else◌, length, get_elem?, set, get_or, replicate,
}
use papuga.Prelude.Int.{ℤ, pos, negsuc, pos_part, neg_part, ltb_ℤ, ◌+ℤ◌}
use papuga.Request.Refs.{method_call, method_call_prioritize, inherit_from, atm_ref_get}
use papuga.Request.Description.Expression.{Text, cut_trailing_slashes, is_empty}
use papuga.Request.Description.State.{
  Services, Description, Result, fail, ResolveType, CallArgDef, no_arg, var_arg, item_arg,
  RequestMethodId, CallDef, ClassDef, nof_class_defs, max_nof_call_defs, max_nof_arguments,
  push_back, back, set_back, copy_if_defined, check_item_id, add_expression,
}

-- `n != 0`, `a == b` and `a >= b` on integers
abbrev pub non_zero : ℤ → Bool
non_zero n = not (pos_part n + neg_part n == 0)

abbrev pub eqb_ℤ : ℤ → ℤ → Bool
eqb_ℤ a b = pos_part a + neg_part b == pos_part b + neg_part a

abbrev pub leb_ℤ : ℤ → ℤ → Bool
leb_ℤ a b = not (ltb_ℤ b a)

abbrev pub is_none {ℓ} : {A : Type ℓ} → Option A → Bool
is_none none = true
is_none (some x) = false

-- `methodtablesize` of a class, by its number counted from 1.
unfoldable pub method_table_size : List ClassDef → ℕ → ℕ
method_table_size classdefs classid = elim (get_elem? classdefs (classid - 1)) [
  | none ↦ 0
  | some c ↦ c.methodtablesize
]

-- `open_expression + "~"` of the expression without the slashes at its end.
unfoldable pub close_expression : Text → Text
close_expression expression = cut_trailing_slashes expression ++ (b'~' ∷ [])

-- virtualGroupId and isVirtualGroupId
abbrev pub virtual_group_id : ℤ → ℤ
virtual_group_id groupid = groupid +ℤ pos (max_nof_call_defs + 1)

abbrev pub is_virtual_group_id : ℤ → Bool
is_virtual_group_id groupid = leb_ℤ (pos (max_nof_call_defs + 1)) groupid

-- `map[ key] = value` and `find( key)`
unfoldable pub assign : ℤ → ℕ → List (ℤ × ℕ) → List (ℤ × ℕ)
assign k v [] = (k, v) ∷ []
assign k v ((j, w) ∷ m) = if eqb_ℤ j k then (k, v) ∷ m else (j, w) ∷ assign k v m

unfoldable pub find : ℤ → List (ℤ × ℕ) → Option ℕ
find k [] = none
find k ((j, w) ∷ m) = if eqb_ℤ j k then some w else find k m

-- The loop of done(): the calls with their groups rewritten up to the first one that fails, and
-- whether none does.
unfoldable pub rewrite_groups : List (ℤ × ℕ) → List CallDef → Bool × List CallDef
rewrite_groups m [] = (true, [])
rewrite_groups m (c ∷ cs) =
    let rest = rewrite_groups m cs in
    if is_virtual_group_id c.groupid
    then elim (find c.groupid m) [
      | none ↦ (false, c ∷ cs)
      | some g ↦ (rest.0, record c { groupid = pos g } ∷ rest.1)
    ]
    else (rest.0, c ∷ rest.1)

-- An `int` of 32 bits as the `size_t` that the allocator takes.
abbrev pub size_of_int : ℕ → ℕ
size_of_int word = if ltb word (2 ^ 31) then word else 2 ^ 64 - 2 ^ 32 + word

-- `int mm = nofargs * sizeof(CallArgDef)`
abbrev pub args_size : ℤ → ℕ
args_size (pos n) = size_of_int ((n * 24) % 2 ^ 32)
args_size (negsuc n) = size_of_int ((2 ^ 64 - (n + 1) * 24) % 2 ^ 32)

-- `adef.varname || adef.itemid >= 0`
abbrev pub is_assigned : CallArgDef → Bool
is_assigned adef = not (is_none adef.varname) || leb_ℤ (pos 0) adef.itemid

module _ (svc : Services) where
  unfoldable pub add_inherit_from : Description svc → Text → Text → Bool → Result svc
  add_inherit_from d inherited_type name_expression is_required =
      add_expression svc
        (record d {
          inheritdefs =
              push_back d.inheritdefs
                (record { inherited_type = inherited_type; is_required = is_required });
        })
        (atm_ref_get inherit_from (length d.inheritdefs)) name_expression

  unfoldable pub prioritize_last_call_in_scope : Description svc → Text → Result svc
  prioritize_last_call_in_scope d scope_expression =
      if is_empty d.calldefs
      then fail svc d execution_order
      else add_expression svc d (atm_ref_get method_call_prioritize (length d.calldefs - 1))
          (close_expression scope_expression)

  -- The tests of addCall, in their order.
  unfoldable pub add_call_error :
      Description svc → RequestMethodId → Option Text → ℤ → Option ErrorCode
  add_call_error d method selfvarname nofargs =
      if d.done
      then some execution_order
      else if ltb_ℤ (pos max_nof_arguments) nofargs
      then some nof_args_error
      else if ltb_ℤ method.classid (pos 0)
          || ltb_ℤ (pos (nof_class_defs d.classdefs)) method.classid
      then some addressed_item_not_found
      else if non_zero method.functionid && is_none selfvarname
      then some missing_self
      else if leb max_nof_call_defs (length d.calldefs)
      then some complexity_of_problem
      else if non_zero method.classid
          && (ltb_ℤ method.functionid (pos 0)
              || ltb_ℤ (pos (method_table_size d.classdefs (pos_part method.classid)))
                  method.functionid)
      then some addressed_item_not_found
      else none

  -- The memory of the array of arguments, 24 bytes for each. A negative number is not 0 either.
  unfoldable pub alloc_args : Description svc → ℤ → Option svc.Mem
  alloc_args d nofargs =
      if non_zero nofargs then svc.alloc d.mem (args_size nofargs) 0 else some d.mem

  -- `m_groupid < 0 ? m_calldefs.size() : m_groupid`
  unfoldable pub call_group : Description svc → ℤ
  call_group d = if ltb_ℤ d.groupid (pos 0) then pos (length d.calldefs) else d.groupid

  -- addCall from the test of the error code on, which an earlier error fails too. An array of a negative
  -- number of arguments has no element: its placement new gives a null pointer, and setCallArg refuses every
  -- index, as it does for none.
  unfoldable pub push_call :
      Description svc → Text → RequestMethodId → Option Text → Option Text → ℤ → Result svc
  push_call d expression method selfvarname resultvarname nofargs =
      if not (is_ok d.errcode)
      then (false, d)
      else add_expression svc
          (record d {
            calldefs = push_back d.calldefs (record {
              methodid = method;
              selfvarname = selfvarname;
              resultvarname = resultvarname;
              args = replicate (pos_part nofargs) no_arg;
              groupid = call_group d;
            });
          })
          (atm_ref_get method_call (length d.calldefs)) (close_expression expression)

  -- addCall after its tests.
  unfoldable pub add_checked_call :
      Description svc → Text → RequestMethodId → Option Text → Option Text → ℤ → Result svc
  add_checked_call d expression method selfvarname_ resultvarname_ nofargs =
      elim (alloc_args d nofargs) [
        | none ↦ fail svc d no_mem_error
        | some mem ↦
            let s = copy_if_defined svc (record d { mem = mem }) selfvarname_ in
            let r = copy_if_defined svc s.1 resultvarname_ in
            push_call r.1 expression method s.0 r.0 nofargs
      ]

  unfoldable pub add_call :
      Description svc → Text → RequestMethodId → Option Text → Option Text → ℤ → Result svc
  add_call d expression method selfvarname_ resultvarname_ nofargs =
      elim (add_call_error d method selfvarname_ nofargs) [
        | some code ↦ fail svc d code
        | none ↦ add_checked_call d expression method selfvarname_ resultvarname_ nofargs
      ]

  -- setCallArg from the assignment on, for the last call and an index inside.
  unfoldable pub assign_arg : Description svc → CallDef → ℕ → CallArgDef → Result svc
  assign_arg d call idx adef =
      let d1 = record d {
        calldefs = set_back d.calldefs (record call { args = set call.args idx adef });
      } in
      if ltb_ℤ adef.max_tag_diff (pos 0)
      then fail svc d1 type_error
      else if is_none adef.varname
      then check_item_id svc d1 adef.itemid
      else (true, d1)

  -- setCallArg from the test of the index on, for the last call.
  unfoldable pub set_arg_of : Description svc → ℤ → CallArgDef → CallDef → Result svc
  set_arg_of d idx adef call =
      if ltb_ℤ idx (pos 0) || leb_ℤ (pos (length call.args)) idx
      then fail svc d invalid_access
      else if is_assigned (get_or call.args (pos_part idx) no_arg)
      then fail svc d duplicate_definition
      else assign_arg d call (pos_part idx) adef

  unfoldable pub set_call_arg : Description svc → ℤ → CallArgDef → Result svc
  set_call_arg d idx adef = if d.done then fail svc d invalid_access else elim (back d.calldefs) [
    | none ↦ fail svc d invalid_access
    | some call ↦ set_arg_of d idx adef call
  ]

  unfoldable pub set_call_arg_var : Description svc → ℤ → Option Text → Result svc
  set_call_arg_var d idx none = fail svc d type_error
  set_call_arg_var d idx (some argvar) =
      let c = copy_if_defined svc d (some argvar) in set_call_arg c.1 idx (var_arg c.0)

  unfoldable pub set_call_arg_item : Description svc → ℤ → ℤ → ResolveType → ℤ → Result svc
  set_call_arg_item d idx itemid resolvetype max_tag_diff =
      if ltb_ℤ itemid (pos 0)
      then fail svc d type_error
      else set_call_arg d idx (item_arg itemid resolvetype max_tag_diff)

  unfoldable pub open_group : Description svc → ℤ → Result svc
  open_group d groupid = if leb_ℤ (pos 0) d.groupid then fail svc d logic_error else (
    true,
    record d {
      groupid = virtual_group_id groupid;
      groupidmap = assign (virtual_group_id groupid) (length d.calldefs) d.groupidmap;
    },
  )

  unfoldable pub close_group : Description svc → Result svc
  close_group d =
      if ltb_ℤ d.groupid (pos 0)
      then fail svc d logic_error
      else (true, record d { groupid = negsuc 0 })

  -- done()
  unfoldable pub finish : Description svc → Result svc
  finish d =
      if d.done
      then fail svc d logic_error
      else let r = rewrite_groups d.groupidmap d.calldefs in
        if r.0
        then (true, record d { calldefs = r.1; done = true })
        else fail svc (record d { calldefs = r.1 }) logic_error
