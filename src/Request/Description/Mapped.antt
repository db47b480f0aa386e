-- ===== src/Request/Description/Mapped.antt =====
-- The operations of the class AutomatonDescription in src/request.cpp give each item of a value or a structure
-- its place in the vector of maps of AutomatonContext.
use mathlib.Core.Path.{subst}
use papuga.ErrorCode.{is_ok}
use papuga.Prelude.{
  ℕ, suc, ◌+◌, ◌≡◌, refl, inl, inr, Bool, ◌||◌, not, Option, none, some, List, [], ◌∷◌, ltb, length,
  get_or, Option-cases,
}
use papuga.Prelude.Int.{ℤ, pos, negsuc, pos_part, ltb_ℤ}
use papuga.Request.Description.Expression.{Text, cut_trailing_slashes, is_empty}
use papuga.Request.Description.State.{
  Services, Description, Result, ResolveType, CallArgDef, CallDef, RequestMethodId, StructDef,
  StructMemberDef, ClassDef, no_member, no_arg, ResultNode, ResultNodeType, constant,
  open_structure, close_structure, open_array, close_array, input_reference, result_reference,
  max_nof_env_assignments, init_description, back, copy_if_defined,
}
use papuga.Request.Description.Calls.{
  is_none, is_assigned, leb_ℤ, add_inherit_from, prioritize_last_call_in_scope, add_call_error,
  alloc_args, push_call, add_checked_call, add_call, assign_arg, set_arg_of, set_call_arg,
  set_call_arg_var, set_call_arg_item, open_group, close_group, finish, rewrite_groups,
}
use papuga.Request.Description.Structs.{
  members_size, add_structure, assign_member, set_member_item_in, set_item_of,
  set_checked_member_item, set_member_item, set_member_var_in, set_var_of, set_member_var,
  push_value, add_checked_value, add_value, value_expression, add_opening_trigger,
  add_closing_trigger, add_opening_triggers, add_closing_triggers, add_result_description,
  add_env_assignment,
}
use papuga.Request.Description.Operations.{
  Operation, inherits, prioritizes, calls, arg_var, arg_item, structures, member_item, member_var,
  values, opens_group, closes_group, results, assigns, finishes, run, run_all,
}
use papuga.Request.Description.Items.{
  IsItem, IsItemOf, AllMapped, push-AllItems, push-AllStructs, set_back-AllStructs, back-IsItemOf,
  if-AllMapped, and_then-AllMapped, copy_if_defined-AllMapped, add_expression-AllMapped,
  add_result_instruction_trigger-AllMapped, checked-AllMapped, check_item_id-AllMapped,
}

module _ (svc : Services) where
  abbrev Leaves : Result svc → Type 0
  Leaves r = AllMapped svc r.1

  option-AllMapped :
      {A : Type 0}
      → (o : Option A) (r : Result svc) (f : A → Result svc) → Leaves r
      → ((a : A) → o ≡ some a → Leaves (f a))
      → Leaves (elim o [ none ↦ r | some a ↦ f a ])
  option-AllMapped none r f h g = h
  option-AllMapped (some a) r f h g = g a refl

  -- Calls.
  push_call-AllMapped :
      (d : Description svc) (t : Text) (m : RequestMethodId) (s r : Option Text) (n : ℤ)
      → AllMapped svc d
      → AllMapped svc (push_call svc d t m s r n).1
  unfolding push_call
  push_call-AllMapped d t m s r n h =
      if-AllMapped svc (not (is_ok d.errcode)) _ _ h (add_expression-AllMapped svc _ _ _ h)

  add_call-AllMapped :
      (d : Description svc) (t : Text) (m : RequestMethodId) (s r : Option Text) (n : ℤ)
      → AllMapped svc d
      → AllMapped svc (add_call svc d t m s r n).1
  unfolding add_call add_checked_call
  add_call-AllMapped d t m s r n h = elim (Option-cases (add_call_error svc d m s n)) [
    | inr (code, e) ↦ rw (e, add_call) h
    | inl e ↦ elim (Option-cases (alloc_args svc d n)) [
      | inl q ↦ rw (e, q, add_call, add_checked_call) h
      | inr (mem, q) ↦
          rw (e, q, add_call, add_checked_call)
            (push_call-AllMapped _ _ _ _ _ _ (
              copy_if_defined-AllMapped svc _ r
                (copy_if_defined-AllMapped svc (record d { mem = mem }) s h)))
    ]
  ]

  assign_arg-AllMapped :
      (d : Description svc) (call : CallDef) (idx : ℕ) (adef : CallArgDef)
      → AllMapped svc d
      → AllMapped svc (assign_arg svc d call idx adef).1
  unfolding assign_arg
  assign_arg-AllMapped d call idx adef h =
      if-AllMapped svc (ltb_ℤ adef.max_tag_diff (pos 0)) _ _ h (
        if-AllMapped svc (is_none adef.varname) _ _ (check_item_id-AllMapped svc _ adef.itemid h) h)

  set_arg_of-AllMapped :
      (d : Description svc) (idx : ℤ) (adef : CallArgDef) (call : CallDef)
      → AllMapped svc d
      → AllMapped svc (set_arg_of svc d idx adef call).1
  unfolding set_arg_of
  set_arg_of-AllMapped d idx adef call h =
      if-AllMapped svc (ltb_ℤ idx (pos 0) || leb_ℤ (pos (length call.args)) idx) _ _ h (
        if-AllMapped svc (is_assigned (get_or call.args (pos_part idx) no_arg)) _ _ h
          (assign_arg-AllMapped d call (pos_part idx) adef h))

  set_call_arg-AllMapped :
      (d : Description svc) (idx : ℤ) (adef : CallArgDef)
      → AllMapped svc d
      → AllMapped svc (set_call_arg svc d idx adef).1
  unfolding set_call_arg
  set_call_arg-AllMapped d idx adef h =
      if-AllMapped svc d.done _ _ h
        (option-AllMapped (back d.calldefs) _ _ h (λ c e. set_arg_of-AllMapped d idx adef c h))

  set_call_arg_var-AllMapped :
      (d : Description svc) (idx : ℤ) (v : Option Text)
      → AllMapped svc d
      → AllMapped svc (set_call_arg_var svc d idx v).1
  unfolding set_call_arg_var
  set_call_arg_var-AllMapped d idx none h = h
  set_call_arg_var-AllMapped d idx (some v) h =
      set_call_arg-AllMapped _ idx _ (copy_if_defined-AllMapped svc d (some v) h)

  -- Structures and values.
  add_structure-AllMapped :
      (d : Description svc) (t : Text) (itemid n : ℤ)
      → AllMapped svc d
      → AllMapped svc (add_structure svc d t itemid n).1
  unfolding add_structure
  add_structure-AllMapped d t itemid n h = checked-AllMapped svc d itemid _ h (λ d1 h1 i.
      if-AllMapped svc d1.done _ _ h1 (
        option-AllMapped (svc.alloc d1.mem (members_size n) 0) _ _ h1 (λ mem e.
          add_expression-AllMapped svc _ _ _
            (h1.0, push-AllStructs d1.maxitemid d1.structdefs _ h1.1 i))))

  assign_member-AllMapped :
      (d : Description svc) (s : StructDef) (idx : ℕ) (mdef : StructMemberDef)
      → AllMapped svc d
      → IsItem d.maxitemid s.itemid
      → AllMapped svc (assign_member svc d s idx mdef)
  unfolding assign_member
  assign_member-AllMapped d s idx mdef h i =
      (h.0, set_back-AllStructs d.maxitemid d.structdefs _ h.1 i)

  copy-IsItem :
      (d : Description svc) (str : Option Text) (itemid : ℤ)
      → IsItem d.maxitemid itemid
      → IsItem ((copy_if_defined svc d str).1.maxitemid) itemid
  unfolding copy_if_defined
  copy-IsItem d none itemid i = i
  copy-IsItem d (some []) itemid i = i
  copy-IsItem d (some (c ∷ cs)) itemid i =
      elim (Option-cases (svc.alloc d.mem (length (c ∷ cs) + 1) 1)) [
        | inl n ↦ rw (n, copy_if_defined) i
        | inr (mem, s) ↦ rw (s, copy_if_defined) i
      ]

  set_item_of-AllMapped :
      (d : Description svc) (idx : ℤ) (name : Option Text) (itemid : ℤ) (t : ResolveType) (g : ℤ)
      (s : StructDef)
      → AllMapped svc d
      → IsItem d.maxitemid s.itemid
      → AllMapped svc (set_item_of svc d idx name itemid t g s).1
  unfolding set_item_of set_member_item_in
  set_item_of-AllMapped d idx name itemid t g s h i =
      if-AllMapped svc (ltb_ℤ idx (pos 0) || leb_ℤ (pos (length s.members)) idx) _ _ h (
        if-AllMapped svc (ltb_ℤ itemid (pos 0)) _ _ h (
          if-AllMapped svc (ltb_ℤ g (negsuc 0)) _ _ h (
            if-AllMapped svc (leb_ℤ (pos 0) (get_or s.members (pos_part idx) no_member).itemid) _ _
              h
              (assign_member-AllMapped _ s (pos_part idx) _ (copy_if_defined-AllMapped svc d name h)
                (copy-IsItem d name s.itemid i)))))

  set_member_item-AllMapped :
      (d : Description svc) (idx : ℤ) (name : Option Text) (itemid : ℤ) (t : ResolveType) (g : ℤ)
      → AllMapped svc d
      → AllMapped svc (set_member_item svc d idx name itemid t g).1
  unfolding set_member_item set_checked_member_item
  set_member_item-AllMapped d idx name itemid t g h = checked-AllMapped svc d itemid _ h (λ d1 h1 i.
      if-AllMapped svc d1.done _ _ h1 (
        option-AllMapped (back d1.structdefs) _ _ h1 (λ s e.
          set_item_of-AllMapped d1 idx name itemid t g s h1 (
            subst (λ (o : Option StructDef). IsItemOf d1.maxitemid o) e
              (back-IsItemOf d1.maxitemid d1.structdefs h1.1)))))

  set_var_of-AllMapped :
      (d : Description svc) (idx : ℤ) (name v : Option Text) (s : StructDef)
      → AllMapped svc d
      → IsItem d.maxitemid s.itemid
      → AllMapped svc (set_var_of svc d idx name v s).1
  unfolding set_var_of set_member_var_in
  set_var_of-AllMapped d idx name v s h i =
      if-AllMapped svc (ltb_ℤ idx (pos 0) || leb_ℤ (pos (length s.members)) idx) _ _ h (
        option-AllMapped v _ _ h (λ w e.
          if-AllMapped svc (leb_ℤ (pos 0) (get_or s.members (pos_part idx) no_member).itemid) _ _ h
            (let c = copy_if_defined svc d (some w) in
              assign_member-AllMapped _ s (pos_part idx) _
                (copy_if_defined-AllMapped svc c.1 name
                  (copy_if_defined-AllMapped svc d (some w) h))
                (copy-IsItem c.1 name s.itemid (copy-IsItem d (some w) s.itemid i)))))

  set_member_var-AllMapped :
      (d : Description svc) (idx : ℤ) (name v : Option Text)
      → AllMapped svc d
      → AllMapped svc (set_member_var svc d idx name v).1
  unfolding set_member_var
  set_member_var-AllMapped d idx name v h = if-AllMapped svc d.done _ _ h (
      option-AllMapped (back d.structdefs) _ _ h (λ s e. set_var_of-AllMapped d idx name v s h (
        subst (λ (o : Option StructDef). IsItemOf d.maxitemid o) e
          (back-IsItemOf d.maxitemid d.structdefs h.1))))

  push_value-AllMapped :
      (d : Description svc) (t : Text) (itemid : ℤ) (expr : Text)
      → AllMapped svc d
      → IsItem d.maxitemid itemid
      → AllMapped svc (push_value svc d t itemid expr).1
  unfolding push_value
  push_value-AllMapped d t itemid expr h i =
      and_then-AllMapped svc _ _
        (add_expression-AllMapped svc _ _ _
          (push-AllItems d.maxitemid d.valuedefs itemid h.0 i, h.1))
        (λ d1 h1. add_expression-AllMapped svc d1 _ _ h1)

  add_value-AllMapped :
      (d : Description svc) (t s : Text) (itemid : ℤ)
      → AllMapped svc d
      → AllMapped svc (add_value svc d t s itemid).1
  unfolding add_value add_checked_value
  add_value-AllMapped d t s itemid h = checked-AllMapped svc d itemid _ h (λ d1 h1 i.
      if-AllMapped svc d1.done _ _ h1 (
        option-AllMapped (value_expression (cut_trailing_slashes t) s) _ _ h1
          (λ expr e. push_value-AllMapped d1 (cut_trailing_slashes t) itemid expr h1 i)))

  -- Results.
  add_opening_trigger-AllMapped :
      (d : Description svc) (node : ResultNode) (r i : ℕ) (t : ResultNodeType)
      → AllMapped svc d
      → AllMapped svc (add_opening_trigger svc d node r i t).1
  unfolding add_opening_trigger
  add_opening_trigger-AllMapped d node r i constant h =
      add_result_instruction_trigger-AllMapped svc d _ r i h
  add_opening_trigger-AllMapped d node r i open_structure h =
      add_result_instruction_trigger-AllMapped svc d _ r i h
  add_opening_trigger-AllMapped d node r i open_array h =
      add_result_instruction_trigger-AllMapped svc d _ r i h
  add_opening_trigger-AllMapped d node r i result_reference h =
      add_result_instruction_trigger-AllMapped svc _ _ r i h
  add_opening_trigger-AllMapped d node r i input_reference h =
      add_result_instruction_trigger-AllMapped svc d _ r i h
  add_opening_trigger-AllMapped d node r i close_structure h = h
  add_opening_trigger-AllMapped d node r i close_array h = h

  add_closing_trigger-AllMapped :
      (d : Description svc) (node : ResultNode) (r i : ℕ) (t : ResultNodeType)
      → AllMapped svc d
      → AllMapped svc (add_closing_trigger svc d node r i t).1
  unfolding add_closing_trigger
  add_closing_trigger-AllMapped d node r i close_structure h =
      add_result_instruction_trigger-AllMapped svc d _ r i h
  add_closing_trigger-AllMapped d node r i close_array h =
      add_result_instruction_trigger-AllMapped svc d _ r i h
  add_closing_trigger-AllMapped d node r i constant h = h
  add_closing_trigger-AllMapped d node r i open_structure h = h
  add_closing_trigger-AllMapped d node r i open_array h = h
  add_closing_trigger-AllMapped d node r i input_reference h = h
  add_closing_trigger-AllMapped d node r i result_reference h = h

  add_opening_triggers-AllMapped :
      (nodes : List ResultNode) (r i : ℕ) (d : Description svc)
      → AllMapped svc d
      → AllMapped svc (add_opening_triggers svc nodes r i d).1
  unfolding add_opening_triggers
  add_opening_triggers-AllMapped [] r i d h = h
  add_opening_triggers-AllMapped (node ∷ nodes) r i d h =
      and_then-AllMapped svc _ _ (add_opening_trigger-AllMapped d node r i node.node_type h)
        (add_opening_triggers-AllMapped nodes r (suc i))

  add_closing_triggers-AllMapped :
      (nodes : List ResultNode) (r i : ℕ) (d : Description svc)
      → AllMapped svc d
      → AllMapped svc (add_closing_triggers svc nodes r i d).1
  unfolding add_closing_triggers
  add_closing_triggers-AllMapped [] r i d h = h
  add_closing_triggers-AllMapped (node ∷ nodes) r i d h =
      and_then-AllMapped svc _ _ (add_closing_trigger-AllMapped d node r i node.node_type h)
        (add_closing_triggers-AllMapped nodes r (suc i))

  add_result_description-AllMapped :
      (d : Description svc) (nodes : List ResultNode)
      → AllMapped svc d
      → AllMapped svc (add_result_description svc d nodes).1
  unfolding add_result_description
  add_result_description-AllMapped d nodes h =
      and_then-AllMapped svc _ _ (add_opening_triggers-AllMapped nodes (length d.resultdefs) 0 d h)
        (λ d1 h1.
          and_then-AllMapped svc _ _
            (add_closing_triggers-AllMapped nodes (length d.resultdefs) 0 d1 h1) (λ d2 h2. h2))

  run-AllMapped :
      (op : Operation) (d : Description svc) → AllMapped svc d → AllMapped svc (run svc op d).1
  unfolding add_inherit_from prioritize_last_call_in_scope set_call_arg_item open_group close_group
      finish add_env_assignment
  run-AllMapped (inherits e t b) d h = add_expression-AllMapped svc _ _ _ h
  run-AllMapped (prioritizes e) d h =
      if-AllMapped svc (is_empty d.calldefs) _ _ h (add_expression-AllMapped svc d _ _ h)
  run-AllMapped (calls e m s r n) d h = add_call-AllMapped d e m s r n h
  run-AllMapped (arg_var i v) d h = set_call_arg_var-AllMapped d i v h
  run-AllMapped (arg_item i n t g) d h =
      if-AllMapped svc (ltb_ℤ n (pos 0)) _ _ h (set_call_arg-AllMapped d i _ h)
  run-AllMapped (structures e i n) d h = add_structure-AllMapped d e i n h
  run-AllMapped (member_item i n t r g) d h = set_member_item-AllMapped d i n t r g h
  run-AllMapped (member_var i n v) d h = set_member_var-AllMapped d i n v h
  run-AllMapped (values e s i) d h = add_value-AllMapped d e s i h
  run-AllMapped (opens_group g) d h = if-AllMapped svc (leb_ℤ (pos 0) d.groupid) _ _ h h
  run-AllMapped closes_group d h = if-AllMapped svc (ltb_ℤ d.groupid (pos 0)) _ _ h h
  run-AllMapped (results ns) d h = add_result_description-AllMapped d ns h
  run-AllMapped (assigns a) d h =
      if-AllMapped svc (ltb max_nof_env_assignments (length d.env_assignments)) _ _ h h
  run-AllMapped finishes d h =
      if-AllMapped svc d.done _ _ h
        (if-AllMapped svc ((rewrite_groups d.groupidmap d.calldefs).0) _ _ h h)

  run_all-stays :
      (ops : List Operation) (d : Description svc)
      → AllMapped svc d
      → AllMapped svc (run_all svc ops d)
  run_all-stays [] d h = h
  run_all-stays (op ∷ ops) d h = run_all-stays ops (run svc op d).1 (run-AllMapped op d h)

  -- A new description, after any operations, whether they succeed or fail: the item of each value and of each
  -- structure is a number from 0 to the greatest item, by which the vector of maps is sized.
  pub run_all-AllMapped :
      (classdefs : List ClassDef) (strict exclusive_access : Bool) (mem : svc.Mem) (a : svc.Atm)
      (ops : List Operation)
      → AllMapped svc
          (run_all svc ops (init_description svc classdefs strict exclusive_access mem a))
  unfolding init_description
  run_all-AllMapped classdefs strict exclusive_access mem a ops = run_all-stays ops _ (tt, tt)
