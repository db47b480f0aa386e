-- ===== src/Request/Description/Errors/Structs.antt =====
-- The failures of the operations on structures, values, results and assignments in src/request.cpp.
use papuga.ErrorCode.{ErrorCode, ok}
use papuga.Prelude.{ℕ, refl, ◌≢◌, ◌||◌, length, suc, Option, List, [], ◌∷◌}
use papuga.Prelude.Int.{ℤ, pos, negsuc, pos_part, ltb_ℤ}
use papuga.Request.Description.Expression.{Text, cut_trailing_slashes}
use papuga.Request.Description.State.{
  Services, Description, StructDef, ResolveType, ResultNode, ResultNodeType, constant,
  open_structure, close_structure, open_array, close_array, input_reference, result_reference,
  EnvAssignment, back,
}
use papuga.Request.Description.Calls.{leb_ℤ}
use papuga.Request.Description.Structs.{
  members_size, add_structure, set_member_item, set_member_var, add_value, add_result_description,
  set_item_of, set_var_of, push_value, set_member_item_in, set_checked_member_item,
  set_member_var_in, add_checked_value, add_opening_trigger, add_closing_trigger,
  add_opening_triggers, add_closing_triggers, add_env_assignment, assign_member, value_expression,
}
use papuga.Request.Description.Errors.Rules.{
  Reports, fail-Reports, done-Reports, if-Reports, option-Reports, option-Reports,
  copy_if_defined-stays, check_item_id-Reports, add_expression-Reports,
  add_result_instruction_trigger-Reports, and_then-Reports, and_then-Reports, and_then-Reports,
}

module _ (svc : Services) where
  pub add_structure-Reports :
      (d : Description svc) (t : Text) (itemid n : ℤ)
      → Reports svc d.errcode (add_structure svc d t itemid n)
  unfolding add_structure
  add_structure-Reports d t itemid n =
      and_then-Reports svc _ _ (check_item_id-Reports svc _ _ (λ h. h)) (λ d1 p.
        if-Reports svc _ (fail-Reports svc _ refl) (
          option-Reports svc (svc.alloc d1.mem (members_size n) 0) (fail-Reports svc _ refl)
            (λ mem. add_expression-Reports svc _ _ _ p)))

  pub set_member_item_in-Reports :
      {e : ErrorCode} (d : Description svc) (struct : StructDef) (idx : ℕ) (name : Option Text)
      (itemid : ℤ) (t : ResolveType) (g : ℤ)
      → (e ≢ ok → d.errcode ≢ ok)
      → Reports svc e (set_member_item_in svc d struct idx name itemid t g)
  unfolding set_member_item_in assign_member
  set_member_item_in-Reports d struct idx name itemid t g p =
      if-Reports svc _ (fail-Reports svc _ refl)
        (done-Reports svc _ _ (copy_if_defined-stays svc _ _ p))

  pub set_item_of-Reports :
      {e : ErrorCode} (d : Description svc) (idx : ℤ) (name : Option Text) (itemid : ℤ)
      (t : ResolveType) (g : ℤ) (struct : StructDef)
      → (e ≢ ok → d.errcode ≢ ok)
      → Reports svc e (set_item_of svc d idx name itemid t g struct)
  unfolding set_item_of
  set_item_of-Reports d idx name itemid t g struct p =
      if-Reports svc (ltb_ℤ idx (pos 0) || leb_ℤ (pos (length struct.members)) idx)
        (fail-Reports svc _ refl)
        (if-Reports svc (ltb_ℤ itemid (pos 0)) (fail-Reports svc _ refl) (
          if-Reports svc (ltb_ℤ g (negsuc 0)) (fail-Reports svc _ refl)
            (set_member_item_in-Reports d struct (pos_part idx) name itemid t g p)))

  pub set_member_item-Reports :
      (d : Description svc) (idx : ℤ) (name : Option Text) (itemid : ℤ) (t : ResolveType) (g : ℤ)
      → Reports svc d.errcode (set_member_item svc d idx name itemid t g)
  unfolding set_member_item set_checked_member_item
  set_member_item-Reports d idx name itemid t g =
      and_then-Reports svc _ _ (check_item_id-Reports svc _ _ (λ h. h)) (λ d1 p.
        if-Reports svc _ (fail-Reports svc _ refl) (
          option-Reports svc (back d1.structdefs) (fail-Reports svc _ refl)
            (λ s. set_item_of-Reports d1 idx name itemid t g s p)))

  pub set_member_var_in-Reports :
      (d : Description svc) (struct : StructDef) (idx : ℕ) (name : Option Text) (v : Text)
      → Reports svc d.errcode (set_member_var_in svc d struct idx name v)
  unfolding set_member_var_in assign_member
  set_member_var_in-Reports d struct idx name v = if-Reports svc _ (fail-Reports svc _ refl) (
      done-Reports svc _ _ (copy_if_defined-stays svc _ _ (copy_if_defined-stays svc _ _ (λ h. h))))

  pub set_var_of-Reports :
      (d : Description svc) (idx : ℤ) (name v : Option Text) (struct : StructDef)
      → Reports svc d.errcode (set_var_of svc d idx name v struct)
  unfolding set_var_of
  set_var_of-Reports d idx name v struct =
      if-Reports svc (ltb_ℤ idx (pos 0) || leb_ℤ (pos (length struct.members)) idx)
        (fail-Reports svc _ refl)
        (option-Reports svc v (fail-Reports svc _ refl)
          (λ t. set_member_var_in-Reports d struct (pos_part idx) name t))

  pub set_member_var-Reports :
      (d : Description svc) (idx : ℤ) (name v : Option Text)
      → Reports svc d.errcode (set_member_var svc d idx name v)
  unfolding set_member_var
  set_member_var-Reports d idx name v = if-Reports svc _ (fail-Reports svc _ refl) (
      option-Reports svc (back d.structdefs) (fail-Reports svc _ refl)
        (λ s. set_var_of-Reports d idx name v s))

  pub push_value-Reports :
      {e : ErrorCode} (d : Description svc) (t : Text) (itemid : ℤ) (expr : Text)
      → (e ≢ ok → d.errcode ≢ ok)
      → Reports svc e (push_value svc d t itemid expr)
  unfolding push_value
  push_value-Reports d t itemid expr p =
      and_then-Reports svc _ _ (add_expression-Reports svc _ _ _ p)
        (λ d2 p2. add_expression-Reports svc _ _ _ p2)

  pub add_value-Reports :
      (d : Description svc) (t s : Text) (itemid : ℤ)
      → Reports svc d.errcode (add_value svc d t s itemid)
  unfolding add_value add_checked_value
  add_value-Reports d t s itemid =
      and_then-Reports svc _ _ (check_item_id-Reports svc _ _ (λ h. h)) (λ d1 p.
        if-Reports svc _ (fail-Reports svc _ refl) (
          option-Reports svc (value_expression (cut_trailing_slashes t) s) (fail-Reports svc _ refl)
            (λ expr. push_value-Reports d1 (cut_trailing_slashes t) itemid expr p)))

  pub add_opening_trigger-Reports :
      {e : ErrorCode} (d : Description svc) (node : ResultNode) (r i : ℕ) (t : ResultNodeType)
      → (e ≢ ok → d.errcode ≢ ok)
      → Reports svc e (add_opening_trigger svc d node r i t)
  unfolding add_opening_trigger
  add_opening_trigger-Reports d node r i constant p =
      add_result_instruction_trigger-Reports svc _ _ _ _ p
  add_opening_trigger-Reports d node r i open_structure p =
      add_result_instruction_trigger-Reports svc _ _ _ _ p
  add_opening_trigger-Reports d node r i open_array p =
      add_result_instruction_trigger-Reports svc _ _ _ _ p
  add_opening_trigger-Reports d node r i result_reference p =
      add_result_instruction_trigger-Reports svc _ _ _ _ p
  add_opening_trigger-Reports d node r i input_reference p =
      add_result_instruction_trigger-Reports svc _ _ _ _ p
  add_opening_trigger-Reports d node r i close_structure p = done-Reports svc _ _ p
  add_opening_trigger-Reports d node r i close_array p = done-Reports svc _ _ p

  pub add_closing_trigger-Reports :
      {e : ErrorCode} (d : Description svc) (node : ResultNode) (r i : ℕ) (t : ResultNodeType)
      → (e ≢ ok → d.errcode ≢ ok)
      → Reports svc e (add_closing_trigger svc d node r i t)
  unfolding add_closing_trigger
  add_closing_trigger-Reports d node r i close_structure p =
      add_result_instruction_trigger-Reports svc _ _ _ _ p
  add_closing_trigger-Reports d node r i close_array p =
      add_result_instruction_trigger-Reports svc _ _ _ _ p
  add_closing_trigger-Reports d node r i constant p = done-Reports svc _ _ p
  add_closing_trigger-Reports d node r i open_structure p = done-Reports svc _ _ p
  add_closing_trigger-Reports d node r i open_array p = done-Reports svc _ _ p
  add_closing_trigger-Reports d node r i input_reference p = done-Reports svc _ _ p
  add_closing_trigger-Reports d node r i result_reference p = done-Reports svc _ _ p

  pub add_opening_triggers-Reports :
      {e : ErrorCode} (nodes : List ResultNode) (r i : ℕ) (d : Description svc)
      → (e ≢ ok → d.errcode ≢ ok)
      → Reports svc e (add_opening_triggers svc nodes r i d)
  unfolding add_opening_triggers
  add_opening_triggers-Reports [] r i d p = done-Reports svc _ _ p
  add_opening_triggers-Reports (node ∷ nodes) r i d p =
      and_then-Reports svc _ _ (add_opening_trigger-Reports _ _ _ _ _ p)
        (add_opening_triggers-Reports nodes r (suc i))

  pub add_closing_triggers-Reports :
      {e : ErrorCode} (nodes : List ResultNode) (r i : ℕ) (d : Description svc)
      → (e ≢ ok → d.errcode ≢ ok)
      → Reports svc e (add_closing_triggers svc nodes r i d)
  unfolding add_closing_triggers
  add_closing_triggers-Reports [] r i d p = done-Reports svc _ _ p
  add_closing_triggers-Reports (node ∷ nodes) r i d p =
      and_then-Reports svc _ _ (add_closing_trigger-Reports _ _ _ _ _ p)
        (add_closing_triggers-Reports nodes r (suc i))

  pub add_result_description-Reports :
      (d : Description svc) (nodes : List ResultNode)
      → Reports svc d.errcode (add_result_description svc d nodes)
  unfolding add_result_description
  add_result_description-Reports d nodes =
      and_then-Reports svc _ _ (add_opening_triggers-Reports nodes _ _ _ (λ h. h)) (λ d1 p.
        and_then-Reports svc _ _ (add_closing_triggers-Reports nodes _ _ _ p)
          (λ d2 p2. done-Reports svc _ _ p2))

  pub add_env_assignment-Reports :
      (d : Description svc) (a : EnvAssignment) → Reports svc d.errcode (add_env_assignment svc d a)
  unfolding add_env_assignment
  add_env_assignment-Reports d a =
      if-Reports svc _ (fail-Reports svc _ refl) (done-Reports svc _ _ (λ h. h))
