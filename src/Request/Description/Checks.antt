-- ===== src/Request/Description/Checks.antt =====
-- The tests that the operations of AutomatonDescription in src/request.cpp make of their arguments.
use papuga.ErrorCode.{out_of_range_error, buffer_overflow_error}
use papuga.Prelude.{
  ℕ, suc, ◌-◌, ◌^◌, ◌≤◌, ◌<◌, ◌≡◌, ◌⊎◌, true, false, ◌||◌, some, [], ◌∷◌, length, length-append,
  set, get_or, arith,
}
use papuga.Prelude.Int.{ℤ, pos, negsuc, ◌≤ℤ◌, ltb_ℤ}
use papuga.Request.Description.State.{
  Services, Description, CallDef, EnvAssignment, no_arg, back, set_back, copy_if_defined,
  check_item_id,
}
use papuga.Request.Description.Calls.{
  is_assigned, leb_ℤ, assign_arg, set_arg_of, set_call_arg, set_call_arg_var,
}
use papuga.Request.Description.Structs.{add_env_assignment}

module _ (svc : Services) where
  -- checkItemId accepts exactly the numbers from 0 to below 2^28. The greatest item id of the
  -- description is then at least the number, and it is what it was before or the number itself; of a
  -- number that it refuses only the error code is left.
  pub check_item_id_lem :
      (d : Description svc) (itemid : ℤ)
      → ((pos 0 ≤ℤ itemid)
          × (itemid ≤ℤ pos (2 ^ 28 - 1))
          × ((check_item_id svc d itemid).0 ≡ true)
          × (itemid ≤ℤ pos ((check_item_id svc d itemid).1.maxitemid))
          × (d.maxitemid ≤ (check_item_id svc d itemid).1.maxitemid)
          × (((check_item_id svc d itemid).1.maxitemid ≡ d.maxitemid)
              ⊎ (pos ((check_item_id svc d itemid).1.maxitemid) ≡ itemid)))
        ⊎ (((itemid ≤ℤ negsuc 0) ⊎ (pos (2 ^ 28) ≤ℤ itemid))
            × (check_item_id svc d itemid ≡ (false, record d { errcode = out_of_range_error })))
  unfolding check_item_id
  check_item_id_lem d itemid = ground arith

  -- An argument set to the variable with the empty name is one that no variable names and that refers
  -- to the item 0, and the operation reports success. The description is not done, and the argument
  -- of its last call is not set.
  pub set_call_arg_var_of_empty_name :
      (d : Description svc) (call : CallDef) (idx : ℕ)
      → d.done ≡ false
      → back d.calldefs ≡ some call
      → idx < length call.args
      → is_assigned (get_or call.args idx no_arg) ≡ false
      → set_call_arg_var svc d (pos idx) (some []) ≡ (
        true,
        record d {
          calldefs =
              set_back d.calldefs
                (record call { args = set call.args idx (record no_arg { itemid = pos 0 }) });
        },
      )
  unfolding set_call_arg_var copy_if_defined set_call_arg set_arg_of assign_arg check_item_id
  set_call_arg_var_of_empty_name d call idx e b lt free =
      let index_ok : (ltb_ℤ (pos idx) (pos 0) || leb_ℤ (pos (length call.args)) (pos idx)) ≡ false =
        ground arith in
      rw (e, b, set_call_arg) (rw (index_ok, free, set_arg_of) (ground arith))

  -- From at most 8 assignments, the array's size, an assignment is added while there are 7 or fewer,
  -- and refused once there are 8: the array is never written out of its bounds, but all its entries
  -- can be assigned.
  pub add_env_assignment-length :
      (d : Description svc) (a : EnvAssignment)
      → length d.env_assignments ≤ 8
      → ((length d.env_assignments ≤ 7)
          × ((add_env_assignment svc d a).0 ≡ true)
          × (length (add_env_assignment svc d a).1.env_assignments
              ≡ suc (length d.env_assignments)))
        ⊎ ((length d.env_assignments ≡ 8)
            × (add_env_assignment svc d a ≡ (false, record d { errcode = buffer_overflow_error })))
  unfolding add_env_assignment
  add_env_assignment-length d a h = ground (arith, length-append {0} d.env_assignments (a ∷ []))
