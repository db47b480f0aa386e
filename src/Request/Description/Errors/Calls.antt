-- ===== src/Request/Description/Errors/Calls.antt =====
-- The failures of the operations on calls and groups in src/request.cpp.
use papuga.ErrorCode.{ErrorCode, ok, is_ok}
use papuga.Prelude.{
  ℕ, ◌≡◌, refl, ◌≢◌, get_or, ◌||◌, false, length, inl, inr, Option-cases, Bool-cases, Option, none,
  some, arith,
}
use papuga.Prelude.Int.{ℤ, pos, pos_part, ltb_ℤ}
use papuga.Request.Description.Expression.{Text}
use papuga.Request.Description.State.{
  Services, Description, CallArgDef, CallDef, RequestMethodId, ResolveType, no_arg, back,
}
use papuga.Request.Description.Calls.{
  prioritize_last_call_in_scope, add_call, alloc_args, add_call_error, add_checked_call, push_call,
  leb_ℤ, is_assigned, assign_arg, set_arg_of, set_call_arg, set_call_arg_var, set_call_arg_item,
  open_group, close_group, finish,
}
use papuga.Request.Description.Errors.Rules.{
  Reports, fail-Reports, done-Reports, if-Reports, option-Reports, option-Reports,
  copy_if_defined-stays, check_item_id-Reports, add_expression-Reports,
}

module _ (svc : Services) where
  pub prioritize-Reports :
      (d : Description svc) (e : Text)
      → Reports svc d.errcode (prioritize_last_call_in_scope svc d e)
  unfolding prioritize_last_call_in_scope
  prioritize-Reports d e =
      if-Reports svc _ (fail-Reports svc _ refl) (add_expression-Reports svc _ _ _ (λ h. h))

  pub push_call-Reports :
      {e : ErrorCode} (d : Description svc) (t : Text) (m : RequestMethodId) (s r : Option Text)
      (n : ℤ)
      → (e ≢ ok → d.errcode ≢ ok)
      → Reports svc e (push_call svc d t m s r n)
  unfolding push_call
  push_call-Reports d t m s r n p = elim (Bool-cases (is_ok d.errcode)) [
    | inl h ↦ rw (h, push_call) (add_expression-Reports svc _ _ _ p)
    | inr h ↦ rw (h, push_call) (fail-Reports svc _ h)
  ]

  pub add_checked_call-Reports :
      (d : Description svc) (t : Text) (m : RequestMethodId) (s r : Option Text) (n : ℤ)
      → Reports svc d.errcode (add_checked_call svc d t m s r n)
  unfolding add_checked_call
  add_checked_call-Reports d t m s r n =
      option-Reports svc (alloc_args svc d n) (fail-Reports svc _ refl) (λ mem.
        push_call-Reports _ _ _ _ _ _
          (copy_if_defined-stays svc _ _ (copy_if_defined-stays svc _ _ (λ h. h))))

  pub assign_arg-Reports :
      {e : ErrorCode} (d : Description svc) (call : CallDef) (idx : ℕ) (adef : CallArgDef)
      → (e ≢ ok → d.errcode ≢ ok)
      → Reports svc e (assign_arg svc d call idx adef)
  unfolding assign_arg
  assign_arg-Reports d call idx adef p =
      if-Reports svc _ (fail-Reports svc _ refl)
        (if-Reports svc _ (check_item_id-Reports svc _ _ p) (done-Reports svc _ _ p))

  pub add_call_error-is_ok :
      (d : Description svc) (m : RequestMethodId) (s : Option Text) (n : ℤ) (code : ErrorCode)
      → add_call_error svc d m s n ≡ some code
      → is_ok code ≡ false
  unfolding add_call_error
  add_call_error-is_ok d m s n code h = ground arith

  pub set_arg_of-Reports :
      {e : ErrorCode} (d : Description svc) (idx : ℤ) (adef : CallArgDef) (call : CallDef)
      → (e ≢ ok → d.errcode ≢ ok)
      → Reports svc e (set_arg_of svc d idx adef call)
  unfolding set_arg_of
  set_arg_of-Reports d idx adef call p =
      if-Reports svc (ltb_ℤ idx (pos 0) || leb_ℤ (pos (length call.args)) idx)
        (fail-Reports svc _ refl)
        (if-Reports svc (is_assigned (get_or call.args (pos_part idx) no_arg))
          (fail-Reports svc _ refl) (assign_arg-Reports d call (pos_part idx) adef p))

  pub set_call_arg-Reports :
      {e : ErrorCode} (d : Description svc) (idx : ℤ) (adef : CallArgDef)
      → (e ≢ ok → d.errcode ≢ ok)
      → Reports svc e (set_call_arg svc d idx adef)
  unfolding set_call_arg
  set_call_arg-Reports d idx adef p = if-Reports svc _ (fail-Reports svc _ refl) (
      option-Reports svc (back d.calldefs) (fail-Reports svc _ refl)
        (λ c. set_arg_of-Reports d idx adef c p))

  pub set_call_arg_var-Reports :
      (d : Description svc) (idx : ℤ) (v : Option Text)
      → Reports svc d.errcode (set_call_arg_var svc d idx v)
  unfolding set_call_arg_var
  set_call_arg_var-Reports d idx none = fail-Reports svc _ refl
  set_call_arg_var-Reports d idx (some v) =
      set_call_arg-Reports _ _ _ (copy_if_defined-stays svc _ _ (λ h. h))

  pub set_call_arg_item-Reports :
      (d : Description svc) (idx itemid : ℤ) (t : ResolveType) (g : ℤ)
      → Reports svc d.errcode (set_call_arg_item svc d idx itemid t g)
  unfolding set_call_arg_item
  set_call_arg_item-Reports d idx itemid t g =
      if-Reports svc _ (fail-Reports svc _ refl) (set_call_arg-Reports _ _ _ (λ h. h))

  pub add_call-Reports :
      (d : Description svc) (t : Text) (m : RequestMethodId) (s r : Option Text) (n : ℤ)
      → Reports svc d.errcode (add_call svc d t m s r n)
  unfolding add_call
  add_call-Reports d t m s r n = elim (Option-cases (add_call_error svc d m s n)) [
    | inl e ↦ rw (e, add_call) (add_checked_call-Reports d t m s r n)
    | inr (code, e) ↦ rw (e, add_call) (fail-Reports svc _ (add_call_error-is_ok d m s n code e))
  ]

  pub open_group-Reports :
      (d : Description svc) (g : ℤ) → Reports svc d.errcode (open_group svc d g)
  unfolding open_group
  open_group-Reports d g =
      if-Reports svc _ (fail-Reports svc _ refl) (done-Reports svc _ _ (λ h. h))

  pub close_group-Reports : (d : Description svc) → Reports svc d.errcode (close_group svc d)
  unfolding close_group
  close_group-Reports d = if-Reports svc _ (fail-Reports svc _ refl) (done-Reports svc _ _ (λ h. h))

  pub finish-Reports : (d : Description svc) → Reports svc d.errcode (finish svc d)
  unfolding finish
  finish-Reports d =
      if-Reports svc _ (fail-Reports svc _ refl)
        (if-Reports svc _ (done-Reports svc _ _ (λ h. h)) (fail-Reports svc _ refl))
