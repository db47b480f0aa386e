-- ===== src/Request/Description/Errors/Rules.antt =====
-- When an operation of AutomatonDescription in src/request.cpp reports its failures, by its parts.
use papuga.ErrorCode.{ErrorCode, ok, is_ok}
use papuga.Prelude.{
  ℕ, ◌≡◌, refl, ◌≢◌, if◌then◌else◌, Bool, true, false, length, ◌+◌, inl, inr, Option-cases, Option,
  none, some, [], ◌∷◌, arith,
}
use papuga.Prelude.Int.{ℤ}
use papuga.Request.Description.Expression.{Text}
use papuga.Request.Description.State.{
  Services, Description, Result, copy_if_defined, check_item_id, extract_root_tag_name,
  add_expression, add_result_instruction_trigger, and_then,
}

not_ok : (code : ErrorCode) → is_ok code ≡ false → code ≢ ok
not_ok code h q = ground arith

module _ (svc : Services) where
  -- A failure shows in the error code, and an error code stays.
  pub record Reports (e : ErrorCode) (r : Result svc) : Type 0 where
    pub failure : r.0 ≡ false → r.1.errcode ≢ ok
    pub stays : e ≢ ok → r.1.errcode ≢ ok

  pub fail-Reports :
      {e : ErrorCode} (d : Description svc) → is_ok d.errcode ≡ false → Reports e (false, d)
  fail-Reports d h = record { failure = λ _. not_ok d.errcode h; stays = λ _. not_ok d.errcode h }

  pub done-Reports :
      (e : ErrorCode) (d : Description svc) → (e ≢ ok → d.errcode ≢ ok) → Reports e (true, d)
  done-Reports e d h = record { failure = λ f. cc; stays = h }

  pub if-Reports :
      {e : ErrorCode} (b : Bool) {r s : Result svc}
      → Reports e r
      → Reports e s
      → Reports e (if b then r else s)
  if-Reports true p q = p
  if-Reports false p q = q

  pub option-Reports :
      {A : Type 0} {e : ErrorCode} (o : Option A) {r : Result svc} {s : A → Result svc}
      → Reports e r
      → ((a : A) → Reports e (s a))
      → Reports e (elim o [ none ↦ r | some a ↦ s a ])
  option-Reports none p q = p
  option-Reports (some a) p q = q a

  pub copy_if_defined-stays :
      {e : ErrorCode} (d : Description svc) (str : Option Text)
      → (e ≢ ok → d.errcode ≢ ok)
      → e ≢ ok
      → (copy_if_defined svc d str).1.errcode ≢ ok
  unfolding copy_if_defined
  copy_if_defined-stays d none p h = p h
  copy_if_defined-stays d (some []) p h = p h
  copy_if_defined-stays d (some (c ∷ cs)) p h =
      elim (Option-cases (svc.alloc d.mem (length (c ∷ cs) + 1) 1)) [
        | inl n ↦ rw (n, copy_if_defined) (λ q. cc)
        | inr (mem, s) ↦ rw (s, copy_if_defined) (p h)
      ]

  pub check_item_id-Reports :
      {e : ErrorCode} (d : Description svc) (itemid : ℤ)
      → (e ≢ ok → d.errcode ≢ ok)
      → Reports e (check_item_id svc d itemid)
  unfolding check_item_id
  check_item_id-Reports d itemid p =
      if-Reports _ (fail-Reports _ refl) (if-Reports _ (done-Reports _ _ p) (done-Reports _ _ p))

  pub add_expression-Reports :
      {e : ErrorCode} (d : Description svc) (eventid : ℕ) (expression : Text)
      → (e ≢ ok → d.errcode ≢ ok)
      → Reports e (add_expression svc d eventid expression)
  unfolding add_expression extract_root_tag_name
  add_expression-Reports d eventid expression p = ground arith

  pub add_result_instruction_trigger-Reports :
      {e : ErrorCode} (d : Description svc) (expression : Text) (resultidx instridx : ℕ)
      → (e ≢ ok → d.errcode ≢ ok)
      → Reports e (add_result_instruction_trigger svc d expression resultidx instridx)
  unfolding add_result_instruction_trigger
  add_result_instruction_trigger-Reports d expression resultidx instridx p =
      if-Reports _ (fail-Reports _ refl) (add_expression-Reports _ _ _ p)

  pub and_then-Reports :
      {e : ErrorCode} (r : Result svc) (rest : Description svc → Result svc)
      → Reports e r
      → ((d : Description svc) → (e ≢ ok → d.errcode ≢ ok) → Reports e (rest d))
      → Reports e (and_then svc r rest)
  unfolding and_then
  and_then-Reports (false, d) rest p q = p
  and_then-Reports (true, d) rest p q = q d p.stays
