-- ===== src/Request/Description/Grouping.antt =====
-- The operations of AutomatonDescription in src/request.cpp that concern the groups of calls, against
-- the invariant of Groups.
use papuga.Prelude.{
  ℕ, ◌+◌, ◌<◌, ◌≡◌, refl, inl, inr, Bool, true, false, Option, none, some, List, [], ◌∷◌, ◌++◌,
  length, arith, Bool-cases, Option-cases, replicate,
}
use papuga.ErrorCode.{is_ok}
use papuga.Prelude.Int.{pos_part, ℤ, pos, ◌≤ℤ◌, ltb_ℤ}
use papuga.Request.Description.Expression.{Text}
use papuga.Request.Description.State.{
  Services, Description, CallDef, RequestMethodId, max_nof_call_defs, copy_if_defined,
  add_expression, extract_root_tag_name, init_description, ClassDef, no_arg,
}
use papuga.Request.Description.Calls.{
  leb_ℤ, add_call_error, alloc_args, call_group, push_call, add_checked_call, add_call, open_group,
  close_group, finish,
}
use papuga.Request.Description.Groups.{
  AllIndices, GroupsOk, init-GroupsOk, open-GroupsOk, push-GroupsOk, close-GroupsOk,
  rewrite_groups-AllIndices,
}

-- Calls added, groups opened and groups closed.
pub data GroupStep : Type 0 where
  adds : Text → RequestMethodId → Option Text → Option Text → ℤ → GroupStep
  opens : (g : ℤ) → pos 0 ≤ℤ g → GroupStep
  closes : GroupStep

module _ (svc : Services) where
  -- The invariant of a description that is not done, on its members.
  abbrev pub Grouped : Description svc → Type 0
  Grouped d = (d.done ≡ false) × GroupsOk d.calldefs d.groupidmap d.groupid

  copy_if_defined-Grouped :
      (d : Description svc) (str : Option Text) → Grouped d → Grouped (copy_if_defined svc d str).1
  unfolding copy_if_defined
  copy_if_defined-Grouped d none h = h
  copy_if_defined-Grouped d (some []) h = h
  copy_if_defined-Grouped d (some (c ∷ cs)) h =
      elim (Option-cases (svc.alloc d.mem (length (c ∷ cs) + 1) 1)) [
        | inl n ↦ rw (n, copy_if_defined) h
        | inr (mem, s) ↦ rw (s, copy_if_defined) h
      ]

  copy_if_defined-calldefs :
      (d : Description svc) (str : Option Text)
      → (copy_if_defined svc d str).1.calldefs ≡ d.calldefs
  unfolding copy_if_defined
  copy_if_defined-calldefs d none = refl
  copy_if_defined-calldefs d (some []) = refl
  copy_if_defined-calldefs d (some (c ∷ cs)) =
      elim (Option-cases (svc.alloc d.mem (length (c ∷ cs) + 1) 1)) [
        | inl n ↦ rw (n, copy_if_defined) refl
        | inr (mem, s) ↦ rw (s, copy_if_defined) refl
      ]

  add_expression-Grouped :
      (d : Description svc) (evid : ℕ) (expr : Text)
      → Grouped d
      → Grouped (add_expression svc d evid expr).1
  unfolding add_expression extract_root_tag_name
  add_expression-Grouped d evid expr h = ground arith

  push_call-Grouped :
      (d : Description svc) (t : Text) (m : RequestMethodId) (s r : Option Text) (n : ℤ)
      → Grouped d
      → length d.calldefs < max_nof_call_defs
      → Grouped (push_call svc d t m s r n).1
  unfolding push_call call_group
  push_call-Grouped d t m s r n h lt =
      let c : CallDef = record {
        methodid = m;
        selfvarname = s;
        resultvarname = r;
        args = replicate (pos_part n) no_arg;
        groupid = call_group svc d;
      } in
      let d1 : Description svc = record d { calldefs = d.calldefs ++ (c ∷ []) } in
      elim (Bool-cases (is_ok d.errcode)) [
        | inl e ↦
            rw (e, push_call)
              (add_expression-Grouped d1 _ _
                (h.0, push-GroupsOk d.calldefs d.groupidmap d.groupid c h.1 lt refl))
        | inr e ↦ rw (e, push_call) h
      ]

  add_call_error-few :
      (d : Description svc) (m : RequestMethodId) (s : Option Text) (n : ℤ)
      → add_call_error svc d m s n ≡ none
      → length d.calldefs < max_nof_call_defs
  unfolding add_call_error
  add_call_error-few d m s n e = ground arith

  add_call-Grouped :
      (d : Description svc) (t : Text) (m : RequestMethodId) (s r : Option Text) (n : ℤ)
      → Grouped d
      → Grouped (add_call svc d t m s r n).1
  unfolding add_call add_checked_call
  add_call-Grouped d t m s r n h = elim (Option-cases (add_call_error svc d m s n)) [
    | inr (code, e) ↦ rw (e, add_call) h
    | inl e ↦ elim (Option-cases (alloc_args svc d n)) [
      | inl q ↦ rw (e, q, add_call, add_checked_call) h
      | inr (mem, q) ↦
          let c = copy_if_defined svc (record d { mem = mem }) s in
          rw (e, q, add_call, add_checked_call)
            (push_call-Grouped _ _ _ _ _ _
              (copy_if_defined-Grouped _ r (copy_if_defined-Grouped (record d { mem = mem }) s h))
              (rw
                (
                  copy_if_defined-calldefs c.1 r,
                  copy_if_defined-calldefs (record d { mem = mem }) s,
                )
                (add_call_error-few d m s n e)))
    ]
  ]

  open_group-Grouped :
      (d : Description svc) (g : ℤ) → Grouped d → pos 0 ≤ℤ g → Grouped (open_group svc d g).1
  unfolding open_group
  open_group-Grouped d g h p = elim (Bool-cases (leb_ℤ (pos 0) d.groupid)) [
    | inl e ↦ rw (e, open_group) h
    | inr e ↦ rw (e, open_group) (h.0, open-GroupsOk d.calldefs d.groupidmap d.groupid g h.1 p)
  ]

  close_group-Grouped : (d : Description svc) → Grouped d → Grouped (close_group svc d).1
  unfolding close_group
  close_group-Grouped d h = elim (Bool-cases (ltb_ℤ d.groupid (pos 0))) [
    | inl e ↦ rw (e, close_group) h
    | inr e ↦ rw (e, close_group) (h.0, close-GroupsOk d.calldefs d.groupidmap d.groupid h.1)
  ]

  abbrev pub take_step : GroupStep → Description svc → Description svc
  take_step (adds t m s r n) d = (add_call svc d t m s r n).1
  take_step (opens g p) d = (open_group svc d g).1
  take_step closes d = (close_group svc d).1

  abbrev pub take_steps : List GroupStep → Description svc → Description svc
  take_steps [] d = d
  take_steps (s ∷ ss) d = take_steps ss (take_step s d)

  take_step-Grouped : (s : GroupStep) (d : Description svc) → Grouped d → Grouped (take_step s d)
  take_step-Grouped (adds t m s r n) d h = add_call-Grouped d t m s r n h
  take_step-Grouped (opens g p) d h = open_group-Grouped d g h p
  take_step-Grouped closes d h = close_group-Grouped d h

  take_steps-Grouped :
      (ss : List GroupStep) (d : Description svc) → Grouped d → Grouped (take_steps ss d)
  take_steps-Grouped [] d h = h
  take_steps-Grouped (s ∷ ss) d h = take_steps-Grouped ss (take_step s d) (take_step-Grouped s d h)

  finish-AllIndices :
      (d : Description svc)
      → Grouped d
      → ((finish svc d).0 ≡ true)
        × ((finish svc d).1.done ≡ true)
        × AllIndices (length d.calldefs) (finish svc d).1.calldefs
        × (length (finish svc d).1.calldefs ≡ length d.calldefs)
  unfolding finish
  finish-AllIndices d (e, h) =
      let r =
        rewrite_groups-AllIndices (length d.calldefs) d.groupidmap d.calldefs h.few h.known
          h.groups in
      rw (e, r.0, finish) (refl, refl, r.1, r.2)

  abbrev pub built :
      List ClassDef → Bool → Bool → svc.Mem → svc.Atm → List GroupStep → Description svc
  built classdefs strict exclusive mem atm ss =
      take_steps ss (init_description svc classdefs strict exclusive mem atm)

  -- After any sequence of calls added, groups opened (of numbers at least 0) and groups closed, each of
  -- which may fail, done() succeeds: no call is lost, and each call's group is then the index of a call
  -- or the number of calls.
  pub steps-finish-AllIndices :
      (classdefs : List ClassDef) (strict exclusive : Bool) (mem : svc.Mem) (atm : svc.Atm)
      (ss : List GroupStep)
      → ((finish svc (built classdefs strict exclusive mem atm ss)).0 ≡ true)
        × ((finish svc (built classdefs strict exclusive mem atm ss)).1.done ≡ true)
        × AllIndices
            (length (built classdefs strict exclusive mem atm ss).calldefs)
            (finish svc (built classdefs strict exclusive mem atm ss)).1.calldefs
        × (length (finish svc (built classdefs strict exclusive mem atm ss)).1.calldefs
            ≡ length (built classdefs strict exclusive mem atm ss).calldefs)
  unfolding init_description
  steps-finish-AllIndices classdefs strict exclusive mem atm ss =
      finish-AllIndices _ (take_steps-Grouped ss _ (refl, init-GroupsOk))
