-- ===== src/Request/Context/Runs.antt =====
-- What the operations of AutomatonContext in src/request.cpp record, for any document and any automaton.
use papuga.ErrorCode.{ErrorCode, buffer_overflow_error, logic_error, type_error, no_mem_error}
use papuga.Prelude.{
  ℕ, ◌&&◌, ◌≡◌, refl, ◌⊎◌, inl, inr, Bool, true, false, not, Option, none, some, List,
  if◌then◌else◌, leb, length, get_elem?, Bool-cases, Option-cases,
}
use papuga.Prelude.Int.{ℤ, pos, pos_part, ltb_ℤ}
use papuga.Request.Refs.{
  AtmRefType, instantiate_value, collect_value, close_struct, method_call, method_call_prioritize,
  inherit_from, result_instruction, res_ref_resultidx, res_ref_instridx, atm_ref_type,
  atm_ref_index,
}
use papuga.Request.Description.Expression.{Text}
use papuga.Request.Description.State.{Services, Description, InheritFromDef, CallDef, StructDef}
use papuga.Request.Context
use papuga.Request.Context.{Context}
use papuga.Request.Context.Events.{
  ElementType, Processing, max_nof_inherited, inherit_named, as_unsigned, reads_scope,
  push_inherited_context, process_result, context_result, process_typed, process_event,
  with_context, at_index, is_empty_stack,
}
use papuga.Request.Context.Scopes.{
  Records, Records-refl, Records-fields, RecordsSome, RecordsPair, collect_value-RecordsPair,
  close_struct-RecordsSome, method_call-Records,
}
use papuga.Request.Context.Dropped.{method_call_prioritize-Records}
use papuga.Value.{Value, Kind, of_string, of_number, of_object, of_void, kind, Textwolf, Numbers}

copied : {A B : Type 0} → (x : A ⊎ B) → ((w : A) × (x ≡ inl w)) ⊎ ((e : B) × (x ≡ inr e))
copied (inl w) = inl (w, refl)
copied (inr e) = inr (e, refl)

module _ (tw : Textwolf) (nums : Numbers) (Atm : Type 0)
    (push_atm : Atm → ElementType → Text → List ℕ × Atm)
    (copy : Value nums.Float → Value nums.Float ⊎ ErrorCode) (has_room : Text → Bool)
    (svc : Services) (atm : Description svc) where
  abbrev pub P : Type 0
  P = Processing nums.Float Atm

  abbrev pub V : Type 0
  V = Value nums.Float

  -- An operation records the current scope only.
  abbrev pub Event : P → Option (Bool × P) → Type 0
  Event p none = Unit
  Event p (some r) = Records V p.context r.1.context

  pub failing :
      (p : P) (code : ErrorCode) → Records V p.context (record p.context { errcode = code })
  failing p code =
      Records-fields V p.context p.context (record p.context { errcode = code })
        (Records-refl V p.context) refl refl (λ s h. h)

  Event-if :
      (b : Bool) (p : P) (x y : Option (Bool × P))
      → Event p x
      → Event p y
      → Event p (if b then x else y)
  Event-if true p x y r q = r
  Event-if false p x y r q = q

  inherit_named-Records :
      (p : P) (idx : ℕ) (def : InheritFromDef) (k : Kind nums.Float)
      → Records V p.context
          ((inherit_named tw nums Atm push_atm copy has_room svc atm p idx def k).1.context)
  inherit_named-Records p idx def (of_string enc name) = elim (Bool-cases (has_room name)) [
    | inl e ↦ rw e (Records-refl V p.context)
    | inr e ↦ rw e (failing p no_mem_error)
  ]
  inherit_named-Records p idx def (of_number n) = failing p type_error
  inherit_named-Records p idx def of_object = failing p type_error
  inherit_named-Records p idx def of_void = failing p type_error

  inherited-Event :
      (p : P) (idx : ℕ) (k : Kind nums.Float) (o : Option InheritFromDef)
      → Event p (elim o [
        | none ↦ none
        | some def ↦ some (inherit_named tw nums Atm push_atm copy has_room svc atm p idx def k)
      ])
  inherited-Event p idx k none = tt
  inherited-Event p idx k (some def) = inherit_named-Records p idx def k

  push_inherited_context-Event :
      (p : P) (idx : ℤ) (v : V)
      → Event p (push_inherited_context tw nums Atm push_atm copy has_room svc atm p idx v)
  unfolding push_inherited_context
  push_inherited_context-Event p idx v =
      Event-if (leb max_nof_inherited (length p.inherited)) p _ _ (failing p buffer_overflow_error)
        (Event-if (not (ltb_ℤ idx (pos (length atm.inheritdefs)))) p _ _ (failing p logic_error)
          (inherited-Event p (pos_part idx) (kind v) (at_index atm.inheritdefs idx)))

  -- The scopes that an event of a definition records, whichever definition there is.
  inherit_rest :
      (p : P) (o : Option (Bool × P))
      → Event p o
      → Event p (elim o [ none ↦ none | some r ↦ some (true, r.1) ])
  inherit_rest p none e = tt
  inherit_rest p (some r) e = e

  instantiated :
      (p : P) (w : V) (o : Option ℤ)
      → Event p (elim o [
        | none ↦ none
        | some itemid ↦ some (
          true,
          with_context tw nums Atm push_atm copy has_room svc atm p
              (Context.instantiate_value V p.context itemid w),
        )
      ])
  unfolding Context.instantiate_value
  instantiated p w none = tt
  instantiated p w (some itemid) =
      Records-fields V p.context p.context (Context.instantiate_value V p.context itemid w)
        (Records-refl V p.context) refl refl (λ s h. h)

  some_context :
      (p : P) (o : Option (Context V))
      → RecordsSome V p.context o
      → Event p (elim o [
        | none ↦ none
        | some c ↦ some (true, with_context tw nums Atm push_atm copy has_room svc atm p c)
      ])
  some_context p none r = tt
  some_context p (some c) r = r

  some_pair :
      (p : P) (o : Option (Bool × Context V))
      → RecordsPair V p.context o
      → Event p (elim o [
        | none ↦ none
        | some r ↦ context_result tw nums Atm push_atm copy has_room svc atm p r
      ])
  some_pair p none r = tt
  some_pair p (some c) r = r

  collected :
      (p : P) (o : Option ℤ)
      → Event p (elim o [
        | none ↦ none
        | some itemid ↦ elim (Context.collect_value V atm.maxitemid p.context itemid) [
          | none ↦ none
          | some r ↦ context_result tw nums Atm push_atm copy has_room svc atm p r
        ]
      ])
  collected p none = tt
  collected p (some itemid) =
      some_pair p (Context.collect_value V atm.maxitemid p.context itemid)
        (collect_value-RecordsPair V atm.maxitemid p.context itemid)

  closed :
      (p : P) (o : Option StructDef)
      → Event p (elim o [
        | none ↦ none
        | some def ↦ elim (Context.close_struct V atm.maxitemid p.context def) [
          | none ↦ none
          | some c ↦ some (true, with_context tw nums Atm push_atm copy has_room svc atm p c)
        ]
      ])
  closed p none = tt
  closed p (some def) =
      some_context p (Context.close_struct V atm.maxitemid p.context def)
        (close_struct-RecordsSome V atm.maxitemid p.context def)

  called :
      (p : P) (k : ℕ) (o : Option CallDef)
      → Event p (elim o [
        | none ↦ none
        | some def ↦
            context_result tw nums Atm push_atm copy has_room svc atm p
              (Context.method_call V p.context def k)
      ])
  called p k none = tt
  called p k (some def) = method_call-Records V p.context def k

  prioritized :
      (p : P) (k : ℕ) (o : Option CallDef)
      → Event p (elim o [
        | none ↦ none
        | some def ↦ elim (Context.method_call_prioritize V p.context def k) [
          | none ↦ none
          | some c ↦ some (true, with_context tw nums Atm push_atm copy has_room svc atm p c)
        ]
      ])
  prioritized p k none = tt
  prioritized p k (some def) =
      some_context p (Context.method_call_prioritize V p.context def k)
        (method_call_prioritize-Records V p.context def k)

  process_result-Records :
      (p : P) (evidx : ℕ)
      → Records V p.context
          ((process_result tw nums Atm push_atm copy has_room svc atm p evidx).1.context)
  unfolding process_result
  process_result-Records p evidx =
      elim (Option-cases (get_elem? atm.resultdefs (res_ref_resultidx evidx))) [
        | inl e ↦ rw (e, process_result) (failing p logic_error)
        | inr (nodes, e) ↦ elim (Option-cases (get_elem? nodes (res_ref_instridx evidx))) [
          | inl f ↦ rw (e, f, process_result) (failing p logic_error)
          | inr (node, f) ↦ rw (e, f, process_result) (Records-refl V p.context)
        ]
      ]

  process_typed-Event :
      (p : P) (t : AtmRefType) (evidx : ℤ) (v : V)
      → Event p (process_typed tw nums Atm push_atm copy has_room svc atm p t evidx v)
  unfolding process_typed
  process_typed-Event p inherit_from evidx v =
      inherit_rest p (push_inherited_context tw nums Atm push_atm copy has_room svc atm p evidx v)
        (push_inherited_context-Event p evidx v)
  process_typed-Event p instantiate_value evidx v = elim (copied (copy v)) [
    | inl (w, e) ↦ rw (e, Event) (instantiated p w (at_index atm.valuedefs evidx))
    | inr (code, e) ↦ rw (e, Event) (failing p code)
  ]
  process_typed-Event p collect_value evidx v = collected p (at_index atm.valuedefs evidx)
  process_typed-Event p close_struct evidx v = closed p (at_index atm.structdefs evidx)
  process_typed-Event p method_call evidx v =
      called p (pos_part evidx) (at_index atm.calldefs evidx)
  process_typed-Event p method_call_prioritize evidx v =
      prioritized p (pos_part evidx) (at_index atm.calldefs evidx)
  process_typed-Event p result_instruction evidx v = process_result-Records p (as_unsigned evidx)

  typed_or_none :
      (p : P) (o : Option AtmRefType) (evidx : ℤ) (v : V)
      → Event p (elim o [
        | none ↦ some (true, p)
        | some t ↦
            if is_empty_stack p.context.scopestack
              && reads_scope tw nums Atm push_atm copy has_room svc atm t evidx
            then none
            else process_typed tw nums Atm push_atm copy has_room svc atm p t evidx v
      ])
  typed_or_none p none evidx v = Records-refl V p.context
  typed_or_none p (some t) evidx v =
      Event-if
        (is_empty_stack p.context.scopestack
          && reads_scope tw nums Atm push_atm copy has_room svc atm t evidx)
        p _ _ tt (process_typed-Event p t evidx v)

  -- An event changes neither the open tags nor the count, and records the current scope only.
  pub process_event-Event :
      (p : P) (ev : ℕ) (v : V)
      → Event p (process_event tw nums Atm push_atm copy has_room svc atm p ev v)
  unfolding process_event
  process_event-Event p ev v = typed_or_none p (atm_ref_type ev) (atm_ref_index ev) v
