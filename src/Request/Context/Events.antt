-- ===== src/Request/Context/Events.antt =====
-- How the class AutomatonContext of src/request.cpp processes events: the tags, attributes and values of a
-- document, and the events that the automaton of textwolf gives for them. Its event stacks are lists with
-- the last event first, as Stack/Events shows of the class EventStack. `none` is a read outside of a vector
-- or an array.
use papuga.ErrorCode.{
  ErrorCode, buffer_overflow_error, logic_error, type_error, no_mem_error, syntax_error,
  value_undefined, is_ok,
}
use papuga.Prelude.{
  ℕ, ◌-◌, ◌^◌, ◌+◌, Bool, true, false, ◌&&◌, ◌||◌, not, Option, none, some, List, [], ◌∷◌, ◌++◌,
  ◌⊎◌, inl, inr, leb, ◌==◌, if◌then◌else◌, length, get_elem?, set,
}
use papuga.Prelude.Int.{ℤ, pos, negsuc, pos_part, ltb_ℤ}
use papuga.Encoding.{utf8}
use papuga.Request.Refs.{
  AtmRefType, instantiate_value, collect_value, close_struct, method_call, method_call_prioritize,
  inherit_from, result_instruction, to_number, atm_ref_type, atm_ref_index, res_ref_resultidx,
  res_ref_instridx,
}
use papuga.Request.Keys.{Scope}
use papuga.Request.Description.Expression.{Text}
use papuga.Request.Description.State.{
  Services, Description, InheritFromDef, ResultNode, ResultNodeType, input_reference,
  result_reference,
}
use papuga.Request.Context
use papuga.Request.Context.{Context, ValueNode, curscope, taglevel}
use papuga.Value.{Value, Kind, of_string, of_number, of_object, of_void, kind, Textwolf, Numbers}
use papuga.Value.Strings.{value_tostring_stl, value_tostring_enc}

-- textwolf::XMLScannerBase::ElementType, as far as it is used.
pub data ElementType : Type 0 where
  open_tag tag_attrib_name tag_attrib_value content close_tag : ElementType

-- A call of one of the functions of RequestResultTemplate that add a node, with its arguments: only those for
-- references take the scope, and only that for the input the level.
pub record ResultCall : Type 0 where
  pub resultidx : ℕ
  pub node : ResultNode
  pub scope : Option Scope
  pub level : Option ℕ

module _ (F Atm : Type 0) where
  -- The members of the class. `required` are the bits of m_maskOfRequiredInheritedContexts, one for each
  -- definition.
  pub record Processing : Type 0 where
    pub context : Context (Value F)
    pub atmstate : Atm
    pub stacks : List (List ℕ)
    pub rootelements : List Text
    pub result_calls : List ResultCall
    pub required : List Bool
    pub inherited : List (Text × Text)

abbrev scope_arg : ResultNodeType → Scope → Option Scope
scope_arg input_reference s = some s
scope_arg result_reference s = some s
scope_arg _ s = none

abbrev level_arg : ResultNodeType → ℕ → Option ℕ
level_arg input_reference n = some n
level_arg _ n = none

-- Whether there is a scope among the arguments.
abbrev has_scope_arg : ResultNodeType → Bool
has_scope_arg input_reference = true
has_scope_arg result_reference = true
has_scope_arg _ = false

-- An index as the number of the same 32 bits.
abbrev pub as_unsigned : ℤ → ℕ
as_unsigned (pos n) = n
as_unsigned (negsuc n) = 2 ^ 32 - 1 - n

-- `MaxNofInheritedContexts`
abbrev pub max_nof_inherited : ℕ
max_nof_inherited = 31

-- getRequiredInheritedContextsMask
unfoldable pub required_mask : List InheritFromDef → List Bool
required_mask [] = []
required_mask (def ∷ defs) = def.is_required ∷ required_mask defs

-- `m_maskOfRequiredInheritedContexts != 0`
unfoldable pub any_required : List Bool → Bool
any_required [] = false
any_required (b ∷ bs) = b || any_required bs

abbrev pub is_empty_stack : List ℕ → Bool
is_empty_stack [] = true
is_empty_stack (s ∷ ss) = false

-- Where the index of an event is one of the definitions.
abbrev pub at_index : {A : Type 0} → List A → ℤ → Option A
at_index xs (pos n) = get_elem? xs n
at_index xs (negsuc n) = none

-- `copy` is papuga_Allocator_deepcopy_value, which gives the copy or sets an error; `push_atm` is the push of
-- the automaton, which gives events; `has_room` is whether papuga_Allocator_copy_string can have memory.
module _ (tw : Textwolf) (nums : Numbers) (Atm : Type 0)
    (push_atm : Atm → ElementType → Text → List ℕ × Atm)
    (copy : Value nums.Float → Value nums.Float ⊎ ErrorCode) (has_room : Text → Bool)
    (svc : Services) (atm : Description svc) where
  abbrev pub Proc : Type 0
  Proc = Processing nums.Float Atm

  abbrev pub with_context : Proc → Context (Value nums.Float) → Proc
  with_context p c = record p { context = c }

  abbrev pub with_error : Proc → ErrorCode → Proc
  with_error p code = with_context p (record p.context { errcode = code })

  abbrev pub noted : Proc → Option ErrorCode → Proc
  noted p none = p
  noted p (some code) = with_error p code

  -- pushInheritedContext
  abbrev pub inherit_named : Proc → ℕ → InheritFromDef → Kind nums.Float → Bool × Proc
  inherit_named p idx def (of_string enc name) =
      if has_room name
      then (
        true,
        record p {
          inherited = p.inherited ++ ((def.inherited_type, name) ∷ []);
          required = if def.is_required then set p.required idx false else p.required;
        },
      )
      else (false, with_error p no_mem_error)
  inherit_named p idx def (of_number n) = (false, with_error p type_error)
  inherit_named p idx def of_object = (false, with_error p type_error)
  inherit_named p idx def of_void = (false, with_error p type_error)

  unfoldable pub push_inherited_context : Proc → ℤ → Value nums.Float → Option (Bool × Proc)
  unfolding kind
  push_inherited_context p idx value =
      if leb max_nof_inherited (length p.inherited)
      then some (false, with_error p buffer_overflow_error)
      else if not (ltb_ℤ idx (pos (length atm.inheritdefs)))
      then some (false, with_error p logic_error)
      else elim (at_index atm.inheritdefs idx) [
        | none ↦ none
        | some def ↦ some (inherit_named p (pos_part idx) def (kind value))
      ]

  -- ResultInstruction
  unfoldable pub process_result : Proc → ℕ → Bool × Proc
  process_result p evidx = elim (get_elem? atm.resultdefs (res_ref_resultidx evidx)) [
    | none ↦ (false, with_error p logic_error)
    | some nodes ↦ elim (get_elem? nodes (res_ref_instridx evidx)) [
      | none ↦ (false, with_error p logic_error)
      | some node ↦ (
        true,
        record p {
          result_calls =
              p.result_calls
              ++ (record {
                resultidx = res_ref_resultidx evidx;
                node = node;
                scope = scope_arg node.node_type (curscope (Value nums.Float) p.context);
                level = level_arg node.node_type (taglevel (Value nums.Float) p.context);
              }
                  ∷ []);
        },
      )
    ]
  ]

  abbrev pub context_result : Proc → Bool × Context (Value nums.Float) → Option (Bool × Proc)
  context_result p r = some (r.0, with_context p r.1)

  -- The cases of processEvent.
  unfoldable pub process_typed : Proc → AtmRefType → ℤ → Value nums.Float → Option (Bool × Proc)
  unfolding push_inherited_context process_result
  process_typed p inherit_from evidx v = elim (push_inherited_context p evidx v) [
    | none ↦ none
    | some r ↦ some (true, r.1)
  ]
  process_typed p instantiate_value evidx v = elim (copy v) [
    | inr code ↦ some (false, with_error p code)
    | inl w ↦ elim (at_index atm.valuedefs evidx) [
      | none ↦ none
      | some itemid ↦
          some
            (true, with_context p (Context.instantiate_value (Value nums.Float) p.context itemid w))
    ]
  ]
  process_typed p collect_value evidx v = elim (at_index atm.valuedefs evidx) [
    | none ↦ none
    | some itemid ↦ elim (Context.collect_value (Value nums.Float) atm.maxitemid p.context itemid) [
      | none ↦ none
      | some r ↦ context_result p r
    ]
  ]
  process_typed p close_struct evidx v = elim (at_index atm.structdefs evidx) [
    | none ↦ none
    | some def ↦ elim (Context.close_struct (Value nums.Float) atm.maxitemid p.context def) [
      | none ↦ none
      | some c ↦ some (true, with_context p c)
    ]
  ]
  process_typed p method_call evidx v = elim (at_index atm.calldefs evidx) [
    | none ↦ none
    | some def ↦
        context_result p (Context.method_call (Value nums.Float) p.context def (pos_part evidx))
  ]
  process_typed p method_call_prioritize evidx v = elim (at_index atm.calldefs evidx) [
    | none ↦ none
    | some def ↦
        elim (Context.method_call_prioritize (Value nums.Float) p.context def (pos_part evidx)) [
          | none ↦ none
          | some c ↦ some (true, with_context p c)
        ]
  ]
  process_typed p result_instruction evidx v = some (process_result p (as_unsigned evidx))

  -- Whether an event reads `back()` of the stack of scopes.
  abbrev pub reads_scope : AtmRefType → ℤ → Bool
  reads_scope inherit_from evidx = false
  reads_scope instantiate_value evidx = false
  reads_scope result_instruction evidx =
      elim (get_elem? atm.resultdefs (res_ref_resultidx (as_unsigned evidx))) [
        | none ↦ false
        | some nodes ↦ elim (get_elem? nodes (res_ref_instridx (as_unsigned evidx))) [
          | none ↦ false
          | some node ↦ has_scope_arg node.node_type
        ]
      ]
  reads_scope _ evidx = true

  -- processEvent; `back()` of an empty stack of scopes is outside of it.
  unfoldable pub process_event : Proc → ℕ → Value nums.Float → Option (Bool × Proc)
  unfolding process_typed
  process_event p ev v = elim (atm_ref_type ev) [
    | none ↦ some (true, p)
    | some t ↦
        if is_empty_stack p.context.scopestack && reads_scope t (atm_ref_index ev)
        then none
        else process_typed p t (atm_ref_index ev) v
  ]

  -- The first loop of processEvents, which pushes the events on the stacks of their types.
  unfoldable pub push_events : List (List ℕ) → List ℕ → Option (List (List ℕ))
  push_events stacks [] = some stacks
  push_events stacks (ev ∷ evs) = elim (atm_ref_type ev) [
    | none ↦ none
    | some t ↦ elim (get_elem? stacks (to_number t)) [
      | none ↦ none
      | some stack ↦ push_events (set stacks (to_number t) (ev ∷ stack)) evs
    ]
  ]

  -- The loop over the events of a stack: what is left of it.
  unfoldable pub drain_stack : Proc → Value nums.Float → List ℕ → Option (Bool × List ℕ × Proc)
  unfolding process_event
  drain_stack p v [] = some (true, [], p)
  drain_stack p v (ev ∷ evs) = elim (ev == 0) [
    | true ↦ some (true, evs, p)
    | false ↦ elim (process_event p ev v) [
      | none ↦ none
      | some (false, q) ↦ some (false, evs, q)
      | some (true, q) ↦ drain_stack q v evs
    ]
  ]

  -- The second loop, over the stacks.
  unfoldable pub drain_stacks :
      Proc → Value nums.Float → List (List ℕ) → Option (Bool × List (List ℕ) × Proc)
  unfolding drain_stack
  drain_stacks p v [] = some (true, [], p)
  drain_stacks p v (s ∷ ss) = elim (drain_stack p v s) [
    | none ↦ none
    | some (false, left, q) ↦ some (false, left ∷ ss, q)
    | some (true, left, q) ↦ elim (drain_stacks q v ss) [
      | none ↦ none
      | some r ↦ some (r.0, left ∷ r.1, r.2)
    ]
  ]

  -- processEvents
  unfoldable pub process_events :
      Proc → ElementType → Value nums.Float → Text → Option (Bool × Proc)
  unfolding push_events drain_stacks
  process_events p type value valuestr =
      let r = push_atm p.atmstate type valuestr in
      elim (push_events p.stacks r.0) [
        | none ↦ none
        | some stacks ↦ elim (drain_stacks (record p { atmstate = r.1 }) value stacks) [
          | none ↦ none
          | some (ok, left, q) ↦ some (ok, record q { stacks = left })
        ]
      ]

  -- pushValueAndProcessEvents
  unfoldable pub push_value_and_process :
      Proc → ElementType → Value nums.Float → Option (Bool × Proc)
  unfolding process_events value_tostring_enc
  push_value_and_process p type value =
      let r = value_tostring_enc tw nums utf8 1023 value in
      let p1 = noted p r.2 in
      elim (r.0) [ none ↦ some (false, p1) | some valuestr ↦ process_events p1 type value valuestr ]

  -- `++m_scopecnt`
  unfoldable pub next_scope : Proc → Proc
  next_scope p = with_context p (record p.context { scopecnt = p.context.scopecnt + 1 })

  abbrev pub is_string_kind : Kind nums.Float → Bool
  is_string_kind (of_string enc str) = true
  is_string_kind _ = false

  abbrev pub entered : Proc → Proc
  entered p =
      with_context p (record p.context { scopestack = p.context.scopecnt ∷ p.context.scopestack })

  -- The name of a tag that is no other's child joins the root elements.
  unfoldable pub enter_root :
      Proc → Value nums.Float → Text × Option ErrorCode → Option (Bool × Proc)
  unfolding push_value_and_process
  enter_root p tagname r =
      let p1 = noted p r.1 in
      if length r.0 == 0
      then some (false, if is_ok p1.context.errcode then with_error p1 syntax_error else p1)
      else push_value_and_process (entered (record p1 { rootelements = r.0 ∷ p1.rootelements }))
          open_tag tagname

  -- processOpenTag
  unfoldable pub process_open_tag : Proc → Value nums.Float → Option (Bool × Proc)
  unfolding next_scope enter_root kind value_tostring_stl
  process_open_tag p0 tagname =
      let p = next_scope p0 in
      if leb (length p.context.scopestack) 1 && is_string_kind (kind tagname)
      then enter_root p tagname (value_tostring_stl tw nums tagname)
      else push_value_and_process (entered p) open_tag tagname

  -- processAttributeName and processAttributeValue
  unfoldable pub process_attribute_name : Proc → Value nums.Float → Option (Bool × Proc)
  unfolding next_scope push_value_and_process
  process_attribute_name p v = push_value_and_process (next_scope p) tag_attrib_name v

  unfoldable pub process_attribute_value : Proc → Value nums.Float → Option (Bool × Proc)
  unfolding next_scope push_value_and_process
  process_attribute_value p v = push_value_and_process (next_scope p) tag_attrib_value v

  -- processValue
  unfoldable pub process_value : Proc → Value nums.Float → Option (Bool × Proc)
  unfolding next_scope process_events
  process_value p v = process_events (next_scope p) content v []

  -- processCloseTag
  abbrev pub left_scope : List ℕ → Proc → Option (Bool × Proc)
  left_scope [] p = none
  left_scope (s ∷ ss) p = some (true, with_context p (record p.context { scopestack = ss }))

  unfoldable pub process_close_tag : Proc → Option (Bool × Proc)
  unfolding next_scope process_events
  process_close_tag p = elim (process_events (next_scope p) close_tag Value.void []) [
    | none ↦ none
    | some (false, q) ↦ some (false, q)
    | some (true, q) ↦ left_scope q.context.scopestack q
  ]

  -- getRequiredInheritedContextsDefs: the contexts, or a null pointer with an error.
  unfoldable pub required_contexts : Proc → List (Text × Text) ⊎ ErrorCode
  unfolding any_required
  required_contexts p = if any_required p.required then inr value_undefined else inl p.inherited
