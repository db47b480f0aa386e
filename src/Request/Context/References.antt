-- ===== src/Request/Context/References.antt =====
-- The events of AutomatonContext in src/request.cpp that refer to what the automaton defines are processed
-- without a read outside of its vectors.
use mathlib.Core.Path.{subst}
use papuga.ErrorCode.{ErrorCode}
use papuga.Prelude.{
  ℕ, zero, suc, ◌<◌, ◌≡◌, refl, sym, ◌⊎◌, inl, inr, Bool, true, false, ◌&&◌, not, Option, none,
  some, List, [], ◌∷◌, leb, if◌then◌else◌, length, get_elem?, arith,
}
use papuga.Prelude.Int.{ℤ, pos, ltb_ℤ}
use papuga.Request.Refs.{
  AtmRefType, instantiate_value, collect_value, close_struct, method_call, method_call_prioritize,
  inherit_from, result_instruction, atm_ref_type, atm_ref_index,
}
use papuga.Request.Keys.{Scope, inside}
use papuga.Request.Description.Expression.{Text}
use papuga.Request.Description.Calls.{eqb_ℤ}
use papuga.Request.Description.State.{Services, Description, StructDef, CallDef}
use papuga.Request.Context
use papuga.Request.Context.InRange.{collect_value_in_range, close_struct_in_range}
use papuga.Request.Context.{
  has_map, Context, MethodCallNode, isequal_varname, is_suppressed, kept, reached, suppress,
  regroup, grouped, has_item, prioritized, is_variable_assignment, curscope,
}
use papuga.Request.Context.Events.{
  ElementType, Processing, max_nof_inherited, push_inherited_context, process_typed, process_event,
  is_empty_stack,
}
use papuga.Request.Context.Runs.{process_event-Event, Event}
use papuga.Value.{Value, Textwolf, Numbers}

abbrev pub IsSome : {A : Type 0} → Option A → Type 0
IsSome none = ⊥
IsSome (some x) = Unit

defined_at : {A : Type 0} → (xs : List A) (k : ℕ) → k < length xs → IsSome (get_elem? xs k)
defined_at [] k h = elim h [ ]
defined_at (x ∷ xs) zero h = tt
defined_at (x ∷ xs) (suc k) h = defined_at xs k (omega arith)

IsSome-if :
    {A : Type 0} → (b : Bool) (x y : Option A) → IsSome x → IsSome y → IsSome (if b then x else y)
IsSome-if true x y h g = h
IsSome-if false x y h g = g

equal_some : (o : Option Text) (v : Text) → IsSome (isequal_varname o (some v))
unfolding isequal_varname
equal_some none v = tt
equal_some (some w) v = tt

kept-IsSome :
    (o : Option Bool) (mc : MethodCallNode) (rest : Option (List MethodCallNode))
    → IsSome o
    → IsSome rest
    → IsSome (kept o mc rest)
kept-IsSome none mc rest h g = h
kept-IsSome (some b) mc none h g = g
kept-IsSome (some b) mc (some rest) h g = tt

is_suppressed-IsSome :
    (cscope : Scope) (e : ℤ) (def : CallDef) (mc : MethodCallNode) (v : Text)
    → def.resultvarname ≡ some v
    → IsSome (is_suppressed cscope e def mc)
unfolding is_suppressed
is_suppressed-IsSome cscope e def mc v h =
    IsSome-if (inside mc.scope cscope && not (eqb_ℤ mc.key.elemidx e)) _ _
      (subst (λ (w : Option Text). IsSome (isequal_varname mc.def.resultvarname w)) (sym h)
        (equal_some mc.def.resultvarname v))
      tt

suppress-IsSome :
    (cscope : Scope) (e : ℤ) (def : CallDef) (v : Text) (mcs : List MethodCallNode)
    → def.resultvarname ≡ some v
    → IsSome (suppress cscope e def mcs)
unfolding suppress
suppress-IsSome cscope e def v [] h = tt
suppress-IsSome cscope e def v (mc ∷ mcs) h = IsSome-if (not (reached cscope mc)) _ _ tt (
    kept-IsSome (is_suppressed cscope e def mc) mc (suppress cscope e def mcs)
      (is_suppressed-IsSome cscope e def mc v h) (suppress-IsSome cscope e def v mcs h))

grouped-IsSome :
    (cscope : Scope) (e : ℤ) (def : CallDef) (o : Option (List MethodCallNode))
    → IsSome o
    → IsSome (grouped cscope e def o)
unfolding grouped
grouped-IsSome cscope e def none h = h
grouped-IsSome cscope e def (some mcs) h = IsSome-if (is_variable_assignment def) _ _ tt tt

prioritized-IsSome :
    (cscope : Scope) (e : ℤ) (def : CallDef) (v : Text) (mcs : List MethodCallNode)
    → def.resultvarname ≡ some v
    → IsSome (prioritized cscope e def mcs)
unfolding prioritized
prioritized-IsSome cscope e def v mcs h =
    IsSome-if (has_item cscope e mcs) _ _
      (grouped-IsSome cscope e def (suppress cscope e def mcs)
        (suppress-IsSome cscope e def v mcs h))
      tt

-- What a step makes of a value that is there.
IsSome-elim :
    {A B : Type 0}
    → (f : A → Option B) (o : Option A) → IsSome o
    → ((x : A) → o ≡ some x → IsSome (f x))
    → IsSome (elim o [ none ↦ none | some x ↦ f x ])
IsSome-elim f none h g = h
IsSome-elim f (some x) h g = g x refl

module _ (svc : Services) (atm : Description svc) where
  -- An index of what the type refers to. The item of a value or a structure has a map, and a call that takes
  -- priority a result variable.
  abbrev IsDefined : AtmRefType → ℕ → Type 0
  IsDefined instantiate_value k = k < length atm.valuedefs
  IsDefined collect_value k =
      (k < length atm.valuedefs)
      × ((itemid : ℤ)
          → get_elem? atm.valuedefs k ≡ some itemid
          → has_map atm.maxitemid itemid ≡ true)
  IsDefined close_struct k =
      (k < length atm.structdefs)
      × ((def : StructDef)
          → get_elem? atm.structdefs k ≡ some def
          → has_map atm.maxitemid def.itemid ≡ true)
  IsDefined method_call k = k < length atm.calldefs
  IsDefined method_call_prioritize k =
      (k < length atm.calldefs)
      × ((def : CallDef)
          → get_elem? atm.calldefs k ≡ some def
          → (v : Text) × (def.resultvarname ≡ some v))
  IsDefined inherit_from k = k < length atm.inheritdefs
  IsDefined result_instruction k = Unit

  pub record IsRef (ev : ℕ) : Type 0 where
    pub type : AtmRefType
    pub index : ℕ
    pub has_type : atm_ref_type ev ≡ some type
    pub has_index : atm_ref_index ev ≡ pos index
    pub defined : IsDefined type index

module _ (tw : Textwolf) (nums : Numbers) (Atm : Type 0)
    (push_atm : Atm → ElementType → Text → List ℕ × Atm)
    (copy : Value nums.Float → Value nums.Float ⊎ ErrorCode) (has_room : Text → Bool)
    (svc : Services) (atm : Description svc) where
  push_inherited_context-IsSome :
      (p : Processing nums.Float Atm) (k : ℕ) (v : Value nums.Float)
      → k < length atm.inheritdefs
      → IsSome (push_inherited_context tw nums Atm push_atm copy has_room svc atm p (pos k) v)
  unfolding push_inherited_context
  push_inherited_context-IsSome p k v h =
      IsSome-if (leb max_nof_inherited (length p.inherited)) _ _ tt (
        IsSome-if (not (ltb_ℤ (pos k) (pos (length atm.inheritdefs)))) _ _ tt (
          IsSome-elim _ (get_elem? atm.inheritdefs k) (defined_at atm.inheritdefs k h) (λ x e. tt)))

  prioritize_context :
      (c : Context (Value nums.Float)) (def : CallDef) (k : ℕ) (v : Text)
      → def.resultvarname ≡ some v
      → IsSome (Context.method_call_prioritize (Value nums.Float) c def k)
  unfolding Context.method_call_prioritize
  prioritize_context c def k v h =
      IsSome-elim _ (prioritized (curscope (Value nums.Float) c) (pos k) def c.methodcalls)
        (prioritized-IsSome (curscope (Value nums.Float) c) (pos k) def v c.methodcalls h)
        (λ x e. tt)

  collects :
      (c : Context (Value nums.Float)) (itemid : ℤ)
      → has_map atm.maxitemid itemid ≡ true
      → IsSome (Context.collect_value (Value nums.Float) atm.maxitemid c itemid)
  collects c itemid h = rw (collect_value_in_range (Value nums.Float) atm.maxitemid c itemid h) tt

  closes :
      (c : Context (Value nums.Float)) (def : StructDef)
      → has_map atm.maxitemid def.itemid ≡ true
      → IsSome (Context.close_struct (Value nums.Float) atm.maxitemid c def)
  closes c def h = rw (close_struct_in_range (Value nums.Float) atm.maxitemid c def h) tt

  copied-IsSome :
      {B : Type 0}
      → (f : Value nums.Float → Option B) (g : ErrorCode → B) (w : Value nums.Float ⊎ ErrorCode)
      → ((x : Value nums.Float) → IsSome (f x))
      → IsSome (elim w [ inr code ↦ some (g code) | inl x ↦ f x ])
  copied-IsSome f g (inl x) h = h x
  copied-IsSome f g (inr code) h = tt

  process_typed-IsSome :
      (p : Processing nums.Float Atm) (t : AtmRefType) (k : ℕ) (v : Value nums.Float)
      → IsDefined svc atm t k
      → IsSome (process_typed tw nums Atm push_atm copy has_room svc atm p t (pos k) v)
  unfolding process_typed
  process_typed-IsSome p inherit_from k v d =
      IsSome-elim _ (push_inherited_context tw nums Atm push_atm copy has_room svc atm p (pos k) v)
        (push_inherited_context-IsSome p k v d) (λ x e. tt)
  process_typed-IsSome p instantiate_value k v d =
      copied-IsSome _ _ (copy v)
        (λ w. IsSome-elim _ (get_elem? atm.valuedefs k) (defined_at atm.valuedefs k d) (λ x e. tt))
  process_typed-IsSome p collect_value k v d =
      IsSome-elim _ (get_elem? atm.valuedefs k) (defined_at atm.valuedefs k d.0) (λ x e.
        IsSome-elim _ (Context.collect_value (Value nums.Float) atm.maxitemid p.context x)
          (collects p.context x (d.1 x e)) (λ r q. tt))
  process_typed-IsSome p close_struct k v d =
      IsSome-elim _ (get_elem? atm.structdefs k) (defined_at atm.structdefs k d.0) (λ x e.
        IsSome-elim _ (Context.close_struct (Value nums.Float) atm.maxitemid p.context x)
          (closes p.context x (d.1 x e)) (λ r q. tt))
  process_typed-IsSome p method_call k v d =
      IsSome-elim _ (get_elem? atm.calldefs k) (defined_at atm.calldefs k d) (λ x e. tt)
  process_typed-IsSome p method_call_prioritize k v d =
      IsSome-elim _ (get_elem? atm.calldefs k) (defined_at atm.calldefs k d.0) (λ def e.
        let r = d.1 def e in
        IsSome-elim _ (Context.method_call_prioritize (Value nums.Float) p.context def k)
          (prioritize_context p.context def k (r.0) (r.1)) (λ x e. tt))
  process_typed-IsSome p result_instruction k v d = tt

  -- An event gives a result, and leaves the open tags as they are.
  abbrev pub Keeps : Processing nums.Float Atm → Option (Bool × Processing nums.Float Atm) → Type 0
  Keeps p none = ⊥
  Keeps p (some r) = r.1.context.scopestack ≡ p.context.scopestack

  Event-Keeps :
      (p : Processing nums.Float Atm) (o : Option (Bool × Processing nums.Float Atm))
      → Event tw nums Atm push_atm copy has_room svc atm p o
      → IsSome o
      → Keeps p o
  Event-Keeps p none e h = h
  Event-Keeps p (some r) e h = e.same_stack

  none_empty : (xs : List ℕ) → 0 < length xs → is_empty_stack xs ≡ false
  none_empty [] h = elim h [ ]
  none_empty (x ∷ xs) h = refl

  pub process_event-Keeps :
      (p : Processing nums.Float Atm) (ev : ℕ) (v : Value nums.Float)
      → IsRef svc atm ev
      → 0 < length p.context.scopestack
      → Keeps p (process_event tw nums Atm push_atm copy has_room svc atm p ev v)
  unfolding process_event
  process_event-Keeps p ev v r h =
      let has_type = r.has_type in
      let has_index = r.has_index in
      Event-Keeps p (process_event tw nums Atm push_atm copy has_room svc atm p ev v)
        (process_event-Event tw nums Atm push_atm copy has_room svc atm p ev v)
        (rw (has_type, has_index, none_empty p.context.scopestack h, process_event)
          (process_typed-IsSome p r.type r.index v r.defined))
