-- ===== src/Request/Context.antt =====
-- The class AutomatonContext of src/request.cpp: what the events of values, structures and method calls
-- do to the context of a request. `none` is a fault, an index outside of a vector. The vectors that the code reads from the back, the scope stack and
-- the method calls, are lists with the last element first; the content events are not logged.
pub mod InRange
pub mod Collect
pub mod Prioritize
pub mod Suppressed
pub mod Events
pub mod Scopes
pub mod Dropped
pub mod Nesting
pub mod Runs
pub mod Drains
pub mod Feed
pub mod Tags
pub mod Documents
pub mod References
pub mod InBounds
pub mod Ready
use papuga.ErrorCode.{ErrorCode, duplicate_definition, execution_order}
use papuga.Prelude.{
  ℕ, zero, suc, ◌+◌, Bool, true, false, ◌&&◌, ◌||◌, not, Option, none, some, List, [], ◌∷◌, ◌++◌,
  ltb, leb, ◌==◌, if◌then◌else◌, length,
}
use papuga.Prelude.Int.{ℤ, pos, negsuc, pos_part, neg_part}
use papuga.Request.Refs.{ObjectRef, object_ref_value, object_ref_struct}
use papuga.Request.Keys.{
  Scope, inside, ScopeKeyType, value_scope, object_scope, ScopeKey, MethodCallKey,
}
use papuga.Request.Description.Expression.{Text, text_eq}
use papuga.Request.Description.State.{CallDef, StructDef}
use papuga.Request.Description.Calls.{eqb_ℤ, leb_ℤ, non_zero}

-- ValueNode, for values of a type `V`.
pub record ValueNode (V : Type 0) : Type 0 where
  pub value : V
  pub itemid : ℤ

-- ScopeObjElem with the item whose map it is inserted in.
pub record ScopeObject : Type 0 where
  pub itemid : ℤ
  pub key : ScopeKey
  pub objref : ObjectRef
  pub taglevel : ℕ

-- MethodCallNode; `elemidx` of the key is the index of `def`, and stands for the pointer in
-- comparisons.
pub record MethodCallNode : Type 0 where
  pub key : MethodCallKey
  pub def : CallDef
  pub scope : Scope
  pub taglevel : ℕ

-- The members of the class that these events touch. A value that is not defined is `none`.
pub record Context (V : Type 0) : Type 0 where
  pub scopecnt : ℕ
  pub scopestack : List ℕ
  pub valuenodes : List (ValueNode V)
  pub values : List (Option V)
  pub structs : List StructDef
  pub scopeobjects : List ScopeObject
  pub methodcalls : List MethodCallNode
  pub done : Bool
  pub errcode : ErrorCode
  pub erritemid : ℤ

-- `m_scopestack.back()`, of a stack that is never empty.
unfoldable pub scope_start : List ℕ → ℕ
scope_start [] = 0
scope_start (s ∷ ss) = s

-- `!methodid.classid`
unfoldable pub is_variable_assignment : CallDef → Bool
is_variable_assignment def = not (non_zero def.methodid.classid)

-- `none` stands for `strcmp` with a null pointer as the second text.
unfoldable pub isequal_varname : Option Text → Option Text → Option Bool
isequal_varname none none = some true
isequal_varname none (some v) = some false
isequal_varname (some v) none = none
isequal_varname (some v) (some w) = some (text_eq v w)

-- `m_methodcalls[mi-1].scope.from >= cscope.from`
abbrev pub reached : Scope → MethodCallNode → Bool
reached cscope mc = leb_ℤ cscope.from mc.scope.from

-- `mc.scope.inside( cscope) && calldef == mc.def`
abbrev pub is_item : Scope → ℤ → MethodCallNode → Bool
is_item cscope elemidx mc = inside mc.scope cscope && eqb_ℤ mc.key.elemidx elemidx

-- The first loop of MethodCallPrioritize.
unfoldable pub has_item : Scope → ℤ → List MethodCallNode → Bool
has_item cscope elemidx [] = false
has_item cscope elemidx (mc ∷ mcs) =
    reached cscope mc && (is_item cscope elemidx mc || has_item cscope elemidx mcs)

-- The test of the second loop.
unfoldable pub is_suppressed : Scope → ℤ → CallDef → MethodCallNode → Option Bool
is_suppressed cscope elemidx def mc =
    if inside mc.scope cscope && not (eqb_ℤ mc.key.elemidx elemidx)
    then isequal_varname mc.def.resultvarname def.resultvarname
    else some false

-- A step of the second loop, from the test and what the rest of the loop leaves.
abbrev pub kept :
    Option Bool → MethodCallNode → Option (List MethodCallNode) → Option (List MethodCallNode)
kept none mc rest = none
kept (some b) mc none = none
kept (some b) mc (some rest) = some (if b then rest else mc ∷ rest)

-- The second loop: what is left of the calls.
unfoldable pub suppress : Scope → ℤ → CallDef → List MethodCallNode → Option (List MethodCallNode)
suppress cscope elemidx def [] = some []
suppress cscope elemidx def (mc ∷ mcs) =
    let rest = suppress cscope elemidx def mcs in
    if not (reached cscope mc)
    then some (mc ∷ mcs)
    else kept (is_suppressed cscope elemidx def mc) mc rest

abbrev pub with_group : MethodCallNode → ℤ → MethodCallNode
with_group mc group = record mc { key = record mc.key { group = group } }

-- The third loop, with the group found so far; a negative one is none.
unfoldable pub regroup : Scope → ℤ → ℤ → List MethodCallNode → List MethodCallNode
regroup cscope elemidx group [] = []
regroup cscope elemidx group (mc ∷ mcs) =
    let found =
      if is_item cscope elemidx mc && not (leb_ℤ (pos 0) group) then mc.key.group else group in
    let rest = regroup cscope elemidx found mcs in
    if not (reached cscope mc)
    then mc ∷ mcs
    else if is_item cscope elemidx mc && leb_ℤ (pos 0) group
    then with_group mc group ∷ rest
    else mc ∷ rest

-- What follows the second loop.
unfoldable pub grouped :
    Scope → ℤ → CallDef → Option (List MethodCallNode) → Option (List MethodCallNode)
grouped cscope elemidx def none = none
grouped cscope elemidx def (some mcs) =
    if is_variable_assignment def then some (regroup cscope elemidx (negsuc 0) mcs) else some mcs

-- MethodCallPrioritize on the calls.
unfoldable pub prioritized :
    Scope → ℤ → CallDef → List MethodCallNode → Option (List MethodCallNode)
prioritized cscope elemidx def mcs =
    if has_item cscope elemidx mcs
    then grouped cscope elemidx def (suppress cscope elemidx def mcs)
    else some mcs

-- The index of `m_scopeobjmap[ itemid]`, a vector of `maxitemid+1` elements.
unfoldable pub has_map : ℕ → ℤ → Bool
has_map maxitemid (pos n) = leb n maxitemid
has_map maxitemid (negsuc n) = false

module _ (V : Type 0) where
  unfoldable pub curscope : Context V → Scope
  curscope c = record { from = pos (scope_start c.scopestack); to = pos c.scopecnt }

  unfoldable pub taglevel : Context V → ℕ
  taglevel c = length c.scopestack

  -- insertObjectRef in the map of the item.
  unfoldable pub with_object_ref : Context V → ℤ → ScopeKeyType → Scope → ℕ → ObjectRef → Context V
  with_object_ref c itemid type scope level objref = record c {
    scopeobjects =
        record {
          itemid = itemid;
          key = record { scope = scope; key_type = type };
          objref = objref;
          taglevel = level;
        }
        ∷ c.scopeobjects;
  }

  -- insertObjectRef, of which the index may be outside of the vector.
  unfoldable pub insert_object_ref :
      ℕ → Context V → ℤ → ScopeKeyType → Scope → ℕ → ObjectRef → Option (Context V)
  unfolding with_object_ref has_map
  insert_object_ref maxitemid c itemid type scope level objref =
      if has_map maxitemid itemid
      then some (with_object_ref c itemid type scope level objref)
      else none

  -- A value with its reference, as CollectValue adds them.
  unfoldable pub push_value_ref : ℕ → Context V → ℤ → Option V → Option (Context V)
  unfolding insert_object_ref
  push_value_ref maxitemid c itemid v =
      elim (insert_object_ref maxitemid c itemid value_scope (curscope c) (taglevel c)
        (object_ref_value (length c.values))) [
          | none ↦ none
          | some d ↦ some (record d { values = d.values ++ (v ∷ []) })
        ]

  -- The loop of CollectValue over the pending values: those that it leaves, the context, and the
  -- number of those that it collects.
  unfoldable pub collect_nodes :
      ℕ → ℤ → List (ValueNode V) → Context V → ℕ → Option (List (ValueNode V) × Context V × ℕ)
  unfolding push_value_ref
  collect_nodes maxitemid itemid [] c valuecnt = some ([], c, valuecnt)
  collect_nodes maxitemid itemid (n ∷ ns) c valuecnt = elim (eqb_ℤ n.itemid itemid) [
    | true ↦ elim (push_value_ref maxitemid c itemid (some n.value)) [
      | none ↦ none
      | some d ↦ collect_nodes maxitemid itemid ns d (valuecnt + 1)
    ]
    | false ↦ elim (collect_nodes maxitemid itemid ns c valuecnt) [
      | none ↦ none
      | some r ↦ some (n ∷ r.0, r.1, r.2)
    ]
  ]

  -- What follows the loop.
  unfoldable pub collected : ℕ → ℤ → Context V → ℕ → Option (Bool × Context V)
  unfolding push_value_ref
  collected maxitemid itemid d valuecnt =
      if valuecnt == 0
      then elim (push_value_ref maxitemid d itemid none) [ none ↦ none | some e ↦ some (true, e) ]
      else if ltb 1 valuecnt
      then some (false, record d { erritemid = itemid; errcode = duplicate_definition })
      else some (true, d)

  -- CollectValue
  unfoldable pub collect_value : ℕ → Context V → ℤ → Option (Bool × Context V)
  unfolding collect_nodes collected
  collect_value maxitemid c itemid = elim (collect_nodes maxitemid itemid c.valuenodes c 0) [
    | none ↦ none
    | some r ↦ collected maxitemid itemid (record r.1 { valuenodes = r.0 }) r.2
  ]

  -- InstantiateValue, for the copy of the value.
  unfoldable pub instantiate_value : Context V → ℤ → V → Context V
  instantiate_value c itemid v = record c {
    valuenodes = c.valuenodes ++ (record { value = v; itemid = itemid } ∷ []);
  }

  -- CloseStruct
  unfoldable pub close_struct : ℕ → Context V → StructDef → Option (Context V)
  unfolding insert_object_ref
  close_struct maxitemid c def =
      elim (insert_object_ref maxitemid c def.itemid object_scope (curscope c) (taglevel c)
        (object_ref_struct (length c.structs))) [
          | none ↦ none
          | some d ↦ some (record d { structs = d.structs ++ (def ∷ []) })
        ]

  -- MethodCall; the call stays even where the event fails.
  unfoldable pub method_call : Context V → CallDef → ℕ → Bool × Context V
  method_call c def evidx =
      let key : MethodCallKey = record {
        group = def.groupid;
        scope_from = pos c.scopecnt;
        elemidx = pos evidx;
      } in
      let node : MethodCallNode = record {
        key = key;
        def = def;
        scope = curscope c;
        taglevel = taglevel c;
      } in
      let d = record c { methodcalls = node ∷ c.methodcalls } in
      if c.done then (false, record d { errcode = execution_order }) else (true, d)

  -- MethodCallPrioritize
  unfoldable pub method_call_prioritize : Context V → CallDef → ℕ → Option (Context V)
  method_call_prioritize c def evidx =
      elim (prioritized (curscope c) (pos evidx) def c.methodcalls) [
        | none ↦ none
        | some mcs ↦ some (record c { methodcalls = mcs })
      ]
