-- ===== src/Request/Context/Scopes.antt =====
-- The scopes that AutomatonContext of src/request.cpp records for values, structures and method calls.
use papuga.ErrorCode.{duplicate_definition, execution_order}
use papuga.Request.Refs.{object_ref_value, object_ref_struct}
use papuga.Prelude.{
  Bool-cases, ltb, ◌==◌, length, ℕ, ◌≡◌, refl, sym, ◌∙◌, ◌⊎◌, inl, inr, Bool, true, false, Option,
  none, some, List, [], ◌∷◌, if◌then◌else◌,
}
use papuga.Prelude.Int.{ℤ, pos}
use papuga.Request.Keys.{Scope, ScopeKeyType, value_scope, object_scope}
use papuga.Request.Description.State.{CallDef, StructDef}
use papuga.Request.Description.Calls.{eqb_ℤ}
use papuga.Request.Context.{
  Context, ValueNode, ScopeObject, MethodCallNode, scope_start, curscope, taglevel, with_object_ref,
  method_call, has_map, collect_value, close_struct,
}
use papuga.Request.Context.InRange.{
  with_value_ref, collected_nodes, collected_value, with_struct, collect_value_in_range,
  collect_value_out_of_range, close_struct_in_range, close_struct_out_of_range,
}

-- A scope is that of a recorded reference, or of a method call.
abbrev pub ObjectScope : List ScopeObject → Scope → Type 0
ObjectScope [] s = ⊥
ObjectScope (o ∷ os) s = (o.key.scope ≡ s) ⊎ ObjectScope os s

abbrev pub CallScope : List MethodCallNode → Scope → Type 0
CallScope [] s = ⊥
CallScope (mc ∷ mcs) s = (mc.scope ≡ s) ⊎ CallScope mcs s

module _ (V : Type 0) where
  abbrev pub HasScope : Context V → Scope → Type 0
  HasScope c s = ObjectScope c.scopeobjects s ⊎ CallScope c.methodcalls s

  -- An event leaves the tags as they are, and records the current scope only.
  pub record Records (c d : Context V) : Type 0 where
    pub same_stack : d.scopestack ≡ c.scopestack
    pub same_count : d.scopecnt ≡ c.scopecnt
    pub recorded : (s : Scope) → HasScope d s → HasScope c s ⊎ (curscope V c ≡ s)

  pub Records-refl : (c : Context V) → Records c c
  Records-refl c = record { same_stack = refl; same_count = refl; recorded = λ s h. inl h }

  same_scope :
      (c d : Context V)
      → d.scopestack ≡ c.scopestack
      → d.scopecnt ≡ c.scopecnt
      → curscope V d ≡ curscope V c
  unfolding curscope
  same_scope c d e f = λ i. record { from = pos (scope_start (e i)); to = pos (f i) }

  pub Records-trans : (c d e : Context V) → Records c d → Records d e → Records c e
  Records-trans c d e r q = record {
    same_stack = q.same_stack ∙ r.same_stack;
    same_count = q.same_count ∙ r.same_count;
    recorded = λ s h. elim (q.recorded s h) [
      | inl old ↦ r.recorded s old
      | inr now ↦ inr (sym (same_scope c d r.same_stack r.same_count) ∙ now)
    ];
  }

  -- What else an event changes.
  pub Records-fields :
      (c d e : Context V)
      → Records c d
      → e.scopestack ≡ d.scopestack
      → e.scopecnt ≡ d.scopecnt
      → ((s : Scope) → HasScope e s → HasScope d s)
      → Records c e
  Records-fields c d e r es ec f = record {
    same_stack = es ∙ r.same_stack;
    same_count = ec ∙ r.same_count;
    recorded = λ s h. r.recorded s (f s h);
  }

  inserted :
      (o : ScopeObject) (c : Context V) (s : Scope)
      → o.key.scope ≡ curscope V c
      → ObjectScope (o ∷ c.scopeobjects) s ⊎ CallScope c.methodcalls s
      → HasScope c s ⊎ (curscope V c ≡ s)
  inserted o c s e (inl (inl now)) = inr (sym e ∙ now)
  inserted o c s e (inl (inr old)) = inl (inl old)
  inserted o c s e (inr old) = inl (inr old)

  insert-Records :
      (c : Context V) (itemid : ℤ) (type : ScopeKeyType) (level : ℕ) (objref : ℤ)
      → Records c (with_object_ref V c itemid type (curscope V c) level objref)
  unfolding with_object_ref
  insert-Records c itemid type level objref = record {
    same_stack = refl;
    same_count = refl;
    recorded = λ s h.
        inserted
          (record {
            itemid = itemid;
            key = record { scope = curscope V c; key_type = type };
            objref = objref;
            taglevel = level;
          })
          c s refl h;
  }

  with_value_ref-Records :
      (c : Context V) (itemid : ℤ) (v : Option V) → Records c (with_value_ref V c itemid v)
  unfolding with_value_ref
  with_value_ref-Records c itemid v =
      Records-fields c
        (with_object_ref V c itemid value_scope (curscope V c) (taglevel V c)
          (object_ref_value (length c.values)))
        (with_value_ref V c itemid v)
        (insert-Records c itemid value_scope (taglevel V c) (object_ref_value (length c.values)))
        refl refl (λ s h. h)

  push_if :
      (b : Bool) (c : Context V) (itemid : ℤ) (v : Option V)
      → Records c (if b then with_value_ref V c itemid v else c)
  push_if true c itemid v = with_value_ref-Records c itemid v
  push_if false c itemid v = Records-refl c

  collected_nodes-Records :
      (itemid : ℤ) (ns : List (ValueNode V)) (c : Context V) (k : ℕ)
      → Records c ((collected_nodes V itemid ns c k).1)
  unfolding collected_nodes
  collected_nodes-Records itemid [] c k = Records-refl c
  collected_nodes-Records itemid (n ∷ ns) c k =
      Records-trans c _ _ (push_if (eqb_ℤ n.itemid itemid) c itemid (some n.value))
        (collected_nodes-Records itemid ns _ _)

  either :
      (b : Bool) (c : Context V) (x y : Bool × Context V)
      → Records c x.1
      → Records c y.1
      → Records c ((if b then x else y).1)
  either true c x y r q = r
  either false c x y r q = q

  after_collect :
      (c d : Context V) (itemid : ℤ) (k : ℕ)
      → Records c d
      → Records c (
          let x : Bool × Context V =
            if k == 0
            then (true, with_value_ref V d itemid none)
            else if ltb 1 k
            then (false, record d { erritemid = itemid; errcode = duplicate_definition })
            else (true, d) in
          x.1)
  after_collect c d itemid k r =
      let failed : Context V = record d { erritemid = itemid; errcode = duplicate_definition } in
      either (k == 0) c (true, with_value_ref V d itemid none)
        (if ltb 1 k then (false, failed) else (true, d))
        (Records-trans c d (with_value_ref V d itemid none) r
          (with_value_ref-Records d itemid none))
        (either (ltb 1 k) c (false, failed) (true, d)
          (Records-fields c d failed r refl refl (λ s h. h)) r)

  pub collected_value-Records :
      (c : Context V) (itemid : ℤ) → Records c ((collected_value V c itemid).1)
  unfolding collected_value
  collected_value-Records c itemid =
      let r = collected_nodes V itemid c.valuenodes c 0 in
      let left : Context V = record r.1 { valuenodes = r.0 } in
      after_collect c left itemid r.2 (
        Records-fields c r.1 left (collected_nodes-Records itemid c.valuenodes c 0) refl refl
          (λ s h. h))

  pub with_struct-Records : (c : Context V) (def : StructDef) → Records c (with_struct V c def)
  unfolding with_struct
  with_struct-Records c def =
      let d =
        with_object_ref V c def.itemid object_scope (curscope V c) (taglevel V c)
          (object_ref_struct (length c.structs)) in
      Records-fields c d (with_struct V c def)
        (insert-Records c def.itemid object_scope (taglevel V c)
          (object_ref_struct (length c.structs)))
        refl refl (λ s h. h)

  -- What a fault leaves is not looked at.
  abbrev pub RecordsSome : Context V → Option (Context V) → Type 0
  RecordsSome c none = Unit
  RecordsSome c (some d) = Records c d

  abbrev pub RecordsPair : Context V → Option (Bool × Context V) → Type 0
  RecordsPair c none = Unit
  RecordsPair c (some r) = Records c r.1

  pub collect_value-RecordsPair :
      (maxitemid : ℕ) (c : Context V) (itemid : ℤ)
      → RecordsPair c (collect_value V maxitemid c itemid)
  collect_value-RecordsPair maxitemid c itemid = elim (Bool-cases (has_map maxitemid itemid)) [
    | inl e ↦ rw (collect_value_in_range V maxitemid c itemid e) (collected_value-Records c itemid)
    | inr e ↦ rw (collect_value_out_of_range V maxitemid c itemid e) tt
  ]

  pub close_struct-RecordsSome :
      (maxitemid : ℕ) (c : Context V) (def : StructDef)
      → RecordsSome c (close_struct V maxitemid c def)
  close_struct-RecordsSome maxitemid c def = elim (Bool-cases (has_map maxitemid def.itemid)) [
    | inl e ↦ rw (close_struct_in_range V maxitemid c def e) (with_struct-Records c def)
    | inr e ↦ rw (close_struct_out_of_range V maxitemid c def e) tt
  ]

  call_added :
      (c : Context V) (mc : MethodCallNode) (s : Scope)
      → mc.scope ≡ curscope V c
      → ObjectScope c.scopeobjects s ⊎ CallScope (mc ∷ c.methodcalls) s
      → HasScope c s ⊎ (curscope V c ≡ s)
  call_added c mc s e (inl old) = inl (inl old)
  call_added c mc s e (inr (inl now)) = inr (sym e ∙ now)
  call_added c mc s e (inr (inr old)) = inl (inr old)

  pub method_call-Records :
      (c : Context V) (def : CallDef) (evidx : ℕ) → Records c ((method_call V c def evidx).1)
  unfolding method_call
  method_call-Records c def evidx =
      let node : MethodCallNode = record {
        key = record { group = def.groupid; scope_from = pos c.scopecnt; elemidx = pos evidx };
        def = def;
        scope = curscope V c;
        taglevel = taglevel V c;
      } in
      let d : Context V = record c { methodcalls = node ∷ c.methodcalls } in
      let failed : Context V = record d { errcode = execution_order } in
      let added : Records c d = record {
        same_stack = refl;
        same_count = refl;
        recorded = λ s h. call_added c node s refl h;
      } in
      either c.done c (false, failed) (true, d)
        (Records-fields c d failed added refl refl (λ s h. h)) added
