-- ===== src/Request/Context/InRange.antt =====
-- CollectValue and CloseStruct of the class AutomatonContext in src/request.cpp for an item that the vector of
-- maps has, where they are functions that never fail on an index.
use papuga.ErrorCode.{duplicate_definition}
use papuga.Prelude.{
  ℕ, ◌+◌, ◌≡◌, refl, ◌⊎◌, inl, inr, Bool, true, false, Option, none, some, List, [], ◌∷◌, ◌++◌, ltb,
  ◌==◌, if◌then◌else◌, length, arith, Bool-cases,
}
use papuga.Prelude.Int.{ℤ}
use papuga.Request.Refs.{object_ref_value, object_ref_struct}
use papuga.Request.Keys.{value_scope, object_scope}
use papuga.Request.Description.State.{StructDef}
use papuga.Request.Description.Calls.{eqb_ℤ}
use papuga.Request.Context.{
  ValueNode, Context, has_map, curscope, taglevel, with_object_ref, insert_object_ref,
  push_value_ref, collect_nodes, collected, collect_value, close_struct,
}

module _ (V : Type 0) where
  -- `push_value_ref`
  unfoldable pub with_value_ref : Context V → ℤ → Option V → Context V
  with_value_ref c itemid v =
      let d =
        with_object_ref V c itemid value_scope (curscope V c) (taglevel V c)
          (object_ref_value (length c.values)) in
      record d { values = d.values ++ (v ∷ []) }

  -- `collect_nodes`
  unfoldable pub collected_nodes :
      ℤ → List (ValueNode V) → Context V → ℕ → List (ValueNode V) × Context V × ℕ
  collected_nodes itemid [] c valuecnt = ([], c, valuecnt)
  collected_nodes itemid (n ∷ ns) c valuecnt =
      let found = eqb_ℤ n.itemid itemid in
      let r =
        collected_nodes itemid ns (if found then with_value_ref c itemid (some n.value) else c)
          (if found then valuecnt + 1 else valuecnt) in
      (if found then r.0 else n ∷ r.0, r.1, r.2)

  -- `collect_value`
  unfoldable pub collected_value : Context V → ℤ → Bool × Context V
  collected_value c itemid =
      let r = collected_nodes itemid c.valuenodes c 0 in
      let d = record r.1 { valuenodes = r.0 } in
      if r.2 == 0
      then (true, with_value_ref d itemid none)
      else if ltb 1 r.2
      then (false, record d { erritemid = itemid; errcode = duplicate_definition })
      else (true, d)

  -- `close_struct`
  unfoldable pub with_struct : Context V → StructDef → Context V
  with_struct c def =
      let d =
        with_object_ref V c def.itemid object_scope (curscope V c) (taglevel V c)
          (object_ref_struct (length c.structs)) in
      record d { structs = d.structs ++ (def ∷ []) }

  inserted :
      (maxitemid : ℕ) (c : Context V) (itemid : ℤ) (v : Option V)
      → has_map maxitemid itemid ≡ true
      → push_value_ref V maxitemid c itemid v ≡ some (with_value_ref c itemid v)
  unfolding push_value_ref insert_object_ref with_value_ref
  inserted maxitemid c itemid v h = rw (h, push_value_ref, insert_object_ref) refl

  refused :
      (maxitemid : ℕ) (c : Context V) (itemid : ℤ) (v : Option V)
      → has_map maxitemid itemid ≡ false
      → push_value_ref V maxitemid c itemid v ≡ none
  unfolding push_value_ref insert_object_ref
  refused maxitemid c itemid v h = rw (h, push_value_ref, insert_object_ref) refl

  pub close_struct_in_range :
      (maxitemid : ℕ) (c : Context V) (def : StructDef)
      → has_map maxitemid def.itemid ≡ true
      → close_struct V maxitemid c def ≡ some (with_struct c def)
  unfolding close_struct insert_object_ref with_struct
  close_struct_in_range maxitemid c def h = rw (h, close_struct, insert_object_ref) refl

  pub close_struct_out_of_range :
      (maxitemid : ℕ) (c : Context V) (def : StructDef)
      → has_map maxitemid def.itemid ≡ false
      → close_struct V maxitemid c def ≡ none
  unfolding close_struct insert_object_ref
  close_struct_out_of_range maxitemid c def h = rw (h, close_struct, insert_object_ref) refl

  nodes_in_range :
      (maxitemid : ℕ) (itemid : ℤ) (ns : List (ValueNode V)) (c : Context V) (k : ℕ)
      → has_map maxitemid itemid ≡ true
      → collect_nodes V maxitemid itemid ns c k ≡ some (collected_nodes itemid ns c k)
  unfolding collect_nodes collected_nodes
  nodes_in_range maxitemid itemid [] c k h = refl
  nodes_in_range maxitemid itemid (n ∷ ns) c k h = elim (Bool-cases (eqb_ℤ n.itemid itemid)) [
    | inl e ↦
        rw (e, inserted maxitemid c itemid (some n.value) h, collect_nodes)
          (nodes_in_range maxitemid itemid ns (with_value_ref c itemid (some n.value)) (k + 1) h)
    | inr e ↦ rw (e, nodes_in_range maxitemid itemid ns c k h, collect_nodes) refl
  ]

  pub collect_value_in_range :
      (maxitemid : ℕ) (c : Context V) (itemid : ℤ)
      → has_map maxitemid itemid ≡ true
      → collect_value V maxitemid c itemid ≡ some (collected_value c itemid)
  unfolding collect_value collected collected_value
  collect_value_in_range maxitemid c itemid h =
      let r = collected_nodes itemid c.valuenodes c 0 in
      let d : Context V = record r.1 { valuenodes = r.0 } in
      let first = nodes_in_range maxitemid itemid c.valuenodes c 0 h in
      let last = inserted maxitemid d itemid none h in
      rw (first, collect_value) (rw (last, collected) (ground arith))

  -- Without a map the loop ends with what it had, or on the first value of the item.
  nodes_out_of_range :
      (maxitemid : ℕ) (itemid : ℤ) (ns : List (ValueNode V)) (c : Context V) (k : ℕ)
      → has_map maxitemid itemid ≡ false
      → (collect_nodes V maxitemid itemid ns c k ≡ none)
        ⊎ (collect_nodes V maxitemid itemid ns c k ≡ some (ns, c, k))
  unfolding collect_nodes
  nodes_out_of_range maxitemid itemid [] c k h = inr refl
  nodes_out_of_range maxitemid itemid (n ∷ ns) c k h = elim (Bool-cases (eqb_ℤ n.itemid itemid)) [
    | inl e ↦ inl (rw (e, refused maxitemid c itemid (some n.value) h, collect_nodes) refl)
    | inr e ↦ elim (nodes_out_of_range maxitemid itemid ns c k h) [
      | inl q ↦ inl (rw (e, q, collect_nodes) refl)
      | inr q ↦ inr (rw (e, q, collect_nodes) refl)
    ]
  ]

  pub collect_value_out_of_range :
      (maxitemid : ℕ) (c : Context V) (itemid : ℤ)
      → has_map maxitemid itemid ≡ false
      → collect_value V maxitemid c itemid ≡ none
  unfolding collect_value collected
  collect_value_out_of_range maxitemid c itemid h =
      elim (nodes_out_of_range maxitemid itemid c.valuenodes c 0 h) [
        | inl q ↦ rw (q, collect_value) refl
        | inr q ↦ rw (q, collect_value) (rw (refused maxitemid c itemid none h, collected) refl)
      ]
