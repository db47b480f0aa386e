-- ===== src/Request/Context/Collect.antt =====
-- CollectValue of the class AutomatonContext in src/request.cpp.
use mathlib.Core.List.{append_assoc, append-nil}
use papuga.ErrorCode.{duplicate_definition}
use papuga.Prelude.{
  ℕ, ◌+◌, ◌<◌, ◌≡◌, refl, ap, ◌∙◌, ◌⊎◌, inl, inr, ◌↔◌, Bool, true, false, Option, none, some, List,
  [], ◌∷◌, ◌++◌, if◌then◌else◌, length, arith, Bool-cases,
}
use papuga.Prelude.Int.{ℤ, pos, negsuc, ◌≤ℤ◌}
use papuga.Request.Description.Calls.{eqb_ℤ}
use papuga.Request.Context.{ValueNode, Context, has_map, with_object_ref, collect_value}
use papuga.Request.Context.InRange.{
  with_value_ref, collected_nodes, collected_value, collect_value_in_range,
  collect_value_out_of_range,
}

module _ (V : Type 0) where
  -- The pending values of an item, and those of the others.
  abbrev pub of_item : ℤ → List (ValueNode V) → List (Option V)
  of_item itemid [] = []
  of_item itemid (n ∷ ns) =
      let rest = of_item itemid ns in if eqb_ℤ n.itemid itemid then some n.value ∷ rest else rest

  abbrev pub of_others : ℤ → List (ValueNode V) → List (ValueNode V)
  of_others itemid [] = []
  of_others itemid (n ∷ ns) =
      let rest = of_others itemid ns in if eqb_ℤ n.itemid itemid then rest else n ∷ rest

  record Collects (itemid : ℤ) (ns : List (ValueNode V)) (c : Context V) (k : ℕ) : Type 0 where
    left : (collected_nodes V itemid ns c k).0 ≡ of_others itemid ns
    values : (collected_nodes V itemid ns c k).1.values ≡ c.values ++ of_item itemid ns
    counted : (collected_nodes V itemid ns c k).2 ≡ k + length (of_item itemid ns)

  collected_nodes-Collects :
      (itemid : ℤ) (ns : List (ValueNode V)) (c : Context V) (k : ℕ) → Collects itemid ns c k
  unfolding collected_nodes with_value_ref with_object_ref
  collected_nodes-Collects itemid [] c k = record {
    left = refl;
    values = rw append-nil refl;
    counted = omega arith;
  }
  collected_nodes-Collects itemid (n ∷ ns) c k = elim (Bool-cases (eqb_ℤ n.itemid itemid)) [
    | inl e ↦
        let ih =
          collected_nodes-Collects itemid ns (with_value_ref V c itemid (some n.value)) (k + 1) in
        record {
          left = rw e ih.left;
          values = rw e (ih.values ∙ append_assoc c.values (some n.value ∷ []) (of_item itemid ns));
          counted = rw e (omega (arith, ih.counted));
        }
    | inr e ↦
        let ih = collected_nodes-Collects itemid ns c k in
        record {
          left = rw e (ap (λ (l : List (ValueNode V)). n ∷ l) ih.left);
          values = rw e ih.values;
          counted = rw e ih.counted;
        }
  ]

  no_items :
      (itemid : ℤ) (ns : List (ValueNode V))
      → (of_item itemid ns ≡ []) ⊎ (0 < length (of_item itemid ns))
  no_items itemid ns = ground arith

  -- What CollectValue gives of an item: it takes the pending values of the item out, in their order, and leaves
  -- those of the others.
  abbrev pub Collected : Context V → ℤ → Bool × Context V → Type 0
  Collected c itemid r =
      (r.1.valuenodes ≡ of_others itemid c.valuenodes)
      × (((length (of_item itemid c.valuenodes) ≡ 0)
            × (r.0 ≡ true)
            × (r.1.values ≡ c.values ++ (none ∷ [])))
          ⊎ ((length (of_item itemid c.valuenodes) ≡ 1)
              × (r.0 ≡ true)
              × (r.1.values ≡ c.values ++ of_item itemid c.valuenodes))
          ⊎ ((1 < length (of_item itemid c.valuenodes))
              × (r.0 ≡ false)
              × (r.1.errcode ≡ duplicate_definition)
              × (r.1.erritemid ≡ itemid)))

  collected_value-Collected :
      (c : Context V) (itemid : ℤ) → Collected c itemid (collected_value V c itemid)
  unfolding collected_value with_value_ref with_object_ref
  collected_value-Collected c itemid =
      let h = collected_nodes-Collects itemid c.valuenodes c 0 in
      let left = h.left in
      let values = h.values in
      let counted = h.counted in
      let none_found = no_items itemid c.valuenodes in ground (arith, append-nil c.values)

  has_map_iff :
      (maxitemid : ℕ) (itemid : ℤ)
      → (has_map maxitemid itemid ≡ true) ↔ (pos 0 ≤ℤ itemid) × (itemid ≤ℤ pos maxitemid)
  unfolding has_map
  has_map_iff maxitemid (pos n) = ground arith
  has_map_iff maxitemid (negsuc n) = ground arith

  -- Collecting the values of an item, from 0 to the greatest, takes its pending values out, in their
  -- order, and leaves those of the others. With no pending value a value that is not defined is added,
  -- with one that value, and with more the event fails, with the item as the one in error. Of any other
  -- item the index is outside of the vector of maps.
  pub collect_value_lem :
      (maxitemid : ℕ) (c : Context V) (itemid : ℤ)
      → ((pos 0 ≤ℤ itemid)
          × (itemid ≤ℤ pos maxitemid)
          × (r : Bool × Context V) × (collect_value V maxitemid c itemid ≡ some r)
          × Collected c itemid r)
        ⊎ (¬ ((pos 0 ≤ℤ itemid) × (itemid ≤ℤ pos maxitemid))
            × (collect_value V maxitemid c itemid ≡ none))
  collect_value_lem maxitemid c itemid = elim (Bool-cases (has_map maxitemid itemid)) [
    | inl e ↦
        let bounds = (has_map_iff maxitemid itemid).0 e in
        inl (
          bounds.0,
          bounds.1,
          collected_value V c itemid,
          collect_value_in_range V maxitemid c itemid e,
          collected_value-Collected c itemid,
        )
    | inr e ↦ inr (
      λ b. let t = (has_map_iff maxitemid itemid).1 b in absurd (ground arith),
      collect_value_out_of_range V maxitemid c itemid e,
    )
  ]
