-- ===== src/Request/Description/Items.antt =====
-- The item ids of the class AutomatonDescription in src/request.cpp: AutomatonContext has a vector with a map for
-- each of them, by the greatest one.
use papuga.Prelude.{
  ℕ, ◌≤◌, inl, inr, Bool, true, false, ◌||◌, not, Option, none, some, List, [], ◌∷◌, if◌then◌else◌,
  ◌+◌, ◌^◌, ◌==◌, ltb, length, arith, Bool-cases, Option-cases,
}
use papuga.Prelude.Int.{ℤ, pos, pos_part, ltb_ℤ, ◌≤ℤ◌}
use papuga.Request.Refs.{res_ref_check}
use papuga.Request.Description.Expression.{Text, root_tag_name}
use papuga.Request.Description.State.{
  Services, Description, Result, StructDef, push_back, back, set_back, copy_if_defined,
  check_item_id, extract_root_tag_name, add_expression, add_result_instruction_trigger, and_then,
}

-- From 0 to the greatest.
abbrev pub IsItem : ℕ → ℤ → Type 0
IsItem top itemid = (pos 0 ≤ℤ itemid) × (itemid ≤ℤ pos top)

abbrev pub AllItems : ℕ → List ℤ → Type 0
AllItems top [] = Unit
AllItems top (x ∷ xs) = IsItem top x × AllItems top xs

abbrev pub AllStructs : ℕ → List StructDef → Type 0
AllStructs top [] = Unit
AllStructs top (x ∷ xs) = IsItem top x.itemid × AllStructs top xs

AllItems-mono : (a b : ℕ) (xs : List ℤ) → a ≤ b → AllItems a xs → AllItems b xs
AllItems-mono a b [] le h = tt
AllItems-mono a b (x ∷ xs) le h = ((h.0.0, omega arith), AllItems-mono a b xs le h.1)

AllStructs-mono : (a b : ℕ) (xs : List StructDef) → a ≤ b → AllStructs a xs → AllStructs b xs
AllStructs-mono a b [] le h = tt
AllStructs-mono a b (x ∷ xs) le h = ((h.0.0, omega arith), AllStructs-mono a b xs le h.1)

pub push-AllItems :
    (top : ℕ) (xs : List ℤ) (x : ℤ) → AllItems top xs → IsItem top x → AllItems top (push_back xs x)
push-AllItems top [] x h i = (i, tt)
push-AllItems top (y ∷ ys) x h i = (h.0, push-AllItems top ys x h.1 i)

pub push-AllStructs :
    (top : ℕ) (xs : List StructDef) (x : StructDef)
    → AllStructs top xs
    → IsItem top x.itemid
    → AllStructs top (push_back xs x)
push-AllStructs top [] x h i = (i, tt)
push-AllStructs top (y ∷ ys) x h i = (h.0, push-AllStructs top ys x h.1 i)

pub set_back-AllStructs :
    (top : ℕ) (xs : List StructDef) (x : StructDef)
    → AllStructs top xs
    → IsItem top x.itemid
    → AllStructs top (set_back xs x)
unfolding set_back
set_back-AllStructs top [] x h i = tt
set_back-AllStructs top (y ∷ []) x h i = (i, tt)
set_back-AllStructs top (y ∷ z ∷ zs) x h i = (h.0, set_back-AllStructs top (z ∷ zs) x h.1 i)

abbrev pub IsItemOf : ℕ → Option StructDef → Type 0
IsItemOf top none = Unit
IsItemOf top (some s) = IsItem top s.itemid

pub back-IsItemOf : (top : ℕ) (xs : List StructDef) → AllStructs top xs → IsItemOf top (back xs)
unfolding back
back-IsItemOf top [] h = tt
back-IsItemOf top (y ∷ []) h = h.0
back-IsItemOf top (y ∷ z ∷ zs) h = back-IsItemOf top (z ∷ zs) h.1

module _ (svc : Services) where
  -- Each item of a value or a structure has a map.
  abbrev pub AllMapped : Description svc → Type 0
  AllMapped d = AllItems d.maxitemid d.valuedefs × AllStructs d.maxitemid d.structdefs

  pub if-AllMapped :
      (b : Bool) (x y : Result svc)
      → AllMapped x.1
      → AllMapped y.1
      → AllMapped ((if b then x else y).1)
  if-AllMapped true x y h g = h
  if-AllMapped false x y h g = g

  pub and_then-AllMapped :
      (r : Result svc) (rest : Description svc → Result svc)
      → AllMapped r.1
      → ((d : Description svc) → AllMapped d → AllMapped (rest d).1)
      → AllMapped (and_then svc r rest).1
  unfolding and_then
  and_then-AllMapped (false, d) rest h f = h
  and_then-AllMapped (true, d) rest h f = f d h

  pub copy_if_defined-AllMapped :
      (d : Description svc) (str : Option Text)
      → AllMapped d
      → AllMapped (copy_if_defined svc d str).1
  unfolding copy_if_defined
  copy_if_defined-AllMapped d none h = h
  copy_if_defined-AllMapped d (some []) h = h
  copy_if_defined-AllMapped d (some (c ∷ cs)) h =
      elim (Option-cases (svc.alloc d.mem (length (c ∷ cs) + 1) 1)) [
        | inl n ↦ rw (n, copy_if_defined) h
        | inr (mem, s) ↦ rw (s, copy_if_defined) h
      ]

  pub add_expression-AllMapped :
      (d : Description svc) (evid : ℕ) (expr : Text)
      → AllMapped d
      → AllMapped (add_expression svc d evid expr).1
  unfolding add_expression extract_root_tag_name
  add_expression-AllMapped d evid expr h = elim (Option-cases (root_tag_name expr)) [
    | inl e ↦
        rw (e, add_expression, extract_root_tag_name)
          (if-AllMapped ((svc.add_path d.atm evid expr).0 == 0) _ _ h h)
    | inr (tag, e) ↦
        rw (e, add_expression, extract_root_tag_name)
          (if-AllMapped ((svc.add_path d.atm evid expr).0 == 0) _ _ h h)
  ]

  pub add_result_instruction_trigger-AllMapped :
      (d : Description svc) (expr : Text) (r i : ℕ)
      → AllMapped d
      → AllMapped (add_result_instruction_trigger svc d expr r i).1
  unfolding add_result_instruction_trigger
  add_result_instruction_trigger-AllMapped d expr r i h =
      if-AllMapped (not (res_ref_check r i)) _ _ h (add_expression-AllMapped d _ expr h)

  raised :
      (d : Description svc) (top : ℕ)
      → d.maxitemid ≤ top
      → AllMapped d
      → AllMapped (record d { maxitemid = top })
  raised d top le h = (
    AllItems-mono d.maxitemid top d.valuedefs le h.0,
    AllStructs-mono d.maxitemid top d.structdefs le h.1,
  )

  pub check_item_id-AllMapped :
      (d : Description svc) (itemid : ℤ) → AllMapped d → AllMapped (check_item_id svc d itemid).1
  unfolding check_item_id
  check_item_id-AllMapped d itemid h =
      if-AllMapped (ltb_ℤ itemid (pos 0) || not (ltb_ℤ itemid (pos (2 ^ 28)))) _ _ h
        (elim (Bool-cases (ltb d.maxitemid (pos_part itemid))) [
          | inl g ↦ rw g (raised d (pos_part itemid) (ground arith) h)
          | inr g ↦ rw g h
        ])

  -- What follows checkItemId has an item with a map.
  pub checked-AllMapped :
      (d : Description svc) (itemid : ℤ) (rest : Description svc → Result svc)
      → AllMapped d
      → ((d1 : Description svc) → AllMapped d1 → IsItem d1.maxitemid itemid → AllMapped (rest d1).1)
      → AllMapped (and_then svc (check_item_id svc d itemid) rest).1
  unfolding and_then check_item_id
  checked-AllMapped d itemid rest h f =
      elim (Bool-cases (ltb_ℤ itemid (pos 0) || not (ltb_ℤ itemid (pos (2 ^ 28))))) [
        | inl e ↦ rw (e, check_item_id, and_then) h
        | inr e ↦ elim (Bool-cases (ltb d.maxitemid (pos_part itemid))) [
          | inl g ↦
              rw (e, g, check_item_id, and_then)
                (f (record d { maxitemid = pos_part itemid })
                  (raised d (pos_part itemid) (ground arith) h) (ground arith))
          | inr g ↦ rw (e, g, check_item_id, and_then) (f d h (ground arith))
        ]
      ]
