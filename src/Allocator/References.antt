-- ===== src/Allocator/References.antt =====
-- The objects with a destructor in src/allocator.c: how they are allocated, and which destructors are
-- called.
use mathlib.Core.List.{append_assoc}
use papuga.Prelude.{
  inl, inr, ap, ◌∙◌, leb, ◌⊎◌, ◌↔◌, sym, ℕ, ◌+◌, ◌%◌, ◌^◌, ◌≤◌, ◌<◌, ◌≡◌, refl, Bool, true, false,
  ◌&&◌, Option, none, some, List, [], ◌∷◌, ◌++◌, ◌==◌, if◌then◌else◌, length, replicate, arith,
  Bool-cases,
}
use papuga.Allocator.Align.{get_pointer_align_incr-aligns}
use papuga.Allocator.{
  Allocator, Heap, Reference, RefType, alloc_in, alloc_block, get_pointer_align_incr, is_refused,
  used_alignment, ref_host_object, ref_iterator, ref_allocator, alloc,
}

abbrev same_type : RefType → RefType → Bool
same_type ref_host_object ref_host_object = true
same_type ref_iterator ref_iterator = true
same_type ref_allocator ref_allocator = true
same_type _ _ = false

-- Which destructor a case of papuga_destroy_ReferenceHeader calls: the object's, if it has one. A nested
-- allocator always has one.
abbrev destroyed : Reference → List ℕ
destroyed r = if r.owned then r.object ∷ [] else []

-- papuga_destroy_ReferenceHeader
unfoldable pub destroy_references : List Reference → List ℕ
destroy_references [] = []
destroy_references (r ∷ rs) = destroyed r ++ destroy_references rs

-- The loop of papuga_Allocator_destroy_HostObject, papuga_Allocator_destroy_Iterator and
-- papuga_Allocator_destroy_Allocator: the destructors that are called, and the list without the object.
unfoldable pub destroy_object : RefType → ℕ → List Reference → List ℕ × List Reference
destroy_object t object [] = ([], [])
destroy_object t object (r ∷ rs) =
    let rest = destroy_object t object rs in
    if same_type r.ref_type t && object == r.object then (destroyed r, rs) else (rest.0, r ∷ rest.1)

-- An entry of the list is that of the object.
abbrev pub IsOf : RefType → ℕ → Reference → Type 0
IsOf t object r = (r.ref_type ≡ t) × (r.object ≡ object)

abbrev pub NoneOf : RefType → ℕ → List Reference → Type 0
NoneOf t object [] = Unit
NoneOf t object (r ∷ rs) = ¬ IsOf t object r × NoneOf t object rs

-- The first entry of the object is taken out, and its destructor called if it has one; or there is none, and
-- nothing is done.
abbrev pub DestroysFirst : RefType → ℕ → List Reference → List ℕ × List Reference → Type 0
DestroysFirst t object rs result =
    ((front : List Reference) × (r : Reference) × (behind : List Reference) × (rs
        ≡ front ++ (r ∷ behind))
      × NoneOf t object front
      × IsOf t object r
      × (result.0 ≡ (if r.owned then object ∷ [] else []))
      × (result.1 ≡ front ++ behind)
      × (destroy_references rs
          ≡ destroy_references front ++ (result.0 ++ destroy_references behind)))
    ⊎ (NoneOf t object rs × (result.0 ≡ []) × (result.1 ≡ rs))

same_type_iff : (t u : RefType) → (same_type t u ≡ true) ↔ (t ≡ u)
same_type_iff t u = ground arith

number_eq : (a b : ℕ) → (a == b) ≡ true → b ≡ a
number_eq a b h = ground arith

found :
    (t : RefType) (object : ℕ) (r : Reference)
    → (same_type r.ref_type t && object == r.object) ≡ true
    → IsOf t object r
found t object r h =
    ((same_type_iff r.ref_type t).0 (ground arith), number_eq object r.object (ground arith))

passed :
    (t : RefType) (object : ℕ) (r : Reference)
    → (same_type r.ref_type t && object == r.object) ≡ false
    → ¬ IsOf t object r
passed t object r h (e, o) =
    let type : same_type r.ref_type t ≡ true = (same_type_iff r.ref_type t).1 e in
    let number : (object == r.object) ≡ true = ground arith in absurd (ground arith)

destroyed_object :
    (b : Bool) (x y : ℕ) → x ≡ y → (if b then x ∷ [] else []) ≡ (if b then y ∷ [] else [])
destroyed_object true x y e = ap (λ (z : ℕ). z ∷ []) e
destroyed_object false x y e = refl

behind_first :
    (t : RefType) (object : ℕ) (x : Reference) (rs : List Reference)
    (result : List ℕ × List Reference)
    → ¬ IsOf t object x
    → DestroysFirst t object rs result
    → DestroysFirst t object (x ∷ rs) (result.0, x ∷ result.1)
unfolding destroy_references
behind_first t object x rs result n (inl d) = inl (
  x ∷ d.0,
  d.1,
  d.2,
  ap (λ (l : List Reference). x ∷ l) d.3,
  (n, d.4),
  d.5,
  d.6,
  ap (λ (l : List Reference). x ∷ l) d.7,
  ap (λ (l : List ℕ). destroyed x ++ l) d.8
      ∙ sym (
          append_assoc (destroyed x) (destroy_references d.0) (result.0 ++ destroy_references d.2)),
)
behind_first t object x rs result n (inr d) =
    inr ((n, d.0), d.1, ap (λ (l : List Reference). x ∷ l) d.2)

-- Destroying an object early takes the first entry of its type and address out of the list, leaves the others in
-- their order, and calls the destructor of this object, if it has one, and no other. Where the list has no
-- such entry it does nothing. The destructors that destroying the allocator calls are those of the entries in
-- front, this one, and those of the entries behind.
pub destroy_object-DestroysFirst :
    (t : RefType) (object : ℕ) (rs : List Reference)
    → DestroysFirst t object rs (destroy_object t object rs)
unfolding destroy_object destroy_references
destroy_object-DestroysFirst t object [] = inr (tt, refl, refl)
destroy_object-DestroysFirst t object (r ∷ rs) =
    elim (Bool-cases (same_type r.ref_type t && object == r.object)) [
      | inl e ↦
          let is_of = found t object r e in
          rw (e, destroy_object)
            (inl (
              [],
              r,
              rs,
              refl,
              tt,
              is_of,
              destroyed_object r.owned r.object object is_of.1,
              refl,
              refl,
            ))
      | inr e ↦
          rw (e, destroy_object)
            (behind_first t object r rs (destroy_object t object rs) (passed t object r e)
              (destroy_object-DestroysFirst t object rs))
    ]

module _ (heap : Heap) where
  abbrev pub Created : Type 0
  Created = Option (Option ℕ × heap.State × Allocator)

  -- The object behind a header of 16 bytes, which joins the references in front.
  abbrev referenced : RefType → Bool → Option (Option ℕ × heap.State × Allocator) → Created
  referenced t owned none = none
  referenced t owned (some (none, h, a)) = some (none, h, a)
  referenced t owned (some (some p, h, a)) = some (
    some (p + 16),
    h,
    record a { reflist = record { ref_type = t; object = p + 16; owned = owned } ∷ a.reflist },
  )

  -- The pointer that is returned.
  abbrev pub placed : Created → Option ℕ
  placed none = none
  placed (some r) = r.0

  -- papuga_Allocator_alloc_HostObject
  unfoldable pub alloc_host_object : heap.State → Allocator → Bool → Created
  alloc_host_object h a has_destroy = referenced ref_host_object has_destroy (alloc heap h a 40 0)

  -- papuga_Allocator_alloc_Iterator
  unfoldable pub alloc_iterator : heap.State → Allocator → Bool → Created
  alloc_iterator h a has_destroy = referenced ref_iterator has_destroy (alloc heap h a 40 0)

  -- papuga_Allocator_alloc_Allocator
  unfoldable pub alloc_allocator : heap.State → Allocator → Created
  alloc_allocator h a = referenced ref_allocator true (alloc heap h a 56 0)

  -- papuga_Allocator_copy_string and papuga_Allocator_copy_string_enc: the place, with the bytes that are
  -- written there. `usize` is the size of a null character.
  unfoldable pub copy_string_enc :
      heap.State → Allocator → List ℕ → ℕ → Option (Option (ℕ × List ℕ) × heap.State × Allocator)
  copy_string_enc h a str usize = elim (alloc heap h a (length str + usize) usize) [
    | none ↦ none
    | some (none, h', a') ↦ some (none, h', a')
    | some (some p, h', a') ↦ some (some (p, str ++ replicate usize 0), h', a')
  ]

  unfoldable pub copy_string :
      heap.State → Allocator → List ℕ → Option (Option (ℕ × List ℕ) × heap.State × Allocator)
  copy_string h a str = copy_string_enc h a str 1

no_gap : (ptr ofs : ℕ) → (ptr + ofs) % 8 ≡ 4 → get_pointer_align_incr ptr ofs 4 ≡ 0
no_gap ptr ofs off =
    let incr = get_pointer_align_incr-aligns ptr ofs 2 (omega arith) in
    omega (arith, incr.0, incr.1)

in_place :
    (heap : Heap) (h : heap.State) (a : Allocator) (ar : ℕ)
    → (ar + a.root.arsize) % 8 ≡ 4
    → a.root.arsize + 40 ≤ a.root.allocsize
    → a.root.allocsize < 2 ^ 32
    → alloc_in heap h a ar 40 4
      ≡ some (
        some (ar + a.root.arsize),
        h,
        record a { root = record a.root { arsize = a.root.arsize + 40 } },
      )
unfolding alloc_in
in_place heap h a ar off fits small =
    let sum : (a.root.arsize + 40) % 2 ^ 32 ≡ a.root.arsize + 40 = omega arith in
    let start : (a.root.arsize + 0) % 2 ^ 32 ≡ a.root.arsize = omega arith in
    let room : leb (a.root.arsize + 40) a.root.allocsize ≡ true = ground arith in
    rw (no_gap ar a.root.arsize off) (rw sum (rw start (rw room)))

-- With memory for it in the root, filled up to 4 bytes beyond a multiple of 8, a host object, which holds
-- pointers, is put at such an address.
pub alloc_host_object_misaligned :
    (heap : Heap) (h : heap.State) (a : Allocator) (ar : ℕ) (has_destroy : Bool)
    → a.root.ar ≡ some ar
    → (ar + a.root.arsize) % 8 ≡ 4
    → a.root.arsize + 40 ≤ a.root.allocsize
    → a.root.allocsize < 2 ^ 32
    → (p : ℕ) × (placed heap (alloc_host_object heap h a has_destroy) ≡ some p) × (p % 8 ≡ 4)
unfolding alloc_host_object alloc alloc_block is_refused used_alignment
alloc_host_object_misaligned heap h a ar has_destroy e off fits small = (
  ar + a.root.arsize + 16,
  ap
        (λ (o : Option ℕ).
          placed heap (referenced heap ref_host_object has_destroy (alloc_block heap h a o 40 4)))
        e
      ∙ rw (in_place heap h a ar off fits small, alloc_block),
  omega arith,
)
