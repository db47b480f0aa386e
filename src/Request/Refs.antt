-- ===== src/Request/Refs.antt =====
-- The packed references of src/request.cpp: event ids of the automaton, references into the result
-- descriptions, and references to values and structures. The numbers are of type `int` with 32 bits;
-- a number that is only ever at least 0 is an ℕ here.
use papuga.Prelude.{
  ℕ, ◌+◌, ◌-◌, ◌*◌, ◌/◌, ◌^◌, ◌<◌, ◌≡◌, ◌≢◌, refl, Bool, true, false, ◌&&◌, Option, none, some, ltb,
  leb, if◌then◌else◌, bit_or, bit_and, ◌==◌, arith,
}
use papuga.Prelude.Bits.{bit_or_shift, bit_and_low}
use papuga.Prelude.Int.{ℤ, pos, negsuc, sub_ℕ}

pub data AtmRefType : Type 0 where
  instantiate_value collect_value close_struct method_call : AtmRefType
  method_call_prioritize inherit_from result_instruction : AtmRefType

-- The enumeration's numbers.
abbrev pub to_number : AtmRefType → ℕ
to_number instantiate_value = 0
to_number collect_value = 1
to_number close_struct = 2
to_number method_call = 3
to_number method_call_prioritize = 4
to_number inherit_from = 5
to_number result_instruction = 6

-- `(AtmRefType)n`; no enumerator has the number 7.
of_number : ℕ → Option AtmRefType
of_number n =
    if n == 0
    then some instantiate_value
    else if n == 1
    then some collect_value
    else if n == 2
    then some close_struct
    else if n == 3
    then some method_call
    else if n == 4
    then some method_call_prioritize
    else if n == 5
    then some inherit_from
    else if n == 6
    then some result_instruction
    else none

-- `((int)type<<28) | (idx+1)`
unfoldable pub atm_ref_get : AtmRefType → ℕ → ℕ
atm_ref_get type idx = bit_or (to_number type * 2 ^ 28) (idx + 1)

-- `(atmref>>28) & 0x7`
unfoldable pub atm_ref_type : ℕ → Option AtmRefType
unfolding of_number
atm_ref_type atmref = of_number (bit_and (atmref / 2 ^ 28) 0x7)

-- `(atmref & 0x0fFFffFF)-1`
unfoldable pub atm_ref_index : ℕ → ℤ
atm_ref_index atmref = sub_ℕ (bit_and atmref 0x0fff_ffff) 1

-- `resultidx >= 0 && resultidx < 256 && instridx >= 0 && instridx <= 1<<16`
unfoldable pub res_ref_check : ℕ → ℕ → Bool
res_ref_check resultidx instridx = ltb resultidx 256 && leb instridx (2 ^ 16)

unfoldable pub res_ref_get : ℕ → ℕ → ℕ
res_ref_get resultidx instridx = resultidx * 2 ^ 16 + instridx

unfoldable pub res_ref_resultidx : ℕ → ℕ
res_ref_resultidx idx = bit_and (idx / 2 ^ 16) 0xff

unfoldable pub res_ref_instridx : ℕ → ℕ
res_ref_instridx idx = bit_and idx 0xffff

-- A value is a positive number, a structure a negative one.
abbrev pub ObjectRef : Type 0
ObjectRef = ℤ

-- `objref > 0`, `objref < 0`, `objref != 0`
unfoldable pub is_value : ObjectRef → Bool
is_value (pos n) = ltb 0 n
is_value (negsuc n) = false

unfoldable pub is_struct : ObjectRef → Bool
is_struct (pos n) = false
is_struct (negsuc n) = true

unfoldable pub is_defined : ObjectRef → Bool
is_defined (pos n) = ltb 0 n
is_defined (negsuc n) = true

-- `objref < 0 ? -objref-1 : 0`
unfoldable pub struct_id : ObjectRef → ℕ
struct_id (pos n) = 0
struct_id (negsuc n) = n

-- `objref > 0 ? objref-1 : 0`
unfoldable pub value_id : ObjectRef → ℕ
value_id (pos n) = n - 1
value_id (negsuc n) = 0

-- `idx+1` and `-(idx+1)`
unfoldable pub object_ref_value : ℕ → ObjectRef
object_ref_value idx = pos (idx + 1)

unfoldable pub object_ref_struct : ℕ → ObjectRef
object_ref_struct idx = negsuc idx

or_zero : (t : AtmRefType) → bit_or (to_number t) 0 ≡ to_number t
or_zero instantiate_value = refl
or_zero collect_value = refl
or_zero close_struct = refl
or_zero method_call = refl
or_zero method_call_prioritize = refl
or_zero inherit_from = refl
or_zero result_instruction = refl

to_number-lt : (t : AtmRefType) → to_number t < 7
to_number-lt t = ground arith

of_number-to_number : (t : AtmRefType) → of_number (to_number t) ≡ some t
unfolding of_number
of_number-to_number t = ground arith

atm_ref_get-sum :
    (t : AtmRefType) (idx : ℕ)
    → idx + 1 < 2 ^ 28
    → atm_ref_get t idx ≡ to_number t * 2 ^ 28 + (idx + 1)
unfolding atm_ref_get
atm_ref_get-sum t idx h = bit_or_shift (to_number t) 28 (idx + 1) (or_zero t) h

atm_ref_type-bits :
    (t : AtmRefType) (idx : ℕ)
    → idx + 1 < 2 ^ 28
    → bit_and ((to_number t * 2 ^ 28 + (idx + 1)) / 2 ^ 28) 7 ≡ to_number t
atm_ref_type-bits t idx h =
    bit_and_low _ 3 0 (to_number t) (omega (arith, to_number-lt t)) (omega (arith, to_number-lt t))

atm_ref_index-bits :
    (t : AtmRefType) (idx : ℕ)
    → idx + 1 < 2 ^ 28
    → bit_and (to_number t * 2 ^ 28 + (idx + 1)) 0x0fff_ffff ≡ idx + 1
atm_ref_index-bits t idx h = bit_and_low _ 28 (to_number t) (idx + 1) (omega arith) h

atm_ref_get-type :
    (t : AtmRefType) (idx : ℕ) → idx + 1 < 2 ^ 28 → atm_ref_type (atm_ref_get t idx) ≡ some t
unfolding atm_ref_type
atm_ref_get-type t idx h =
    rw (atm_ref_get-sum t idx h, atm_ref_type-bits t idx h) (of_number-to_number t)

-- An event id gives back the type and the index that it was made of, fits 31 bits, and is not 0, the
-- value that an empty event stack gives. The index plus 1 fits 28 bits.
pub atm_ref_get-fields :
    (t : AtmRefType) (idx : ℕ)
    → idx + 1 < 2 ^ 28
    → (atm_ref_type (atm_ref_get t idx) ≡ some t)
      × (atm_ref_index (atm_ref_get t idx) ≡ pos idx)
      × (atm_ref_get t idx < 2 ^ 31)
      × (atm_ref_get t idx ≢ 0)
unfolding atm_ref_index
atm_ref_get-fields t idx h = (
  atm_ref_get-type t idx h,
  rw (atm_ref_get-sum t idx h, atm_ref_index-bits t idx h) (ground arith),
  rw (atm_ref_get-sum t idx h) (omega (arith, to_number-lt t)),
  rw (atm_ref_get-sum t idx h) (omega (arith, to_number-lt t)),
)

-- A reference that passes the check gives back its two numbers if the instruction's number is not
-- 2^16 itself.
pub res_ref_get-fields :
    (r i : ℕ)
    → res_ref_check r i ≡ true
    → i ≢ 2 ^ 16
    → (res_ref_resultidx (res_ref_get r i) ≡ r) × (res_ref_instridx (res_ref_get r i) ≡ i)
unfolding res_ref_check res_ref_get res_ref_resultidx res_ref_instridx
res_ref_get-fields r i h n =
    let b : (r < 256) × (i < 2 ^ 16) = (ground arith, ground arith) in
    (
      bit_and_low _ 8 0 r (omega arith) (omega arith),
      bit_and_low _ 16 r i (omega arith) (omega arith),
    )

-- The instruction number 2^16 passes the check, and its reference is that of the first instruction of
-- the next result.
pub res_ref_collision :
    (r : ℕ)
    → r < 256
    → (res_ref_check r (2 ^ 16) ≡ true) × (res_ref_get r (2 ^ 16) ≡ res_ref_get (r + 1) 0)
unfolding res_ref_check res_ref_get
res_ref_collision r h = (ground arith, omega arith)

-- A reference to a value and one to a structure give back the index that they were made of, are told
-- apart by the two tests, and are never the undefined reference.
pub object_ref-fields :
    (idx : ℕ)
    → (value_id (object_ref_value idx) ≡ idx)
      × (struct_id (object_ref_struct idx) ≡ idx)
      × (is_value (object_ref_value idx) ≡ true)
      × (is_struct (object_ref_value idx) ≡ false)
      × (is_struct (object_ref_struct idx) ≡ true)
      × (is_value (object_ref_struct idx) ≡ false)
      × (is_defined (object_ref_value idx) ≡ true)
      × (is_defined (object_ref_struct idx) ≡ true)
unfolding value_id struct_id is_value is_struct is_defined object_ref_value object_ref_struct
object_ref-fields idx = (omega arith, refl, ground arith, refl, refl, refl, ground arith, refl)
