-- ===== src/Value/Blob.antt =====
-- papuga_ValueVariant_toblob of src/valueVariant.cpp, on strings.
use papuga.ErrorCode.{ErrorCode, no_mem_error}
use papuga.Prelude.{
  ℕ, zero, suc, ◌+◌, ◌-◌, ◌*◌, ◌/◌, ◌%◌, ◌≡◌, ◌≢◌, refl, Bool, true, Option, none, some, List, [],
  ◌∷◌, ◌++◌, if◌then◌else◌, length, get_elem?, arith,
}
use papuga.Encoding.{StringEncoding, utf8, utf16be, utf16le, utf16, utf32be, utf32le, utf32, binary}
use papuga.Request.Description.Expression.{Text}

abbrev pub before : List ℕ → Option Text → Option Text
before cs none = none
before cs (some t) = some (cs ++ t)

-- The loops of convertEndianess2 and convertEndianess4; where the length is no multiple of the unit, they
-- run over the end.
unfoldable pub convert_endianness2 : Text → Option Text
convert_endianness2 [] = some []
convert_endianness2 (a ∷ []) = none
convert_endianness2 (a ∷ b ∷ l) = before (b ∷ a ∷ []) (convert_endianness2 l)

unfoldable pub convert_endianness4 : Text → Option Text
convert_endianness4 [] = some []
convert_endianness4 (a ∷ []) = none
convert_endianness4 (a ∷ b ∷ []) = none
convert_endianness4 (a ∷ b ∷ c ∷ []) = none
convert_endianness4 (a ∷ b ∷ c ∷ d ∷ l) = before (d ∷ c ∷ b ∷ a ∷ []) (convert_endianness4 l)

-- A blob, the error that the memory for it cannot be had, or a run over the end.
pub data BlobResult : Type 0 where
  blob : Text → BlobResult
  blob_error : ErrorCode → BlobResult
  blob_overrun : BlobResult

abbrev pub converted : Bool → Option Text → BlobResult
converted has_room t =
    if has_room
    then elim t [ none ↦ blob_overrun | some bytes ↦ blob bytes ]
    else blob_error no_mem_error

-- The string cases of papuga_ValueVariant_toblob, with IS_BIG_ENDIAN as not 0. `has_room` is whether the
-- allocator has memory for the length of the string.
unfoldable pub string_toblob : Bool → StringEncoding → Text → BlobResult
unfolding convert_endianness2 convert_endianness4
string_toblob has_room utf8 str = blob str
string_toblob has_room utf16be str = blob str
string_toblob has_room utf16le str = converted has_room (convert_endianness2 str)
string_toblob has_room utf16 str = blob str
string_toblob has_room utf32be str = blob str
string_toblob has_room utf32le str = converted has_room (convert_endianness4 str)
string_toblob has_room utf32 str = blob str
string_toblob has_room binary str = blob str

-- The bytes of each unit are in the opposite order.
abbrev pub UnitsReversed : ℕ → Text → Text → Type 0
UnitsReversed unit l m =
    (length m ≡ length l)
    × ((i : ℕ) → get_elem? m i ≡ get_elem? l (unit * (i / unit) + (unit - 1 - i % unit)))

-- A run over the end, where the length is no multiple of the unit.
abbrev Reverses : ℕ → Text → Option Text → Type 0
Reverses unit l none = length l % unit ≢ 0
Reverses unit l (some m) = (length l % unit ≡ 0) × UnitsReversed unit l m

reverses2_at :
    (a b : ℕ) (l m : Text)
    → UnitsReversed 2 l m
    → (i : ℕ) → get_elem? (b ∷ a ∷ m) i ≡ get_elem? (a ∷ b ∷ l) (2 * (i / 2) + (2 - 1 - i % 2))
reverses2_at a b l m r zero = refl
reverses2_at a b l m r (suc zero) = refl
reverses2_at a b l m r (suc (suc i)) =
    let next : 2 * (suc (suc i) / 2) + (2 - 1 - suc (suc i) % 2)
        ≡ suc (suc (2 * (i / 2) + (2 - 1 - i % 2))) =
      omega arith in
    rw next (r.1 i)

reverses2 :
    (a b : ℕ) (l : Text) (o : Option Text)
    → Reverses 2 l o
    → Reverses 2 (a ∷ b ∷ l) (before (b ∷ a ∷ []) o)
reverses2 a b l none r = λ e. r (omega arith)
reverses2 a b l (some m) r = (omega arith, (omega (arith, r.1.0), reverses2_at a b l m r.1))

convert2-Reverses : (l : Text) → Reverses 2 l (convert_endianness2 l)
unfolding convert_endianness2
convert2-Reverses [] = (omega arith, (refl, λ i. refl))
convert2-Reverses (a ∷ []) = λ e. absurd (omega arith)
convert2-Reverses (a ∷ b ∷ l) = reverses2 a b l (convert_endianness2 l) (convert2-Reverses l)

reverses4_at :
    (a b c d : ℕ) (l m : Text)
    → UnitsReversed 4 l m
    → (i : ℕ)
    → get_elem? (d ∷ c ∷ b ∷ a ∷ m) i
      ≡ get_elem? (a ∷ b ∷ c ∷ d ∷ l) (4 * (i / 4) + (4 - 1 - i % 4))
reverses4_at a b c d l m r zero = refl
reverses4_at a b c d l m r (suc zero) = refl
reverses4_at a b c d l m r (suc (suc zero)) = refl
reverses4_at a b c d l m r (suc (suc (suc zero))) = refl
reverses4_at a b c d l m r (suc (suc (suc (suc i)))) =
    let next : 4 * (suc (suc (suc (suc i))) / 4) + (4 - 1 - suc (suc (suc (suc i))) % 4)
        ≡ suc (suc (suc (suc (4 * (i / 4) + (4 - 1 - i % 4))))) =
      omega arith in
    rw next (r.1 i)

reverses4 :
    (a b c d : ℕ) (l : Text) (o : Option Text)
    → Reverses 4 l o
    → Reverses 4 (a ∷ b ∷ c ∷ d ∷ l) (before (d ∷ c ∷ b ∷ a ∷ []) o)
reverses4 a b c d l none r = λ e. r (omega arith)
reverses4 a b c d l (some m) r = (omega arith, (omega (arith, r.1.0), reverses4_at a b c d l m r.1))

convert4-Reverses : (l : Text) → Reverses 4 l (convert_endianness4 l)
unfolding convert_endianness4
convert4-Reverses [] = (omega arith, (refl, λ i. refl))
convert4-Reverses (a ∷ []) = λ e. absurd (omega arith)
convert4-Reverses (a ∷ b ∷ []) = λ e. absurd (omega arith)
convert4-Reverses (a ∷ b ∷ c ∷ []) = λ e. absurd (omega arith)
convert4-Reverses (a ∷ b ∷ c ∷ d ∷ l) =
    reverses4 a b c d l (convert_endianness4 l) (convert4-Reverses l)

abbrev pub Swaps : ℕ → Text → BlobResult → Type 0
Swaps unit l (blob m) = (length l % unit ≡ 0) × UnitsReversed unit l m
Swaps unit l (blob_error code) = ⊥
Swaps unit l blob_overrun = length l % unit ≢ 0

Swaps-converted :
    (unit : ℕ) (l : Text) (o : Option Text) → Reverses unit l o → Swaps unit l (converted true o)
Swaps-converted unit l none r = r
Swaps-converted unit l (some m) r = r

-- With memory for it, papuga_ValueVariant_toblob reverses the bytes of each unit of a little endian string, of
-- 2 and of 4 bytes, although IS_BIG_ENDIAN says nothing of the machine: the blob of a string of whole units
-- is as long as the string, and has at each place the byte of the mirrored place in the same unit. Any other
-- string is run over at its end.
pub string_toblob-Swaps :
    (l : Text) → Swaps 2 l (string_toblob true utf16le l) × Swaps 4 l (string_toblob true utf32le l)
unfolding string_toblob
string_toblob-Swaps l = (
  Swaps-converted 2 l (convert_endianness2 l) (convert2-Reverses l),
  Swaps-converted 4 l (convert_endianness4 l) (convert4-Reverses l),
)
