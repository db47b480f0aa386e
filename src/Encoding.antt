-- ===== src/Encoding.antt =====
-- String encodings: include/papuga/typedefs.h, src/encoding.c and the sizes of units in
-- src/valueVariant.c.
use papuga.Prelude.{
  ℕ, ◌-◌, ◌≡◌, refl, ◌&&◌, ◌||◌, Option, none, some, [], ◌∷◌, leb, ◌==◌, if◌then◌else◌, bit_or,
}
use papuga.Request.Description.Expression.{Text, text_eq}

-- papuga_StringEncoding
pub data StringEncoding : Type 0 where
  utf8 utf16be utf16le utf16 utf32be utf32le utf32 binary : StringEncoding

-- papuga_StringEncoding_unit_size
unfoldable pub unit_size : StringEncoding → ℕ
unit_size utf8 = 1
unit_size utf16be = 2
unit_size utf16le = 2
unit_size utf16 = 2
unit_size utf32be = 4
unit_size utf32le = 4
unit_size utf32 = 4
unit_size binary = 1

-- papuga_stringEncodingName
unfoldable pub string_encoding_name : StringEncoding → Text
string_encoding_name utf8 = b'U' ∷ b'T' ∷ b'F' ∷ b'-' ∷ b'8' ∷ []
string_encoding_name utf16be = b'U' ∷ b'T' ∷ b'F' ∷ b'-' ∷ b'1' ∷ b'6' ∷ b'B' ∷ b'E' ∷ []
string_encoding_name utf16le = b'U' ∷ b'T' ∷ b'F' ∷ b'-' ∷ b'1' ∷ b'6' ∷ b'L' ∷ b'E' ∷ []
string_encoding_name utf16 = b'U' ∷ b'T' ∷ b'F' ∷ b'-' ∷ b'1' ∷ b'6' ∷ []
string_encoding_name utf32be = b'U' ∷ b'T' ∷ b'F' ∷ b'-' ∷ b'3' ∷ b'2' ∷ b'B' ∷ b'E' ∷ []
string_encoding_name utf32le = b'U' ∷ b'T' ∷ b'F' ∷ b'-' ∷ b'3' ∷ b'2' ∷ b'L' ∷ b'E' ∷ []
string_encoding_name utf32 = b'U' ∷ b'T' ∷ b'F' ∷ b'-' ∷ b'3' ∷ b'2' ∷ []
string_encoding_name binary = b'B' ∷ b'i' ∷ b'n' ∷ b'a' ∷ b'r' ∷ b'y' ∷ []

-- The loop of papuga_getStringEncodingFromName, with the places left in its buffer: the name that it
-- compares, or none where it stops before the end.
unfoldable pub bare_name : ℕ → Text → Option Text
bare_name room [] = some []
bare_name room (c ∷ cs) =
    let ch = bit_or c 32 in
    let skipped = bare_name room cs in
    let taken = bare_name (room - 1) cs in
    if room == 0
    then none
    else if ch == b'-' || ch == b' '
    then skipped
    else if leb b'0' ch && leb ch b'9' || leb b'a' ch && leb ch b'z'
    then elim taken [ none ↦ none | some name ↦ some (ch ∷ name) ]
    else none

abbrev pub named_encoding : Text → Option StringEncoding
named_encoding buf =
    if text_eq buf (b'u' ∷ b't' ∷ b'f' ∷ b'8' ∷ [])
    then some utf8
    else if text_eq buf (b'u' ∷ b't' ∷ b'f' ∷ b'1' ∷ b'6' ∷ b'b' ∷ b'e' ∷ [])
    then some utf16be
    else if text_eq buf (b'u' ∷ b't' ∷ b'f' ∷ b'1' ∷ b'6' ∷ b'l' ∷ b'e' ∷ [])
    then some utf16le
    else if text_eq buf (b'u' ∷ b't' ∷ b'f' ∷ b'1' ∷ b'6' ∷ [])
    then some utf16
    else if text_eq buf (b'u' ∷ b't' ∷ b'f' ∷ b'3' ∷ b'2' ∷ b'b' ∷ b'e' ∷ [])
    then some utf32be
    else if text_eq buf (b'u' ∷ b't' ∷ b'f' ∷ b'3' ∷ b'2' ∷ b'l' ∷ b'e' ∷ [])
    then some utf32le
    else if text_eq buf (b'u' ∷ b't' ∷ b'f' ∷ b'3' ∷ b'2' ∷ [])
    then some utf32
    else if text_eq buf (b'b' ∷ b'i' ∷ b'n' ∷ b'a' ∷ b'r' ∷ b'y' ∷ [])
    then some binary
    else none

-- papuga_getStringEncodingFromName
unfoldable pub encoding_from_name : Text → Option StringEncoding
unfolding bare_name text_eq
encoding_from_name name = elim (bare_name 31 name) [ none ↦ none | some buf ↦ named_encoding buf ]

-- The name of an encoding is read as this encoding.
pub encoding_from_name-string_encoding_name :
    (encoding : StringEncoding) → encoding_from_name (string_encoding_name encoding) ≡ some encoding
unfolding encoding_from_name string_encoding_name
encoding_from_name-string_encoding_name utf8 = refl
encoding_from_name-string_encoding_name utf16be = refl
encoding_from_name-string_encoding_name utf16le = refl
encoding_from_name-string_encoding_name utf16 = refl
encoding_from_name-string_encoding_name utf32be = refl
encoding_from_name-string_encoding_name utf32le = refl
encoding_from_name-string_encoding_name utf32 = refl
encoding_from_name-string_encoding_name binary = refl
