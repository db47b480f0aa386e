-- ===== src/Value/Strings.antt =====
-- The conversions of value variants to strings in src/valueVariant.cpp.
use papuga.ErrorCode.{
  ErrorCode, type_error, value_undefined, not_implemented, buffer_overflow_error, no_mem_error,
}
use papuga.Prelude.{
  ℕ, ◌+◌, ◌-◌, ◌*◌, ◌≡◌, refl, Bool, true, false, Option, none, some, [], ◌++◌, leb, ◌==◌,
  if◌then◌else◌, length, replicate,
}
use papuga.Encoding.{
  StringEncoding, utf8, utf16be, utf16le, utf16, utf32be, utf32le, utf32, binary, unit_size,
}
use papuga.Request.Description.Expression.{Text}
use papuga.Value.{Value, Kind, of_string, of_number, of_object, of_void, kind, Textwolf, Numbers}
use papuga.Value.Ascii.{AsciiResult, ascii_text, ascii_null, string_toascii, is_utf8}
use papuga.Value.Convert.{Out, Filled, utf8_to_any, any_to_utf8, bufprint_number, number_text}

abbrev pub same_encoding : StringEncoding → StringEncoding → Bool
same_encoding utf8 utf8 = true
same_encoding utf16be utf16be = true
same_encoding utf16le utf16le = true
same_encoding utf16 utf16 = true
same_encoding utf32be utf32be = true
same_encoding utf32le utf32le = true
same_encoding utf32 utf32 = true
same_encoding binary binary = true
same_encoding _ _ = false

abbrev pub is_binary_enc : StringEncoding → Bool
is_binary_enc binary = true
is_binary_enc _ = false

module _ (tw : Textwolf) (nums : Numbers) where
  -- papuga_ValueVariant_toascii
  abbrev pub kind_toascii : ℕ → ℕ → Kind nums.Float → AsciiResult
  kind_toascii size subst (of_string enc str) = string_toascii tw size enc str subst
  kind_toascii size subst (of_number n) =
      if size == 0 then ascii_null else elim ((bufprint_number tw nums (size - 1) n).0) [
        | none ↦ ascii_null
        | some t ↦ ascii_text t
      ]
  kind_toascii size subst of_object = ascii_null
  kind_toascii size subst of_void = if size == 0 then ascii_null else ascii_text []

  unfoldable pub value_toascii : ℕ → ℕ → Value nums.Float → AsciiResult
  unfolding kind bufprint_number string_toascii
  value_toascii size subst v = kind_toascii size subst (kind v)

  -- papuga_ValueVariant_tostring: the string, the length that is stored, and the error. `has_room` is whether
  -- papuga_Allocator_copy_string can have the memory for a string.
  abbrev pub kind_tostring : (Text → Bool) → Kind nums.Float → Filled
  kind_tostring has_room (of_string enc str) =
      if is_utf8 enc
      then (some str, some (length str), none)
      else if is_binary_enc enc
      then (some str, some (length str), none)
      else if has_room (any_to_utf8 tw enc str)
      then (some (any_to_utf8 tw enc str), none, none)
      else (none, none, none)
  kind_tostring has_room (of_number n) = elim ((bufprint_number tw nums 256 n).0) [
    | none ↦ (none, some (length (number_text tw nums n)), some buffer_overflow_error)
    | some t ↦
        if has_room t
        then (some t, some (length t), none)
        else (none, some (length t), some no_mem_error)
  ]
  kind_tostring has_room of_object = (none, none, some type_error)
  kind_tostring has_room of_void = (none, none, some value_undefined)

  unfoldable pub value_tostring : (Text → Bool) → Value nums.Float → Filled
  unfolding kind bufprint_number any_to_utf8
  value_tostring has_room v = kind_tostring has_room (kind v)

  -- papuga::ValueVariant_tostring
  abbrev pub kind_tostring_stl : Kind nums.Float → Out Text
  kind_tostring_stl (of_string enc str) =
      if is_utf8 enc
      then (str, none)
      else if is_binary_enc enc
      then ([], some type_error)
      else (any_to_utf8 tw enc str, none)
  kind_tostring_stl (of_number n) = elim ((bufprint_number tw nums 256 n).0) [
    | none ↦ ([], some buffer_overflow_error)
    | some t ↦ (t, none)
  ]
  kind_tostring_stl of_object = ([], some type_error)
  kind_tostring_stl of_void = ([], some value_undefined)

  unfoldable pub value_tostring_stl : Value nums.Float → Out Text
  unfolding kind bufprint_number any_to_utf8
  value_tostring_stl v = kind_tostring_stl (kind v)

  -- papuga_ValueVariant_tostring_enc
  unfoldable pub string_toenc : StringEncoding → ℕ → StringEncoding → Text → Filled
  unfolding utf8_to_any unit_size
  string_toenc enc size encoding str =
      if is_utf8 encoding
      then utf8_to_any tw size enc str
      else if same_encoding enc encoding
      then if leb (length str + unit_size enc) size
        then (some (str ++ replicate (unit_size enc) 0), none, none)
        else (none, none, some buffer_overflow_error)
      else (none, none, some not_implemented)

  abbrev pub kind_tostring_enc : StringEncoding → ℕ → Kind nums.Float → Filled
  kind_tostring_enc enc size (of_string encoding str) = string_toenc enc size encoding str
  kind_tostring_enc enc size (of_number n) = elim ((bufprint_number tw nums 256 n).0) [
    | none ↦ (none, none, some buffer_overflow_error)
    | some t ↦ utf8_to_any tw size enc t
  ]
  kind_tostring_enc enc size of_object = (none, none, some type_error)
  kind_tostring_enc enc size of_void = (none, none, some value_undefined)

  unfoldable pub value_tostring_enc : StringEncoding → ℕ → Value nums.Float → Filled
  unfolding string_toenc kind bufprint_number
  value_tostring_enc enc size v = kind_tostring_enc enc size (kind v)

  -- papuga::ValueVariant_append_string: success, the string, and the error. The pointer that is given to
  -- papuga_ValueVariant_tostring_enc is the end of the string, so anything that it puts there is a write
  -- behind the string: `none`.
  abbrev pub kind_append : Text → Kind nums.Float → Option (Bool × Text × Option ErrorCode)
  kind_append dest (of_string encoding str) =
      if is_utf8 encoding
      then some (true, dest ++ str, none)
      else let r = string_toenc utf8 (length str * 6 + unit_size encoding) encoding str in
        elim (r.0) [ some t ↦ none | none ↦ some (false, dest, r.2) ]
  kind_append dest (of_number n) = elim ((bufprint_number tw nums 256 n).0) [
    | none ↦ some (false, dest, some buffer_overflow_error)
    | some t ↦ some (true, dest ++ t, none)
  ]
  kind_append dest of_object = some (true, dest, some type_error)
  kind_append dest of_void = some (false, dest, some value_undefined)

  unfoldable pub append_string : Text → Value nums.Float → Option (Bool × Text × Option ErrorCode)
  unfolding string_toenc kind bufprint_number
  append_string dest v = kind_append dest (kind v)

  -- A string of another encoding than UTF-8 is never appended: the conversion to UTF-8 is not implemented.
  pub append_string-other :
      (dest : Text) (encoding : StringEncoding) (str : Text)
      → is_utf8 encoding ≡ false
      → append_string dest (Value.string encoding str) ≡ some (false, dest, some not_implemented)
  unfolding append_string string_toenc kind
  append_string-other dest utf8 str h = cc
  append_string-other dest utf16be str h = refl
  append_string-other dest utf16le str h = refl
  append_string-other dest utf16 str h = refl
  append_string-other dest utf32be str h = refl
  append_string-other dest utf32le str h = refl
  append_string-other dest utf32 str h = refl
  append_string-other dest binary str h = refl
