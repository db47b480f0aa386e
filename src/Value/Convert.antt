-- ===== src/Value/Convert.antt =====
-- The conversions of value variants in src/valueVariant.cpp. A result stands beside the error code that was
-- set, which is none where the caller's is left untouched.
use papuga.ErrorCode.{
  ErrorCode, type_error, value_undefined, atomic_value_expected, out_of_range_error,
  not_implemented, buffer_overflow_error,
}
use papuga.Prelude.{
  ℕ, Bool, true, false, ◌&&◌, ◌||◌, not, Option, none, some, List, [], ◌∷◌, ◌++◌, leb, ◌==◌,
  if◌then◌else◌, length, get_or, bit_or,
}
use papuga.Prelude.Int.{ℤ, pos, ltb_ℤ, pos_part}
use papuga.Encoding.{StringEncoding, utf8, utf16be, utf16le, utf16, utf32be, utf32le, utf32, binary}
use papuga.Request.Keys.{eqb_ℤ}
use papuga.Request.Description.Expression.{Text}
use papuga.Value.{
  Value, Number, as_double, as_int, as_bool, Kind, of_string, of_number, of_object, of_void, kind,
  Textwolf, Numbers,
}
use papuga.Value.Numerals.{NumericType, numeric_double, numeric_int, to_numstr}
use papuga.Value.Ascii.{AsciiResult, ascii_text, ascii_null, ascii_overrun, string_toascii}

abbrev pub Out : Type 0 → Type 0
Out A = A × Option ErrorCode

abbrev pub Filled : Type 0
Filled = Option Text × Option ℕ × Option ErrorCode

-- The charset that stands for an encoding: `IS_BIG_ENDIAN` is the compiler's constant
-- __ORDER_BIG_ENDIAN__, which is not 0 on any machine.
abbrev pub charset : StringEncoding → Option StringEncoding
charset utf8 = some utf8
charset utf16be = some utf16be
charset utf16le = some utf16le
charset utf16 = some utf16be
charset utf32be = some utf32be
charset utf32le = some utf32le
charset utf32 = some utf32be
charset binary = none

-- The characters that the loops of the conversions read.
unfoldable pub before_null : List ℕ → List ℕ
before_null [] = []
before_null (c ∷ cs) = if c == 0 then [] else c ∷ before_null cs

unfoldable pub printed : (ℕ → List ℕ) → List ℕ → List ℕ
printed print [] = []
printed print (c ∷ cs) = print c ++ printed print cs

unfoldable pub without_ffff : List ℕ → List ℕ
without_ffff [] = []
without_ffff (c ∷ cs) = if c == 0xFFFF then without_ffff cs else c ∷ without_ffff cs

module _ (tw : Textwolf) where
  -- uft8string_to_string_enc: the content of the buffer, the length that is stored, and the error.
  unfoldable pub utf8_to_enc : ℕ → StringEncoding → Text → Filled
  unfolding before_null printed without_ffff
  utf8_to_enc size enc str =
      let out =
        tw.static_buffer size
          (printed (tw.print enc) (without_ffff (before_null (tw.chars utf8 str)))) in
      if out.1
      then (none, some (length out.0), some buffer_overflow_error)
      else (some out.0, some (length out.0), none)

  -- uft8string_to_any_string_enc
  unfoldable pub utf8_to_any : ℕ → StringEncoding → Text → Filled
  unfolding utf8_to_enc
  utf8_to_any size enc str = elim (charset enc) [
    | none ↦ (none, none, some not_implemented)
    | some cs ↦ utf8_to_enc size cs str
  ]

  -- string_enc_to_uft8string_stl with any_string_enc_to_uft8string_stl
  unfoldable pub any_to_utf8 : StringEncoding → Text → Text
  unfolding before_null printed
  any_to_utf8 enc str = elim (charset enc) [
    | none ↦ []
    | some cs ↦ printed (tw.print utf8) (before_null (tw.chars cs str))
  ]

  module _ (nums : Numbers) where
    -- any_string_enc_tonumstr
    unfoldable pub any_tonumstr : ℕ → StringEncoding → Text → Option (NumericType × Text)
    any_tonumstr size enc str = elim (charset enc) [
      | none ↦ none
      | some cs ↦ to_numstr size (tw.asciis cs str)
    ]

    -- numstr_to_variant
    unfoldable pub numstr_to_variant : Option (NumericType × Text) → Option (Number nums.Float)
    numstr_to_variant none = none
    numstr_to_variant (some (numeric_double, t)) = elim (nums.scan_double t) [
      | none ↦ none
      | some x ↦ some (as_double x)
    ]
    numstr_to_variant (some (numeric_int, t)) = elim (nums.scan_int t) [
      | none ↦ none
      | some n ↦ some (as_int n)
    ]

    abbrev pub number_in : ℕ → StringEncoding → Text → Option (Number nums.Float)
    number_in size enc str = numstr_to_variant (any_tonumstr size enc str)

    -- papuga_ValueVariant_toint of a numeric variant.
    unfoldable pub number_toint : Number nums.Float → Out ℤ
    number_toint (as_int n) = (n, none)
    number_toint (as_bool b) = (if b then pos 1 else pos 0, none)
    number_toint (as_double x) =
        if nums.above_max x
        then (pos 0, some out_of_range_error)
        else (if nums.is_positive x then nums.cast_up x else nums.cast_down x, none)

    -- papuga_ValueVariant_toint, by the tests of the type.
    abbrev pub kind_toint : Kind nums.Float → Out ℤ
    kind_toint (of_number n) = number_toint n
    kind_toint (of_string enc str) = elim (number_in 256 enc str) [
      | none ↦ (pos 0, some type_error)
      | some n ↦ number_toint n
    ]
    kind_toint of_object = (pos 0, some atomic_value_expected)
    kind_toint of_void = (pos 0, some value_undefined)

    unfoldable pub value_toint : Value nums.Float → Out ℤ
    unfolding number_toint any_tonumstr numstr_to_variant kind
    value_toint v = kind_toint (kind v)

    -- papuga_ValueVariant_touint
    unfoldable pub value_touint : Value nums.Float → Out ℕ
    unfolding value_toint
    value_touint v =
        let r = value_toint v in
        if ltb_ℤ r.0 (pos 0) then (0, some type_error) else (pos_part r.0, r.1)

    -- papuga_ValueVariant_todouble
    unfoldable pub number_todouble : Number nums.Float → nums.Float
    number_todouble (as_double x) = x
    number_todouble (as_int n) = nums.of_int n
    number_todouble (as_bool b) = nums.of_bool b

    abbrev pub kind_todouble : Kind nums.Float → Out nums.Float
    kind_todouble (of_number n) = (number_todouble n, none)
    kind_todouble (of_string enc str) = elim (number_in 256 enc str) [
      | none ↦ (nums.of_int (pos 0), some type_error)
      | some n ↦ (number_todouble n, none)
    ]
    kind_todouble of_object = (nums.of_int (pos 0), some atomic_value_expected)
    kind_todouble of_void = (nums.of_int (pos 0), some value_undefined)

    unfoldable pub value_todouble : Value nums.Float → Out nums.Float
    unfolding number_todouble any_tonumstr numstr_to_variant kind
    value_todouble v = kind_todouble (kind v)

    -- papuga_ValueVariant_tonumeric: the numeric variant, or a null pointer.
    abbrev pub kind_tonumeric : Kind nums.Float → Out (Option (Number nums.Float))
    kind_tonumeric (of_number n) = (some n, none)
    kind_tonumeric (of_string enc str) = elim (number_in 64 enc str) [
      | none ↦ (none, some type_error)
      | some n ↦ (some n, none)
    ]
    kind_tonumeric of_object = (none, some atomic_value_expected)
    kind_tonumeric of_void = (none, some value_undefined)

    unfoldable pub value_tonumeric : Value nums.Float → Out (Option (Number nums.Float))
    unfolding any_tonumstr numstr_to_variant kind
    value_tonumeric v = kind_tonumeric (kind v)

    -- papuga_ValueVariant_tobool of a string; `stale` is what the buffer held in its second place.
    unfoldable pub text_tobool : ℕ → Text → Out Bool
    text_tobool stale t =
        let c = get_or t 0 0 in
        let single = get_or (t ++ (0 ∷ [])) 1 stale == 0 in
        let low = bit_or c 32 in
        if single && (c == b'1' || low == b'y' || low == b't')
        then (true, none)
        else if single && (c == b'0' || low == b'n' || low == b'f')
        then (false, none)
        else elim (nums.scan_short t) [
          | none ↦ (false, some type_error)
          | some n ↦ (not (eqb_ℤ n (pos 0)), none)
        ]

    unfoldable pub number_tobool : Number nums.Float → Bool
    number_tobool (as_int n) = not (eqb_ℤ n (pos 0))
    number_tobool (as_bool b) = b
    number_tobool (as_double x) = nums.is_nonzero x

    -- papuga_ValueVariant_tobool; `none` is a write behind its buffer.
    abbrev pub ascii_tobool : ℕ → AsciiResult → Option (Out Bool)
    ascii_tobool stale ascii_null = some (false, none)
    ascii_tobool stale (ascii_text t) = some (text_tobool stale t)
    ascii_tobool stale ascii_overrun = none

    abbrev pub kind_tobool : ℕ → Kind nums.Float → Option (Out Bool)
    kind_tobool stale (of_number n) = some (number_tobool n, none)
    kind_tobool stale (of_string enc str) = ascii_tobool stale (string_toascii tw 256 enc str 0)
    kind_tobool stale of_object = some (false, some atomic_value_expected)
    kind_tobool stale of_void = some (false, some value_undefined)

    unfoldable pub value_tobool : ℕ → Value nums.Float → Option (Out Bool)
    unfolding text_tobool number_tobool kind
    value_tobool stale v = kind_tobool stale (kind v)

    -- bufprint_number_variant
    abbrev pub number_text : Number nums.Float → Text
    number_text (as_double x) = nums.print_double x
    number_text (as_int n) = nums.print_int n
    number_text (as_bool b) = (if b then b'1' else b'0') ∷ []

    unfoldable pub bufprint_number : ℕ → Number nums.Float → Out (Option Text)
    bufprint_number size n =
        if leb size (length (number_text n))
        then (none, some buffer_overflow_error)
        else (some (number_text n), none)
