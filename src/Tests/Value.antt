-- ===== src/Tests/Value.antt =====
-- Conversions of src/valueVariant.cpp on concrete strings, with a scanner that reads each byte as a
-- character, and with numbers of one digit.
use papuga.Prelude.{
  ◌+◌, ◌-◌, ◌≡◌, refl, true, false, ◌||◌, not, Option, none, some, [], ◌∷◌, leb, ◌==◌,
  if◌then◌else◌, length, take, arith,
}
use papuga.Prelude.Int.{ℤ, pos, pos_part, ltb_ℤ}
use papuga.Encoding.{utf8, utf16le, utf32le}
use papuga.Request.Description.Expression.{Text}
use papuga.Value.{Value, Textwolf, Numbers}
use papuga.Value.Numerals.{to_numstr, numeric_double, numeric_int}
use papuga.Value.Numerals.Automaton.{at_start, numeral_from, until_null, fitting}
use papuga.Value.Numerals.Language.{to_numstr_lem}
use papuga.Value.Ascii.{
  string_toascii, string_toascii_lem, ascii_overrun, ascii_null, ascii_text, is_utf8, all_ascii,
}
use papuga.Value.Convert.{value_toint, value_tonumeric, value_tobool}
use papuga.Value.Strings.{value_tostring_stl}
use papuga.Value.Blob.{Swaps, string_toblob, string_toblob-Swaps}
use papuga.Value.Decimals.{
  value_toint-value_tostring, value_toint-value_tonumeric, ShortString, int_of,
}

abbrev pub scanner : Textwolf
scanner = record {
  chars = λ enc s. s;
  asciis = λ enc s. s;
  print = λ enc c. c ∷ [];
  static_buffer = λ size s. if leb (length s) size then (s, false) else (take size s, true);
}

abbrev one_digit : Text → Option ℤ
one_digit [] = none
one_digit (c ∷ cs) = some (pos (c - b'0'))

abbrev pub numbers : Numbers
numbers = record {
  Float = ℤ;
  of_int = λ n. n;
  above_max = λ n. false;
  is_positive = λ n. ltb_ℤ (pos 0) n;
  cast_up = λ n. n;
  cast_down = λ n. n;
  is_nonzero = λ n. ltb_ℤ (pos 0) n;
  print_double = λ n. (pos_part n + b'0') ∷ [];
  print_int = λ n. (pos_part n + b'0') ∷ [];
  scan_double = one_digit;
  scan_int = one_digit;
  scan_short = one_digit;
  of_bool = λ b. if b then pos 1 else pos 0;
}

-- "-1.5e" is taken, and behind a null anything is ignored.
abbrev minus : Text
minus = b'-' ∷ b'1' ∷ b'.' ∷ b'5' ∷ b'e' ∷ []

to_numstr_run : to_numstr 64 minus ≡ some (numeric_double, minus)
unfolding to_numstr
to_numstr_run = refl

to_numstr_null_run : to_numstr 64 (b'7' ∷ 0 ∷ b'x' ∷ []) ≡ some (numeric_int, b'7' ∷ [])
unfolding to_numstr
to_numstr_null_run = refl

to_numstr_lem_example :
    to_numstr 5 minus ≡ fitting 5 [] (until_null minus) (numeral_from at_start (until_null minus))
to_numstr_lem_example = to_numstr_lem 5 minus

abbrev umlaut : Text
umlaut = b'a' ∷ 0xC3 ∷ 0xA4 ∷ []

string_toascii_run : string_toascii scanner 8 utf8 umlaut b'?' ≡ ascii_overrun
unfolding string_toascii
string_toascii_run = refl

string_toascii_lem_example : string_toascii scanner 8 utf8 umlaut b'?' ≡ (
    if not (is_utf8 utf8) || leb 8 (length umlaut)
    then ascii_null
    else if all_ascii umlaut
    then ascii_text umlaut
    else if b'?' == 0
    then ascii_null
    else ascii_overrun)
string_toascii_lem_example = string_toascii_lem scanner 8 utf8 umlaut b'?'

abbrev two_units : Text
two_units = b'a' ∷ 0 ∷ b'b' ∷ 0 ∷ []

string_toblob-Swaps_example :
    Swaps 2 two_units (string_toblob true utf16le two_units)
    × Swaps 4 two_units (string_toblob true utf32le two_units)
string_toblob-Swaps_example = string_toblob-Swaps two_units

value_toint-value_tostring_example :
    ((value_tostring_stl scanner numbers (Value.int (pos 7))).1 ≡ none)
    × (value_toint scanner numbers
          (Value.string utf8 ((value_tostring_stl scanner numbers (Value.int (pos 7))).0))
        ≡ (pos 7, none))
value_toint-value_tostring_example =
    value_toint-value_tostring scanner numbers (pos 7) refl (omega arith) refl refl

short_text : ShortString scanner numbers (Value.string utf8 (b'7' ∷ []))
unfolding until_null
short_text = λ cs e. refl

value_toint-value_tonumeric_example :
    value_toint scanner numbers (Value.string utf8 (b'7' ∷ []))
    ≡ int_of scanner numbers (value_tonumeric scanner numbers (Value.string utf8 (b'7' ∷ [])))
value_toint-value_tonumeric_example =
    value_toint-value_tonumeric scanner numbers (Value.string utf8 (b'7' ∷ [])) short_text

-- A string of another encoding is false without an error.
value_tobool_run :
    value_tobool scanner numbers 0 (Value.string utf16le (b'1' ∷ 0 ∷ [])) ≡ some (false, none)
unfolding value_tobool string_toascii
value_tobool_run = refl
