-- ===== src/Value/Decimals.antt =====
-- Numbers as texts and back, by the conversions of src/valueVariant.cpp.
use papuga.ErrorCode.{type_error, buffer_overflow_error}
use papuga.Prelude.{
  ℕ, ◌+◌, ◌≤◌, ◌<◌, ◌≡◌, refl, ap, sym, ◌∙◌, inl, inr, Bool, true, false, ◌&&◌, ◌||◌, Option, none,
  some, [], ◌∷◌, ltb, leb, ◌==◌, length, arith, Bool-cases,
}
use papuga.Prelude.Int.{ℤ, pos}
use papuga.Encoding.{StringEncoding, utf8, utf16be, utf16le, utf16, utf32be, utf32le, utf32, binary}
use papuga.Request.Description.Expression.{Text}
use papuga.Value.Strings.{value_tostring_stl}
use papuga.Value.{Value, Number, as_int, Textwolf, Numbers, kind}
use papuga.Value.Numerals.{NumericType, numeric_int, is_digit_char, to_numstr}
use papuga.Value.Numerals.Automaton.{
  at_start, behind_sign, in_int, numeral_step, numeral_from, until_null, fitting,
}
use papuga.Value.Numerals.Language.{to_numstr_lem}
use papuga.Value.Convert.{
  Out, charset, any_tonumstr, numstr_to_variant, number_in, number_toint, value_toint,
  value_tonumeric, bufprint_number,
}

-- A text of digits, and one with a minus sign in front or not.
abbrev pub all_digits : Text → Bool
all_digits [] = true
all_digits (c ∷ cs) = is_digit_char c && all_digits cs

abbrev pub is_decimal : Text → Bool
is_decimal [] = false
is_decimal (c ∷ []) = is_digit_char c
is_decimal (c ∷ d ∷ cs) = (c == b'-' || is_digit_char c) && (is_digit_char d && all_digits cs)

digit_step : (c : ℕ) → is_digit_char c ≡ true → numeral_step in_int c ≡ some in_int
unfolding numeral_step
digit_step c d = let no_point : (c == b'.') ≡ false = ground arith in rw no_point (rw d)

digits_from : (cs : Text) → all_digits cs ≡ true → numeral_from in_int cs ≡ some numeric_int
unfolding numeral_from
digits_from [] h = refl
digits_from (c ∷ cs) h =
    let d : is_digit_char c ≡ true = ground arith in
    rw (digit_step c d, numeral_from) (digits_from cs (ground arith))

digits_null : (cs : Text) → all_digits cs ≡ true → until_null cs ≡ cs
unfolding until_null
digits_null [] h = refl
digits_null (c ∷ cs) h =
    let n : (c == 0) ≡ false = ground arith in
    rw n (ap (λ (t : Text). c ∷ t) (digits_null cs (ground arith)))

decimal_null : (t : Text) → is_decimal t ≡ true → until_null t ≡ t
unfolding until_null
decimal_null [] h = refl
decimal_null (c ∷ []) h = let n : (c == 0) ≡ false = ground arith in rw n
decimal_null (c ∷ d ∷ cs) h =
    let n : (c == 0) ≡ false = ground arith in
    let m : (d == 0) ≡ false = ground arith in
    rw n (rw m (ap (λ (t : Text). c ∷ d ∷ t) (digits_null cs (ground arith))))

start_digit : (c : ℕ) → is_digit_char c ≡ true → numeral_step at_start c ≡ some in_int
unfolding numeral_step
start_digit c d = let no_sign : (c == b'-') ≡ false = ground arith in rw no_sign (rw d)

decimal_numeral : (t : Text) → is_decimal t ≡ true → numeral_from at_start t ≡ some numeric_int
unfolding numeral_from
decimal_numeral [] h = cc
decimal_numeral (c ∷ []) h = rw (start_digit c h, numeral_from)
decimal_numeral (c ∷ d ∷ cs) h =
    let second : is_digit_char d ≡ true = ground arith in
    let others : all_digits cs ≡ true = ground arith in
    elim (Bool-cases (c == b'-')) [
      | inl m ↦
          let sign : numeral_step at_start c ≡ some behind_sign = unfold numeral_step in rw m in
          let after : numeral_step behind_sign d ≡ some in_int = unfold numeral_step in rw second in
          rw (sign, numeral_from) (rw (after, numeral_from) (digits_from cs others))
      | inr m ↦
          let lead : is_digit_char c ≡ true = ground arith in
          rw (start_digit c lead, numeral_from)
            (rw (digit_step d second, numeral_from) (digits_from cs others))
    ]

decimal_numstr :
    (size : ℕ) (t : Text)
    → is_decimal t ≡ true
    → length t < size
    → to_numstr size t ≡ some (numeric_int, t)
decimal_numstr size t h lt =
    to_numstr_lem size t
    ∙ rw (decimal_null t h) (
        rw (decimal_numeral t h)
          (let fits : ltb (0 + length t) size ≡ true = ground arith in rw fits))

module _ (tw : Textwolf) (nums : Numbers) where
  printed_int :
      (n : ℤ)
      → length (nums.print_int n) ≤ 20
      → value_tostring_stl tw nums (Value.int n) ≡ (nums.print_int n, none)
  unfolding value_tostring_stl bufprint_number
  printed_int n le =
      let fits : leb 256 (length (nums.print_int n)) ≡ false = ground arith in
      ap
        (λ (o : Option Text). elim o as (λ x. Out Text) [
          | none ↦ ([], some buffer_overflow_error)
          | some t ↦ (t, none)
        ])
        (let e : bufprint_number tw nums 256 (as_int n) ≡ (some (nums.print_int n), none) =
            rw fits in
          ap (λ (r : Out (Option Text)). r.0) e)

  read_int :
      (n : ℤ) (t : Text)
      → is_decimal t ≡ true
      → length t ≤ 20
      → nums.scan_int t ≡ some n
      → tw.asciis utf8 t ≡ t
      → value_toint tw nums (Value.string utf8 t) ≡ (n, none)
  unfolding value_toint any_tonumstr number_toint
  read_int n t d le sc ascii =
      let numstr : any_tonumstr tw nums 256 utf8 t ≡ some (numeric_int, t) =
        rw ascii (decimal_numstr 256 t d (omega arith)) in
      let read : numstr_to_variant tw nums (any_tonumstr tw nums 256 utf8 t) ≡ some (as_int n) =
        rw numstr (rw (sc, numstr_to_variant)) in
      ap
        (λ (o : Option (Number nums.Float)). elim o as (λ x. Out ℤ) [
          | none ↦ (pos 0, some type_error)
          | some k ↦ number_toint tw nums k
        ])
        read

  -- An integer that the C library prints as a decimal number of at most 20 characters and scans back, and
  -- whose text the scanner of textwolf reads as it is: the text that papuga::ValueVariant_tostring gives for
  -- it is one that papuga_ValueVariant_toint takes back to it.
  pub value_toint-value_tostring :
      (n : ℤ)
      → is_decimal (nums.print_int n) ≡ true
      → length (nums.print_int n) ≤ 20
      → nums.scan_int (nums.print_int n) ≡ some n
      → tw.asciis utf8 (nums.print_int n) ≡ nums.print_int n
      → ((value_tostring_stl tw nums (Value.int n)).1 ≡ none)
        × (value_toint tw nums (Value.string utf8 ((value_tostring_stl tw nums (Value.int n)).0))
            ≡ (n, none))
  value_toint-value_tostring n d le sc ascii =
      rw (printed_int n le) (refl, read_int n (nums.print_int n) d le sc ascii)

  -- What papuga_ValueVariant_toint gives for what papuga_ValueVariant_tonumeric gives.
  abbrev pub int_of : Out (Option (Number nums.Float)) → Out ℤ
  int_of (none, code) = (pos 0, code)
  int_of (some n, code) = number_toint tw nums n

  -- A text of less than 64 characters up to its first null character.
  abbrev pub is_short : Text → Bool
  is_short l = ltb (length (until_null l)) 64

  -- Within both buffers the text of a number is the same.
  same_numstr : (l : Text) → is_short l ≡ true → to_numstr 64 l ≡ to_numstr 256 l
  same_numstr l h =
      to_numstr_lem 64 l
      ∙ (same_fitting (until_null l) (numeral_from at_start (until_null l)) (ground arith)
          ∙ sym (to_numstr_lem 256 l))
    where
      same_fitting :
          (t : Text) (k : Option NumericType)
          → length t < 64
          → fitting 64 [] t k ≡ fitting 256 [] t k
      same_fitting t none lt = refl
      same_fitting t (some k) lt = ground arith

  abbrev pub ShortString : Value nums.Float → Type 0
  ShortString (Value.string enc str) =
      (cs : StringEncoding) → charset enc ≡ some cs → is_short (tw.asciis cs str) ≡ true
  ShortString _ = Unit {0}

  same_number :
      (enc : StringEncoding) (str : Text)
      → ShortString (Value.string enc str)
      → number_in tw nums 64 enc str ≡ number_in tw nums 256 enc str
  unfolding any_tonumstr
  same_number utf8 str h =
      ap (numstr_to_variant tw nums) (same_numstr (tw.asciis utf8 str) (h utf8 refl))
  same_number utf16be str h =
      ap (numstr_to_variant tw nums) (same_numstr (tw.asciis utf16be str) (h utf16be refl))
  same_number utf16le str h =
      ap (numstr_to_variant tw nums) (same_numstr (tw.asciis utf16le str) (h utf16le refl))
  same_number utf16 str h =
      ap (numstr_to_variant tw nums) (same_numstr (tw.asciis utf16be str) (h utf16be refl))
  same_number utf32be str h =
      ap (numstr_to_variant tw nums) (same_numstr (tw.asciis utf32be str) (h utf32be refl))
  same_number utf32le str h =
      ap (numstr_to_variant tw nums) (same_numstr (tw.asciis utf32le str) (h utf32le refl))
  same_number utf32 str h =
      ap (numstr_to_variant tw nums) (same_numstr (tw.asciis utf32be str) (h utf32be refl))
  same_number binary str h = refl

  agree :
      (o : Option (Number nums.Float))
      → elim o as (λ x. Out ℤ) [ none ↦ (pos 0, some type_error) | some n ↦ number_toint tw nums n ]
        ≡ int_of (elim o [ none ↦ (none, some type_error) | some n ↦ (some n, none) ])
  agree none = refl
  agree (some n) = refl

  -- papuga_ValueVariant_toint and papuga_ValueVariant_tonumeric agree, but for strings with 64 and more
  -- characters up to the first null character.
  pub value_toint-value_tonumeric :
      (v : Value nums.Float)
      → ShortString v
      → value_toint tw nums v ≡ int_of (value_tonumeric tw nums v)
  unfolding value_toint value_tonumeric kind
  value_toint-value_tonumeric Value.void h = refl
  value_toint-value_tonumeric (Value.double x) h = refl
  value_toint-value_tonumeric (Value.int n) h = refl
  value_toint-value_tonumeric (Value.bool b) h = refl
  value_toint-value_tonumeric (Value.string enc str) h =
      sym (
        ap
          (λ (o : Option (Number nums.Float)). elim o as (λ x. Out ℤ) [
            | none ↦ (pos 0, some type_error)
            | some n ↦ number_toint tw nums n
          ])
          (same_number enc str h))
      ∙ agree (number_in tw nums 64 enc str)
  value_toint-value_tonumeric (Value.host_object p) h = refl
  value_toint-value_tonumeric (Value.serialization p) h = refl
  value_toint-value_tonumeric (Value.iterator p) h = refl
