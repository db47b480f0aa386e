-- ===== src/Value/Numerals.antt =====
-- string_enc_tonumstr of src/valueVariant.cpp, which copies the text of a number into a buffer. A text is
-- the list of what `ascii()` gives for its characters; behind its end that is 0.
pub mod Automaton
pub mod Language
use papuga.Prelude.{
  ℕ, zero, suc, ◌+◌, ◌≤◌, ◌<◌, ◌≡◌, refl, ap, ◌∙◌, inl, inr, Bool, true, false, ◌&&◌, ◌||◌, not,
  Option, none, some, List, [], ◌∷◌, ◌++◌, ltb, leb, ◌==◌, if◌then◌else◌, length, bit_or, arith,
  Bool-cases, length-append,
}
use papuga.Request.Description.Expression.{Text}

-- NumericType; NumericNone is `none`.
pub data NumericType : Type 0 where
  numeric_double numeric_int : NumericType

abbrev pub is_digit_char : ℕ → Bool
is_digit_char chr = leb b'0' chr && leb chr b'9'

abbrev pub is_exponent_char : ℕ → Bool
is_exponent_char chr = bit_or chr 32 == b'e'

-- The end of string_enc_tonumstr, with the last character seen.
unfoldable pub finish : ℕ → NumericType → Text → ℕ → Option (NumericType × Text)
finish size t dest chr = if not (chr == 0) || leb size (length dest) then none else some (t, dest)

-- The loop over the digits of an exponent, and the end.
unfoldable pub exponent_digits : ℕ → Text → Text → Option (NumericType × Text)
unfolding finish
exponent_digits size dest [] = finish size numeric_double dest 0
exponent_digits size dest (c ∷ cs) =
    elim (not (c == 0) && (ltb (length dest) size && is_digit_char c)) [
      | true ↦ exponent_digits size (dest ++ (c ∷ [])) cs
      | false ↦ finish size numeric_double dest c
    ]

-- An exponent behind its letter.
unfoldable pub exponent : ℕ → Text → Text → Option (NumericType × Text)
unfolding exponent_digits
exponent size dest [] = exponent_digits size dest []
exponent size dest (c ∷ cs) =
    if ltb (length dest) size && (c == b'-' || c == b'+')
    then exponent_digits size (dest ++ (c ∷ [])) cs
    else exponent_digits size dest (c ∷ cs)

abbrev pub type_of : Bool → NumericType
type_of true = numeric_double
type_of false = numeric_int

-- The loop over the digits and the point, and what follows it.
unfoldable pub mantissa : ℕ → Bool → Text → Text → Option (NumericType × Text)
unfolding finish exponent
mantissa size is_double dest [] = finish size (type_of is_double) dest 0
mantissa size is_double dest (c ∷ cs) = elim (c == 0 || leb size (length dest)) [
  | true ↦ finish size (type_of is_double) dest c
  | false ↦ elim (c == b'.') [
    | true ↦ elim is_double [ true ↦ none | false ↦ mantissa size true (dest ++ (c ∷ [])) cs ]
    | false ↦ elim (is_digit_char c) [
      | true ↦ mantissa size is_double (dest ++ (c ∷ [])) cs
      | false ↦ elim (is_exponent_char c) [
        | true ↦ exponent size (dest ++ (c ∷ [])) cs
        | false ↦ finish size (type_of is_double) dest c
      ]
    ]
  ]
]

-- Behind a minus sign.
unfoldable pub signed : ℕ → Text → Option (NumericType × Text)
unfolding mantissa
signed size [] = none
signed size (c ∷ cs) = if is_digit_char c then mantissa size false (b'-' ∷ c ∷ []) cs else none

-- string_enc_tonumstr
unfoldable pub to_numstr : ℕ → Text → Option (NumericType × Text)
unfolding signed mantissa
to_numstr size [] = none
to_numstr size (c ∷ cs) =
    if c == 0 || ltb size 2
    then none
    else if c == b'-'
    then signed size cs
    else if is_digit_char c
    then mantissa size false (c ∷ []) cs
    else none
