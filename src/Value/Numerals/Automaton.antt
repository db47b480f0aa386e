-- ===== src/Value/Numerals/Automaton.antt =====
-- A finite automaton for the numerals of string_enc_tonumstr in src/valueVariant.cpp.
use mathlib.Core.List.{append-nil, append_assoc}
use papuga.Prelude.{
  ℕ, ◌+◌, ◌≡◌, refl, sym, true, false, ◌||◌, Option, none, some, [], ◌∷◌, ◌++◌, ltb, leb, ◌==◌,
  if◌then◌else◌, length, arith, length-append,
}
use papuga.Request.Description.Expression.{Text}
use papuga.Value.Numerals.{
  NumericType, numeric_double, numeric_int, is_digit_char, is_exponent_char, finish,
}

-- The numerals by a finite automaton.
pub data NumeralState : Type 0 where
  at_start behind_sign in_int in_fraction behind_letter in_exponent : NumeralState

unfoldable pub numeral_step : NumeralState → ℕ → Option NumeralState
numeral_step at_start c =
    if c == b'-' then some behind_sign else if is_digit_char c then some in_int else none
numeral_step behind_sign c = if is_digit_char c then some in_int else none
numeral_step in_int c =
    if c == b'.'
    then some in_fraction
    else if is_digit_char c
    then some in_int
    else if is_exponent_char c
    then some behind_letter
    else none
numeral_step in_fraction c =
    if is_digit_char c
    then some in_fraction
    else if is_exponent_char c
    then some behind_letter
    else none
numeral_step behind_letter c =
    if c == b'-' || c == b'+'
    then some in_exponent
    else if is_digit_char c
    then some in_exponent
    else none
numeral_step in_exponent c = if is_digit_char c then some in_exponent else none

-- What the numeral is behind a text without a null: `.` joins fraction and exponent to doubles.
abbrev pub numeral_end : NumeralState → Option NumericType
numeral_end at_start = none
numeral_end behind_sign = none
numeral_end in_int = some numeric_int
numeral_end in_fraction = some numeric_double
numeral_end behind_letter = some numeric_double
numeral_end in_exponent = some numeric_double

unfoldable pub numeral_from : NumeralState → Text → Option NumericType
numeral_from s [] = numeral_end s
numeral_from s (c ∷ cs) = elim (numeral_step s c) [ none ↦ none | some next ↦ numeral_from next cs ]

-- The text up to the first null.
unfoldable pub until_null : Text → Text
until_null [] = []
until_null (c ∷ cs) = if c == 0 then [] else c ∷ until_null cs

-- A numeral is taken if it fits the buffer with a null byte.
abbrev pub fitting : ℕ → Text → Text → Option NumericType → Option (NumericType × Text)
fitting size dest t none = none
fitting size dest t (some k) =
    if ltb (length dest + length t) size then some (k, dest ++ t) else none

pub finish_end :
    (size : ℕ) (k : NumericType) (dest : Text)
    → finish size k dest 0 ≡ fitting size dest [] (some k)
unfolding finish
finish_end size k dest = rw (append-nil dest) (ground arith)

pub finish_before :
    (size : ℕ) (k : NumericType) (dest : Text) (c : ℕ)
    → (c == 0) ≡ false
    → finish size k dest c ≡ none
unfolding finish
finish_before size k dest c h = rw h

pub finish_full :
    (size : ℕ) (k : NumericType) (dest : Text) (c : ℕ)
    → leb size (length dest) ≡ true
    → finish size k dest c ≡ none
unfolding finish
finish_full size k dest c h = ground arith

pub fitting_cons :
    (size c : ℕ) (dest t : Text) (k : Option NumericType)
    → fitting size (dest ++ (c ∷ [])) t k ≡ fitting size dest (c ∷ t) k
fitting_cons size c dest t none = refl
fitting_cons size c dest t (some k) =
    rw (append_assoc dest (c ∷ []) t) (ground (arith, length-append dest (c ∷ [])))

pub fitting_full :
    (size c : ℕ) (dest t : Text) (k : Option NumericType)
    → leb size (length dest) ≡ true
    → fitting size dest (c ∷ t) k ≡ none
fitting_full size c dest t none h = refl
fitting_full size c dest t (some k) h = ground arith

-- What a part of the function gives from a state of the automaton.
abbrev pub numeral_result : ℕ → Text → NumeralState → Text → Option (NumericType × Text)
numeral_result size dest s l = fitting size dest (until_null l) (numeral_from s (until_null l))

-- A byte that is not null and for which the buffer has room.
pub numeral_result_stepped :
    (size c : ℕ) (dest : Text) (s next : NumeralState) (cs : Text)
    → (c == 0) ≡ false
    → numeral_step s c ≡ some next
    → numeral_result size (dest ++ (c ∷ [])) next cs ≡ numeral_result size dest s (c ∷ cs)
unfolding until_null numeral_from
numeral_result_stepped size c dest s next cs n e = rw n (
    rw (e, numeral_from)
      (fitting_cons size c dest (until_null cs) (numeral_from next (until_null cs))))

pub numeral_result-none :
    (size c : ℕ) (dest : Text) (s : NumeralState) (cs : Text)
    → (c == 0) ≡ false
    → numeral_step s c ≡ none
    → none ≡ numeral_result size dest s (c ∷ cs)
unfolding until_null numeral_from
numeral_result-none size c dest s cs n e = rw n (rw (e, numeral_from))

pub numeral_result_at_null :
    (size c : ℕ) (dest : Text) (s : NumeralState) (cs : Text)
    → (c == 0) ≡ true
    → fitting size dest [] (numeral_end s) ≡ numeral_result size dest s (c ∷ cs)
unfolding until_null numeral_from
numeral_result_at_null size c dest s cs z = rw z

pub numeral_result_when_full :
    (size c : ℕ) (dest : Text) (s : NumeralState) (cs : Text)
    → (c == 0) ≡ false
    → leb size (length dest) ≡ true
    → none ≡ numeral_result size dest s (c ∷ cs)
unfolding until_null
numeral_result_when_full size c dest s cs n h =
    rw n (sym (fitting_full size c dest (until_null cs) (numeral_from s (c ∷ until_null cs)) h))

pub finish_null :
    (size : ℕ) (k : NumericType) (dest : Text) (c : ℕ)
    → (c == 0) ≡ true
    → finish size k dest c ≡ fitting size dest [] (some k)
finish_null size k dest c z = let e : c ≡ 0 = ground arith in rw e (finish_end size k dest)
