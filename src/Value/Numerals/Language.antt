-- ===== src/Value/Numerals/Language.antt =====
-- The language of string_enc_tonumstr in src/valueVariant.cpp.
use papuga.Prelude.{
  ℕ, ◌≡◌, refl, ap, sym, ◌∙◌, inl, inr, Bool, true, false, ◌||◌, Option, none, some, [], ◌∷◌, ◌++◌,
  ltb, leb, ◌==◌, length, arith, Bool-cases,
}
use papuga.Request.Description.Expression.{Text}
use papuga.Value.Numerals.{
  NumericType, numeric_double, numeric_int, is_digit_char, is_exponent_char, exponent_digits,
  exponent, type_of, mantissa, signed, to_numstr,
}
use papuga.Value.Numerals.Automaton.{
  NumeralState, at_start, behind_sign, in_int, in_fraction, behind_letter, in_exponent,
  numeral_step, numeral_end, numeral_from, until_null, fitting, finish_end, finish_before,
  numeral_result, numeral_result_stepped, numeral_result-none, numeral_result_at_null,
  numeral_result_when_full, finish_null,
}

exponent_digits_lem :
    (size : ℕ) (dest l : Text)
    → exponent_digits size dest l ≡ numeral_result size dest in_exponent l
unfolding exponent_digits
exponent_digits_lem size dest [] =
    unfold until_null numeral_from in finish_end size numeric_double dest
exponent_digits_lem size dest (c ∷ cs) = elim (Bool-cases (c == 0)) [
  | inl z ↦
      rw (z, exponent_digits)
        (finish_null size numeric_double dest c z
          ∙ numeral_result_at_null size c dest in_exponent cs z)
  | inr n ↦ elim (Bool-cases (leb size (length dest))) [
    | inl full ↦
        let no_room : ltb (length dest) size ≡ false = ground arith in
        rw (n, no_room, exponent_digits)
          (finish_before size numeric_double dest c n
            ∙ numeral_result_when_full size c dest in_exponent cs n full)
    | inr fits ↦
        let room : ltb (length dest) size ≡ true = ground arith in
        elim (Bool-cases (is_digit_char c)) [
          | inl d ↦
              rw (n, room, d, exponent_digits)
                (exponent_digits_lem size (dest ++ (c ∷ [])) cs
                  ∙ numeral_result_stepped size c dest in_exponent in_exponent cs n
                      (unfold numeral_step in rw d))
          | inr d ↦
              rw (n, room, d, exponent_digits)
                (finish_before size numeric_double dest c n
                  ∙ numeral_result-none size c dest in_exponent cs n (unfold numeral_step in rw d))
        ]
  ]
]

-- Without a sign an exponent is read as its digits are.
numeral_result_same :
    (size c : ℕ) (dest : Text) (cs : Text)
    → numeral_step behind_letter c ≡ numeral_step in_exponent c
    → numeral_result size dest in_exponent (c ∷ cs)
      ≡ numeral_result size dest behind_letter (c ∷ cs)
numeral_result_same size c dest cs e = elim (Bool-cases (c == 0)) [
  | inl z ↦
      sym (numeral_result_at_null size c dest in_exponent cs z)
      ∙ numeral_result_at_null size c dest behind_letter cs z
  | inr n ↦ unfold until_null numeral_from in rw n (rw (e, numeral_from))
]

exponent_lem :
    (size : ℕ) (dest l : Text) → exponent size dest l ≡ numeral_result size dest behind_letter l
unfolding exponent
exponent_lem size dest [] =
    exponent_digits_lem size dest [] ∙ unfold until_null numeral_from in refl
exponent_lem size dest (c ∷ cs) = elim (Bool-cases (c == b'-' || c == b'+')) [
  | inr d ↦
      rw (d, exponent) (ground arith)
      ∙ (exponent_digits_lem size dest (c ∷ cs)
          ∙ numeral_result_same size c dest cs (unfold numeral_step in rw d))
  | inl d ↦
      let n : (c == 0) ≡ false = ground arith in
      elim (Bool-cases (ltb (length dest) size)) [
        | inl room ↦
            rw (room, d, exponent)
              (exponent_digits_lem size (dest ++ (c ∷ [])) cs
                ∙ numeral_result_stepped size c dest behind_letter in_exponent cs n
                    (unfold numeral_step in rw d))
        | inr no_room ↦
            let full : leb size (length dest) ≡ true = ground arith in
            rw (no_room, exponent)
              (exponent_digits_lem size dest (c ∷ cs)
                ∙ (sym (numeral_result_when_full size c dest in_exponent cs n full)
                    ∙ numeral_result_when_full size c dest behind_letter cs n full))
      ]
]

abbrev state_of : Bool → NumeralState
state_of true = in_fraction
state_of false = in_int

end_of : (b : Bool) → numeral_end (state_of b) ≡ some (type_of b)
end_of true = refl
end_of false = refl

digit_step :
    (b : Bool) (c : ℕ)
    → (c == b'.') ≡ false
    → is_digit_char c ≡ true
    → numeral_step (state_of b) c ≡ some (state_of b)
unfolding numeral_step
digit_step true c p d = rw d
digit_step false c p d = rw p (rw d)

letter_step :
    (b : Bool) (c : ℕ)
    → (c == b'.') ≡ false
    → is_digit_char c ≡ false
    → is_exponent_char c ≡ true
    → numeral_step (state_of b) c ≡ some behind_letter
unfolding numeral_step
letter_step true c p d x = rw d (rw x)
letter_step false c p d x = rw p (rw d (rw x))

no_step :
    (b : Bool) (c : ℕ)
    → (c == b'.') ≡ false
    → is_digit_char c ≡ false
    → is_exponent_char c ≡ false
    → numeral_step (state_of b) c ≡ none
unfolding numeral_step
no_step true c p d x = rw d (rw x)
no_step false c p d x = rw p (rw d (rw x))

second_point : (c : ℕ) → (c == b'.') ≡ true → numeral_step in_fraction c ≡ none
unfolding numeral_step
second_point c p = let e : c ≡ b'.' = ground arith in rw e

point :
    (size : ℕ) (b : Bool) (c : ℕ) (dest cs : Text)
    → (c == 0) ≡ false
    → (c == b'.') ≡ true
    → mantissa size true (dest ++ (c ∷ [])) cs
      ≡ numeral_result size (dest ++ (c ∷ [])) in_fraction cs
    → elim b as (λ x. Option (NumericType × Text)) [
      | true ↦ none
      | false ↦ mantissa size true (dest ++ (c ∷ [])) cs
    ]
      ≡ numeral_result size dest (state_of b) (c ∷ cs)
point size true c dest cs n p ih =
    numeral_result-none size c dest in_fraction cs n (second_point c p)
point size false c dest cs n p ih =
    ih ∙ numeral_result_stepped size c dest in_int in_fraction cs n (unfold numeral_step in rw p)

mantissa_lem :
    (size : ℕ) (b : Bool) (dest l : Text)
    → mantissa size b dest l ≡ numeral_result size dest (state_of b) l
unfolding mantissa
mantissa_lem size true dest [] =
    unfold until_null numeral_from in finish_end size numeric_double dest
mantissa_lem size false dest [] = unfold until_null numeral_from in finish_end size numeric_int dest
mantissa_lem size b dest (c ∷ cs) = elim (Bool-cases (c == 0)) [
  | inl z ↦
      rw (z, mantissa)
        (finish_null size (type_of b) dest c z
          ∙ (ap (fitting size dest []) (sym (end_of b))
              ∙ numeral_result_at_null size c dest (state_of b) cs z))
  | inr n ↦ elim (Bool-cases (leb size (length dest))) [
    | inl full ↦
        rw (n, full, mantissa)
          (finish_before size (type_of b) dest c n
            ∙ numeral_result_when_full size c dest (state_of b) cs n full)
    | inr room ↦ elim (Bool-cases (c == b'.')) [
      | inl p ↦
          rw (n, room, p, mantissa)
            (point size b c dest cs n p (mantissa_lem size true (dest ++ (c ∷ [])) cs))
      | inr p ↦ elim (Bool-cases (is_digit_char c)) [
        | inl d ↦
            rw (n, room, p, d, mantissa)
              (mantissa_lem size b (dest ++ (c ∷ [])) cs
                ∙ numeral_result_stepped size c dest (state_of b) (state_of b) cs n
                    (digit_step b c p d))
        | inr d ↦ elim (Bool-cases (is_exponent_char c)) [
          | inl x ↦
              rw (n, room, p, d, x, mantissa)
                (exponent_lem size (dest ++ (c ∷ [])) cs
                  ∙ numeral_result_stepped size c dest (state_of b) behind_letter cs n
                      (letter_step b c p d x))
          | inr x ↦
              rw (n, room, p, d, x, mantissa)
                (finish_before size (type_of b) dest c n
                  ∙ numeral_result-none size c dest (state_of b) cs n (no_step b c p d x))
        ]
      ]
    ]
  ]
]

sign_step : (c : ℕ) → (c == b'-') ≡ true → numeral_step at_start c ≡ some behind_sign
unfolding numeral_step
sign_step c m = rw m

behind_minus :
    (size c d : ℕ) (ds : Text)
    → c ≡ b'-'
    → signed size (d ∷ ds) ≡ numeral_result size (c ∷ []) behind_sign (d ∷ ds)
unfolding signed
behind_minus size c d ds e = elim (Bool-cases (is_digit_char d)) [
  | inl t ↦
      rw (t, signed)
        (rw (sym e) (mantissa_lem size false (c ∷ d ∷ []) ds)
          ∙ numeral_result_stepped size d (c ∷ []) behind_sign in_int ds (ground arith)
              (unfold numeral_step in rw t))
  | inr t ↦ elim (Bool-cases (d == 0)) [
    | inl z ↦ rw (t, signed) (numeral_result_at_null size d (c ∷ []) behind_sign ds z)
    | inr n ↦
        rw (t, signed)
          (numeral_result-none size d (c ∷ []) behind_sign ds n (unfold numeral_step in rw t))
  ]
]

sign_only : (size c : ℕ) → none ≡ numeral_result size (c ∷ []) behind_sign []
unfolding until_null numeral_from
sign_only size c = refl

signed_lem :
    (size c : ℕ) (cs : Text)
    → (c == b'-') ≡ true
    → signed size cs ≡ numeral_result size [] at_start (c ∷ cs)
unfolding signed
signed_lem size c [] m =
    let e : c ≡ b'-' = ground arith in
    sign_only size c
    ∙ numeral_result_stepped size c [] at_start behind_sign [] (ground arith) (sign_step c m)
signed_lem size c (d ∷ ds) m =
    let e : c ≡ b'-' = ground arith in
    behind_minus size c d ds e
    ∙ numeral_result_stepped size c [] at_start behind_sign (d ∷ ds) (ground arith) (sign_step c m)

fitting_short :
    (size c : ℕ) (t : Text) (k : Option NumericType)
    → ltb size 2 ≡ true
    → fitting size [] (c ∷ t) k ≡ none
fitting_short size c t none h = refl
fitting_short size c t (some k) h = ground arith

short :
    (size c : ℕ) (cs : Text) → ltb size 2 ≡ true → none ≡ numeral_result size [] at_start (c ∷ cs)
short size c cs h = elim (Bool-cases (c == 0)) [
  | inl z ↦ numeral_result_at_null size c [] at_start cs z
  | inr n ↦
      unfold until_null in
      rw n
        (sym (fitting_short size c (until_null cs) (numeral_from at_start (c ∷ until_null cs)) h))
]

-- string_enc_tonumstr takes exactly the numerals of the automaton that leave a place for the null byte,
-- reads them up to the first null character, and copies them as they are.
pub to_numstr_lem :
    (size : ℕ) (l : Text)
    → to_numstr size l ≡ fitting size [] (until_null l) (numeral_from at_start (until_null l))
unfolding to_numstr
to_numstr_lem size [] = unfold until_null numeral_from in refl
to_numstr_lem size (c ∷ cs) = elim (Bool-cases (c == 0)) [
  | inl z ↦ rw (z, to_numstr) (numeral_result_at_null size c [] at_start cs z)
  | inr n ↦ elim (Bool-cases (ltb size 2)) [
    | inl h ↦ rw (n, h, to_numstr) (short size c cs h)
    | inr h ↦ elim (Bool-cases (c == b'-')) [
      | inl m ↦ rw (n, h, m, to_numstr) (signed_lem size c cs m)
      | inr m ↦ elim (Bool-cases (is_digit_char c)) [
        | inl d ↦
            rw (n, h, m, d, to_numstr)
              (mantissa_lem size false (c ∷ []) cs
                ∙ numeral_result_stepped size c [] at_start in_int cs n
                    (unfold numeral_step in rw m (rw d)))
        | inr d ↦
            rw (n, h, m, d, to_numstr)
              (numeral_result-none size c [] at_start cs n (unfold numeral_step in rw m (rw d)))
      ]
    ]
  ]
]
