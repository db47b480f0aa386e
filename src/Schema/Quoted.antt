-- ===== src/Schema/Quoted.antt =====
-- Conditions with a quoted value in src/schemaDescription.cpp: parseString leaves its position at the
-- closing quote.
use mathlib.Core.Path.{subst}
use papuga.ErrorCode.{ErrorCode, is_ok, syntax_error}
use papuga.Prelude.{
  ℕ, ◌<◌, ◌≡◌, refl, sym, ap, ◌∙◌, ◌⊎◌, inl, inr, true, false, ◌&&◌, not, leb, none, some, [], ◌∷◌,
  ◌++◌, ◌==◌, length, arith, Bool-cases, length-append,
}
use papuga.Request.Description.Expression.{Text, contains_char}
use papuga.Schema.{value_type, Children, Run, Parsed, thrown, parsed}
use papuga.Schema.Scan.{
  between, is_delimiter, skip_element, skip_spaces, pushed, unescaped, string_chars, parse_string,
}
use papuga.Schema.Conditions.{
  put_condition, spaced, condition_value, condition_examples, named_condition, condition_at,
  condition_element, next_list, next_condition, conditions, add_condition_elements,
}

-- A string is parsed up to the quote, or there is a syntax error.
abbrev AtQuote : ℕ → Parsed (Text × Text) → Type 0
AtQuote eb (thrown e) = e ≡ syntax_error
AtQuote eb (parsed r) = (rest : Text) × (r.1 ≡ eb ∷ rest)

pushed-AtQuote : (eb c : ℕ) (r : Parsed (Text × Text)) → AtQuote eb r → AtQuote eb (pushed c r)
pushed-AtQuote eb c (thrown e) h = h
pushed-AtQuote eb c (parsed r) h = h

string_chars-AtQuote : (eb : ℕ) (src : Text) → AtQuote eb (string_chars eb src)
unfolding string_chars
string_chars-AtQuote eb [] = refl
string_chars-AtQuote eb (c ∷ []) = elim (Bool-cases (c == eb)) [
  | inl e ↦
      let same : c ≡ eb = ground arith in rw (e, string_chars, AtQuote) ([], ap (λ x. x ∷ []) same)
  | inr e ↦ rw (e, string_chars, AtQuote) refl
]
string_chars-AtQuote eb (c ∷ d ∷ cs) = elim (Bool-cases (c == eb)) [
  | inl e ↦
      let same : c ≡ eb = ground arith in
      rw (e, string_chars, AtQuote) (d ∷ cs, ap (λ x. x ∷ d ∷ cs) same)
  | inr e ↦ elim (Bool-cases (c == b'\\')) [
    | inl p ↦
        rw (e, p, string_chars)
          (pushed-AtQuote eb (unescaped d) (string_chars eb cs) (string_chars-AtQuote eb cs))
    | inr p ↦
        rw (e, p, string_chars)
          (pushed-AtQuote eb c (string_chars eb (d ∷ cs)) (string_chars-AtQuote eb (d ∷ cs)))
  ]
]

-- The bytes of a name.
abbrev pub IsPlain : Text → Type 0
IsPlain [] = Unit
IsPlain (c ∷ cs) = (is_delimiter c ≡ false) × IsPlain cs

skip_element-append :
    (name : Text) (d : ℕ) (rest : Text)
    → IsPlain name
    → is_delimiter d ≡ true
    → skip_element (name ++ (d ∷ rest)) ≡ d ∷ rest
unfolding skip_element
skip_element-append [] d rest h k = rw (k, skip_element) refl
skip_element-append (c ∷ cs) d rest (p, h) k =
    rw (p, skip_element) (skip_element-append cs d rest h k)

-- The result is an error.
abbrev pub Fails : {A : Type 0} → Run A → Type 0
Fails none = ⊥
Fails (some r) = is_ok r.0 ≡ false

abbrev pub IsQuote : ℕ → Type 0
IsQuote q = (q ≡ b'"') ⊎ (q ≡ b'\'')

-- A round of the loop fails if what follows a condition does.
failing :
    (r : ErrorCode × Children × Text) (loop : Text → Children → Run Children)
    → (is_ok r.0 ≡ true → Fails (next_condition loop r.2 r.1))
    → Fails (elim (is_ok r.0) [ true ↦ next_condition loop r.2 r.1 | false ↦ some (r.0, r.1) ])
failing r loop h = elim (Bool-cases (is_ok r.0)) [ inl e ↦ rw e (h e) | inr e ↦ rw (e, Fails) e ]

-- What follows a quoted value is the quote, which is neither a comma nor a bracket.
next_quote :
    (loop : Text → Children → Run Children) (q : ℕ) (rest : Text) (cs : Children)
    → IsQuote q
    → Fails (next_condition loop (skip_spaces (q ∷ rest)) cs)
unfolding next_condition skip_spaces
next_quote loop q rest cs (inl e) =
    subst (λ x. Fails (next_condition loop (skip_spaces (x ∷ rest)) cs)) (sym e) refl
next_quote loop q rest cs (inr e) =
    subst (λ x. Fails (next_condition loop (skip_spaces (x ∷ rest)) cs)) (sym e) refl

quoted-next :
    (loop : Text → Children → Run Children) (q : ℕ) (name : Text) (r : Parsed (Text × Text))
    (cs : Children)
    → IsQuote q
    → AtQuote q r
    → is_ok (named_condition value_type name (spaced r) cs).0 ≡ true
    → Fails (
        next_condition loop
          (named_condition value_type name (spaced r) cs).2
          (named_condition value_type name (spaced r) cs).1)
unfolding named_condition
quoted-next loop q name (thrown e) cs k h good = absurd (ground arith)
quoted-next loop q name (parsed r) cs k (rest, h) good =
    rw h (next_quote loop q rest (put_condition name value_type (r.0 ∷ []) cs).1 k)

condition_value-quoted :
    (q : ℕ) (rest : Text)
    → IsQuote q
    → condition_value (skip_spaces (q ∷ rest)) ≡ spaced (string_chars q rest)
unfolding condition_value skip_spaces parse_string
condition_value-quoted q rest (inl e) =
    subst (λ x. condition_value (skip_spaces (x ∷ rest)) ≡ spaced (string_chars x rest)) (sym e)
      refl
condition_value-quoted q rest (inr e) =
    subst (λ x. condition_value (skip_spaces (x ∷ rest)) ≡ spaced (string_chars x rest)) (sym e)
      refl

condition_examples-quoted :
    (q : ℕ) (rest : Text)
    → IsQuote q
    → condition_examples (skip_spaces (b'=' ∷ q ∷ rest)) ≡ spaced (string_chars q rest)
unfolding condition_examples skip_spaces
condition_examples-quoted q rest k = condition_value-quoted q rest k

-- From the name on, and from the bracket on.
condition_at-quoted :
    (name : Text) (c q : ℕ) (rest : Text) (cs : Children)
    → IsPlain (c ∷ name)
    → IsQuote q
    → condition_at value_type (c ∷ name ++ (b'=' ∷ q ∷ rest)) cs
      ≡ named_condition value_type
          (between (c ∷ name ++ (b'=' ∷ q ∷ rest)) (b'=' ∷ q ∷ rest))
          (spaced (string_chars q rest))
          cs
unfolding condition_at is_delimiter
condition_at-quoted name c q rest cs h k =
    let reached = skip_element-append (c ∷ name) b'=' (q ∷ rest) h refl in
    let moved : (length (b'=' ∷ q ∷ rest) == length (c ∷ name ++ (b'=' ∷ q ∷ rest))) ≡ false =
      ground (arith, length-append name (b'=' ∷ q ∷ rest)) in
    rw (condition_at, reached, moved, condition_examples-quoted q rest k) refl

not_at : (c : ℕ) → is_delimiter c ≡ false → (c == b'@') ≡ false
unfolding is_delimiter contains_char
not_at c h = ground arith

condition_element-quoted :
    (name : Text) (c q : ℕ) (rest : Text) (cs : Children)
    → IsPlain (c ∷ name)
    → 32 < c
    → condition_element (c ∷ name ++ (b'=' ∷ q ∷ rest)) cs
      ≡ condition_at value_type (c ∷ name ++ (b'=' ∷ q ∷ rest)) cs
unfolding condition_element skip_spaces is_delimiter
condition_element-quoted name c q rest cs h lt =
    let stay : (not (c == 0) && leb c 32) ≡ false = ground arith in
    rw (condition_element, skip_spaces, stay, not_at c h.0) refl

-- A condition whose value is quoted is an error, for every name of plain bytes that does not begin with a
-- space, whatever follows the quote.
pub add_condition_elements-quoted :
    (name : Text) (c q : ℕ) (rest : Text) (cs : Children)
    → IsPlain (c ∷ name)
    → 32 < c
    → IsQuote q
    → Fails (add_condition_elements (b'[' ∷ c ∷ name ++ (b'=' ∷ q ∷ rest)) cs)
unfolding add_condition_elements next_list conditions
add_condition_elements-quoted name c q rest cs h lt k =
    let src = c ∷ name ++ (b'=' ∷ q ∷ rest) in
    let e =
      condition_element-quoted name c q rest cs h lt ∙ condition_at-quoted name c q rest cs h k in
    let loop = conditions (length (b'[' ∷ src)) in
    subst
      (λ (r : ErrorCode × Children × Text).
        Fails (elim (is_ok r.0) [ true ↦ next_condition loop r.2 r.1 | false ↦ some (r.0, r.1) ]))
      (sym e)
      (failing
        (named_condition value_type (between src (b'=' ∷ q ∷ rest)) (spaced (string_chars q rest))
          cs)
        loop
        (quoted-next loop q (between src (b'=' ∷ q ∷ rest)) (string_chars q rest) cs k
          (string_chars-AtQuote q rest)))
