-- ===== src/Schema/Positions.antt =====
-- How far from the end of an expression src/schemaDescription.cpp is behind what it scans.
use papuga.ErrorCode.{syntax_error}
use papuga.Prelude.{
  ℕ, zero, suc, ◌≤◌, ◌<◌, ◌||◌, true, false, [], ◌∷◌, ◌==◌, if◌then◌else◌, length, drop, arith,
}
use papuga.Request.Description.Expression.{Text}
use papuga.Schema.{Parsed, thrown, parsed}
use papuga.Schema.Scan.{
  at, skip_to, skip_brackets, skip_element, skip_spaces, parse_token, pushed, unescaped,
  string_chars, parse_string, closing,
}
use papuga.Schema.Conditions.{spaced, condition_value, condition_examples}
use papuga.Schema.Fuel.{on_if, on_elim}

-- The position behind what is scanned is no further from the end.
pub length-drop_le : (k : ℕ) (src : Text) → length (drop k src) ≤ length src
length-drop_le zero src = omega arith
length-drop_le (suc k) [] = omega arith
length-drop_le (suc k) (c ∷ cs) = omega (arith, length-drop_le k cs)

pub skip_element-shorter : (src : Text) → length (skip_element src) ≤ length src
unfolding skip_element
skip_element-shorter [] = omega arith
skip_element-shorter (c ∷ cs) = ground (arith, skip_element-shorter cs)

pub skip_spaces-shorter : (src : Text) → length (skip_spaces src) ≤ length src
unfolding skip_spaces
skip_spaces-shorter [] = omega arith
skip_spaces-shorter (c ∷ cs) = ground (arith, skip_spaces-shorter cs)

-- A position is at most `n` bytes from the end.
abbrev pub Within : ℕ → Parsed Text → Type 0
Within n (thrown e) = Unit
Within n (parsed src) = length src ≤ n

abbrev pub BehindWithin : {A : Type 0} → ℕ → Parsed (A × Text) → Type 0
BehindWithin n (thrown e) = Unit
BehindWithin n (parsed r) = length r.1 ≤ n

pub Within-mono : (r : Parsed Text) (n m : ℕ) → n ≤ m → Within n r → Within m r
Within-mono (thrown e) n m le h = tt
Within-mono (parsed src) n m le h = omega arith

pub BehindWithin-mono :
    {A : Type 0} (r : Parsed (A × Text)) (n m : ℕ) → n ≤ m → BehindWithin n r → BehindWithin m r
BehindWithin-mono (thrown e) n m le h = tt
BehindWithin-mono (parsed r) n m le h = omega arith

pub skip_to-Within : (sb eb : ℕ) (src : Text) → Within (length src) (skip_to sb eb src)
unfolding skip_to
skip_to-Within sb eb [] = tt
skip_to-Within sb eb (c ∷ cs) =
    let more =
      Within-mono (skip_to sb eb cs) (length cs) (suc (length cs)) (omega arith)
        (skip_to-Within sb eb cs) in
    on_if (Within (suc (length cs))) (c == eb) (parsed cs)
      (if c == sb then thrown syntax_error else skip_to sb eb cs) (omega arith)
      (on_if (Within (suc (length cs))) (c == sb) (thrown syntax_error) (skip_to sb eb cs) tt more)

pub pushed-Within :
    (n : ℕ) (c : ℕ) (r : Parsed (Text × Text))
    → BehindWithin n r
    → BehindWithin (suc n) (pushed c r)
pushed-Within n c (thrown e) h = tt
pushed-Within n c (parsed r) h = omega arith

pub string_chars-Within : (eb : ℕ) (src : Text) → BehindWithin (length src) (string_chars eb src)
unfolding string_chars
string_chars-Within eb [] = tt
string_chars-Within eb (c ∷ []) =
    on_if (BehindWithin 1) (c == eb) (parsed ([], c ∷ [])) (thrown syntax_error) (omega arith) tt
string_chars-Within eb (c ∷ d ∷ cs) =
    let n = suc (suc (length cs)) in
    let escaped =
      pushed-Within (length cs) (unescaped d) (string_chars eb cs) (string_chars-Within eb cs) in
    let plain =
      pushed-Within (suc (length cs)) c (string_chars eb (d ∷ cs))
        (string_chars-Within eb (d ∷ cs)) in
    on_elim (BehindWithin n) (c == eb) (parsed ([], c ∷ d ∷ cs))
      (elim (c == b'\\') [
        | true ↦ pushed (unescaped d) (string_chars eb cs)
        | false ↦ pushed c (string_chars eb (d ∷ cs))
      ])
      (omega arith)
      (on_elim (BehindWithin n) (c == b'\\') (pushed (unescaped d) (string_chars eb cs))
        (pushed c (string_chars eb (d ∷ cs)))
        (BehindWithin-mono (pushed (unescaped d) (string_chars eb cs)) (suc (length cs)) n
          (omega arith) escaped)
        plain)

-- Behind brackets there are less bytes than in front of them.
abbrev pub Below : ℕ → Parsed Text → Type 0
Below n (thrown e) = Unit
Below n (parsed src) = length src < n

pub Within-Below : (r : Parsed Text) (n m : ℕ) → n < m → Within n r → Below m r
Within-Below (thrown e) n m lt h = tt
Within-Below (parsed src) n m lt h = omega arith

pub skip_brackets-Below : (src : Text) (n : ℕ) → length src ≤ n → Below n (skip_brackets src)
unfolding skip_brackets
skip_brackets-Below [] n le = tt
skip_brackets-Below (sb ∷ src) n le =
    on_if (Below n) (closing sb == 0) (thrown syntax_error) (skip_to sb (closing sb) src) tt (
      Within-Below (skip_to sb (closing sb) src) (length src) n (omega arith)
        (skip_to-Within sb (closing sb) src))

pub spaced-Within :
    (n : ℕ) (r : Parsed (Text × Text)) → BehindWithin n r → BehindWithin n (spaced r)
spaced-Within n (thrown e) h = tt
spaced-Within n (parsed r) h = omega (arith, skip_spaces-shorter r.1)

pub condition_value-Within : (src : Text) → BehindWithin (length src) (condition_value src)
unfolding condition_value parse_token parse_string
condition_value-Within src =
    on_if (BehindWithin (length src)) (at src == b'\'' || at src == b'"')
      (spaced (parse_string src)) (spaced (parsed (parse_token src)))
      (spaced-Within (length src) (parse_string src) (
        BehindWithin-mono (string_chars (at src) (drop 1 src)) (length (drop 1 src)) (length src)
          (length-drop_le 1 src) (string_chars-Within (at src) (drop 1 src))))
      (spaced-Within (length src) (parsed (parse_token src)) (skip_element-shorter src))

pub condition_examples-Within : (src : Text) → BehindWithin (length src) (condition_examples src)
unfolding condition_examples
condition_examples-Within src =
    let rest = skip_spaces (drop 1 src) in
    on_if (BehindWithin (length src)) (at src == b'=') (condition_value rest) (parsed ([], src))
      (BehindWithin-mono (condition_value rest) (length rest) (length src)
        (omega (arith, skip_spaces-shorter (drop 1 src), length-drop_le 1 src))
        (condition_value-Within rest))
      (omega arith)
