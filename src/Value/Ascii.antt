-- ===== src/Value/Ascii.antt =====
-- string_toascii of src/valueVariant.cpp.
use papuga.Prelude.{
  ℕ, zero, suc, ◌<◌, ◌≡◌, refl, ap, ◌∙◌, inl, inr, Bool, true, false, ◌&&◌, ◌||◌, not, Option, none,
  some, [], ◌∷◌, ltb, leb, ◌==◌, if◌then◌else◌, length, arith, Bool-cases,
}
use papuga.Encoding.{StringEncoding, utf8, utf16be, utf16le, utf16, utf32be, utf32le, utf32, binary}
use papuga.Request.Description.Expression.{Text}
use papuga.Value.{Textwolf}

-- `ascii()` of the scanner; behind the end it is 0.
abbrev pub first : Text → ℕ
first [] = 0
first (c ∷ cs) = c

abbrev pub rest : Text → Text
rest [] = []
rest (c ∷ cs) = cs

-- The loop of string_enc_toascii with the places left in the buffer: the bytes written, or none where it
-- returns a null pointer.
unfoldable pub ascii_loop : ℕ → ℕ → Text → Option Text
ascii_loop zero subst l = some []
ascii_loop (suc room) subst l =
    let tail = ascii_loop room subst (rest l) in
    if not (first l == 0)
    then elim tail [ none ↦ none | some dest ↦ some (first l ∷ dest) ]
    else if not (subst == 0)
    then elim tail [ none ↦ none | some dest ↦ some (subst ∷ dest) ]
    else none

-- string_enc_toascii
unfoldable pub string_enc_toascii : ℕ → ℕ → Text → Option Text
unfolding ascii_loop
string_enc_toascii size subst l = elim (ascii_loop size subst l) [
  | none ↦ none
  | some dest ↦ if leb size (length dest) then none else some dest
]

-- What string_toascii does: it gives a text or a null pointer, or writes behind the buffer.
pub data AsciiResult : Type 0 where
  ascii_text : Text → AsciiResult
  ascii_null ascii_overrun : AsciiResult

abbrev pub with_char : ℕ → AsciiResult → AsciiResult
with_char c (ascii_text t) = ascii_text (c ∷ t)
with_char c ascii_null = ascii_null
with_char c ascii_overrun = ascii_overrun

abbrev pub is_ascii : ℕ → Bool
is_ascii c = not (c == 0) && ltb c 128

-- Its loop for UTF-8, with the places left in the buffer. A substitute is written without a step in the
-- source.
unfoldable pub utf8_ascii_loop : ℕ → ℕ → Text → AsciiResult
utf8_ascii_loop zero subst src = ascii_overrun
utf8_ascii_loop (suc room) subst [] = ascii_text []
utf8_ascii_loop (suc room) subst (c ∷ cs) =
    let taken = utf8_ascii_loop room subst cs in
    let substituted = utf8_ascii_loop room subst (c ∷ cs) in
    if is_ascii c
    then with_char c taken
    else if not (subst == 0)
    then with_char subst substituted
    else ascii_null

abbrev pub ascii_of : Option Text → AsciiResult
ascii_of none = ascii_null
ascii_of (some t) = ascii_text t

-- any_string_enc_toascii: the charset of the scanner, if there is one.
unfoldable pub any_string_enc_toascii : Textwolf → StringEncoding → ℕ → ℕ → Text → Option Text
unfolding string_enc_toascii
any_string_enc_toascii tw utf8 subst size src = string_enc_toascii size subst (tw.asciis utf8 src)
any_string_enc_toascii tw utf16be subst size src =
    string_enc_toascii size subst (tw.asciis utf16be src)
any_string_enc_toascii tw utf16le subst size src =
    string_enc_toascii size subst (tw.asciis utf16le src)
any_string_enc_toascii tw utf16 subst size src =
    string_enc_toascii size subst (tw.asciis utf16be src)
any_string_enc_toascii tw utf32be subst size src =
    string_enc_toascii size subst (tw.asciis utf32be src)
any_string_enc_toascii tw utf32le subst size src =
    string_enc_toascii size subst (tw.asciis utf32le src)
any_string_enc_toascii tw utf32 subst size src =
    string_enc_toascii size subst (tw.asciis utf32be src)
any_string_enc_toascii tw binary subst size src = none

abbrev pub is_utf8 : StringEncoding → Bool
is_utf8 utf8 = true
is_utf8 _ = false

-- string_toascii
unfoldable pub string_toascii : Textwolf → ℕ → StringEncoding → Text → ℕ → AsciiResult
unfolding utf8_ascii_loop any_string_enc_toascii
string_toascii tw size encoding src subst =
    if is_utf8 encoding
    then if leb size (length src) then ascii_null else utf8_ascii_loop size subst src
    else ascii_of (any_string_enc_toascii tw encoding subst size src)

-- The loop fills the buffer, so that no place is left for the null byte.
abbrev Fills : ℕ → Option Text → Type 0
Fills size none = Unit
Fills size (some dest) = length dest ≡ size

Fills-cons :
    (c room : ℕ) (o : Option Text)
    → Fills room o
    → Fills (suc room) (elim o [ none ↦ none | some dest ↦ some (c ∷ dest) ])
Fills-cons c room none f = tt
Fills-cons c room (some dest) f = ap suc f

ascii_loop-Fills : (size subst : ℕ) (l : Text) → Fills size (ascii_loop size subst l)
unfolding ascii_loop
ascii_loop-Fills zero subst l = refl
ascii_loop-Fills (suc room) subst l =
    let tail = ascii_loop-Fills room subst (rest l) in
    elim (Bool-cases (first l == 0)) [
      | inr e ↦
          rw (e, ascii_loop, Fills)
            (Fills-cons (first l) room (ascii_loop room subst (rest l)) tail)
      | inl e ↦ elim (Bool-cases (subst == 0)) [
        | inr n ↦
            rw (e, n, ascii_loop, Fills)
              (Fills-cons subst room (ascii_loop room subst (rest l)) tail)
        | inl z ↦ rw (e, z, ascii_loop, Fills) tt
      ]
    ]

full_none :
    (size : ℕ) (o : Option Text)
    → Fills size o
    → elim o as (λ x. Option Text) [
      | none ↦ none
      | some dest ↦ if leb size (length dest) then none else some dest
    ]
      ≡ none
full_none size none f = refl
full_none size (some dest) f = let full : leb size (length dest) ≡ true = ground arith in rw full

pub string_enc_toascii-none : (size subst : ℕ) (l : Text) → string_enc_toascii size subst l ≡ none
unfolding string_enc_toascii
string_enc_toascii-none size subst l =
    full_none size (ascii_loop size subst l) (ascii_loop-Fills size subst l)

any_none :
    (tw : Textwolf) (encoding : StringEncoding) (subst size : ℕ) (src : Text)
    → any_string_enc_toascii tw encoding subst size src ≡ none
unfolding any_string_enc_toascii
any_none tw utf8 subst size src = string_enc_toascii-none size subst (tw.asciis utf8 src)
any_none tw utf16be subst size src = string_enc_toascii-none size subst (tw.asciis utf16be src)
any_none tw utf16le subst size src = string_enc_toascii-none size subst (tw.asciis utf16le src)
any_none tw utf16 subst size src = string_enc_toascii-none size subst (tw.asciis utf16be src)
any_none tw utf32be subst size src = string_enc_toascii-none size subst (tw.asciis utf32be src)
any_none tw utf32le subst size src = string_enc_toascii-none size subst (tw.asciis utf32le src)
any_none tw utf32 subst size src = string_enc_toascii-none size subst (tw.asciis utf32be src)
any_none tw binary subst size src = refl

abbrev pub all_ascii : Text → Bool
all_ascii [] = true
all_ascii (c ∷ cs) = is_ascii c && all_ascii cs

-- A substitute is written again and again.
stays :
    (room subst c : ℕ) (cs : Text)
    → is_ascii c ≡ false
    → (subst == 0) ≡ false
    → utf8_ascii_loop room subst (c ∷ cs) ≡ ascii_overrun
unfolding utf8_ascii_loop
stays zero subst c cs a n = refl
stays (suc room) subst c cs a n =
    rw (a, n, utf8_ascii_loop) (ap (with_char subst) (stays room subst c cs a n))

abbrev expected : ℕ → Text → AsciiResult
expected subst src =
    if all_ascii src then ascii_text src else if subst == 0 then ascii_null else ascii_overrun

expected_cons :
    (subst c : ℕ) (cs : Text)
    → with_char c (expected subst cs) ≡ (
        if all_ascii cs
        then ascii_text (c ∷ cs)
        else if subst == 0
        then ascii_null
        else ascii_overrun)
expected_cons subst c cs = elim (Bool-cases (all_ascii cs)) [
  | inl e ↦ rw e
  | inr e ↦ elim (Bool-cases (subst == 0)) [ inl z ↦ rw (e, z) | inr n ↦ rw (e, n) ]
]

loop_lem :
    (room subst : ℕ) (src : Text)
    → length src < room
    → utf8_ascii_loop room subst src ≡ expected subst src
unfolding utf8_ascii_loop
loop_lem zero subst src h = absurd (omega arith)
loop_lem (suc room) subst [] h = refl
loop_lem (suc room) subst (c ∷ cs) h = elim (Bool-cases (is_ascii c)) [
  | inl a ↦
      rw (a, utf8_ascii_loop)
        (ap (with_char c) (loop_lem room subst cs (omega arith)) ∙ expected_cons subst c cs)
  | inr a ↦ elim (Bool-cases (subst == 0)) [
    | inl z ↦ rw (a, z, utf8_ascii_loop)
    | inr n ↦ rw (a, n, utf8_ascii_loop) (ap (with_char subst) (stays room subst c cs a n))
  ]
]

-- What string_toascii does. A UTF-8 string that does not fit the buffer with a null byte gives a null pointer.
-- One of ASCII characters without a null is given as it is. Any other gives a null pointer if there is no
-- substitute, and writes behind the buffer if there is one. A string of another encoding gives a null
-- pointer, whatever it holds.
pub string_toascii_lem :
    (tw : Textwolf) (size : ℕ) (encoding : StringEncoding) (src : Text) (subst : ℕ)
    → string_toascii tw size encoding src subst ≡ (
        if not (is_utf8 encoding) || leb size (length src)
        then ascii_null
        else if all_ascii src
        then ascii_text src
        else if subst == 0
        then ascii_null
        else ascii_overrun)
unfolding string_toascii
string_toascii_lem tw size encoding src subst = elim (Bool-cases (is_utf8 encoding)) [
  | inr e ↦ rw e (ap ascii_of (any_none tw encoding subst size src))
  | inl e ↦ elim (Bool-cases (leb size (length src))) [
    | inl full ↦ rw (e, full)
    | inr fits ↦ rw (e, fits) (loop_lem size subst src (ground arith))
  ]
]
