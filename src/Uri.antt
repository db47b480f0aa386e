-- ===== src/Uri.antt =====
-- The URI encoder of src/uriEncode.cpp: the two character tables, the printing of one character
-- and the loop over the input.
pub mod Encoded
pub mod Decode
use papuga.ErrorCode.{ErrorCode, ok, buffer_overflow_error}
use papuga.Prelude.{
  ℕ, ◌+◌, ◌/◌, ◌%◌, Bool, true, false, ◌&&◌, ◌||◌, Option, none, some, List, [], ◌∷◌, ltb, leb,
  ◌==◌, if◌then◌else◌, length, get_or, set, bit_or,
}

-- Characters are bytes, numbers below 256.
is_alpha : ℕ → Bool
is_alpha ch = leb b'a' (bit_or ch 32) && leb (bit_or ch 32) b'z'

is_digit : ℕ → Bool
is_digit ch = leb b'0' ch && leb ch b'9'

unfoldable pub is_alnum : ℕ → Bool
unfolding is_alpha is_digit
is_alnum ch = is_alpha ch || is_digit ch

is_space : ℕ → Bool
is_space ch = ch == b' '

is_punct_rfc3986 : ℕ → Bool
is_punct_rfc3986 ch = ch == b'~' || (ch == b'-' || (ch == b'.' || ch == b'_'))

is_punct_html5 : ℕ → Bool
is_punct_html5 ch = ch == b'*' || (ch == b'-' || (ch == b'.' || ch == b'_'))

-- `ar[ ch]` of the two tables, as their constructors fill them.
unfoldable pub char_table_rfc3986 : ℕ → ℕ
unfolding is_alnum is_punct_rfc3986
char_table_rfc3986 ch = if is_alnum ch || is_punct_rfc3986 ch then ch else 0

unfoldable pub char_table_html5 : ℕ → ℕ
unfolding is_alnum is_punct_html5 is_space
char_table_html5 ch =
    if is_alnum ch || is_punct_html5 ch then ch else if is_space ch then b'+' else 0

abbrev hex_digits : List ℕ
hex_digits =
    b'0' ∷ b'1' ∷ b'2' ∷ b'3' ∷ b'4' ∷ b'5' ∷ b'6' ∷ b'7' ∷ b'8' ∷ b'9' ∷ b'a' ∷ b'b' ∷ b'c' ∷ b'd'
    ∷ b'e' ∷ b'f' ∷ []

-- HEX[ n]
unfoldable pub hex : ℕ → ℕ
hex n = get_or hex_digits n 0

-- Whether `strchr( preserve, ch)` finds something. The string is given without its final null byte,
-- and `strchr` finds that byte too.
unfoldable pub strchr : List ℕ → ℕ → Bool
strchr [] ch = ch == 0
strchr (p ∷ ps) ch = p == ch || strchr ps ch

-- The destination memory and the position `bufpos` in it.
pub record Dest : Type 0 where
  pub buf : List ℕ
  pub bufpos : ℕ

-- `buf[ bufpos++] = ch`. A write outside of the memory is a fault, `none`.
unfoldable pub put : ℕ → Dest → Option Dest
put ch d =
    if ltb d.bufpos (length d.buf)
    then some (record { buf = set d.buf d.bufpos ch; bufpos = d.bufpos + 1 })
    else none

infixl 5 ◌>>=◌
abbrev pub ◌>>=◌ {ℓ κ} : {A : Type ℓ} {B : Type κ} → Option A → (A → Option B) → Option B
none >>= f = none
some a >>= f = f a

-- The escape sequence for `ch`.
unfoldable pub put_escape : ℕ → Dest → Option Dest
put_escape ch d = do d1 ← put b'%' d; d2 ← put (hex (ch / 16)) d1; put (hex (ch % 16)) d2

-- `return true` after writing.
abbrev pub printed : Option Dest → Option (Bool × Dest)
printed none = none
printed (some d) = some (true, d)

-- printCharEncoded: false, with nothing written, if the character might not fit.
unfoldable pub print_char_encoded : ℕ → ℕ → ℕ → List ℕ → Dest → Option (Bool × Dest)
print_char_encoded bufsize ch ch_mapped preserve d =
    if ltb 0 ch_mapped
    then if leb bufsize (d.bufpos + 1) then some (false, d) else printed (put ch_mapped d)
    else if strchr preserve ch
    then if leb bufsize (d.bufpos + 1) then some (false, d) else printed (put ch d)
    else if leb bufsize (d.bufpos + 4)
    then some (false, d)
    else printed (put_escape ch d)

-- The loop over the input, for a table `ar`.
unfoldable pub encode_loop : (ℕ → ℕ) → ℕ → List ℕ → List ℕ → Dest → Option (Bool × Dest)
encode_loop ar bufsize preserve [] d = some (true, d)
encode_loop ar bufsize preserve (ch ∷ input) d =
    elim (print_char_encoded bufsize ch (ar ch) preserve d) [
      | none ↦ none
      | some (go_on, d1) ↦ elim go_on [
        | true ↦ encode_loop ar bufsize preserve input d1
        | false ↦ some (false, d1)
      ]
    ]

-- `buf[ bufpos] = 0`, which leaves `bufpos` as it is.
unfoldable pub terminate : Dest → Option (Bool × Dest)
terminate d =
    if ltb d.bufpos (length d.buf)
    then some (true, record d { buf = set d.buf d.bufpos 0 })
    else none

-- The method `encode` of both tables.
unfoldable pub encode : (ℕ → ℕ) → ℕ → List ℕ → List ℕ → List ℕ → Option (Bool × Dest)
encode ar bufsize preserve input buf =
    elim (encode_loop ar bufsize preserve input (record { buf = buf; bufpos = 0 })) [
      | none ↦ none
      | some (done, d) ↦ elim done [ true ↦ terminate d | false ↦ some (false, d) ]
    ]

-- `preserve?preserve:""`
abbrev or_empty : Option (List ℕ) → List ℕ
or_empty none = []
or_empty (some preserve) = preserve

-- The error code and the destination: `NULL` is returned exactly with an error.
uri_encode : (ℕ → ℕ) → ℕ → List ℕ → Option (List ℕ) → List ℕ → Option (ErrorCode × Dest)
uri_encode ar destbufsize input preserve destbuf =
    elim (encode ar destbufsize (or_empty preserve) input destbuf) [
      | none ↦ none
      | some (done, d) ↦ some (if done then ok else buffer_overflow_error, d)
    ]

unfoldable pub uri_encode_html5 : ℕ → List ℕ → Option (List ℕ) → List ℕ → Option (ErrorCode × Dest)
unfolding uri_encode
uri_encode_html5 = uri_encode char_table_html5

unfoldable pub uri_encode_rfc3986 :
    ℕ → List ℕ → Option (List ℕ) → List ℕ → Option (ErrorCode × Dest)
unfolding uri_encode
uri_encode_rfc3986 = uri_encode char_table_rfc3986
