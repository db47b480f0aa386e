-- ===== src/Uri/Decode.antt =====
-- Percent decoding, as RFC 3986 describes it, and the theorem that it gives back what the encoder of
-- src/uriEncode.cpp was given.
use papuga.Prelude.{
  ℕ, suc, ◌+◌, ◌-◌, ◌*◌, ◌/◌, ◌%◌, ◌<◌, ◌≤◌, ◌≡◌, ◌≢◌, refl, ap, ◌∙◌, ◌⊎◌, inl, inr, Bool, true,
  false, ◌&&◌, ◌||◌, not, Option, some, length, take, drop, get_elem?, List, [], ◌∷◌, ◌++◌, ltb,
  leb, ◌==◌, if◌then◌else◌, ==_iff, arith,
}
use papuga.Prelude.Bytes.{on_bytes, every_byte}
use papuga.ErrorCode.{ErrorCode, ok, buffer_overflow_error}
use papuga.Uri.{
  hex, strchr, char_table_rfc3986, char_table_html5, Dest, uri_encode, uri_encode_rfc3986,
  uri_encode_html5,
}
use papuga.Uri.Encoded.{encoded_char, encoded, encode_outcome}

hex_value : ℕ → ℕ
hex_value c = if leb c b'9' then c - b'0' else c - b'a' + 10

abbrev plus_as_space : Bool → ℕ → ℕ
plus_as_space plus c = if plus && c == b'+' then b' ' else c

-- What was read of an escape sequence.
pub data Pending : Type 0 where
  plain percent : Pending
  high : ℕ → Pending

-- `plus` says whether a plus sign stands for a space.
unfoldable pub decode : Bool → Pending → List ℕ → List ℕ
unfolding hex_value
decode plus p [] = []
decode plus plain (c ∷ cs) = elim (c == b'%') [
  | true ↦ decode plus percent cs
  | false ↦ plus_as_space plus c ∷ decode plus plain cs
]
decode plus percent (c ∷ cs) = decode plus (high c) cs
decode plus (high h) (c ∷ cs) = (hex_value h * 16 + hex_value c) ∷ decode plus plain cs

-- A byte that a table maps is no percent sign, and decodes to the character.
abbrev decodes_back : Bool → (ℕ → ℕ) → ℕ → Bool
decodes_back plus ar c =
    not (ltb 0 (ar c)) || (not (ar c == b'%') && plus_as_space plus (ar c) == c)

rfc3986_decodes_back : on_bytes (decodes_back false char_table_rfc3986) ≡ true
unfolding on_bytes char_table_rfc3986
rfc3986_decodes_back = refl

html5_decodes_back : on_bytes (decodes_back true char_table_html5) ≡ true
unfolding on_bytes char_table_html5
html5_decodes_back = refl

-- Two hexadecimal digits give back the byte.
hex_digits_back :
    on_bytes (λ c. hex_value (hex (c / 16)) * 16 + hex_value (hex (c % 16)) == c) ≡ true
unfolding on_bytes hex hex_value
hex_digits_back = refl

hex-hex_value : (c : ℕ) → c < 256 → hex_value (hex (c / 16)) * 16 + hex_value (hex (c % 16)) ≡ c
hex-hex_value c h = (==_iff _ c).0 (every_byte _ c hex_digits_back h)

abbrev pub AllBytes : List ℕ → Type 0
AllBytes [] = Unit {0}
AllBytes (c ∷ cs) = (c < 256) × AllBytes cs

module _ (plus : Bool) (ar : ℕ → ℕ) (preserve : List ℕ)
    (table : on_bytes (decodes_back plus ar) ≡ true) (no_percent : strchr preserve b'%' ≡ false)
    (no_plus : (plus && strchr preserve b'+') ≡ false) where
  preserved_ne : (c : ℕ) → strchr preserve c ≡ true → (c ≢ b'%') × (plus_as_space plus c ≡ c)
  preserved_ne c h = (λ e. cc, ground arith)

  decode-encoded_char :
      (c : ℕ) (rest : List ℕ)
      → c < 256
      → decode plus plain (encoded_char ar preserve c ++ rest) ≡ c ∷ decode plus plain rest
  unfolding decode
  decode-encoded_char c rest h =
      ground (arith, every_byte _ c table h, hex-hex_value c h, preserved_ne c)

  decode-encoded :
      (input : List ℕ) → AllBytes input → decode plus plain (encoded ar preserve input) ≡ input
  unfolding encoded decode
  decode-encoded [] h = refl
  decode-encoded (c ∷ input) h =
      decode-encoded_char c (encoded ar preserve input) h.0 ∙ ap (◌∷◌ c) (decode-encoded input h.1)

take-append : (e rest : List ℕ) → take (length e) (e ++ rest) ≡ e
take-append [] rest = refl
take-append (x ∷ e) rest = ap (◌∷◌ x) (take-append e rest)

get_elem?-append : (e rest : List ℕ) (x : ℕ) → get_elem? (e ++ x ∷ rest) (length e) ≡ some x
get_elem?-append [] rest x = refl
get_elem?-append (y ∷ e) rest x = get_elem?-append e rest x

-- What a call leaves: on success a text that decodes to the input, with a null byte behind it; a
-- failure only where the encoded text would have left less than two bytes.
abbrev pub Encodes : Bool → (ℕ → ℕ) → ℕ → List ℕ → List ℕ → Option (ErrorCode × Dest) → Type 0
Encodes plus ar bufsize preserve input r =
    ((d : Dest) × (r ≡ some (ok, d))
      × (decode plus plain (take d.bufpos d.buf) ≡ input)
      × (get_elem? d.buf d.bufpos ≡ some 0)
      × (d.bufpos < bufsize))
    ⊎ ((d : Dest) × (r ≡ some (buffer_overflow_error, d))
        × (bufsize ≤ length (encoded ar preserve input) + 1))

uri_encode-Encodes :
    (plus : Bool) (ar : ℕ → ℕ) (bufsize : ℕ) (preserve input buf : List ℕ)
    → on_bytes (decodes_back plus ar) ≡ true
    → strchr preserve b'%' ≡ false
    → (plus && strchr preserve b'+') ≡ false
    → AllBytes input
    → 0 < bufsize
    → bufsize ≤ length buf
    → Encodes plus ar bufsize preserve input (uri_encode ar bufsize input (some preserve) buf)
unfolding uri_encode
uri_encode-Encodes plus ar bufsize preserve input buf table p q bytes h k =
    elim (encode_outcome ar bufsize preserve input buf h k) [
      | inl (d, fails, full) ↦ inr (d, rw (fails, uri_encode), full)
      | inr (runs, fits) ↦ inl (
        record { buf = e ++ 0 ∷ drop (suc (length e)) buf; bufpos = length e },
        rw (runs, uri_encode),
        rw (take-append e (0 ∷ drop (suc (length e)) buf))
            (decode-encoded plus ar preserve table p q input bytes),
        get_elem?-append e (drop (suc (length e)) buf) 0,
        fits,
      )
    ]
  where
    e : List ℕ
    e = encoded ar preserve input

-- The RFC 3986 encoder, for a preserved set without the percent sign: it succeeds with a text that
-- percent decoding takes back to the input, or reports an overflow because the text with its null
-- byte leaves no byte free. It never writes outside of the buffer.
pub uri_encode_rfc3986-Encodes :
    (bufsize : ℕ) (preserve input buf : List ℕ)
    → strchr preserve b'%' ≡ false
    → AllBytes input
    → 0 < bufsize
    → bufsize ≤ length buf
    → Encodes false char_table_rfc3986 bufsize preserve input
        (uri_encode_rfc3986 bufsize input (some preserve) buf)
unfolding uri_encode_rfc3986
uri_encode_rfc3986-Encodes bufsize preserve input buf p =
    uri_encode-Encodes false char_table_rfc3986 bufsize preserve input buf rfc3986_decodes_back p
      refl

-- The same of the HTML5 encoder, where a plus sign stands for a space and may not be preserved.
pub uri_encode_html5-Encodes :
    (bufsize : ℕ) (preserve input buf : List ℕ)
    → strchr preserve b'%' ≡ false
    → strchr preserve b'+' ≡ false
    → AllBytes input
    → 0 < bufsize
    → bufsize ≤ length buf
    → Encodes true char_table_html5 bufsize preserve input
        (uri_encode_html5 bufsize input (some preserve) buf)
unfolding uri_encode_html5
uri_encode_html5-Encodes bufsize preserve input buf =
    uri_encode-Encodes true char_table_html5 bufsize preserve input buf html5_decodes_back
