-- ===== src/RequestParser.antt =====
-- The guesses of content type and encoding in src/requestParser.c. A document is the list of its bytes;
-- `none` is a read behind its end.
pub mod Bounds
pub mod Feeding
pub mod Fed
pub mod Total
pub use papuga.Encoding.{StringEncoding, utf8, utf16be, utf16le, utf32be, utf32le, binary}
use papuga.Prelude.{
  ℕ, zero, suc, ◌+◌, ◌-◌, ◌%◌, Bool, true, false, ◌&&◌, ◌||◌, not, Option, none, some, List, [],
  ◌∷◌, ◌++◌, ltb, leb, ◌==◌, if◌then◌else◌, length, take, drop, get_or, bit_or,
}
use papuga.Request.Description.Expression.{Text, text_eq}

-- papuga_ContentType
pub data ContentType : Type 0 where
  content_unknown content_xml content_json : ContentType

-- The states of parse_xml_header, 0 to 3.
pub data HeaderState : Type 0 where
  at_start behind_angle inside_header behind_header : HeaderState

-- What a byte does: it is taken over with a new state, or ends the loop.
pub data HeaderStep : Type 0 where
  takes : HeaderState → HeaderStep
  fails ends_empty ends : HeaderStep

abbrev pub header_step : HeaderState → ℕ → HeaderStep
header_step at_start c = if c == b'<' then takes behind_angle else fails
header_step behind_angle c = if c == b'?' then takes inside_header else ends_empty
header_step inside_header c = if c == b'>' then takes behind_header else takes inside_header
header_step behind_header c = ends

-- parse_xml_header from a position on, with the bytes left to read and the header so far; the header is
-- read where the result is true.
unfoldable pub parse_xml_header : ℕ → ℕ → HeaderState → Text → Text → Option (Bool × Text)
parse_xml_header zero hdrbufsize state src hdrbuf = some (false, [])
parse_xml_header (suc srcsize) hdrbufsize state [] hdrbuf =
    if ltb (length hdrbuf) hdrbufsize then none else some (false, [])
parse_xml_header (suc srcsize) hdrbufsize state (c ∷ src) hdrbuf =
    if not (ltb (length hdrbuf) hdrbufsize) then some (false, []) else elim (c == 0) [
      | true ↦ parse_xml_header srcsize hdrbufsize state src hdrbuf
      | false ↦ elim (leb 128 c) [
        | true ↦ some (false, [])
        | false ↦ elim (header_step state c) [
          | takes next ↦ parse_xml_header srcsize hdrbufsize next src (hdrbuf ++ (c ∷ []))
          | fails ↦ some (false, [])
          | ends_empty ↦ some (true, [])
          | ends ↦ some (true, hdrbuf)
        ]
      ]
    ]

-- detectBOM: the encoding and the size of the mark.
unfoldable pub detect_bom : Text → StringEncoding × ℕ
detect_bom src =
    let b0 = get_or src 0 0 in
    let b1 = get_or src 1 0 in
    let b2 = get_or src 2 0 in
    let b3 = get_or src 3 0 in
    if ltb (length src) 4
    then (binary, 0)
    else if b0 == 0xef && b1 == 0xbb && b2 == 0xbf
    then (utf8, 3)
    else if b0 == 0 && b1 == 0 && b2 == 0xfe && b3 == 0xff
    then (utf32be, 4)
    else if b0 == 0xff && b1 == 0xfe && b2 == 0 && b3 == 0
    then (utf32le, 4)
    else if b0 == 0xfe && b1 == 0xff
    then (utf16be, 2)
    else if b0 == 0xff && b1 == 0xfe
    then (utf16le, 2)
    else (binary, 0)

-- The loop of papuga_guess_ContentType: whether a quote or a brace comes first.
unfoldable pub begins_json : Text → Bool
begins_json [] = false
begins_json (c ∷ cs) =
    let rest = begins_json cs in
    if c == b'\'' || c == b'"' || c == b'{' then true else if ltb 32 c then false else rest

abbrev pub header_content : Option (Bool × Text) → Option ContentType
header_content none = none
header_content (some r) = some (if r.0 then content_xml else content_unknown)

-- papuga_guess_ContentType. The size of the XML header is that of the document with its mark.
unfoldable pub guess_content_type : Text → Option ContentType
unfolding detect_bom begins_json parse_xml_header
guess_content_type src =
    let xmlhdrsize = if ltb 1024 (length src) then 1024 else length src in
    let rest = drop (detect_bom src).1 src in
    if begins_json rest
    then some content_json
    else header_content (parse_xml_header xmlhdrsize 256 at_start rest [])

abbrev pub skip_low : Text → Text
skip_low [] = []
skip_low (c ∷ cs) = if leb c 32 then skip_low cs else c ∷ cs

abbrev pub has_prefix : Text → Text → Bool
has_prefix [] src = true
has_prefix (p ∷ ps) [] = false
has_prefix (p ∷ ps) (c ∷ cs) = p == c && has_prefix ps cs

-- The text behind the first place where `needle` stands, found by `strstr`.
abbrev pub behind : Text → Text → Option Text
behind needle [] = none
behind needle (c ∷ cs) =
    let rest = behind needle cs in
    if has_prefix needle (c ∷ cs) then some (drop (length needle) (c ∷ cs)) else rest

-- "encoding"
abbrev pub encoding_word : Text
encoding_word = b'e' ∷ b'n' ∷ b'c' ∷ b'o' ∷ b'd' ∷ b'i' ∷ b'n' ∷ b'g' ∷ []

-- The loop over the name in quotes: the name, and the position behind what was read.
unfoldable pub charset_name : ℕ → ℕ → Text → Text × Text
charset_name be encsize [] = ([], [])
charset_name be encsize (c ∷ cs) =
    let kept = charset_name be (suc encsize) cs in
    let left = charset_name be encsize cs in
    if not (ltb encsize 16 && not (c == be) && ltb 0 c && ltb c 128)
    then ([], c ∷ cs)
    else if not (c == b' ') && not (c == b'-')
    then (bit_or c 32 ∷ kept.0, kept.1)
    else left

unfoldable pub charset_of : Text → StringEncoding
unfolding text_eq
charset_of name =
    let utf = b'u' ∷ b't' ∷ b'f' ∷ [] in
    if text_eq name (utf ++ (b'8' ∷ []))
    then utf8
    else if text_eq name (utf ++ (b'1' ∷ b'6' ∷ []))
    then utf16be
    else if text_eq name (utf ++ (b'3' ∷ b'2' ∷ []))
    then utf32be
    else if text_eq name (utf ++ (b'1' ∷ b'6' ∷ b'b' ∷ b'e' ∷ []))
    then utf16be
    else if text_eq name (utf ++ (b'3' ∷ b'2' ∷ b'b' ∷ b'e' ∷ []))
    then utf32be
    else if text_eq name (utf ++ (b'1' ∷ b'6' ∷ b'l' ∷ b'e' ∷ []))
    then utf16le
    else if text_eq name (utf ++ (b'3' ∷ b'2' ∷ b'l' ∷ b'e' ∷ []))
    then utf32le
    else binary

unfoldable pub quoted_charset : Text → StringEncoding
unfolding charset_name charset_of
quoted_charset [] = binary
quoted_charset (be ∷ cs) =
    let r = charset_name be 0 cs in
    if not (be == b'\'') && not (be == b'"')
    then binary
    else if get_or r.1 0 0 == be
    then charset_of r.0
    else binary

-- detectCharsetFromXmlHeader
unfoldable pub detect_charset : Text → StringEncoding
unfolding quoted_charset
detect_charset hdrbuf = elim (behind encoding_word hdrbuf) [
  | none ↦ binary
  | some ee ↦
      if get_or (skip_low ee) 0 0 == b'='
      then quoted_charset (skip_low (drop 1 (skip_low ee)))
      else binary
]

-- The counters of papuga_guess_StringEncoding: of a run of null bytes, the longest that another byte
-- ended, and of null bytes at each place modulo 4.
pub record Zeros : Type 0 where
  pub zcnt : ℕ
  pub max_zcnt : ℕ
  pub mcnt0 : ℕ
  pub mcnt1 : ℕ
  pub mcnt2 : ℕ
  pub mcnt3 : ℕ

abbrev pub no_zeros : Zeros
no_zeros = record { zcnt = 0; max_zcnt = 0; mcnt0 = 0; mcnt1 = 0; mcnt2 = 0; mcnt3 = 0 }

abbrev pub counted_zero : ℕ → Zeros → Zeros
counted_zero place z =
    let y = record z { zcnt = suc z.zcnt } in
    if place == 0
    then record y { mcnt0 = suc y.mcnt0 }
    else if place == 1
    then record y { mcnt1 = suc y.mcnt1 }
    else if place == 2
    then record y { mcnt2 = suc y.mcnt2 }
    else record y { mcnt3 = suc y.mcnt3 }

abbrev pub ended_run : Zeros → Zeros
ended_run z = if ltb z.max_zcnt z.zcnt then record z { max_zcnt = z.zcnt; zcnt = 0 } else z

unfoldable pub count_zeros : ℕ → Zeros → Text → Zeros
count_zeros cidx z [] = z
count_zeros cidx z (c ∷ cs) =
    count_zeros (suc cidx) (if c == 0 then counted_zero (cidx % 4) z else ended_run z) cs

unfoldable pub encoding_of_zeros : Zeros → StringEncoding
encoding_of_zeros z =
    if z.max_zcnt == 0
    then utf8
    else if leb z.mcnt1 z.mcnt0 && leb z.mcnt2 z.mcnt1 && leb z.mcnt3 z.mcnt2 && z.mcnt3 == 0
    then utf32be
    else if z.mcnt0 == 0 && leb z.mcnt0 z.mcnt1 && leb z.mcnt1 z.mcnt2 && leb z.mcnt2 z.mcnt3
    then utf32le
    else if leb z.mcnt1 z.mcnt0 && leb z.mcnt3 z.mcnt2 && z.mcnt1 == 0 && z.mcnt3 == 0
    then utf16be
    else if z.mcnt0 == 0 && z.mcnt2 == 0 && leb z.mcnt0 z.mcnt1 && leb z.mcnt2 z.mcnt3
    then utf16le
    else binary

abbrev pub is_binary : StringEncoding → Bool
is_binary binary = true
is_binary _ = false

abbrev pub header_charset : Option (Bool × Text) → Option StringEncoding
header_charset none = none
header_charset (some r) = some (if r.0 then detect_charset r.1 else binary)

-- papuga_guess_StringEncoding; an empty header has no encoding.
unfoldable pub guess_string_encoding : Text → Option StringEncoding
unfolding detect_bom parse_xml_header detect_charset count_zeros encoding_of_zeros
guess_string_encoding src =
    if not (is_binary (detect_bom src).0)
    then some (detect_bom src).0
    else elim (header_charset (parse_xml_header (length src) 256 at_start src [])) [
      | none ↦ none
      | some encoding ↦ some (
          if is_binary encoding
          then encoding_of_zeros (count_zeros 0 no_zeros (take 1024 src))
          else encoding)
    ]
