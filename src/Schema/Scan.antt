-- ===== src/Schema/Scan.antt =====
-- The scanning of expressions in src/schemaDescription.cpp. A position in an expression is the text from
-- there to its end, where the null byte is.
use papuga.ErrorCode.{syntax_error}
use papuga.Prelude.{
  ℕ, ◌-◌, Bool, true, false, ◌&&◌, ◌||◌, not, List, [], ◌∷◌, ltb, leb, ◌==◌, if◌then◌else◌, length,
  take, drop, get_or,
}
use papuga.Request.Description.Expression.{Text, contains_char, is_empty}
use papuga.Schema.{Parsed, thrown, parsed}

-- `*src`
abbrev pub at : Text → ℕ
at src = get_or src 0 0

-- The text from `start` to the position `end` behind it.
abbrev pub between : Text → Text → Text
between start end = take (length start - length end) start

-- "/@[](){}#="
abbrev pub delimiters : Text
delimiters = b'/' ∷ b'@' ∷ b'[' ∷ b']' ∷ b'(' ∷ b')' ∷ b'{' ∷ b'}' ∷ b'#' ∷ b'=' ∷ []

unfoldable pub is_delimiter : ℕ → Bool
unfolding contains_char
is_delimiter ch = ch == 0 || ltb ch 32 || contains_char delimiters ch

-- The bracket that closes one, 0 for no bracket.
abbrev pub closing : ℕ → ℕ
closing sb =
    if sb == b'(' then b')' else if sb == b'[' then b']' else if sb == b'{' then b'}' else 0

-- The loop of skipBrackets and what follows it.
unfoldable pub skip_to : ℕ → ℕ → Text → Parsed Text
skip_to sb eb [] = thrown syntax_error
skip_to sb eb (c ∷ cs) =
    if c == eb then parsed cs else if c == sb then thrown syntax_error else skip_to sb eb cs

unfoldable pub skip_brackets : Text → Parsed Text
unfolding skip_to
skip_brackets [] = thrown syntax_error
skip_brackets (sb ∷ src) =
    if closing sb == 0 then thrown syntax_error else skip_to sb (closing sb) src

unfoldable pub skip_element : Text → Text
unfolding is_delimiter
skip_element [] = []
skip_element (c ∷ cs) = if is_delimiter c then c ∷ cs else skip_element cs

-- parseToken: the token, and the position behind it.
unfoldable pub parse_token : Text → Text × Text
unfolding skip_element
parse_token src = (between src (skip_element src), skip_element src)

-- `for (;*src && (unsigned char)*src <= 32; ++src){}`
unfoldable pub skip_spaces : Text → Text
skip_spaces [] = []
skip_spaces (c ∷ cs) = if not (c == 0) && leb c 32 then skip_spaces cs else c ∷ cs

-- What a character behind a backslash stands for.
abbrev pub unescaped : ℕ → ℕ
unescaped c =
    if c == b'n'
    then 10
    else if c == b't'
    then 9
    else if c == b'b'
    then 8
    else if c == b'r'
    then 13
    else c

abbrev pub pushed : ℕ → Parsed (Text × Text) → Parsed (Text × Text)
pushed c (thrown e) = thrown e
pushed c (parsed r) = parsed (c ∷ r.0, r.1)

-- The loop of parseString behind the quote `eb`: the string, and the position that `src` has then.
unfoldable pub string_chars : ℕ → Text → Parsed (Text × Text)
string_chars eb [] = thrown syntax_error
string_chars eb (c ∷ []) = if c == eb then parsed ([], c ∷ []) else thrown syntax_error
string_chars eb (c ∷ d ∷ cs) = elim (c == eb) [
  | true ↦ parsed ([], c ∷ d ∷ cs)
  | false ↦ elim (c == b'\\') [
    | true ↦ pushed (unescaped d) (string_chars eb cs)
    | false ↦ pushed c (string_chars eb (d ∷ cs))
  ]
]

unfoldable pub parse_string : Text → Parsed (Text × Text)
unfolding string_chars
parse_string src = string_chars (at src) (drop 1 src)

abbrev pub first_piece : ℕ → List Text → List Text
first_piece c [] = (c ∷ []) ∷ []
first_piece c (p ∷ ps) = (c ∷ p) ∷ ps

-- The pieces that `strchr( ei, separator)` cuts a text into.
unfoldable pub split : ℕ → Text → List Text
split separator [] = [] ∷ []
split separator (c ∷ cs) =
    if c == separator then [] ∷ split separator cs else first_piece c (split separator cs)

unfoldable pub trim_end : Text → Text
unfolding is_empty
trim_end [] = []
trim_end (c ∷ cs) = let rest = trim_end cs in if leb c 32 && is_empty rest then [] else c ∷ rest

unfoldable pub trim_start : Text → Text
trim_start [] = []
trim_start (c ∷ cs) = if leb c 32 then trim_start cs else c ∷ cs

unfoldable pub trim : Text → Text
unfolding trim_end trim_start
trim str = trim_end (trim_start str)

abbrev pub listed : Text → Parsed (List Text) → Parsed (List Text)
listed t (thrown e) = thrown e
listed t (parsed ts) = parsed (t ∷ ts)

-- getAltNodeList, of the pieces: the last one is not tested.
unfoldable pub alt_node_list : List Text → Parsed (List Text)
unfolding trim is_empty
alt_node_list [] = parsed []
alt_node_list (t ∷ []) = parsed (trim t ∷ [])
alt_node_list (t ∷ u ∷ us) =
    let rest = alt_node_list (u ∷ us) in
    if is_empty (trim t) || at (trim t) == b'@' then thrown syntax_error else listed (trim t) rest
