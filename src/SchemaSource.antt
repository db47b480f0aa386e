-- ===== src/SchemaSource.antt =====
-- The lexer of schema sources in src/schema.cpp, and its scanning of blocks. A position is the text from
-- there to its end, where the null byte is.
pub mod Blocks
use papuga.Prelude.{
  ℕ, zero, suc, ◌+◌, Bool, true, false, ◌&&◌, ◌||◌, not, Option, none, some, List, [], ◌∷◌, leb,
  ◌==◌, if◌then◌else◌, get_or, bit_or,
}
use papuga.Prelude.Int.{ℤ, pos, negsuc, ◌+ℤ◌, ◌-ℤ◌}
use papuga.Request.Keys.{eqb_ℤ}
use papuga.Request.Description.Expression.{Text, text_eq}

-- Lexeme::Type
pub data LexemeType : Type 0 where
  end_of_source error open_brace close_brace equal attribute identifier comma : LexemeType

pub record Lexeme : Type 0 where
  pub name : Text
  pub lexeme_type : LexemeType

-- skipSpaces with skipToEoln, which it calls at a comment: `comment` is being in one.
unfoldable pub skip_blank : Bool → Text → Text
skip_blank comment [] = []
skip_blank true (c ∷ cs) = skip_blank (not (c == 10)) cs
skip_blank false (c ∷ cs) = elim (not (c == 0) && leb c 32) [
  | true ↦ skip_blank false cs
  | false ↦ elim (c == b'#' || c == b'-' && get_or cs 0 0 == b'-') [
    | true ↦ skip_blank true cs
    | false ↦ c ∷ cs
  ]
]

unfoldable pub is_alpha : ℕ → Bool
is_alpha ch = leb b'a' (bit_or ch 32) && leb (bit_or ch 32) b'z' || ch == b'_'

unfoldable pub is_digit : ℕ → Bool
is_digit ch = leb b'0' ch && leb ch b'9'

unfoldable pub is_alpha_num : ℕ → Bool
unfolding is_alpha is_digit
is_alpha_num ch = is_alpha ch || is_digit ch

-- The loop of parseIdentifier: the bytes of the name, and the position behind them.
unfoldable pub identifier_end : Text → Text × Text
unfolding is_alpha_num
identifier_end [] = ([], [])
identifier_end (c ∷ cs) =
    let r = identifier_end cs in if is_alpha_num c then (c ∷ r.0, r.1) else ([], c ∷ cs)

abbrev pub lexeme : LexemeType → Text → Lexeme
lexeme type name = record { name = name; lexeme_type = type }

unfoldable pub parse_identifier : ℕ → Text → Lexeme × Text
unfolding identifier_end
parse_identifier c cs = let r = identifier_end cs in (lexeme identifier (c ∷ r.0), r.1)

-- parseNextLexeme behind spaces and comments; the name of an attribute's lexeme is a comma.
unfoldable pub lexeme_at : Text → Lexeme × Text
unfolding parse_identifier is_alpha
lexeme_at [] = (lexeme end_of_source [], [])
lexeme_at (c ∷ cs) =
    if c == b'{'
    then (lexeme open_brace (c ∷ []), cs)
    else if c == b'}'
    then (lexeme close_brace (c ∷ []), cs)
    else if c == b'='
    then (lexeme equal (c ∷ []), cs)
    else if c == b','
    then (lexeme comma (c ∷ []), cs)
    else if c == b'@'
    then (lexeme attribute (b',' ∷ []), cs)
    else if is_alpha c
    then parse_identifier c cs
    else (lexeme error [], c ∷ cs)

unfoldable pub parse_next_lexeme : Text → Lexeme × Text
unfolding skip_blank lexeme_at
parse_next_lexeme src = lexeme_at (skip_blank false src)

-- expectComma: whether there is a comma or a closing brace, and the position, which is behind a comma.
abbrev pub comma_behind : LexemeType → Text → Text → Bool × Text
comma_behind close_brace rest src = (true, src)
comma_behind comma rest src = (true, rest)
comma_behind end_of_source rest src = (false, src)
comma_behind error rest src = (false, src)
comma_behind open_brace rest src = (false, src)
comma_behind equal rest src = (false, src)
comma_behind attribute rest src = (false, src)
comma_behind identifier rest src = (false, src)

unfoldable pub expect_comma : Text → Bool × Text
unfolding parse_next_lexeme
expect_comma src = let r = parse_next_lexeme src in comma_behind r.0.lexeme_type r.1 src

-- The count of open braces behind a lexeme.
abbrev pub braces : LexemeType → ℤ → ℤ
braces open_brace cnt = cnt +ℤ pos 1
braces close_brace cnt = cnt -ℤ pos 1
braces end_of_source cnt = cnt
braces error cnt = cnt
braces equal cnt = cnt
braces attribute cnt = cnt
braces identifier cnt = cnt
braces comma cnt = cnt

abbrev pub is_end : LexemeType → Bool
is_end end_of_source = true
is_end _ = false

-- The loop of skipToEndBlock with a lexeme and the position behind it, on fuel: `none` is a loop that has
-- not ended.
unfoldable pub block_loop : ℕ → LexemeType → Text → ℤ → Option (Bool × Text)
unfolding parse_next_lexeme
block_loop zero lx src cnt = none
block_loop (suc fuel) lx src cnt =
    let r = parse_next_lexeme src in
    elim (is_end lx) [
      | true ↦ some (false, src)
      | false ↦ elim (eqb_ℤ (braces lx cnt) (pos 0)) [
        | true ↦ some (true, src)
        | false ↦ block_loop fuel r.0.lexeme_type r.1 (braces lx cnt)
      ]
    ]

unfoldable pub skip_to_end_block : ℕ → Text → Option (Bool × Text)
unfolding block_loop parse_next_lexeme
skip_to_end_block fuel src =
    let r = parse_next_lexeme src in block_loop fuel r.0.lexeme_type r.1 (pos 0)

-- errorLine, of the text up to the position.
abbrev pub line_ends : Text → ℕ
line_ends [] = 0
line_ends (c ∷ cs) = if c == 10 then suc (line_ends cs) else line_ends cs

unfoldable pub error_line : Text → ℕ
error_line text = line_ends text + 1

-- stringToBool
unfoldable pub string_to_bool : Text → Option Bool
unfolding text_eq
string_to_bool si =
    if text_eq si (b't' ∷ b'r' ∷ b'u' ∷ b'e' ∷ [])
    then some true
    else if text_eq si (b'f' ∷ b'a' ∷ b'l' ∷ b's' ∷ b'e' ∷ [])
    then some false
    else if text_eq si (b'y' ∷ b'e' ∷ b's' ∷ [])
    then some true
    else if text_eq si (b'n' ∷ b'o' ∷ [])
    then some false
    else if text_eq si (b'1' ∷ [])
    then some true
    else if text_eq si (b'0' ∷ [])
    then some false
    else none
