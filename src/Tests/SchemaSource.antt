-- ===== src/Tests/SchemaSource.antt =====
-- The lexer of src/schema.cpp on concrete inputs.
use papuga.Prelude.{◌≡◌, refl, true, none, some, [], ◌∷◌}
use papuga.Prelude.Int.{◌+ℤ◌, ◌-ℤ◌}
use papuga.Request.Description.Expression.{Text}
use papuga.SchemaSource.{
  error, identifier, lexeme, parse_next_lexeme, expect_comma, skip_to_end_block, error_line,
  string_to_bool,
}
use papuga.SchemaSource.Blocks.{skip_to_end_block-none}

-- A comment and a name: "--x\n a1="
parse_next_lexeme_run :
    parse_next_lexeme (b'-' ∷ b'-' ∷ b'x' ∷ 10 ∷ b' ' ∷ b'a' ∷ b'1' ∷ b'=' ∷ [])
    ≡ (lexeme identifier (b'a' ∷ b'1' ∷ []), b'=' ∷ [])
unfolding parse_next_lexeme
parse_next_lexeme_run = refl

-- "{a{}}b"
skip_to_end_block_run :
    skip_to_end_block 6 (b'{' ∷ b'a' ∷ b'{' ∷ b'}' ∷ b'}' ∷ b'b' ∷ []) ≡ some (true, b'b' ∷ [])
unfolding skip_to_end_block ◌+ℤ◌ ◌-ℤ◌
skip_to_end_block_run = refl

expect_comma_run : expect_comma (b' ' ∷ b'}' ∷ []) ≡ (true, b' ' ∷ b'}' ∷ [])
unfolding expect_comma
expect_comma_run = refl

error_line_run : error_line (b'a' ∷ 10 ∷ 10 ∷ []) ≡ 3
unfolding error_line
error_line_run = refl

string_to_bool_run : string_to_bool (b'y' ∷ b'e' ∷ b's' ∷ []) ≡ some true
unfolding string_to_bool
string_to_bool_run = refl

-- "{ 1 }": a number begins no lexeme.
number : Text
number = b' ' ∷ b'1' ∷ b' ' ∷ b'}' ∷ []

number-error : (parse_next_lexeme number).0.lexeme_type ≡ error
unfolding parse_next_lexeme number
number-error = refl

skip_to_end_block-none_example : skip_to_end_block 1000 (b'{' ∷ number) ≡ none
skip_to_end_block-none_example = skip_to_end_block-none 1000 number number-error
