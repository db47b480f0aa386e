-- ===== src/Tests/RequestParser.antt =====
-- The guesses of src/requestParser.c on concrete documents.
use papuga.Prelude.{◌≡◌, refl, none, some, [], ◌∷◌, arith}
use papuga.RequestParser.{
  utf8, utf16le, content_json, content_xml, guess_content_type, guess_string_encoding,
}
use papuga.RequestParser.Bounds.{marked, guess_content_type-marked}

json_run : guess_content_type (b' ' ∷ b'{' ∷ b'}' ∷ []) ≡ some content_json
unfolding guess_content_type
json_run = refl

xml_run : guess_content_type (b'<' ∷ b'a' ∷ b'/' ∷ b'>' ∷ []) ≡ some content_xml
unfolding guess_content_type
xml_run = refl

-- "<a/>" in UTF-16LE.
utf16le_run : guess_string_encoding (b'<' ∷ 0 ∷ b'a' ∷ 0 ∷ b'/' ∷ 0 ∷ b'>' ∷ 0 ∷ []) ≡ some utf16le
unfolding guess_string_encoding
utf16le_run = refl

-- With one character only the run of null bytes is not ended.
one_utf16le_run : guess_string_encoding (b'1' ∷ 0 ∷ []) ≡ some utf8
unfolding guess_string_encoding
one_utf16le_run = refl

guess_content_type-marked_example : guess_content_type (marked 5) ≡ none
guess_content_type-marked_example = guess_content_type-marked 4 (omega arith)
