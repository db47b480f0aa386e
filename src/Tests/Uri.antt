-- ===== src/Tests/Uri.antt =====
-- The URI encoder of src/uriEncode.cpp on concrete inputs.
use papuga.ErrorCode.{ok}
use papuga.Prelude.{ℕ, ◌≡◌, refl, true, false, some, List, [], ◌∷◌, replicate, arith}
use papuga.Uri.{
  char_table_rfc3986, char_table_html5, hex, strchr, print_char_encoded, put, put_escape,
  encode_loop, terminate, encode, uri_encode_rfc3986, uri_encode_html5,
}
use papuga.Uri.Decode.{Encodes, uri_encode_rfc3986-Encodes, uri_encode_html5-Encodes}

abbrev input : List ℕ
input = b'a' ∷ b' ' ∷ b'/' ∷ b'%' ∷ []

abbrev buffer : List ℕ
buffer = replicate 12 0xff

encode_rfc3986_run :
    uri_encode_rfc3986 12 input (some (b'/' ∷ [])) buffer
    ≡ some (
      ok,
      record {
        buf = b'a' ∷ b'%' ∷ b'2' ∷ b'0' ∷ b'/' ∷ b'%' ∷ b'2' ∷ b'5' ∷ 0 ∷ replicate 3 0xff;
        bufpos = 8;
      },
    )
unfolding uri_encode_rfc3986 char_table_rfc3986 encode encode_loop print_char_encoded put_escape put
    hex strchr terminate
encode_rfc3986_run = refl

encode_html5_run :
    uri_encode_html5 4 (b'a' ∷ b' ' ∷ []) (some []) (replicate 4 0xff)
    ≡ some (ok, record { buf = b'a' ∷ b'+' ∷ 0 ∷ 0xff ∷ []; bufpos = 2 })
unfolding uri_encode_html5 char_table_html5 encode encode_loop print_char_encoded put_escape put hex
    strchr terminate
encode_html5_run = refl

uri_encode_rfc3986-Encodes_example :
    Encodes false char_table_rfc3986 12
      (b'/' ∷ [])
      input
      (uri_encode_rfc3986 12 input (some (b'/' ∷ [])) buffer)
unfolding strchr
uri_encode_rfc3986-Encodes_example =
    uri_encode_rfc3986-Encodes 12 (b'/' ∷ []) input buffer refl (omega arith) (omega arith)
      (omega arith)

uri_encode_html5-Encodes_example :
    Encodes true char_table_html5 12 [] input (uri_encode_html5 12 input (some []) buffer)
unfolding strchr
uri_encode_html5-Encodes_example =
    uri_encode_html5-Encodes 12 [] input buffer refl refl (omega arith) (omega arith) (omega arith)
