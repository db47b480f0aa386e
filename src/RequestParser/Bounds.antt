-- ===== src/RequestParser/Bounds.antt =====
-- Which bytes the guesses of src/requestParser.c read.
use mathlib.Core.Path.{subst}
use papuga.Prelude.{
  ℕ, zero, suc, ◌+◌, ◌≤◌, ◌<◌, ◌≡◌, refl, ap, inl, inr, Bool, true, false, Option, none, some, [],
  ◌∷◌, ◌++◌, ltb, leb, ◌==◌, length, replicate, arith, Bool-cases, Option-cases, length-replicate,
}
use papuga.Request.Description.Expression.{Text}
use papuga.RequestParser.{
  is_binary, header_charset, guess_string_encoding, utf8, HeaderState, at_start, HeaderStep, takes,
  fails, ends_empty, ends, header_step, parse_xml_header, detect_bom, begins_json,
  guess_content_type, header_content,
}

-- Within its bytes.
abbrev pub Reads : {A : Type 0} → Option A → Type 0
Reads none = ⊥
Reads (some a) = Unit

stepped :
    (s : HeaderStep) (go : HeaderState → Option (Bool × Text)) (hdr : Text)
    → ((next : HeaderState) → Reads (go next))
    → Reads (elim s [
      | takes next ↦ go next
      | fails ↦ some (false, [])
      | ends_empty ↦ some (true, [])
      | ends ↦ some (true, hdr)
    ])
stepped (takes next) go hdr h = h next
stepped fails go hdr h = tt
stepped ends_empty go hdr h = tt
stepped ends go hdr h = tt

-- With no more bytes to read than there are, parse_xml_header stays within them.
pub parse_xml_header-Reads :
    (n size : ℕ) (state : HeaderState) (src hdr : Text)
    → n ≤ length src
    → Reads (parse_xml_header n size state src hdr)
unfolding parse_xml_header
parse_xml_header-Reads zero size state src hdr le = tt
parse_xml_header-Reads (suc n) size state [] hdr le = absurd (omega arith)
parse_xml_header-Reads (suc n) size state (c ∷ src) hdr le =
    elim (Bool-cases (ltb (length hdr) size)) [
      | inr e ↦ rw (e, parse_xml_header, Reads) tt
      | inl e ↦ elim (Bool-cases (c == 0)) [
        | inl z ↦
            rw (e, z, parse_xml_header) (parse_xml_header-Reads n size state src hdr (omega arith))
        | inr z ↦ elim (Bool-cases (leb 128 c)) [
          | inl h ↦ rw (e, z, h, parse_xml_header, Reads) tt
          | inr h ↦
              rw (e, z, h, parse_xml_header)
                (stepped (header_step state c)
                  (λ next. parse_xml_header n size next src (hdr ++ (c ∷ []))) hdr
                  (λ next. parse_xml_header-Reads n size next src (hdr ++ (c ∷ [])) (omega arith)))
        ]
      ]
    ]

-- Null bytes are skipped, so with more bytes to read than there are it reads behind them.
parse_xml_header-replicate :
    (n k : ℕ) → n < k → parse_xml_header k 256 at_start (replicate n 0) [] ≡ none
unfolding parse_xml_header
parse_xml_header-replicate n zero lt = absurd (omega arith)
parse_xml_header-replicate zero (suc k) lt = refl
parse_xml_header-replicate (suc n) (suc k) lt = parse_xml_header-replicate n k (omega arith)

begins_json-replicate : (n : ℕ) → begins_json (replicate n 0) ≡ false
unfolding begins_json
begins_json-replicate zero = refl
begins_json-replicate (suc n) = begins_json-replicate n

abbrev pub marked : ℕ → Text
marked n = 0xef ∷ 0xbb ∷ 0xbf ∷ replicate n 0

detect_bom-marked : (n : ℕ) → detect_bom (marked (suc n)) ≡ (utf8, 3)
unfolding detect_bom
detect_bom-marked n =
    let long : ltb (length (marked (suc n))) 4 ≡ false = ground arith in rw (detect_bom, long) refl

-- A document of the UTF-8 mark and at least one null byte, of at most 1024 bytes, makes
-- papuga_guess_ContentType read behind its end.
pub guess_content_type-marked : (n : ℕ) → n + 4 ≤ 1024 → guess_content_type (marked (suc n)) ≡ none
unfolding guess_content_type
guess_content_type-marked n le =
    let small : ltb 1024 (length (marked (suc n))) ≡ false =
      ground (arith, length-replicate {A = ℕ} n 0) in
    let size = length (marked (suc n)) in
    rw (guess_content_type, small, detect_bom-marked n, begins_json-replicate (suc n))
      (ap header_content
        (parse_xml_header-replicate (suc n) size (omega (arith, length-replicate {A = ℕ} n 0))))

header_charset-Reads : (r : Option (Bool × Text)) → Reads r → Reads (header_charset r)
header_charset-Reads none h = h
header_charset-Reads (some r) h = tt

-- papuga_guess_StringEncoding stays within its bytes.
guess_string_encoding-Reads : (src : Text) → Reads (guess_string_encoding src)
unfolding guess_string_encoding
guess_string_encoding-Reads src =
    let header = parse_xml_header (length src) 256 at_start src [] in
    let inside =
      header_charset-Reads header
        (parse_xml_header-Reads (length src) 256 at_start src [] (omega arith)) in
    elim (Bool-cases (is_binary (detect_bom src).0)) [
      | inr e ↦ rw (e, guess_string_encoding, Reads) tt
      | inl e ↦ elim (Option-cases (header_charset header)) [
        | inl q ↦ absurd (subst Reads q inside)
        | inr (x, q) ↦ rw (e, q, guess_string_encoding, Reads) tt
      ]
    ]
