-- ===== src/Uri/Encoded.antt =====
-- What the encoder of src/uriEncode.cpp writes, as a function of the input alone, and the theorem
-- that the loop over the destination buffer writes it.
use mathlib.Core.List.{append_assoc, append-nil}
use papuga.Prelude.{
  ℕ, zero, suc, ◌+◌, ◌/◌, ◌%◌, ◌<◌, ◌≤◌, ◌≡◌, refl, ap, ◌∙◌, ◌⊎◌, inl, inr, Bool, true, false,
  Option, some, List, [], ◌∷◌, ◌++◌, ltb, if◌then◌else◌, length, drop, set, length-append,
  length-drop, arith,
}
use papuga.Uri.{
  hex, strchr, Dest, put, put_escape, print_char_encoded, encode_loop, terminate, encode,
}

-- The bytes that stand for one character.
abbrev pub encoded_char : (ℕ → ℕ) → List ℕ → ℕ → List ℕ
encoded_char ar preserve ch =
    if ltb 0 (ar ch)
    then ar ch ∷ []
    else if strchr preserve ch
    then ch ∷ []
    else b'%' ∷ hex (ch / 16) ∷ hex (ch % 16) ∷ []

unfoldable pub encoded : (ℕ → ℕ) → List ℕ → List ℕ → List ℕ
encoded ar preserve [] = []
encoded ar preserve (ch ∷ input) = encoded_char ar preserve ch ++ encoded ar preserve input

-- A destination with `pre` written and `rest` still as it was.
abbrev pub at : List ℕ → List ℕ → Dest
at pre rest = record { buf = pre ++ rest; bufpos = length pre }

set-append : (pre rest : List ℕ) (x c : ℕ) → set (pre ++ x ∷ rest) (length pre) c ≡ pre ++ c ∷ rest
set-append [] rest x c = refl
set-append (p ∷ pre) rest x c = ap (◌∷◌ p) (set-append pre rest x c)

put-at : (pre rest : List ℕ) (x c : ℕ) → put c (at pre (x ∷ rest)) ≡ some (at (pre ++ c ∷ []) rest)
unfolding put
put-at pre rest x c = ground (
  arith,
  set-append pre rest x c,
  length-append pre (x ∷ rest),
  length-append pre (c ∷ []),
  append_assoc pre (c ∷ []) rest,
)

put_escape-at :
    (pre rest : List ℕ) (x y z ch : ℕ)
    → put_escape ch (at pre (x ∷ y ∷ z ∷ rest))
      ≡ some (at (pre ++ b'%' ∷ hex (ch / 16) ∷ hex (ch % 16) ∷ []) rest)
unfolding put_escape
put_escape-at pre rest x y z ch = rw (put-at pre (y ∷ z ∷ rest) x b'%') (
    rw (put-at (pre ++ b'%' ∷ []) (z ∷ rest) y (hex (ch / 16))) (
      rw (put-at ((pre ++ b'%' ∷ []) ++ hex (ch / 16) ∷ []) rest z (hex (ch % 16)))
        (simp append_assoc)))

drop-length_append :
    (e f rest : List ℕ) → drop (length (e ++ f)) rest ≡ drop (length f) (drop (length e) rest)
drop-length_append [] f rest = refl
drop-length_append (x ∷ e) [] [] = refl
drop-length_append (x ∷ e) (y ∷ f) [] = refl
drop-length_append (x ∷ e) f (r ∷ rest) = drop-length_append e f rest

drop_split :
    (n : ℕ) (xs : List ℕ) → n < length xs → (x : ℕ) × (rest : List ℕ) × (drop n xs ≡ x ∷ rest)
drop_split n [] h = absurd (omega arith)
drop_split zero (x ∷ xs) h = (x, xs, refl)
drop_split (suc n) (x ∷ xs) h = drop_split n xs (omega arith)

drop_tail :
    (n : ℕ) (xs : List ℕ) {x : ℕ} {rest : List ℕ} → drop n xs ≡ x ∷ rest → drop (suc n) xs ≡ rest
drop_tail zero [] e = cc
drop_tail zero (x ∷ xs) e = cc
drop_tail (suc n) [] e = cc
drop_tail (suc n) (x ∷ xs) e = drop_tail n xs e

-- One character is written whole, or refused with nothing written. It is refused only if it leaves
-- less than two bytes of room.
abbrev PrintsAt : (ℕ → ℕ) → ℕ → List ℕ → List ℕ → List ℕ → ℕ → Type 0
PrintsAt ar bufsize preserve pre rest ch =
    let r = print_char_encoded bufsize ch (ar ch) preserve (at pre rest) in
    let e = encoded_char ar preserve ch in
    ((r ≡ some (false, at pre rest)) × (bufsize ≤ length pre + length e + 1))
    ⊎ ((r ≡ some (true, at (pre ++ e) (drop (length e) rest)))
        × (length pre + length e < bufsize)
        × (length e ≤ length rest))

terminate-at :
    (e buf : List ℕ)
    → length e < length buf
    → terminate (at e (drop (length e) buf))
      ≡ some (true, record { buf = e ++ 0 ∷ drop (suc (length e)) buf; bufpos = length e })
unfolding terminate
terminate-at e buf h =
    let (x, rest, split) = drop_split (length e) buf h in
    rw split (
      ground
        (arith, set-append e rest x 0, length-append e (x ∷ rest), drop_tail (length e) buf split))

module _ (ar : ℕ → ℕ) (bufsize : ℕ) (preserve : List ℕ) where
  print_char_encoded-PrintsAt :
      (pre rest : List ℕ) (ch : ℕ)
      → length pre < bufsize
      → bufsize ≤ length pre + length rest
      → PrintsAt ar bufsize preserve pre rest ch
  unfolding print_char_encoded
  print_char_encoded-PrintsAt pre [] ch h k = absurd (omega arith)
  print_char_encoded-PrintsAt pre (x ∷ []) ch h k = ground (arith, put-at pre [] x (ar ch))
  print_char_encoded-PrintsAt pre (x ∷ y ∷ []) ch h k =
      ground (arith, put-at pre (y ∷ []) x (ar ch), put-at pre (y ∷ []) x ch)
  print_char_encoded-PrintsAt pre (x ∷ y ∷ z ∷ rest) ch h k = ground (
    arith,
    put-at pre (y ∷ z ∷ rest) x (ar ch),
    put-at pre (y ∷ z ∷ rest) x ch,
    put_escape-at pre rest x y z ch,
  )

  -- The loop: all of it is written, or it stops at a position within the buffer because the whole
  -- leaves less than two bytes of room.
  abbrev WritesAt : Option (Bool × Dest) → List ℕ → List ℕ → List ℕ → Type 0
  WritesAt r pre rest e =
      ((d : Dest) × (r ≡ some (false, d))
        × (bufsize ≤ length pre + length e + 1)
        × (d.bufpos < bufsize))
      ⊎ ((r ≡ some (true, at (pre ++ e) (drop (length e) rest)))
          × (length pre + length e < bufsize)
          × (length e ≤ length rest))

  WritesAt-append :
      (r : Option (Bool × Dest)) (pre rest e f : List ℕ)
      → length e ≤ length rest
      → WritesAt r (pre ++ e) (drop (length e) rest) f
      → WritesAt r pre rest (e ++ f)
  WritesAt-append r pre rest e f room (inl (d, stops, full, inside)) =
      inl (d, stops, omega (arith, length-append {0} e f, length-append {0} pre e), inside)
  WritesAt-append r pre rest e f room (inr (runs, fits, more)) = inr (
    runs ∙ simp (append_assoc, drop-length_append),
    omega (arith, length-append {0} e f, length-append {0} pre e),
    omega (arith, length-append {0} e f, length-drop {0} (length e) rest),
  )

  encode_loop-WritesAt :
      (input pre rest : List ℕ)
      → length pre < bufsize
      → bufsize ≤ length pre + length rest
      → WritesAt
          (encode_loop ar bufsize preserve input (at pre rest))
          pre
          rest
          (encoded ar preserve input)
  unfolding encode_loop encoded
  encode_loop-WritesAt [] pre rest h k = inr (rw append-nil refl, omega arith, omega arith)
  encode_loop-WritesAt (ch ∷ input) pre rest h k =
      elim (print_char_encoded-PrintsAt pre rest ch h k) [
        | inl (r, full) ↦ inl (
          at pre rest,
          rw (r, encode_loop),
          omega
              (arith, length-append {0} (encoded_char ar preserve ch) (encoded ar preserve input)),
          h,
        )
        | inr (r, fits, room) ↦
            rw (r, encode_loop)
              (WritesAt-append _ pre rest (encoded_char ar preserve ch) (encoded ar preserve input)
                room
                (encode_loop-WritesAt input (pre ++ encoded_char ar preserve ch)
                  (drop (length (encoded_char ar preserve ch)) rest)
                  (omega (arith, length-append {0} pre (encoded_char ar preserve ch)))
                  (omega (
                    arith,
                    length-append {0} pre (encoded_char ar preserve ch),
                    length-drop {0} (length (encoded_char ar preserve ch)) rest,
                  ))))
      ]

  -- `encode` never writes outside of the buffer. It succeeds with the encoded text, a null byte behind
  -- it and the length without that byte, or it fails because the text leaves less than two bytes.
  pub encode_outcome :
      (input buf : List ℕ)
      → 0 < bufsize
      → bufsize ≤ length buf
      → let r = encode ar bufsize preserve input buf in
        let e = encoded ar preserve input in
        ((d : Dest) × (r ≡ some (false, d)) × (bufsize ≤ length e + 1))
        ⊎ ((r ≡ some (true, record { buf = e ++ 0 ∷ drop (suc (length e)) buf; bufpos = length e }))
            × (length e < bufsize))
  unfolding encode
  encode_outcome input buf h k = elim (encode_loop-WritesAt input [] buf h (omega arith)) [
    | inl (d, stops, full, _) ↦ inl (d, rw (stops, encode), omega arith)
    | inr (runs, fits, room) ↦ inr (
      rw (runs, encode) (terminate-at (encoded ar preserve input) buf (omega arith)),
      omega arith,
    )
  ]
