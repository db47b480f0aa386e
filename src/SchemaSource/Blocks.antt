-- ===== src/SchemaSource/Blocks.antt =====
-- What parseNextLexeme and skipToEndBlock of src/schema.cpp do at a byte that begins no lexeme.
use papuga.Prelude.{
  ℕ, zero, suc, ◌≡◌, refl, sym, ap, ◌∙◌, inl, inr, Bool, true, false, ◌&&◌, ◌||◌, not, none, [],
  ◌∷◌, leb, ◌==◌, get_or, arith, Bool-cases,
}
use papuga.Prelude.Int.{ℤ, pos, ◌+ℤ◌}
use papuga.Request.Keys.{eqb_ℤ}
use papuga.Request.Description.Expression.{Text}
use papuga.SchemaSource.{
  error, Lexeme, lexeme, skip_blank, parse_identifier, lexeme_at, parse_next_lexeme, block_loop,
  skip_to_end_block,
}

stays :
    (c : ℕ) (cs : Text)
    → (not (c == 0) && leb c 32) ≡ false
    → (c == b'#' || c == b'-' && get_or cs 0 0 == b'-') ≡ false
    → skip_blank false (c ∷ cs) ≡ c ∷ cs
unfolding skip_blank
stays c cs e p = rw (e, p, skip_blank) refl

-- Behind spaces and comments there is neither a space nor a comment.
skip_blank_idem :
    (comment : Bool) (s : Text) → skip_blank false (skip_blank comment s) ≡ skip_blank comment s
unfolding skip_blank
skip_blank_idem true [] = refl
skip_blank_idem false [] = refl
skip_blank_idem true (c ∷ cs) = skip_blank_idem (not (c == 10)) cs
skip_blank_idem false (c ∷ cs) = elim (Bool-cases (not (c == 0) && leb c 32)) [
  | inl e ↦ rw (e, skip_blank) (skip_blank_idem false cs)
  | inr e ↦ elim (Bool-cases (c == b'#' || c == b'-' && get_or cs 0 0 == b'-')) [
    | inl p ↦ rw (e, p, skip_blank) (skip_blank_idem true cs)
    | inr p ↦ ap (skip_blank false) (stays c cs e p)
  ]
]

-- At an error the position stays.
lexeme_at-error :
    (s : Text) → (lexeme_at s).0.lexeme_type ≡ error → lexeme_at s ≡ (lexeme error [], s)
unfolding lexeme_at parse_identifier
lexeme_at-error [] h = ground arith
lexeme_at-error (c ∷ cs) h = ground arith

parse_next_lexeme-error :
    (src : Text)
    → (parse_next_lexeme src).0.lexeme_type ≡ error
    → parse_next_lexeme (parse_next_lexeme src).1 ≡ parse_next_lexeme src
unfolding parse_next_lexeme
parse_next_lexeme-error src h =
    let e = lexeme_at-error (skip_blank false src) h in
    rw e (ap lexeme_at (skip_blank_idem false src) ∙ e)

-- The loop has come to an error inside of a block: it goes on with the same lexeme.
stuck :
    (fuel : ℕ) (src : Text) (cnt : ℤ)
    → parse_next_lexeme src ≡ (lexeme error [], src)
    → eqb_ℤ cnt (pos 0) ≡ false
    → block_loop fuel error src cnt ≡ none
unfolding block_loop
stuck zero src cnt h k = refl
stuck (suc fuel) src cnt h k = rw (k, h, block_loop) (stuck fuel src cnt h k)

at_error :
    (fuel : ℕ) (r : Lexeme × Text)
    → r.0.lexeme_type ≡ error
    → parse_next_lexeme r.1 ≡ (lexeme error [], r.1)
    → block_loop fuel r.0.lexeme_type r.1 (pos 1) ≡ none
at_error fuel r h k = rw h (stuck fuel r.1 (pos 1) k refl)

-- Where the first lexeme of a block is an error, skipToEndBlock does not end.
pub skip_to_end_block-none :
    (fuel : ℕ) (src : Text)
    → (parse_next_lexeme src).0.lexeme_type ≡ error
    → skip_to_end_block fuel (b'{' ∷ src) ≡ none
unfolding skip_to_end_block block_loop parse_next_lexeme skip_blank lexeme_at ◌+ℤ◌
skip_to_end_block-none zero src h = refl
skip_to_end_block-none (suc fuel) src h =
    let e = lexeme_at-error (skip_blank false src) h in
    let again = parse_next_lexeme-error src h ∙ e in
    let place = ap (λ (r : Lexeme × Text). r.1) e in
    at_error fuel (parse_next_lexeme src) h
      (again ∙ ap (λ (s : Text). (lexeme error [], s)) (sym place))
