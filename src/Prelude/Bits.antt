-- ===== src/Prelude/Bits.antt =====
-- Packed fields: `(t << k) | r` and `x & (2 ^ k - 1)` as sums and remainders.
use Prim.Native.Nat.{min, max, digits, bit_and-bitwise, bit_or-bitwise}
use native.Mathlib.Nat.{pow-suc, one-le-pow}
use native.Mathlib.Decide.{ℕ_discrete}
use papuga.Prelude.{
  ℕ, zero, suc, ◌+◌, ◌-◌, ◌*◌, ◌/◌, ◌%◌, ◌^◌, ◌≤◌, ◌<◌, bit_or, bit_and, ◌≡◌, refl, ap, ◌∙◌, arith,
}

-- The native operations recur on the first number with a count of rounds; rounds beyond that number
-- change nothing.
module _ (last : ℕ → ℕ) (op : ℕ → ℕ → ℕ) where
  one_more :
      (rounds a b : ℕ) → a ≤ rounds → digits last op (suc rounds) a b ≡ digits last op rounds a b
  one_more zero zero b h = refl
  one_more (suc rounds) zero b h = refl
  one_more zero (suc a) b h = elim h [ ]
  one_more (suc rounds) (suc a) b h =
      ap (λ (high : ℕ). high * 2 + op (suc a % 2) (b % 2))
        (one_more rounds (suc a / 2) (b / 2) (omega arith))

  settled : (rounds a b : ℕ) → a ≤ rounds → digits last op rounds a b ≡ digits last op a a b
  settled zero zero b h = refl
  settled zero (suc a) b h = elim h [ ]
  settled (suc rounds) a b h = elim (ℕ_discrete a (suc rounds)) [
    | yes e ↦ rw e
    | no ne ↦ one_more rounds a b (omega arith) ∙ settled rounds a b (omega arith)
  ]

bit_or-suc : (a b : ℕ) → bit_or (suc a) b ≡ bit_or (suc a / 2) (b / 2) * 2 + max (suc a % 2) (b % 2)
bit_or-suc a b = simp bit_or-bitwise (rw (settled (λ y. y) max a (suc a / 2) (b / 2) (omega arith)))

bit_and-suc :
    (a b : ℕ) → bit_and (suc a) b ≡ bit_and (suc a / 2) (b / 2) * 2 + min (suc a % 2) (b % 2)
bit_and-suc a b =
    simp bit_and-bitwise (rw (settled (λ y. 0) min a (suc a / 2) (b / 2) (omega arith)))

bit_or_lowest : (a b : ℕ) → bit_or a b ≡ bit_or (a / 2) (b / 2) * 2 + max (a % 2) (b % 2)
bit_or_lowest zero b = simp bit_or-bitwise (omega arith)
bit_or_lowest (suc a) b = bit_or-suc a b

bit_and_lowest : (a b : ℕ) → bit_and a b ≡ bit_and (a / 2) (b / 2) * 2 + min (a % 2) (b % 2)
bit_and_lowest zero b = simp bit_and-bitwise (omega arith)
bit_and_lowest (suc a) b = bit_and-suc a b

no_digits : (rounds a : ℕ) → digits (λ y. 0) min rounds a 0 ≡ 0
no_digits zero a = refl
no_digits (suc rounds) zero = refl
no_digits (suc rounds) (suc a) = omega (arith, no_digits rounds (suc a / 2))

double_shift : (t k : ℕ) → t * 2 ^ suc k ≡ t * 2 ^ k + t * 2 ^ k
double_shift t k = omega (arith, ap (λ (p : ℕ). t * p) (pow-suc 2 k))

-- `(t << k) | r` for `r` of k digits.
pub bit_or_shift : (t k r : ℕ) → bit_or t 0 ≡ t → r < 2 ^ k → bit_or (t * 2 ^ k) r ≡ t * 2 ^ k + r
bit_or_shift t zero r base h = ground arith
bit_or_shift t (suc k) r base h = ground (
  arith,
  double_shift t k,
  pow-suc 2 k,
  bit_or_lowest (t * 2 ^ suc k) r,
  bit_or_shift t k (r / 2) base (omega (arith, pow-suc 2 k)),
)

-- `x & (2 ^ k - 1)` of a number whose low field is `r`.
pub bit_and_low : (x k t r : ℕ) → x ≡ t * 2 ^ k + r → r < 2 ^ k → bit_and x (2 ^ k - 1) ≡ r
bit_and_low x zero t r e h = ground (arith, bit_and-bitwise x 0, no_digits x x)
bit_and_low x (suc k) t r e h = ground (
  arith,
  double_shift t k,
  pow-suc 2 k,
  one-le-pow k 2,
  bit_and_lowest x (2 ^ suc k - 1),
  bit_and_low (x / 2) k t (r / 2) (omega (arith, double_shift t k)) (omega (arith, pow-suc 2 k)),
)
