-- ===== src/Allocator/Align.antt =====
-- The alignment of pointers in src/allocator.c.
use native.Mathlib.Nat.{div-add-mod, mod-lt, one-le-pow}
use papuga.Prelude.{
  ℕ, zero, suc, ◌+◌, ◌-◌, ◌/◌, ◌%◌, ◌^◌, ◌≤◌, ◌<◌, ◌≡◌, ◌≢◌, refl, Bool, true, false, ◌||◌, not,
  leb, ◌==◌, if◌then◌else◌, bit_and, arith, inl, inr, Bool-cases,
}
use papuga.Prelude.Bits.{bit_and_low}
use papuga.Prelude.Bytes.{on_bytes, every_byte}
use papuga.Allocator.{is_power_of_two, is_refused, used_alignment, get_pointer_align_incr}

abbrev pub pow_cases : ℕ → Bool
pow_cases c = c == 1 || (c == 2 || (c == 4 || (c == 8 || (c == 16 || (c == 32 || c == 64)))))

abbrev accepted : ℕ → Bool
accepted c = not (is_power_of_two c) || (c == 0 || (leb 65 c || pow_cases c))

every_accepted : on_bytes accepted ≡ true
unfolding on_bytes is_power_of_two
every_accepted = refl

exponent : ℕ → ℕ
exponent c =
    if c == 1
    then 0
    else if c == 2
    then 1
    else if c == 4
    then 2
    else if c == 8
    then 3
    else if c == 16
    then 4
    else if c == 32
    then 5
    else 6

exponent_lem : (c : ℕ) → pow_cases c ≡ true → (exponent c ≤ 6) × (c ≡ 2 ^ exponent c)
unfolding exponent
exponent_lem c h = ground arith

-- The powers of two that are accepted as alignments.
pub power_of_two_cases :
    (a : ℕ) → is_power_of_two a ≡ true → a ≢ 0 → a ≤ 64 → (k : ℕ) × (k ≤ 6) × (a ≡ 2 ^ k)
power_of_two_cases a p n le =
    let every : accepted a ≡ true = every_byte accepted a every_accepted (omega arith) in
    let cases : pow_cases a ≡ true = ground arith in
    (exponent a, (exponent_lem a cases).0, (exponent_lem a cases).1)

positive : (k : ℕ) → 0 < 2 ^ k
positive k = one-le-pow k 2 (omega arith)

mask : (x k : ℕ) → bit_and x (2 ^ k - 1) ≡ x % 2 ^ k
mask x k =
    bit_and_low x k (x / 2 ^ k) (x % 2 ^ k) (omega (arith, div-add-mod x (2 ^ k)))
      (mod-lt x (positive k))

-- The increment to the next multiple of an alignment.
abbrev gap : ℕ → ℕ → ℕ
gap x a = (a + 2 ^ 32 - x % 2 ^ 32 % a) % 2 ^ 32 % a

incr_lem : (ptr ofs k : ℕ) → get_pointer_align_incr ptr ofs (2 ^ k) ≡ gap (ptr + ofs) (2 ^ k)
unfolding get_pointer_align_incr
incr_lem ptr ofs k = rw (mask, mask)

gap_aligns : (x k : ℕ) → k ≤ 6 → (gap x (2 ^ k) < 2 ^ k) × ((x + gap x (2 ^ k)) % 2 ^ k ≡ 0)
gap_aligns x zero le = omega arith
gap_aligns x (suc zero) le = omega arith
gap_aligns x (suc (suc zero)) le = omega arith
gap_aligns x (suc (suc (suc zero))) le = omega arith
gap_aligns x (suc (suc (suc (suc zero)))) le = omega arith
gap_aligns x (suc (suc (suc (suc (suc zero))))) le = omega arith
gap_aligns x (suc (suc (suc (suc (suc (suc zero)))))) le = omega arith
gap_aligns x (suc (suc (suc (suc (suc (suc (suc k))))))) le = absurd (omega arith)

-- The increment is below the alignment, and brings the pointer to a multiple of it.
pub get_pointer_align_incr-aligns :
    (ptr ofs k : ℕ)
    → k ≤ 6
    → (get_pointer_align_incr ptr ofs (2 ^ k) < 2 ^ k)
      × ((ptr + ofs + get_pointer_align_incr ptr ofs (2 ^ k)) % 2 ^ k ≡ 0)
get_pointer_align_incr-aligns ptr ofs k le = rw (incr_lem ptr ofs k) (gap_aligns (ptr + ofs) k le)

-- What an accepted alignment is.
pub used_alignment_power :
    (blocksize alignment : ℕ)
    → is_refused blocksize alignment ≡ false
    → (k : ℕ) × (k ≤ 6) × (used_alignment alignment ≡ 2 ^ k)
unfolding is_refused used_alignment
used_alignment_power blocksize alignment h = elim (Bool-cases (alignment == 0)) [
  | inl z ↦ (2, omega arith, rw z)
  | inr nz ↦
      let r = power_of_two_cases alignment (ground arith) (ground arith) (ground arith) in
      (r.0, r.1, rw nz r.2)
]

abbrev at_most_64 : ℕ → Bool
at_most_64 k = not (leb k 6) || leb (2 ^ k) 64

every_at_most_64 : on_bytes at_most_64 ≡ true
unfolding on_bytes
every_at_most_64 = refl

pub power-le-64 : (k : ℕ) → k ≤ 6 → 2 ^ k ≤ 64
power-le-64 k le =
    let every : at_most_64 k ≡ true = every_byte at_most_64 k every_at_most_64 (omega arith) in
    ground arith
