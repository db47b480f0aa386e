-- ===== src/Allocator/Growth.antt =====
-- The loop of papuga_Allocator_alloc in src/allocator.c that doubles the size of a new block.
use papuga.Prelude.{
  ℕ, zero, suc, ◌+◌, ◌*◌, ◌%◌, ◌^◌, ◌≤◌, ◌<◌, ◌≡◌, refl, ◌∙◌, inl, inr, Bool, true, ◌||◌, not,
  Option, none, some, ltb, leb, ◌==◌, arith, Bool-cases,
}
use papuga.Prelude.Bytes.{on_bytes, every_byte}
use papuga.Allocator.{double_until}

abbrev doubles : ℕ → Bool
doubles k = not (ltb k 31) || (2 ^ k * 2) % 2 ^ 32 == 2 ^ suc k

abbrev small : ℕ → Bool
small k = not (ltb k 32) || leb (2 ^ k) (2 ^ 31)

every_doubles : on_bytes doubles ≡ true
unfolding on_bytes
every_doubles = refl

every_small : on_bytes small ≡ true
unfolding on_bytes
every_small = refl

doubled : (k : ℕ) → k < 31 → (2 ^ k * 2) % 2 ^ 32 ≡ 2 ^ suc k
doubled k lt =
    let every : doubles k ≡ true = every_byte doubles k every_doubles (omega arith) in ground arith

pub small_power : (k : ℕ) → k ≤ 31 → 2 ^ k ≤ 2 ^ 31
small_power k le =
    let every : small k ≡ true = every_byte small k every_small (omega arith) in ground arith

-- The loop ends with a size that is needed.
abbrev pub Suffices : ℕ → Option ℕ → Type 0
Suffices needed none = ⊥
Suffices needed (some size) = (needed ≤ size) × (size ≤ 2 ^ 31)

one_round :
    (fuel k needed : ℕ)
    → k < 31
    → ltb (2 ^ k) needed ≡ true
    → double_until (suc fuel) needed (2 ^ k) ≡ double_until fuel needed (2 ^ suc k)
unfolding double_until
one_round fuel k needed lt more = rw (more, double_until) (rw (doubled k lt))

-- Up to 2 ^ 31 bytes there is such a size, reached by doubling without a wrap-around.
pub double_until-Suffices :
    (fuel k needed : ℕ)
    → fuel + k ≡ 31
    → needed ≤ 2 ^ 31
    → Suffices needed (double_until (suc fuel) needed (2 ^ k))
double_until-Suffices zero k needed e le =
    let top : k ≡ 31 = omega arith in unfold double_until in rw (top, Suffices) (ground arith)
double_until-Suffices (suc fuel) k needed e le = elim (Bool-cases (ltb (2 ^ k) needed)) [
  | inr enough ↦
      unfold double_until in rw (enough, Suffices) (ground (arith, small_power k (omega arith)))
  | inl more ↦
      rw (one_round (suc fuel) k needed (omega arith) more)
        (double_until-Suffices fuel (suc k) needed (omega arith) le)
]

-- Beyond 2 ^ 31 the size wraps around to 0 and stays there.
stuck_at_zero : (fuel needed : ℕ) → 0 < needed → double_until fuel needed 0 ≡ none
unfolding double_until
stuck_at_zero zero needed lt = refl
stuck_at_zero (suc fuel) needed lt = ground (arith, stuck_at_zero fuel needed lt)

stuck_at_top : (fuel needed : ℕ) → 2 ^ 31 < needed → double_until fuel needed (2 ^ 31) ≡ none
unfolding double_until
stuck_at_top zero needed lt = refl
stuck_at_top (suc fuel) needed lt = ground (arith, stuck_at_zero fuel needed (omega arith))

pub double_until-stuck :
    (fuel needed k : ℕ) → 2 ^ 31 < needed → k ≤ 31 → double_until fuel needed (2 ^ k) ≡ none
double_until-stuck zero needed k lt le = unfold double_until in refl
double_until-stuck (suc fuel) needed k lt le = elim (Bool-cases (ltb k 31)) [
  | inl below ↦
      one_round fuel k needed (ground arith) (ground (arith, small_power k le))
      ∙ double_until-stuck fuel needed (suc k) lt (ground arith)
  | inr top ↦ let e : k ≡ 31 = ground arith in rw e (stuck_at_top (suc fuel) needed lt)
]
