-- ===== src/Allocator/Refused.antt =====
-- Where papuga_Allocator_alloc of src/allocator.c takes sizes that it cannot serve. `1<<31` is meant as an
-- upper bound, but is negative as an `int`, so that sizes up to nearly 2 ^ 64 pass the test.
use papuga.Prelude.{
  ℕ, ◌+◌, ◌-◌, ◌%◌, ◌^◌, ◌≤◌, ◌<◌, ◌≡◌, ◌∙◌, ap, refl, true, false, Option, none, some, leb, arith,
}
use papuga.Allocator.{
  Allocator, Heap, alloc, alloc_in, alloc_new, alloc_block, is_refused, is_power_of_two,
  used_alignment, get_pointer_align_incr, double_until, std_block_size,
}
use papuga.Allocator.Align.{get_pointer_align_incr-aligns}
use papuga.Allocator.Growth.{double_until-stuck}

one_is_power : is_power_of_two 1 ≡ true
unfolding is_power_of_two
one_is_power = refl

byte_accepted :
    (blocksize : ℕ) → 0 < blocksize → blocksize < 2 ^ 64 - 2 ^ 31 → is_refused blocksize 1 ≡ false
unfolding is_refused
byte_accepted blocksize lo hi = rw one_is_power (ground arith)

no_gap : (ptr ofs : ℕ) → get_pointer_align_incr ptr ofs 1 ≡ 0
no_gap ptr ofs = omega (arith, (get_pointer_align_incr-aligns ptr ofs 0 (omega arith)).0)

in_place :
    (heap : Heap) (h : heap.State) (a : Allocator) (ar n : ℕ)
    → a.root.arsize + n ≤ a.root.allocsize
    → a.root.allocsize < 2 ^ 32
    → alloc_in heap h a ar (2 ^ 32 + n) 1
      ≡ some (
        some (ar + a.root.arsize),
        h,
        record a { root = record a.root { arsize = a.root.arsize + n } },
      )
unfolding alloc_in
in_place heap h a ar n fits small =
    let cut : (2 ^ 32 + n + 0) % 2 ^ 32 ≡ n = omega arith in
    let sum : (a.root.arsize + n) % 2 ^ 32 ≡ a.root.arsize + n = omega arith in
    let start : (a.root.arsize + 0) % 2 ^ 32 ≡ a.root.arsize = omega arith in
    let room : leb (a.root.arsize + n) a.root.allocsize ≡ true = ground arith in
    rw (no_gap ar a.root.arsize) (rw cut (rw sum (rw start (rw room))))

-- A call for 2 ^ 32 + n bytes without an alignment, of an allocator with memory for n bytes but not more
-- than 2 ^ 32 in its root: it gives a place in this memory, and marks n bytes of it as used.
pub alloc_overrun :
    (heap : Heap) (h : heap.State) (a : Allocator) (ar n : ℕ)
    → a.root.ar ≡ some ar
    → a.root.arsize + n ≤ a.root.allocsize
    → a.root.allocsize < 2 ^ 32
    → alloc heap h a (2 ^ 32 + n) 1
      ≡ some (
        some (ar + a.root.arsize),
        h,
        record a { root = record a.root { arsize = a.root.arsize + n } },
      )
unfolding alloc alloc_block used_alignment
alloc_overrun heap h a ar n e fits small =
    rw (byte_accepted (2 ^ 32 + n) (omega arith) (omega arith)) (
      ap (λ (o : Option ℕ). alloc_block heap h a o (2 ^ 32 + n) 1) e
      ∙ rw (in_place heap h a ar n fits small, alloc_block))

never :
    (blocksize : ℕ)
    → 2 ^ 31 ≤ blocksize
    → blocksize < 2 ^ 64 - 2 ^ 31
    → (fuel : ℕ) → double_until fuel ((blocksize + 1) % 2 ^ 64) std_block_size ≡ none
never blocksize lo hi fuel =
    double_until-stuck fuel ((blocksize + 1) % 2 ^ 64) 12 (omega arith) (omega arith)

-- A call for 2 ^ 31 bytes or more, but less than 2 ^ 64 - 2 ^ 31, with the alignment 1, of an allocator whose
-- root has no memory: it is not refused, and the loop that doubles the size of the new block does not end,
-- whatever number of rounds it gets.
pub alloc_no_end :
    (heap : Heap) (h : heap.State) (a : Allocator) (blocksize : ℕ)
    → a.root.ar ≡ none
    → 2 ^ 31 ≤ blocksize
    → blocksize < 2 ^ 64 - 2 ^ 31
    → (is_refused blocksize 1 ≡ false)
      × (alloc heap h a blocksize 1 ≡ none)
      × ((fuel : ℕ) → double_until fuel ((blocksize + 1) % 2 ^ 64) std_block_size ≡ none)
unfolding alloc alloc_block alloc_new used_alignment
alloc_no_end heap h a blocksize e lo hi = (
  byte_accepted blocksize (omega arith) hi,
  rw (byte_accepted blocksize (omega arith) hi)
      (rw (e, alloc_block) (rw (never blocksize lo hi 20, alloc_new))),
  never blocksize lo hi,
)
