-- ===== src/Tests/Allocator.antt =====
-- The allocator of src/allocator.c on a heap that gives one region behind the other.
use papuga.Prelude.{
  ℕ, ◌+◌, ◌%◌, ◌^◌, ◌≤◌, ◌≡◌, refl, inl, inr, true, false, Option, none, some, List, [], ◌∷◌, arith,
}
use papuga.Allocator.{
  Allocator, Reference, Heap, ref_host_object, ref_iterator, init_allocator, alloc, alloc_in,
  alloc_new, alloc_sized, alloc_behind, alloc_block, is_refused, used_alignment,
  get_pointer_align_incr, double_until, is_power_of_two, std_block_size,
}
use papuga.Allocator.Blocks.{IsHeap, Serves}
use papuga.Allocator.Served.{GivesSome, alloc-Serves}
use papuga.Allocator.Refused.{alloc_overrun, alloc_no_end}
use papuga.Allocator.References.{
  destroy_object, DestroysFirst, destroy_object-DestroysFirst, placed, alloc_host_object,
  alloc_host_object_misaligned,
}

-- Its state is the first address that is free.
abbrev bump : Heap
bump = record { State = ℕ; malloc = λ h n. some (h, h + n); calloc = λ h. some (h + 40) }

some_pair : (a b c d : ℕ) → ◌≡◌ {A = Option (ℕ × ℕ)} (some (a, b)) (some (c, d)) → (a ≡ c) × (b ≡ d)
some_pair a b c d e = ground arith

some_number : (a b : ℕ) → some a ≡ some b → a ≡ b
some_number a b e = ground arith

abbrev bump-IsHeap : IsHeap bump
bump-IsHeap = record {
  InUse = λ h r. r.0 + r.1 ≤ h;
  fresh = λ h h' n p r e u. inr (omega (arith, (some_pair h (h + n) p h' e).0));
  given = λ h h' n p e. omega (arith, some_pair h (h + n) p h' e);
  kept_by_malloc = λ h h' n p r e u. omega (arith, some_pair h (h + n) p h' e);
  kept_by_calloc = λ h h' r e u. omega (arith, some_number (h + 40) h' e);
}

-- A root of 64 bytes at 96, of which 4 are used.
abbrev small_root : Allocator
small_root = record {
  root = record { allocsize = 64; arsize = 4; ar = some 96; allocated = false };
  next = [];
  reflist = [];
}

small_root-Serves : Serves bump bump-IsHeap 1000 small_root ((96, 4) ∷ [])
small_root-Serves = record {
  small = omega arith;
  owns = ((omega arith, omega arith), tt);
  root_apart = tt;
  within = (inl (omega arith, omega arith), tt);
  apart = (tt, tt);
}

-- 8 bytes at a multiple of 8 from the root, and 100 bytes from a new block.
alloc_run : placed bump (alloc bump 1000 small_root 8 8) ≡ some 104
unfolding alloc alloc_in alloc_block is_refused used_alignment is_power_of_two
    get_pointer_align_incr
alloc_run = refl

alloc_behind_run : placed bump (alloc bump 1000 small_root 100 8) ≡ some 1040
unfolding alloc alloc_in alloc_block alloc_behind alloc_new alloc_sized double_until is_refused
    used_alignment is_power_of_two get_pointer_align_incr
alloc_behind_run = refl

alloc-Serves_example :
    GivesSome bump bump-IsHeap
      ((96, 4) ∷ [])
      100
      (used_alignment 8)
      (is_refused 100 8)
      (alloc bump 1000 small_root 100 8)
alloc-Serves_example =
    alloc-Serves bump bump-IsHeap 1000 small_root ((96, 4) ∷ []) 100 8 (omega arith)
      small_root-Serves

alloc_overrun_example :
    alloc bump 1000 small_root (2 ^ 32 + 5) 1
    ≡ some (
      some (96 + 4),
      1000,
      record small_root { root = record small_root.root { arsize = 4 + 5 } },
    )
alloc_overrun_example = alloc_overrun bump 1000 small_root 96 5 refl (omega arith) (omega arith)

alloc_no_end_example :
    (is_refused (2 ^ 31) 1 ≡ false)
    × (alloc bump 1000 (init_allocator none 0) (2 ^ 31) 1 ≡ none)
    × ((fuel : ℕ) → double_until fuel ((2 ^ 31 + 1) % 2 ^ 64) std_block_size ≡ none)
unfolding init_allocator
alloc_no_end_example =
    alloc_no_end bump 1000 (init_allocator none 0) (2 ^ 31) refl (omega arith) (omega arith)

alloc_host_object_misaligned_run :
    (p : ℕ) × (placed bump (alloc_host_object bump 1000 small_root true) ≡ some p) × (p % 8 ≡ 4)
alloc_host_object_misaligned_run =
    alloc_host_object_misaligned bump 1000 small_root 96 true refl (omega arith) (omega arith)
      (omega arith)

abbrev two_references : List Reference
two_references =
    record { ref_type = ref_iterator; object = 7; owned = true }
    ∷ record { ref_type = ref_host_object; object = 8; owned = true }
    ∷ []

destroy_object-DestroysFirst_example :
    DestroysFirst ref_host_object 8 two_references (destroy_object ref_host_object 8 two_references)
destroy_object-DestroysFirst_example = destroy_object-DestroysFirst ref_host_object 8 two_references
