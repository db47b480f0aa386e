-- ===== src/Allocator.antt =====
-- The memory blocks of src/allocator.c. An address is a number; `malloc` and `calloc` are functions of a
-- state of the heap. A function gives `none` where its loop does not end.
pub mod Align
pub mod Growth
pub mod Blocks
pub mod Served
pub mod Refused
pub mod References
use papuga.Prelude.{
  ℕ, zero, suc, ◌+◌, ◌-◌, ◌*◌, ◌%◌, ◌^◌, Bool, true, false, ◌&&◌, ◌||◌, not, Option, none, some,
  List, [], ◌∷◌, ltb, leb, ◌==◌, if◌then◌else◌, bit_and, length,
}

-- papuga_AllocatorNode; `ar` is its memory, and `none` a null pointer.
pub record AllocatorNode : Type 0 where
  pub allocsize : ℕ
  pub arsize : ℕ
  pub ar : Option ℕ
  pub allocated : Bool

-- papuga_RefType
pub data RefType : Type 0 where
  ref_host_object ref_iterator ref_allocator : RefType

-- An entry of the list of references: the address of the object behind its header, and whether there is
-- something that its destructor has to destroy.
pub record Reference : Type 0 where
  pub ref_type : RefType
  pub object : ℕ
  pub owned : Bool

-- papuga_Allocator: the root, the nodes behind it, and the references.
pub record Allocator : Type 0 where
  pub root : AllocatorNode
  pub next : List AllocatorNode
  pub reflist : List Reference

-- `malloc` and `calloc`, the latter for a node.
pub record Heap : Type 1 where
  pub State : Type 0
  pub malloc : State → ℕ → Option (ℕ × State)
  pub calloc : State → Option State

-- papuga_init_Allocator
unfoldable pub init_allocator : Option ℕ → ℕ → Allocator
init_allocator buf bufsize = record {
  root = record {
    allocsize = bufsize;
    arsize = 0;
    ar = buf;
    allocated = elim buf [ none ↦ true | some p ↦ false ];
  };
  next = [];
  reflist = [];
}

-- isPowerOfTwo, of an `unsigned int`.
unfoldable pub is_power_of_two : ℕ → Bool
is_power_of_two x = bit_and x ((2 ^ 32 - x) % 2 ^ 32) == x

abbrev pub max_align : ℕ
max_align = 64

abbrev pub std_block_size : ℕ
std_block_size = 4096

-- `1<<31` is the least `int`, and as a `size_t` the number that it is compared as.
abbrev pub max_block_size : ℕ
max_block_size = 2 ^ 64 - 2 ^ 31

-- getPointerAlignIncr
unfoldable pub get_pointer_align_incr : ℕ → ℕ → ℕ → ℕ
get_pointer_align_incr ptr ofs alignment =
    let alignofs = bit_and ((ptr + ofs) % 2 ^ 32) (alignment - 1) in
    bit_and ((alignment + 2 ^ 32 - alignofs) % 2 ^ 32) (alignment - 1)

-- The loop that doubles the size of a new block, an `unsigned int`, on fuel.
unfoldable pub double_until : ℕ → ℕ → ℕ → Option ℕ
double_until zero needed allocsize = none
double_until (suc fuel) needed allocsize = elim (ltb allocsize needed) [
  | true ↦ double_until fuel needed ((allocsize * 2) % 2 ^ 32)
  | false ↦ some allocsize
]

-- The alignment that is meant, and whether the arguments are refused.
unfoldable pub used_alignment : ℕ → ℕ
used_alignment alignment = if alignment == 0 then 4 else alignment

unfoldable pub is_refused : ℕ → ℕ → Bool
is_refused blocksize alignment =
    not (alignment == 0)
    && (not (is_power_of_two alignment)
        || ltb max_align alignment
        || blocksize == 0
        || leb max_block_size blocksize)

abbrev pub no_memory_node : ℕ → AllocatorNode
no_memory_node size = record { allocsize = size; arsize = 0; ar = none; allocated = false }

module _ (heap : Heap) where
  -- What papuga_Allocator_alloc gives: a pointer, and the heap and the allocator behind it.
  abbrev pub Allocated : Type 0
  Allocated = Option ℕ × heap.State × Allocator

  -- The block from the memory of a node, if it has room.
  unfoldable pub alloc_in : heap.State → Allocator → ℕ → ℕ → ℕ → Option Allocated
  alloc_in h a ar blocksize alignment =
      let ofs = get_pointer_align_incr ar a.root.arsize alignment in
      let mm = (blocksize + ofs) % 2 ^ 32 in
      if leb ((a.root.arsize + mm) % 2 ^ 32) a.root.allocsize
      then some (
        some (ar + (a.root.arsize + ofs) % 2 ^ 32),
        h,
        record a { root = record a.root { arsize = (a.root.arsize + mm) % 2 ^ 32 } },
      )
      else none

  -- The new block of a given size, for a root without memory.
  unfoldable pub alloc_sized : heap.State → Allocator → ℕ → ℕ → ℕ → Allocated
  alloc_sized h a blocksize alignment size = elim (heap.malloc h size) [
    | none ↦ (none, h, record a { root = record a.root { allocsize = size; ar = none } })
    | some (ar, h') ↦ (
      some (ar + get_pointer_align_incr ar 0 alignment),
      h',
      record a {
        root = record {
          allocsize = size;
          arsize = (get_pointer_align_incr ar 0 alignment + blocksize) % 2 ^ 32;
          ar = some ar;
          allocated = true;
        };
      },
    )
  ]

  -- "Allocate new block", with the rounds that its loop may take.
  unfoldable pub alloc_new : heap.State → Allocator → ℕ → ℕ → Option Allocated
  alloc_new h a blocksize alignment =
      elim (double_until 20 ((blocksize + alignment) % 2 ^ 64) std_block_size) [
        | none ↦ none
        | some size ↦ some (alloc_sized h a blocksize alignment size)
      ]

  -- Where the root has no room: it becomes the first of the other nodes.
  unfoldable pub alloc_behind : heap.State → Allocator → ℕ → ℕ → Option Allocated
  alloc_behind h a blocksize alignment = elim (heap.calloc h) [
    | none ↦ some (none, h, a)
    | some h' ↦
        alloc_new h' (record a { root = no_memory_node 0; next = a.root ∷ a.next }) blocksize
          alignment
  ]

  unfoldable pub alloc_block : heap.State → Allocator → Option ℕ → ℕ → ℕ → Option Allocated
  alloc_block h a none blocksize alignment = alloc_new h a blocksize alignment
  alloc_block h a (some ar) blocksize alignment = elim (alloc_in h a ar blocksize alignment) [
    | some r ↦ some r
    | none ↦ alloc_behind h a blocksize alignment
  ]

  -- papuga_Allocator_alloc
  unfoldable pub alloc : heap.State → Allocator → ℕ → ℕ → Option Allocated
  alloc h a blocksize alignment =
      if is_refused blocksize alignment
      then some (none, h, a)
      else alloc_block h a a.root.ar blocksize (used_alignment alignment)

  -- papuga_Allocator_add_free_mem
  unfoldable pub add_free_mem : heap.State → Allocator → ℕ → Bool × heap.State × Allocator
  add_free_mem h a mem = elim (heap.calloc h) [
    | none ↦ (false, h, a)
    | some h' ↦ (
      true,
      h',
      record a {
        next = record { allocsize = 1; arsize = 1; ar = some mem; allocated = true } ∷ a.next;
      },
    )
  ]

-- papuga_Allocator_shrink_last_alloc; the comparison is one of addresses.
unfoldable pub shrink_last_alloc : Allocator → ℕ → ℕ → ℕ → Bool × Allocator
shrink_last_alloc a ptr oldsize newsize =
    let base : ℕ = elim a.root.ar [ none ↦ zero | some ar ↦ ar ] in
    if ptr == (base + a.root.arsize + 2 ^ 64 - oldsize) % 2 ^ 64 && leb newsize oldsize
    then (
      true,
      record a {
        root = record a.root { arsize = (a.root.arsize + 2 ^ 64 - oldsize + newsize) % 2 ^ 32 };
      },
    )
    else (false, a)
