-- ===== src/Allocator/Blocks.antt =====
-- The blocks that papuga_Allocator_alloc of src/allocator.c gives lie in the allocator's memory, and no two
-- of them overlap.
use papuga.Prelude.{ℕ, ◌+◌, ◌^◌, ◌≤◌, ◌≡◌, ◌⊎◌, inl, inr, Option, none, some, List, [], ◌∷◌, arith}
use papuga.Allocator.{AllocatorNode, Allocator, Heap}

-- Two regions, of address and size, that do not overlap.
abbrev pub Apart : ℕ × ℕ → ℕ × ℕ → Type 0
Apart a b = (a.0 + a.1 ≤ b.0) ⊎ (b.0 + b.1 ≤ a.0)

-- What `malloc` and `calloc` promise: which regions of memory are in use, and that a new one is apart from
-- all of them.
pub record IsHeap (heap : Heap) : Type 1 where
  pub InUse : heap.State → ℕ × ℕ → Type 0
  pub fresh :
      (h h' : heap.State) (n p : ℕ) (r : ℕ × ℕ)
      → heap.malloc h n ≡ some (p, h')
      → InUse h r
      → Apart (p, n) r
  pub given : (h h' : heap.State) (n p : ℕ) → heap.malloc h n ≡ some (p, h') → InUse h' (p, n)
  pub kept_by_malloc :
      (h h' : heap.State) (n p : ℕ) (r : ℕ × ℕ)
      → heap.malloc h n ≡ some (p, h')
      → InUse h r
      → InUse h' r
  pub kept_by_calloc :
      (h h' : heap.State) (r : ℕ × ℕ) → heap.calloc h ≡ some h' → InUse h r → InUse h' r

module _ (heap : Heap) (laws : IsHeap heap) where
  -- The memory of a node is in use, and filled up to at most its size.
  abbrev pub Owns : heap.State → Option ℕ → ℕ → ℕ → Type 0
  Owns h none allocsize arsize = Unit
  Owns h (some p) allocsize arsize = laws.InUse h (p, allocsize) × (arsize ≤ allocsize)

  abbrev pub OwnsAll : heap.State → List AllocatorNode → Type 0
  OwnsAll h [] = Unit
  OwnsAll h (nd ∷ nds) = Owns h nd.ar nd.allocsize nd.arsize × OwnsAll h nds

-- The memory of the root is apart from that of the other nodes.
abbrev pub NodeApart : ℕ × ℕ → Option ℕ → ℕ → Type 0
NodeApart r none allocsize = Unit
NodeApart r (some p) allocsize = Apart r (p, allocsize)

abbrev pub ApartFromAll : ℕ × ℕ → List AllocatorNode → Type 0
ApartFromAll r [] = Unit
ApartFromAll r (nd ∷ nds) = NodeApart r nd.ar nd.allocsize × ApartFromAll r nds

abbrev pub RootApart : Option ℕ → ℕ → List AllocatorNode → Type 0
RootApart none allocsize nds = Unit
RootApart (some p) allocsize nds = ApartFromAll (p, allocsize) nds

-- A block lies in the used memory of a node.
abbrev pub Within : ℕ × ℕ → Option ℕ → ℕ → Type 0
Within b none arsize = ⊥
Within b (some p) arsize = (p ≤ b.0) × (b.0 + b.1 ≤ p + arsize)

abbrev pub WithinAny : ℕ × ℕ → List AllocatorNode → Type 0
WithinAny b [] = ⊥
WithinAny b (nd ∷ nds) = Within b nd.ar nd.arsize ⊎ WithinAny b nds

abbrev pub AllWithin : List (ℕ × ℕ) → List AllocatorNode → Type 0
AllWithin [] nds = Unit
AllWithin (b ∷ bs) nds = WithinAny b nds × AllWithin bs nds

abbrev pub BlockApart : ℕ × ℕ → List (ℕ × ℕ) → Type 0
BlockApart b [] = Unit
BlockApart b (c ∷ cs) = Apart b c × BlockApart b cs

abbrev pub PairwiseApart : List (ℕ × ℕ) → Type 0
PairwiseApart [] = Unit
PairwiseApart (b ∷ bs) = BlockApart b bs × PairwiseApart bs

-- The allocator serves these blocks: they are in its memory, which is in use, and do not overlap.
pub record Serves (heap : Heap) (laws : IsHeap heap) (h : heap.State) (a : Allocator)
    (blocks : List (ℕ × ℕ)) : Type 0 where
  pub small : a.root.allocsize ≤ 2 ^ 31
  pub owns : OwnsAll heap laws h (a.root ∷ a.next)
  pub root_apart : RootApart a.root.ar a.root.allocsize a.next
  pub within : AllWithin blocks (a.root ∷ a.next)
  pub apart : PairwiseApart blocks

-- A block inside of a region that is apart from a node's memory is apart from the blocks there.
inside-Apart :
    (b c r : ℕ × ℕ) (p allocsize arsize : ℕ)
    → r.0 ≤ b.0
    → b.0 + b.1 ≤ r.0 + r.1
    → arsize ≤ allocsize
    → Apart r (p, allocsize)
    → (p ≤ c.0) × (c.0 + c.1 ≤ p + arsize)
    → Apart b c
inside-Apart b c r p allocsize arsize lo hi le (inl x) w = inl (omega arith)
inside-Apart b c r p allocsize arsize lo hi le (inr x) w = inr (omega arith)

module _ {heap : Heap} (laws : IsHeap heap) where
  node-Apart :
      (b c r : ℕ × ℕ) (h : heap.State) (ar : Option ℕ) (allocsize arsize : ℕ)
      → r.0 ≤ b.0
      → b.0 + b.1 ≤ r.0 + r.1
      → Owns heap laws h ar allocsize arsize
      → NodeApart r ar allocsize
      → Within c ar arsize
      → Apart b c
  node-Apart b c r h none allocsize arsize lo hi o n w = elim w [ ]
  node-Apart b c r h (some p) allocsize arsize lo hi o n w =
      inside-Apart b c r p allocsize arsize lo hi o.1 n w

  pub nodes-Apart :
      (b c r : ℕ × ℕ) (h : heap.State) (nds : List AllocatorNode)
      → r.0 ≤ b.0
      → b.0 + b.1 ≤ r.0 + r.1
      → OwnsAll heap laws h nds
      → ApartFromAll r nds
      → WithinAny c nds
      → Apart b c
  nodes-Apart b c r h [] lo hi o n w = elim w [ ]
  nodes-Apart b c r h (nd ∷ nds) lo hi o n (inl w) =
      node-Apart b c r h nd.ar nd.allocsize nd.arsize lo hi o.0 n.0 w
  nodes-Apart b c r h (nd ∷ nds) lo hi o n (inr w) = nodes-Apart b c r h nds lo hi o.1 n.1 w

  -- Memory that was in use when `malloc` gave a region is apart from it.
  node_fresh :
      (h h' : heap.State) (n p : ℕ) (ar : Option ℕ) (allocsize arsize : ℕ)
      → heap.malloc h n ≡ some (p, h')
      → Owns heap laws h ar allocsize arsize
      → NodeApart (p, n) ar allocsize
  node_fresh h h' n p none allocsize arsize e o = tt
  node_fresh h h' n p (some q) allocsize arsize e o = laws.fresh h h' n p (q, allocsize) e o.0

  pub fresh_from_all :
      (h h' : heap.State) (n p : ℕ) (nds : List AllocatorNode)
      → heap.malloc h n ≡ some (p, h')
      → OwnsAll heap laws h nds
      → ApartFromAll (p, n) nds
  fresh_from_all h h' n p [] e o = tt
  fresh_from_all h h' n p (nd ∷ nds) e o =
      (node_fresh h h' n p nd.ar nd.allocsize nd.arsize e o.0, fresh_from_all h h' n p nds e o.1)

  node_kept :
      (h h' : heap.State) (ar : Option ℕ) (allocsize arsize : ℕ)
      → ((r : ℕ × ℕ) → laws.InUse h r → laws.InUse h' r)
      → Owns heap laws h ar allocsize arsize
      → Owns heap laws h' ar allocsize arsize
  node_kept h h' none allocsize arsize keep o = tt
  node_kept h h' (some q) allocsize arsize keep o = (keep (q, allocsize) o.0, o.1)

  pub owns_kept :
      (h h' : heap.State) (nds : List AllocatorNode)
      → ((r : ℕ × ℕ) → laws.InUse h r → laws.InUse h' r)
      → OwnsAll heap laws h nds
      → OwnsAll heap laws h' nds
  owns_kept h h' [] keep o = tt
  owns_kept h h' (nd ∷ nds) keep o =
      (node_kept h h' nd.ar nd.allocsize nd.arsize keep o.0, owns_kept h h' nds keep o.1)

pub blocks-Apart :
    (b : ℕ × ℕ) (bs : List (ℕ × ℕ)) (nds : List AllocatorNode)
    → ((c : ℕ × ℕ) → WithinAny c nds → Apart b c)
    → AllWithin bs nds
    → BlockApart b bs
blocks-Apart b [] nds f w = tt
blocks-Apart b (c ∷ cs) nds f w = (f c w.0, blocks-Apart b cs nds f w.1)

pub within_mono :
    (bs : List (ℕ × ℕ)) (nds nds' : List AllocatorNode)
    → ((c : ℕ × ℕ) → WithinAny c nds → WithinAny c nds')
    → AllWithin bs nds
    → AllWithin bs nds'
within_mono [] nds nds' f w = tt
within_mono (b ∷ bs) nds nds' f w = (f b w.0, within_mono bs nds nds' f w.1)
