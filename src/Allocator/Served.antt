-- ===== src/Allocator/Served.antt =====
-- The blocks that papuga_Allocator_alloc of src/allocator.c gives lie in the allocator's memory, and no two
-- of them overlap.
use mathlib.Core.Path.{subst}
use papuga.Prelude.{
  ℕ, ◌+◌, ◌%◌, ◌^◌, ◌≤◌, ◌<◌, ◌≡◌, ◌≢◌, ◌⊎◌, inl, inr, refl, sym, Bool, true, false, Option, none,
  some, List, ◌∷◌, arith, leb, if◌then◌else◌, Bool-cases, Option-cases,
}
use papuga.Allocator.{
  AllocatorNode, Allocator, Reference, Heap, alloc, alloc_in, alloc_new, alloc_sized, alloc_behind,
  alloc_block, is_refused, used_alignment, get_pointer_align_incr, double_until, no_memory_node,
  std_block_size, Allocated,
}
use papuga.Allocator.Align.{get_pointer_align_incr-aligns, used_alignment_power, power-le-64}
use papuga.Allocator.Growth.{Suffices, double_until-Suffices}
use papuga.Allocator.Blocks.{
  IsHeap, Serves, Apart, WithinAny, nodes-Apart, fresh_from_all, owns_kept, blocks-Apart,
  within_mono,
}

-- `malloc` and `calloc` always succeed.
abbrev pub NeverFails : Heap → Type 0
NeverFails heap =
    ((h : heap.State) (n : ℕ) → heap.malloc h n ≢ none) × ((h : heap.State) → heap.calloc h ≢ none)

plus_zero : (x : ℕ) → x + 0 ≡ x
plus_zero x = omega arith

-- What a call gives: a new block besides the others, at a multiple of the alignment, or none if its
-- arguments were refused or the heap has failed.
module _ (heap : Heap) (laws : IsHeap heap) (blocks : List (ℕ × ℕ)) (blocksize alignment : ℕ)
    (refused : Bool) where
  abbrev pub Gives : Option ℕ → heap.State → Allocator → Type 0
  Gives none h a = Serves heap laws h a blocks × ((refused ≡ true) ⊎ ¬ NeverFails heap)
  Gives (some p) h a = Serves heap laws h a ((p, blocksize) ∷ blocks) × (p % alignment ≡ 0)

  -- The loop that doubles the size ends.
  abbrev pub GivesSome : Option (Allocated heap) → Type 0
  GivesSome none = ⊥
  GivesSome (some r) = Gives r.0 r.1 r.2

module _ (heap : Heap) (laws : IsHeap heap) (blocks : List (ℕ × ℕ)) (k blocksize : ℕ) (le : k ≤ 6)
    (bounded : blocksize ≤ 2 ^ 30) where
  abbrev Good : Option (Allocated heap) → Type 0
  Good = GivesSome heap laws blocks blocksize (2 ^ k) false

  -- A root that has no memory.
  module _ (h : heap.State) (next : List AllocatorNode) (reflist : List Reference) (old filled : ℕ)
      (flag : Bool)
      (s : Serves heap laws h
        (record {
          root = record { allocsize = old; arsize = filled; ar = none; allocated = flag };
          next = next;
          reflist = reflist;
        })
        blocks) where
    abbrev bare : Allocator
    bare = record {
      root = record { allocsize = old; arsize = filled; ar = none; allocated = flag };
      next = next;
      reflist = reflist;
    }

    not_in_root : (c : ℕ × ℕ) → WithinAny c (bare.root ∷ next) → WithinAny c next
    not_in_root c (inl w) = elim w [ ]
    not_in_root c (inr w) = w

    sized_some :
        (size ar : ℕ) (h' : heap.State)
        → blocksize + 2 ^ k ≤ size
        → size ≤ 2 ^ 31
        → heap.malloc h size ≡ some (ar, h')
        → Good (
            some (
              some (ar + get_pointer_align_incr ar 0 (2 ^ k)),
              h',
              record bare {
                root = record {
                  allocsize = size;
                  arsize = (get_pointer_align_incr ar 0 (2 ^ k) + blocksize) % 2 ^ 32;
                  ar = some ar;
                  allocated = true;
                };
              },
            ))
    sized_some size ar h' enough small e =
        let incr = get_pointer_align_incr-aligns ar 0 k le in
        (
          record {
            small = small;
            owns = (
              (laws.given h h' size ar e, omega arith),
              owns_kept laws h h' next (λ r. laws.kept_by_malloc h h' size ar r e) s.owns.1,
            );
            root_apart = fresh_from_all laws h h' size ar next e s.owns.1;
            within = (
              inl (omega arith, omega arith),
              within_mono blocks (bare.root ∷ next) _ (λ c w. inr (not_in_root c w)) s.within,
            );
            apart = (
              blocks-Apart (ar + get_pointer_align_incr ar 0 (2 ^ k), blocksize) blocks next
                  (λ c.
                    nodes-Apart laws (ar + get_pointer_align_incr ar 0 (2 ^ k), blocksize) c
                      (ar, size) h next (omega arith) (omega arith) s.owns.1
                      (fresh_from_all laws h h' size ar next e s.owns.1))
                  (within_mono blocks (bare.root ∷ next) next not_in_root s.within),
              s.apart,
            );
          },
          subst (λ (x : ℕ). (x + get_pointer_align_incr ar 0 (2 ^ k)) % 2 ^ k ≡ 0) (plus_zero ar)
              incr.1,
        )

    sized :
        (size : ℕ)
        → blocksize + 2 ^ k ≤ size
        → size ≤ 2 ^ 31
        → Good (some (alloc_sized heap h bare blocksize (2 ^ k) size))
    unfolding alloc_sized
    sized size enough small = elim (Option-cases (heap.malloc h size)) [
      | inl e ↦
          rw (e, alloc_sized)
            (
              record {
                small = small;
                owns = (tt, s.owns.1);
                root_apart = tt;
                within =
                    within_mono blocks (bare.root ∷ next)
                      (record bare.root { allocsize = size; ar = none } ∷ next)
                      (λ c w. inr (not_in_root c w)) s.within;
                apart = s.apart;
              },
              inr (λ never. never.0 h size e),
            )
      | inr ((ar, h'), e) ↦ rw (e, alloc_sized) (sized_some size ar h' enough small e)
    ]

    of_size :
        (size : Option ℕ)
        → Suffices (blocksize + 2 ^ k) size
        → Good (elim size [
          | none ↦ none
          | some n ↦ some (alloc_sized heap h bare blocksize (2 ^ k) n)
        ])
    of_size none e = e
    of_size (some n) e = sized n e.0 e.1

    new : Good (alloc_new heap h bare blocksize (2 ^ k))
    unfolding alloc_new
    new =
        let needed : (blocksize + 2 ^ k) % 2 ^ 64 ≡ blocksize + 2 ^ k =
          omega (arith, power-le-64 k le) in
        of_size (double_until 20 ((blocksize + 2 ^ k) % 2 ^ 64) std_block_size) (
          subst (λ (x : ℕ). Suffices (blocksize + 2 ^ k) (double_until 20 x std_block_size))
            (sym needed)
            (double_until-Suffices 19 12 (blocksize + 2 ^ k) refl
              (omega (arith, power-le-64 k le))))

  -- A root with memory.
  module _ (h : heap.State) (next : List AllocatorNode) (reflist : List Reference)
      (ar allocsize arsize : ℕ) (flag : Bool)
      (s : Serves heap laws h
        (record {
          root = record { allocsize = allocsize; arsize = arsize; ar = some ar; allocated = flag };
          next = next;
          reflist = reflist;
        })
        blocks) where
    abbrev full : Allocator
    full = record {
      root = record { allocsize = allocsize; arsize = arsize; ar = some ar; allocated = flag };
      next = next;
      reflist = reflist;
    }

    abbrev ofs : ℕ
    ofs = get_pointer_align_incr ar arsize (2 ^ k)

    no_wrap :
        ofs < 2 ^ k
        → ((blocksize + ofs) % 2 ^ 32 ≡ blocksize + ofs)
          × ((arsize + ofs) % 2 ^ 32 ≡ arsize + ofs)
          × ((arsize + (blocksize + ofs)) % 2 ^ 32 ≡ arsize + (blocksize + ofs))
    no_wrap lt = omega (arith, power-le-64 k le, s.owns.0.1, s.small)

    longer :
        (c : ℕ × ℕ) (m : ℕ)
        → WithinAny c (full.root ∷ next)
        → WithinAny c (record full.root { arsize = arsize + m } ∷ next)
    longer c m (inl w) = inl (w.0, omega arith)
    longer c m (inr w) = inr w

    behind_used :
        (p n : ℕ) (c : ℕ × ℕ)
        → ar + arsize ≤ p
        → p + n ≤ ar + allocsize
        → WithinAny c (full.root ∷ next)
        → Apart (p, n) c
    behind_used p n c lo hi (inl w) = inr (omega arith)
    behind_used p n c lo hi (inr w) =
        nodes-Apart laws (p, n) c (ar, allocsize) h next (omega arith) hi s.owns.1 s.root_apart w

    room :
        arsize + (blocksize + ofs) ≤ allocsize
        → Good (
            some (
              some (ar + (arsize + ofs)),
              h,
              record full { root = record full.root { arsize = arsize + (blocksize + ofs) } },
            ))
    room fits =
        let incr = get_pointer_align_incr-aligns ar arsize k le in
        (
          record {
            small = s.small;
            owns = ((s.owns.0.0, fits), s.owns.1);
            root_apart = s.root_apart;
            within = (
              inl (omega arith, omega arith),
              within_mono blocks (full.root ∷ next) _ (λ c. longer c (blocksize + ofs)) s.within,
            );
            apart = (
              blocks-Apart (ar + (arsize + ofs), blocksize) blocks (full.root ∷ next)
                  (λ c. behind_used (ar + (arsize + ofs)) blocksize c (omega arith) (omega arith))
                  s.within,
              s.apart,
            );
          },
          subst (λ (x : ℕ). x % 2 ^ k ≡ 0) (omega arith) incr.1,
        )

    behind : Good (alloc_behind heap h full blocksize (2 ^ k))
    unfolding alloc_behind
    behind = elim (Option-cases (heap.calloc h)) [
      | inl e ↦ rw (e, alloc_behind, Good) (s, inr (λ never. never.1 h e))
      | inr (h', e) ↦
          rw (e, alloc_behind, Good)
            (new h' (full.root ∷ next) reflist 0 0 false (record {
              small = omega arith;
              owns = (
                tt,
                owns_kept laws h h' (full.root ∷ next) (λ r. laws.kept_by_calloc h h' r e) s.owns,
              );
              root_apart = tt;
              within =
                  within_mono blocks (full.root ∷ next) (no_memory_node 0 ∷ full.root ∷ next)
                    (λ c w. inr w) s.within;
              apart = s.apart;
            }))
    ]

    in_root :
        ofs < 2 ^ k
        → alloc_in heap h full ar blocksize (2 ^ k) ≡ (
            if leb (arsize + (blocksize + ofs)) allocsize
            then some (
              some (ar + (arsize + ofs)),
              h,
              record full { root = record full.root { arsize = arsize + (blocksize + ofs) } },
            )
            else none)
    unfolding alloc_in
    in_root lt = rw ((no_wrap lt).0) (rw ((no_wrap lt).1) (rw ((no_wrap lt).2)))

    block : Good (alloc_block heap h full (some ar) blocksize (2 ^ k))
    unfolding alloc_block
    block =
        let lt = (get_pointer_align_incr-aligns ar arsize k le).0 in
        elim (Bool-cases (leb (arsize + (blocksize + ofs)) allocsize)) [
          | inl fits ↦ rw (in_root lt, fits, alloc_block, Good) (room (ground arith))
          | inr full_up ↦ rw (in_root lt, full_up, alloc_block, Good) behind
        ]

  any_block :
      (h : heap.State) (next : List AllocatorNode) (reflist : List Reference) (allocsize arsize : ℕ)
      (flag : Bool) (ar : Option ℕ)
      → Serves heap laws h
          (record {
            root = record { allocsize = allocsize; arsize = arsize; ar = ar; allocated = flag };
            next = next;
            reflist = reflist;
          })
          blocks
      → Good (
          alloc_block heap h
            (record {
              root = record { allocsize = allocsize; arsize = arsize; ar = ar; allocated = flag };
              next = next;
              reflist = reflist;
            })
            ar
            blocksize
            (2 ^ k))
  any_block h next reflist allocsize arsize flag none s =
      unfold alloc_block in new h next reflist allocsize arsize flag s
  any_block h next reflist allocsize arsize flag (some ar) s =
      block h next reflist ar allocsize arsize flag s

-- A call of papuga_Allocator_alloc for at most 2 ^ 30 bytes ends. It gives a block at a multiple of the
-- alignment, which lies in the allocator's memory and overlaps none of the blocks given before; or it gives
-- none, and then its arguments were refused or `malloc` or `calloc` can fail.
pub alloc-Serves :
    (heap : Heap) (laws : IsHeap heap) (h : heap.State) (a : Allocator) (blocks : List (ℕ × ℕ))
    (blocksize alignment : ℕ)
    → blocksize ≤ 2 ^ 30
    → Serves heap laws h a blocks
    → GivesSome heap laws blocks blocksize
        (used_alignment alignment)
        (is_refused blocksize alignment)
        (alloc heap h a blocksize alignment)
unfolding alloc
alloc-Serves heap laws h a blocks blocksize alignment bounded s =
    elim (Bool-cases (is_refused blocksize alignment)) [
      | inl e ↦ rw (e, GivesSome) (s, inl e)
      | inr e ↦
          let power = used_alignment_power blocksize alignment e in
          rw (e, power.2)
            (any_block heap laws blocks power.0 blocksize power.1 bounded h a.next a.reflist
              a.root.allocsize a.root.arsize a.root.allocated a.root.ar s)
    ]
