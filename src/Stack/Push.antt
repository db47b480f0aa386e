-- ===== src/Stack/Push.antt =====
-- papuga_init_Stack and papuga_Stack_push against the slots that a stack holds.
use native.Mathlib.Nat.{suc-mul}
use papuga.Prelude.{
  ℕ, zero, suc, ◌+◌, ◌*◌, ◌%◌, ◌≤◌, ◌<◌, ◌≡◌, refl, ◌⊎◌, inl, inr, true, false, Option, none, some,
  List, [], ◌∷◌, ◌++◌, ltb, arith, Bool-cases,
}
use papuga.Prelude.Int.{pos}
use papuga.Stack.{
  Stack, StackNode, Slot, size_mod, node_header, init_stack, needs_node, push_in_top, push,
}
use papuga.Stack.Frames.{node_slots, IsNode, NonEmpty, Frames, none_left, frame, Holds, IsFresh}

-- A new stack holds nothing.
pub init_stack-Holds :
    (elemsize nodesize buf bufsize : ℕ)
    → 0 < elemsize
    → bufsize + elemsize < size_mod
    → node_header + elemsize < size_mod
    → node_header + nodesize * elemsize + elemsize < size_mod
    → node_header + 128 * elemsize + elemsize < size_mod
    → Holds (init_stack elemsize nodesize buf bufsize) []
unfolding init_stack
init_stack-Holds elemsize nodesize buf bufsize p q r u v =
    elim (Bool-cases (ltb bufsize ((node_header + elemsize) % size_mod))) [
      | inl small ↦
          rw (small, init_stack)
            (record {
              frames = none_left;
              counted = refl;
              size_small = omega arith;
              elem_pos = p;
              node_pos = ground arith;
              node_small = ground arith;
            })
      | inr large ↦
          rw (large, init_stack)
            (record {
              frames =
                  frame _ zero
                    (record {
                      filled = omega arith;
                      fits = ground arith;
                      room = ground arith;
                      small = q;
                      buf_last = λ _. refl;
                      apart = tt;
                    })
                    tt none_left refl;
              counted = refl;
              size_small = omega arith;
              elem_pos = p;
              node_pos = ground arith;
              node_small = ground arith;
            })
    ]

push_in_top-Holds :
    (s : Stack) (nd : StackNode) (n : ℕ) {nds : List StackNode} {xs : List Slot}
    → IsNode s.elemsize s.buf nd n nds
    → NonEmpty s.elemsize nds
    → Frames s.elemsize s.buf nds xs
    → s.size + 2 < size_mod
    → nd.arsize + s.elemsize ≤ nd.allocsize
    → Frames s.elemsize s.buf (record nd { arsize = (nd.arsize + s.elemsize) % size_mod } ∷ nds) (
        record { node = nd.address; offset = pos nd.arsize }
        ∷ (node_slots s.elemsize nd.address n ++ xs))
push_in_top-Holds s nd n v full below small room =
    frame _ (suc n)
      (record {
        filled = omega (arith, v);
        fits = omega (arith, v);
        room = v.room;
        small = v.small;
        buf_last = v.buf_last;
        apart = v.apart;
      })
      full below (rw v.filled)

-- What a push gives: a slot that joins the held ones in front.
abbrev pub Pushes : Option (Option Slot × Stack) → List Slot → Type 0
Pushes r xs = (x : Slot) × (s' : Stack) × (r ≡ some (some x, s')) × Holds s' (x ∷ xs)

push_old-Pushes :
    (s : Stack) (nd : StackNode) {nds : List StackNode} (xs : List Slot)
    → Holds s xs
    → s.nodes ≡ nd ∷ nds
    → s.size + 2 < size_mod
    → needs_node s.elemsize (nd ∷ nds) ≡ false
    → Pushes (push_in_top s (nd ∷ nds)) xs
unfolding needs_node push_in_top
push_old-Pushes s nd {nds} xs h e small room = go nds (rw e at h.frames)
  where
    go :
        (nds : List StackNode)
        → Frames s.elemsize s.buf (nd ∷ nds) xs
        → Pushes (push_in_top s (nd ∷ nds)) xs
    go nds (frame _ n v full below e) = (
      _,
      _,
      refl,
      record {
        frames = rw e (push_in_top-Holds s nd n v full below small (ground (arith, v)));
        counted = ground (arith, h.counted);
        size_small = ground arith;
        elem_pos = h.elem_pos;
        node_pos = h.node_pos;
        node_small = h.node_small;
      },
    )

-- A chain whose top node is full has only nodes that hold an element.
full-NonEmpty :
    (elemsize : ℕ) (buf : Option ℕ) (nds : List StackNode) {xs : List Slot}
    → 0 < elemsize
    → Frames elemsize buf nds xs
    → needs_node elemsize nds ≡ true
    → NonEmpty elemsize nds
unfolding needs_node
full-NonEmpty elemsize buf [] p none_left h = tt
full-NonEmpty elemsize buf (nd ∷ nds) p (frame _ zero v full below e) h = (ground (arith, v), full)
full-NonEmpty elemsize buf (nd ∷ nds) p (frame _ (suc n) v full below e) h =
    (omega (arith, v, suc-mul n elemsize), full)

le-mul : (n e : ℕ) → 0 < n → e ≤ n * e
le-mul zero e p = elim p [ ]
le-mul (suc n) e p = omega (arith, suc-mul n e)

-- A node of the default size has room for an element.
room :
    (s : Stack) {xs : List Slot}
    → Holds s xs
    → node_header + s.elemsize ≤ (node_header + s.nodesize * s.elemsize) % size_mod
room s h = omega (arith, h, le-mul s.nodesize s.elemsize h.node_pos)

push_new-Pushes :
    (s : Stack) (xs : List Slot) (address : ℕ)
    → Holds s xs
    → s.size + 2 < size_mod
    → IsFresh s address
    → needs_node s.elemsize s.nodes ≡ true
    → Pushes (push (some address) s) xs
unfolding push push_in_top
push_new-Pushes s xs address h small fresh full =
    rw (full, push)
      (
        _,
        _,
        refl,
        record {
          frames =
              push_in_top-Holds s
                (record {
                  address = address;
                  allocsize = (node_header + s.nodesize * s.elemsize) % size_mod;
                  arsize = node_header;
                })
                zero
                (record {
                  filled = omega arith;
                  fits = omega (arith, h);
                  room = room s h;
                  small = omega (arith, h);
                  buf_last = λ e. cc fresh.not_buf;
                  apart = fresh.not_node;
                })
                (full-NonEmpty s.elemsize s.buf s.nodes h.elem_pos h.frames full) h.frames small
                (room s h);
          counted = ground (arith, h.counted);
          size_small = ground arith;
          elem_pos = h.elem_pos;
          node_pos = h.node_pos;
          node_small = h.node_small;
        },
      )

-- A push gives a slot that joins the held ones in front, or, if `malloc` is called and fails, a null
-- pointer and an unchanged stack.
pub push-Holds :
    (malloc : Option ℕ) (s : Stack) (xs : List Slot)
    → Holds s xs
    → s.size + 2 < size_mod
    → ((address : ℕ) → malloc ≡ some address → IsFresh s address)
    → Pushes (push malloc s) xs ⊎ ((malloc ≡ none) × (push malloc s ≡ some (none, s)))
unfolding push
push-Holds malloc s xs h small fresh = elim (Bool-cases (needs_node s.elemsize s.nodes)) [
  | inl full ↦ go malloc fresh full
  | inr roomy ↦ inl (rw (roomy, push) (old s.nodes refl roomy))
]
  where
    go :
        (m : Option ℕ)
        → ((address : ℕ) → m ≡ some address → IsFresh s address)
        → needs_node s.elemsize s.nodes ≡ true
        → Pushes (push m s) xs ⊎ ((m ≡ none) × (push m s ≡ some (none, s)))
    go none fresh full = inr (refl, rw full)
    go (some address) fresh full =
        inl (push_new-Pushes s xs address h small (fresh address refl) full)

    old :
        (nds : List StackNode)
        → s.nodes ≡ nds
        → needs_node s.elemsize nds ≡ false
        → Pushes (push_in_top s nds) xs
    old [] e r = cc
    old (nd ∷ nds) e r = push_old-Pushes s nd xs h e small r
