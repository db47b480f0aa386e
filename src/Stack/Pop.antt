-- ===== src/Stack/Pop.antt =====
-- papuga_Stack_pop against the slots that a stack holds.
use native.Mathlib.Nat.{suc-mul}
use papuga.Prelude.{
  ℕ, zero, suc, ◌-◌, ◌<◌, ◌≡◌, refl, ◌∙◌, Option, none, some, List, [], ◌∷◌, ◌++◌, arith,
}
use papuga.Stack.{Stack, StackNode, Slot, pop_nodes, pop}
use papuga.Stack.Frames.{node_slots, IsNode, NonEmpty, Frames, none_left, frame, Holds}

-- What the removal of the top element gives.
abbrev PopsNodes : Stack → Option (Option Slot × Stack) → Slot → List Slot → Type 0
PopsNodes s r x xs =
    (nds : List StackNode) × (r ≡ some (some x, record s { nodes = nds; size = s.size - 1 }))
    × Frames s.elemsize s.buf nds xs

pop_last :
    (s : Stack) (nd : StackNode) (n : ℕ) {nds : List StackNode} (x : Slot) {xs ys : List Slot}
    → 0 < s.elemsize
    → IsNode s.elemsize s.buf nd (suc n) nds
    → NonEmpty s.elemsize nds
    → Frames s.elemsize s.buf nds ys
    → x ∷ xs ≡ node_slots s.elemsize nd.address (suc n) ++ ys
    → PopsNodes s (pop_nodes s (nd ∷ nds)) x xs
unfolding pop_nodes
pop_last s nd n {nds} x {xs} {ys} p v full below e = (
  record nd { arsize = nd.arsize - s.elemsize } ∷ nds,
  ground (arith, v, suc-mul n s.elemsize),
  frame _ n
      (record {
        filled = omega (arith, v, suc-mul n s.elemsize);
        fits = omega (arith, v);
        room = v.room;
        small = v.small;
        buf_last = v.buf_last;
        apart = v.apart;
      })
      full below (ground arith),
)

Frames-nil :
    {elemsize : ℕ} {buf : Option ℕ} {nds : List StackNode} {ys : List Slot}
    → Frames elemsize buf nds ys
    → nds ≡ []
    → ys ≡ []
Frames-nil none_left e = refl
Frames-nil (frame _ n v full below h) e = cc

pop_nodes-Pops :
    (s : Stack) (nds : List StackNode) (x : Slot) {xs ys : List Slot}
    → 0 < s.elemsize
    → Frames s.elemsize s.buf nds ys
    → x ∷ xs ≡ ys
    → PopsNodes s (pop_nodes s nds) x xs
unfolding pop_nodes
pop_nodes-Pops s [] x p none_left k = cc
pop_nodes-Pops s (nd ∷ nds) x p (frame _ zero v full below e) k =
    let (nds', r, f) = pop_nodes-Pops s nds x p below (k ∙ e) in
    (nds', ground (arith, v, v.buf_last, Frames-nil below), f)
pop_nodes-Pops s (nd ∷ nds) x p (frame _ (suc n) v full below e) k =
    pop_last s nd n x p v full below (k ∙ e)

-- What a pop gives: the slot held in front, and a stack that holds the others.
abbrev pub Pops : Option (Option Slot × Stack) → Slot → List Slot → Type 0
Pops r x xs = (s' : Stack) × (r ≡ some (some x, s')) × Holds s' xs

-- A pop gives the slot that was pushed last of those held.
pub pop-Holds : (s : Stack) (x : Slot) (xs : List Slot) → Holds s (x ∷ xs) → Pops (pop s) x xs
unfolding pop
pop-Holds s x xs h =
    let (nds, r, f) = pop_nodes-Pops s s.nodes x h.elem_pos h.frames refl in
    (
      record s { nodes = nds; size = s.size - 1 },
      ground (arith, h.counted, r),
      record {
        frames = f;
        counted = ground (arith, h.counted);
        size_small = omega (arith, h.size_small);
        elem_pos = h.elem_pos;
        node_pos = h.node_pos;
        node_small = h.node_small;
      },
    )

-- From an empty stack a pop gives a null pointer and changes nothing.
pub pop-Holds_nil : (s : Stack) → Holds s [] → pop s ≡ some (none, s)
unfolding pop
pop-Holds_nil s h = ground (arith, h.counted)
