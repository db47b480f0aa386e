-- ===== src/Stack/Events/Distinct.antt =====
-- No two elements of a stack of src/stack.c share a slot.
use papuga.Prelude.{
  ℕ, zero, suc, ◌+◌, ◌*◌, ◌≤◌, ◌<◌, ◌≡◌, ◌≢◌, refl, sym, ap, ◌∙◌, Option, List, [], ◌∷◌, ◌++◌,
  arith,
}
use papuga.Prelude.Int.{pos}
use papuga.Stack.{Stack, StackNode, Slot, node_header}
use papuga.Stack.Frames.{node_slots, Apart, Frames, none_left, frame, Holds}

abbrev pub NotIn : Slot → List Slot → Type 0
NotIn x [] = Unit {0}
NotIn x (y ∷ ys) = (y ≢ x) × NotIn x ys

NotIn-append : (x : Slot) (xs ys : List Slot) → NotIn x xs → NotIn x ys → NotIn x (xs ++ ys)
NotIn-append x [] ys p q = q
NotIn-append x (y ∷ xs) ys p q = (p.0, NotIn-append x xs ys p.1 q)

-- No slot lies in a node that the chain does not have.
NotIn-Apart :
    {elemsize : ℕ} {buf : Option ℕ} {nds : List StackNode} {xs : List Slot} (x : Slot)
    → Apart x.node nds
    → Frames elemsize buf nds xs
    → NotIn x xs
NotIn-Apart x h none_left = tt
NotIn-Apart {elemsize} x h (frame nd n {xs = xs} v full below e) =
    rw e (NotIn-append x (node_slots elemsize nd.address n) xs (other n) (NotIn-Apart x h.1 below))
  where
    other : (n : ℕ) → NotIn x (node_slots elemsize nd.address n)
    other zero = tt
    other (suc n) = (λ e. h.0 (ap (λ s. s.node) e), other n)

mul_lt : (n m e : ℕ) → n < m → 0 < e → n * e < m * e
mul_lt n m e h p = grind arith

NotIn-cong : {x y : Slot} {xs ys : List Slot} → x ∷ xs ≡ y ∷ ys → NotIn y ys → NotIn x xs
NotIn-cong {x} {y} {xs} {ys} e h = let p : x ≡ y = cc in let q : xs ≡ ys = cc in rw p (rw q h)

-- Nor does a slot stand among those below it in its node.
NotIn-node_slots :
    (elemsize address m n : ℕ)
    → 0 < elemsize
    → n ≤ m
    → NotIn
        (record { node = address; offset = pos (node_header + m * elemsize) })
        (node_slots elemsize address n)
NotIn-node_slots elemsize address m zero p h = tt
NotIn-node_slots elemsize address m (suc n) p h = (
  λ e. absurd (ground (arith, mul_lt n m elemsize h p)),
  NotIn-node_slots elemsize address m n p (omega arith),
)

Frames-NotIn :
    {elemsize : ℕ} {buf : Option ℕ} {nds : List StackNode} {ys : List Slot} (x : Slot)
    (xs : List Slot)
    → 0 < elemsize
    → Frames elemsize buf nds ys
    → ys ≡ x ∷ xs
    → NotIn x xs
Frames-NotIn x xs p none_left k = cc
Frames-NotIn x xs p (frame nd zero v full below e) k = Frames-NotIn x xs p below (sym e ∙ k)
Frames-NotIn {elemsize} x xs p (frame nd (suc n) {xs = ys} v full below e) k =
    NotIn-cong (sym k ∙ e) (
      NotIn-append _ (node_slots elemsize nd.address n) ys
        (NotIn-node_slots elemsize nd.address n n p (omega arith)) (NotIn-Apart _ v.apart below))

pub Holds-NotIn : (s : Stack) (x : Slot) (xs : List Slot) → Holds s (x ∷ xs) → NotIn x xs
Holds-NotIn s x xs h = Frames-NotIn x xs h.elem_pos h.frames refl
