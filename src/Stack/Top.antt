-- ===== src/Stack/Top.antt =====
-- papuga_Stack_top against the slots that a stack holds. Where the top node has become empty the
-- function goes to the node below it, but computes the element's place from the fill size of the
-- empty node.
use native.Mathlib.Nat.{suc-mul}
use papuga.Prelude.{
  ℕ, zero, suc, ◌+◌, ◌≤◌, ◌<◌, ◌≡◌, ◌≢◌, refl, ◌∙◌, Option, some, List, [], ◌∷◌, arith,
}
use papuga.Stack.{Stack, StackNode, Slot, size_mod, node_header, last_slot, top_in, top_nodes, top}
use papuga.Stack.Frames.{NonEmpty, Frames, none_left, frame, Holds}

-- The last slot of a node that holds an element.
frame-last :
    {elemsize : ℕ} {buf : Option ℕ} {nd : StackNode} {nds : List StackNode} {x : Slot}
    {ys xs : List Slot}
    → 0 < elemsize
    → Frames elemsize buf (nd ∷ nds) ys
    → x ∷ xs ≡ ys
    → node_header + elemsize ≤ nd.arsize
    → (x ≡ last_slot elemsize nd.address nd.arsize)
      × (node_header + elemsize < size_mod)
      × (nd.arsize < size_mod)
frame-last p (frame _ zero v full below e) k h = absurd (omega (arith, v))
frame-last {elemsize} p (frame _ (suc n) v full below e) k h =
    (ground (arith, v, suc-mul n elemsize), omega (arith, v), omega (arith, v))

frame-le :
    {elemsize : ℕ} {buf : Option ℕ} {nd : StackNode} {nds : List StackNode} {ys : List Slot}
    → Frames elemsize buf (nd ∷ nds) ys
    → nd.arsize ≢ node_header
    → node_header + elemsize ≤ nd.arsize
frame-le (frame _ zero v full below e) ne = absurd (ne (omega (arith, v)))
frame-le {elemsize} (frame _ (suc n) v full below e) ne = omega (arith, v, suc-mul n elemsize)

top_nodes-frame :
    (elemsize : ℕ) {buf : Option ℕ} (nd : StackNode) (nds : List StackNode) {x : Slot}
    {ys xs : List Slot}
    → 0 < elemsize
    → Frames elemsize buf (nd ∷ nds) ys
    → x ∷ xs ≡ ys
    → nd.arsize ≢ node_header
    → top_nodes elemsize (nd ∷ nds) ≡ some (some x)
unfolding top_nodes
top_nodes-frame elemsize nd nds p f k ne =
    let le = frame-le f ne in ground (arith, frame-last p f k le)

-- Two slots counted back from different fill sizes differ.
last_slot-ne : (elemsize a b m n : ℕ) → m ≢ n → last_slot elemsize a m ≢ last_slot elemsize b n
last_slot-ne elemsize a b m n ne h = ne (ground arith)

top_below :
    (elemsize : ℕ) {buf : Option ℕ} (nds : List StackNode) {x : Slot} {ys xs : List Slot}
    → 0 < elemsize
    → NonEmpty elemsize nds
    → Frames elemsize buf nds ys
    → x ∷ xs ≡ ys
    → (y : Slot) × (top_in elemsize node_header nds ≡ some y) × (y ≢ x)
unfolding top_in
top_below elemsize [] p full none_left k = cc
top_below elemsize (nd ∷ nds) {x} p full f k =
    let (last, small, fits) = frame-last p f k full.0 in
    (
      last_slot elemsize nd.address node_header,
      ground arith,
      λ e.
          last_slot-ne elemsize nd.address nd.address node_header nd.arsize (omega (arith, full.0))
            (e ∙ last),
    )

top_nodes_empty :
    (elemsize : ℕ) {buf : Option ℕ} (nd : StackNode) (nds : List StackNode) {x : Slot}
    {ys xs : List Slot}
    → 0 < elemsize
    → Frames elemsize buf (nd ∷ nds) ys
    → x ∷ xs ≡ ys
    → nd.arsize ≡ node_header
    → (y : Slot) × (top_nodes elemsize (nd ∷ nds) ≡ some (some y)) × (y ≢ x)
unfolding top_nodes
top_nodes_empty elemsize nd nds p (frame _ zero v full below e) k empty =
    let (y, found, ne) = top_below elemsize nds p full below (k ∙ e) in (y, ground arith, ne)
top_nodes_empty elemsize nd nds p (frame _ (suc n) v full below e) k empty =
    absurd (omega (arith, v, suc-mul n elemsize))

-- While the top node holds an element, `top` gives the slot pushed last.
pub top-Holds :
    (s : Stack) (nd : StackNode) (nds : List StackNode) (x : Slot) (xs : List Slot)
    → Holds s (x ∷ xs)
    → s.nodes ≡ nd ∷ nds
    → nd.arsize ≢ node_header
    → top s ≡ some (some x)
unfolding top
top-Holds s nd nds x xs h e ne =
    ground
      (arith, h.counted, top_nodes-frame s.elemsize nd nds h.elem_pos (rw e at h.frames) refl ne)

-- Otherwise it gives another place, whatever the stack holds.
pub top_of_empty_node :
    (s : Stack) (nd : StackNode) (nds : List StackNode) (x : Slot) (xs : List Slot)
    → Holds s (x ∷ xs)
    → s.nodes ≡ nd ∷ nds
    → nd.arsize ≡ node_header
    → (y : Slot) × (top s ≡ some (some y)) × (y ≢ x)
unfolding top
top_of_empty_node s nd nds x xs h e empty =
    let (y, found, ne) =
      top_nodes_empty s.elemsize nd nds h.elem_pos (rw e at h.frames) refl empty in
    (y, ground (arith, h.counted, found), ne)
