-- ===== src/Stack/Frames.antt =====
-- What a stack of src/stack.c holds: the slots of its elements, the last one pushed first.
use papuga.Prelude.{
  ℕ, zero, suc, ◌+◌, ◌*◌, ◌≤◌, ◌<◌, ◌≡◌, ◌≢◌, true, false, Option, List, [], ◌∷◌, ◌++◌, length,
}
use papuga.Prelude.Int.{pos}
use papuga.Stack.{Stack, StackNode, Slot, size_mod, node_header, is_buf}

-- The slots of the first n elements of a node, from the last one down.
abbrev pub node_slots : ℕ → ℕ → ℕ → List Slot
node_slots elemsize address zero = []
node_slots elemsize address (suc n) =
    record { node = address; offset = pos (node_header + n * elemsize) }
    ∷ node_slots elemsize address n

-- No node of the chain stands at the address.
abbrev pub Apart : ℕ → List StackNode → Type 0
Apart address [] = Unit {0}
Apart address (nd ∷ nds) = (nd.address ≢ address) × Apart address nds

-- A node with n elements that has room for one, in a chain above the nodes `below`.
pub record IsNode (elemsize : ℕ) (buf : Option ℕ) (nd : StackNode) (n : ℕ) (below : List StackNode)
    : Type 0 where
  pub filled : nd.arsize ≡ node_header + n * elemsize
  pub fits : nd.arsize ≤ nd.allocsize
  pub room : node_header + elemsize ≤ nd.allocsize
  pub small : nd.allocsize + elemsize < size_mod
  pub buf_last : is_buf buf nd.address ≡ true → below ≡ []
  pub apart : Apart nd.address below

-- Every node of the chain holds an element.
abbrev pub NonEmpty : ℕ → List StackNode → Type 0
NonEmpty elemsize [] = Unit {0}
NonEmpty elemsize (nd ∷ nds) = (node_header + elemsize ≤ nd.arsize) × NonEmpty elemsize nds

-- The chain `nds` holds the slots `xs`; every node below the top one holds an element.
pub data Frames (elemsize : ℕ) (buf : Option ℕ) : List StackNode → List Slot → Type 0 where
  none_left : Frames elemsize buf [] []
  frame :
      (nd : StackNode) (n : ℕ) {nds : List StackNode} {xs ys : List Slot}
      → IsNode elemsize buf nd n nds
      → NonEmpty elemsize nds
      → Frames elemsize buf nds xs
      → ys ≡ node_slots elemsize nd.address n ++ xs
      → Frames elemsize buf (nd ∷ nds) ys

pub record Holds (s : Stack) (xs : List Slot) : Type 0 where
  pub frames : Frames s.elemsize s.buf s.nodes xs
  pub counted : s.size ≡ length xs
  pub size_small : s.size + 1 < size_mod
  pub elem_pos : 0 < s.elemsize
  pub node_pos : 0 < s.nodesize
  pub node_small : node_header + s.nodesize * s.elemsize + s.elemsize < size_mod

-- What is known of memory that `malloc` hands out: it is not in use.
pub record IsFresh (s : Stack) (address : ℕ) : Type 0 where
  pub not_buf : is_buf s.buf address ≡ false
  pub not_node : Apart address s.nodes
