-- ===== src/Stack.antt =====
-- The stack of src/stack.c and include/papuga/stack.h. A pointer into a node is the node's address
-- with a byte offset; the nodes of the chain `top`, `top->prev`, ... are a list, top first. Numbers
-- of type `size_t` wrap at 2 ^ 64. A null pointer that is read, or a write outside of an array,
-- is a fault, `none`.
pub mod Frames
pub mod Push
pub mod Pop
pub mod Top
pub mod TopN
pub mod Events
use papuga.Prelude.{
  ℕ, zero, suc, ◌+◌, ◌-◌, ◌*◌, ◌%◌, ◌^◌, Bool, true, false, Option, none, some, List, [], ◌∷◌, ltb,
  leb, ◌==◌, if◌then◌else◌, length, set,
}
use papuga.Prelude.Int.{ℤ, pos, sub_ℕ}

abbrev pub size_mod : ℕ
size_mod = 2 ^ 64

-- sizeof(papuga_StackNode) with 8 byte pointers and sizes.
abbrev pub node_header : ℕ
node_header = 24

pub record StackNode : Type 0 where
  pub address : ℕ
  pub allocsize : ℕ
  pub arsize : ℕ

pub record Stack : Type 0 where
  pub nodes : List StackNode
  pub buf : Option ℕ
  pub elemsize : ℕ
  pub nodesize : ℕ
  pub size : ℕ

-- A pointer to an element: `(char*)node + offset`.
pub record Slot : Type 0 where
  pub node : ℕ
  pub offset : ℤ

-- papuga_init_Stack, with the address of the buffer.
unfoldable pub init_stack : ℕ → ℕ → ℕ → ℕ → Stack
init_stack elemsize nodesize buf bufsize =
    if ltb bufsize ((node_header + elemsize) % size_mod)
    then record { nodes = []; buf = none; elemsize = elemsize; nodesize = per_node; size = 0 }
    else record {
      nodes = record { address = buf; allocsize = bufsize; arsize = node_header } ∷ [];
      buf = some buf;
      elemsize = elemsize;
      nodesize = per_node;
      size = 0;
    }
  where
    per_node : ℕ
    per_node = if nodesize == 0 then 128 else nodesize

-- Whether `!self->top || self->top->arsize + self->elemsize > self->top->allocsize`.
unfoldable pub needs_node : ℕ → List StackNode → Bool
needs_node elemsize [] = true
needs_node elemsize (nd ∷ nds) = ltb nd.allocsize ((nd.arsize + elemsize) % size_mod)

-- The element behind the last one of the top node.
unfoldable pub push_in_top : Stack → List StackNode → Option (Option Slot × Stack)
push_in_top s [] = none
push_in_top s (nd ∷ nds) = some (
  some (record { node = nd.address; offset = pos nd.arsize }),
  record s {
    nodes = record nd { arsize = (nd.arsize + s.elemsize) % size_mod } ∷ nds;
    size = (s.size + 1) % size_mod;
  },
)

-- papuga_Stack_push. The argument is what `malloc` returns if it is called.
unfoldable pub push : Option ℕ → Stack → Option (Option Slot × Stack)
unfolding needs_node push_in_top
push malloc s =
    if needs_node s.elemsize s.nodes
    then elim malloc [
      | none ↦ some (none, s)
      | some address ↦ push_in_top s (new_node address ∷ s.nodes)
    ]
    else push_in_top s s.nodes
  where
    new_node : ℕ → StackNode
    new_node address = record {
      address = address;
      allocsize = (node_header + s.nodesize * s.elemsize) % size_mod;
      arsize = node_header;
    }

-- `(void*)nd == self->buf`
unfoldable pub is_buf : Option ℕ → ℕ → Bool
is_buf none address = false
is_buf (some buf) address = address == buf

-- `((char*)nd) + arsize - self->elemsize`
abbrev pub last_slot : ℕ → ℕ → ℕ → Slot
last_slot elemsize address arsize = record { node = address; offset = sub_ℕ arsize elemsize }

-- The loop of papuga_Stack_pop that frees empty nodes, and what follows it.
unfoldable pub pop_nodes : Stack → List StackNode → Option (Option Slot × Stack)
unfolding is_buf
pop_nodes s [] = none
pop_nodes s (nd ∷ nds) =
    let freed = pop_nodes s nds in
    if nd.arsize == node_header
    then if is_buf s.buf nd.address then some (none, record s { nodes = nd ∷ nds }) else freed
    else if ltb nd.arsize ((node_header + s.elemsize) % size_mod)
    then some (none, record s { nodes = nd ∷ nds })
    else some (
      some (last_slot s.elemsize nd.address nd.arsize),
      record s { nodes = record nd { arsize = nd.arsize - s.elemsize } ∷ nds; size = s.size - 1 },
    )

-- papuga_Stack_pop
unfoldable pub pop : Stack → Option (Option Slot × Stack)
pop s = if s.size == 0 then some (none, s) else pop_nodes s s.nodes

-- The element of papuga_Stack_top: in the node `nds`, but at the fill size of the top node.
top_in : ℕ → ℕ → List StackNode → Option Slot
top_in elemsize top_arsize [] = none
top_in elemsize top_arsize (nd ∷ nds) =
    if ltb nd.arsize ((node_header + elemsize) % size_mod)
    then none
    else some (last_slot elemsize nd.address top_arsize)

top_nodes : ℕ → List StackNode → Option (Option Slot)
unfolding top_in
top_nodes elemsize [] = none
top_nodes elemsize (nd ∷ nds) =
    some (top_in elemsize nd.arsize (if nd.arsize == node_header then nds else nd ∷ nds))

-- papuga_Stack_top
unfoldable pub top : Stack → Option (Option Slot)
unfolding top_nodes
top s = if s.size == 0 then some none else top_nodes s.elemsize s.nodes

-- `buf[ nn-1] = x`, with the index of type `size_t`.
unfoldable pub put_slot : List (Option Slot) → ℕ → Slot → Option (List (Option Slot))
put_slot out nn x =
    let i = (nn + size_mod - 1) % size_mod in
    if ltb i (length out) then some (set out i (some x)) else none

-- The inner loop of papuga_Stack_top_n, which runs until the node is exhausted, whatever `nn` is. Each
-- round takes an element off `arsize`, so more rounds than `arsize` are never run.
unfoldable pub fill_node : ℕ → ℕ → ℕ → ℕ → ℕ → List (Option Slot) → Option (ℕ × List (Option Slot))
unfolding put_slot
fill_node zero elemsize address arsize nn out = some (nn, out)
fill_node (suc rounds) elemsize address arsize nn out =
    elim (ltb arsize ((node_header + elemsize) % size_mod)) [
      | true ↦ some (nn, out)
      | false ↦ elim (put_slot out nn (last_slot elemsize address arsize)) [
        | none ↦ none
        | some out' ↦
            fill_node rounds elemsize address (arsize - elemsize) ((nn + size_mod - 1) % size_mod)
              out'
      ]
    ]

-- The outer loop.
unfoldable pub top_n_nodes :
    ℕ → List StackNode → ℕ → List (Option Slot) → Option (Bool × List (Option Slot))
top_n_nodes elemsize [] nn out = some (nn == 0, out)
top_n_nodes elemsize (nd ∷ nds) nn out = elim (nn == 0) [
  | true ↦ some (true, out)
  | false ↦ elim (fill_node (suc nd.arsize) elemsize nd.address nd.arsize nn out) [
    | none ↦ none
    | some (nn', out') ↦ top_n_nodes elemsize nds nn' out'
  ]
]

-- papuga_Stack_top_n
unfoldable pub top_n : ℕ → List (Option Slot) → Stack → Option (Bool × List (Option Slot))
top_n nn out s = if ltb s.size nn then some (false, out) else elim s.nodes [
  | [] ↦ some (false, out)
  | nd ∷ nds ↦ top_n_nodes s.elemsize (nd ∷ nds) nn out
]
