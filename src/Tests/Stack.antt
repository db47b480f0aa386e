-- ===== src/Tests/Stack.antt =====
-- The stack of src/stack.c on concrete inputs: elements of 4 bytes, one of them in the buffer and one
-- to a node.
use papuga.Prelude.{ℕ, ◌≡◌, ◌≢◌, refl, Option, none, some, List, [], ◌∷◌, arith, ◌⊎◌}
use papuga.Prelude.Int.{pos}
use papuga.Stack.{Stack, StackNode, Slot, init_stack, push, pop_nodes, pop, is_buf, top, top_n}
use papuga.Stack.Frames.{Frames, none_left, frame, Holds, IsFresh}
use papuga.Stack.Push.{Pushes, push-Holds}
use papuga.Stack.Pop.{Pops, pop-Holds}
use papuga.Stack.Top.{top-Holds, top_of_empty_node}
use papuga.Stack.TopN.{top_n_overrun}

abbrev slot : ℕ → ℕ → Slot
slot address offset = record { node = address; offset = pos offset }

abbrev node : ℕ → ℕ → StackNode
node address arsize = record { address = address; allocsize = 28; arsize = arsize }

abbrev stack : List StackNode → ℕ → Stack
stack nodes size = record { nodes = nodes; buf = some 100; elemsize = 4; nodesize = 1; size = size }

-- Two elements pushed, and one popped.
abbrev one : Stack
one = stack (node 100 28 ∷ []) 1

abbrev popped : Stack
popped = stack (node 200 24 ∷ node 100 28 ∷ []) 1

init_stack_run : init_stack 4 1 100 28 ≡ stack (node 100 24 ∷ []) 0
unfolding init_stack
init_stack_run = refl

push_run : push (some 200) one ≡ some (some (slot 200 24), stack (node 200 28 ∷ node 100 28 ∷ []) 2)
unfolding push
push_run = refl

pop_run : pop (stack (node 200 28 ∷ node 100 28 ∷ []) 2) ≡ some (some (slot 200 24), popped)
unfolding pop pop_nodes
pop_run = refl

-- The element lies at offset 24 of the buffer, and `top` gives offset 20.
top_run : top popped ≡ some (some (slot 100 20))
unfolding top
top_run = refl

bottom : Frames 4 (some 100) (node 100 28 ∷ []) (slot 100 24 ∷ [])
bottom =
    frame (node 100 28) 1
      (record {
        filled = refl;
        fits = omega arith;
        room = omega arith;
        small = omega arith;
        buf_last = λ _. refl;
        apart = tt;
      })
      tt none_left refl

one-Holds : Holds one (slot 100 24 ∷ [])
one-Holds = record {
  frames = bottom;
  counted = refl;
  size_small = omega arith;
  elem_pos = omega arith;
  node_pos = omega arith;
  node_small = omega arith;
}

popped-Holds : Holds popped (slot 100 24 ∷ [])
unfolding is_buf
popped-Holds = record {
  frames =
      frame (node 200 24) 0
        (record {
          filled = refl;
          fits = omega arith;
          room = omega arith;
          small = omega arith;
          buf_last = λ e. cc;
          apart = (omega arith, tt);
        })
        (omega arith) bottom refl;
  counted = refl;
  size_small = omega arith;
  elem_pos = omega arith;
  node_pos = omega arith;
  node_small = omega arith;
}

fresh : (address : ℕ) → some 200 ≡ some address → IsFresh one address
unfolding is_buf
fresh address e = record { not_buf = ground arith; not_node = (ground arith, tt) }

push-Holds_example :
    Pushes (push (some 200) one) (slot 100 24 ∷ [])
    ⊎ (◌≡◌ {A = Option ℕ} (some 200) none × (push (some 200) one ≡ some (none, one)))
push-Holds_example = push-Holds (some 200) one (slot 100 24 ∷ []) one-Holds (omega arith) fresh

pop-Holds_example : Pops (pop popped) (slot 100 24) []
pop-Holds_example = pop-Holds popped (slot 100 24) [] popped-Holds

top-Holds_example : top one ≡ some (some (slot 100 24))
top-Holds_example = top-Holds one (node 100 28) [] (slot 100 24) [] one-Holds refl (omega arith)

top_of_empty_node_run : (y : Slot) × (top popped ≡ some (some y)) × (y ≢ slot 100 24)
top_of_empty_node_run =
    top_of_empty_node popped (node 200 24) (node 100 28 ∷ []) (slot 100 24) [] popped-Holds refl
      refl

abbrev wide : Stack
wide = record {
  nodes = record { address = 100; allocsize = 64; arsize = 36 } ∷ [];
  buf = some 100;
  elemsize = 4;
  nodesize = 1;
  size = 3;
}

top_n_overrun_example : top_n 2 (none ∷ none ∷ []) wide ≡ none
top_n_overrun_example =
    top_n_overrun wide (record { address = 100; allocsize = 64; arsize = 36 }) [] 3 2
      (none ∷ none ∷ []) refl refl (omega arith) (omega arith) (omega arith) (omega arith)
      (omega arith) refl
