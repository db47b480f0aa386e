-- ===== src/Tests/Events.antt =====
-- The class EventStack of src/request.cpp on concrete inputs.
use papuga.Prelude.{ℕ, ◌≡◌, refl, Option, none, some, [], ◌∷◌, arith, ◌⊎◌}
use papuga.Prelude.Int.{pos}
use papuga.Stack.{Slot, init_stack}
use papuga.Stack.Frames.{IsFresh, none_left, frame}
use papuga.Stack.Events.{
  EventStack, HoldsEvents, init_event_stack, push_event, pop_event, init_event_stack-HoldsEvents,
  push_event-HoldsEvents, pop_event-HoldsEvents,
}

abbrev zeroes : Slot → ℕ
zeroes x = 0

abbrev empty : EventStack
empty = init_event_stack 100 zeroes

no_malloc : (address : ℕ) → none ≡ some address → IsFresh empty.stk address
no_malloc address e = cc

push_event-HoldsEvents_example :
    ((s' : EventStack) × (push_event none 7 empty ≡ some (some s')) × HoldsEvents s' (7 ∷ []))
    ⊎ (◌≡◌ {A = Option ℕ} none none × (push_event none 7 empty ≡ some none))
unfolding init_event_stack init_stack
push_event-HoldsEvents_example =
    push_event-HoldsEvents none 7 empty [] (init_event_stack-HoldsEvents 100 zeroes) (omega arith)
      no_malloc

abbrev seven : EventStack
seven = record {
  stk = record {
    nodes = record { address = 100; allocsize = 1024; arsize = 28 } ∷ [];
    buf = some 100;
    elemsize = 4;
    nodesize = 256;
    size = 1;
  };
  mem = λ x. 7;
}

seven-HoldsEvents : HoldsEvents seven (7 ∷ [])
seven-HoldsEvents = record {
  slots = record { node = 100; offset = pos 24 } ∷ [];
  stack = record {
    frames =
        frame _ 1
          (record {
            filled = refl;
            fits = omega arith;
            room = omega arith;
            small = omega arith;
            buf_last = λ _. refl;
            apart = tt;
          })
          tt none_left refl;
    counted = refl;
    size_small = omega arith;
    elem_pos = omega arith;
    node_pos = omega arith;
    node_small = omega arith;
  };
  content = refl;
}

pop_event-HoldsEvents_example :
    (s' : EventStack) × (pop_event seven ≡ some (7, s')) × HoldsEvents s' []
pop_event-HoldsEvents_example = pop_event-HoldsEvents seven 7 [] seven-HoldsEvents
