-- ===== src/Stack/Events.antt =====
-- The class EventStack of src/request.cpp: a stack of event numbers over src/stack.c.
mod Distinct
use papuga.Prelude.{
  ℕ, suc, ◌+◌, ◌<◌, ◌≡◌, ◌≢◌, refl, ◌⊎◌, inl, inr, ◌↔◌, ◌&&◌, Bool, true, false, Option, none, some,
  List, [], ◌∷◌, map, ◌==◌, if◌then◌else◌, arith, Bool-cases,
}
use papuga.Prelude.Int.{ℤ, pos, negsuc}
use papuga.Stack.{Stack, StackNode, Slot, size_mod, node_header, init_stack, push, pop}
use papuga.Stack.Frames.{Holds, IsFresh}
use papuga.Stack.Push.{Pushes, push-Holds, init_stack-Holds}
use papuga.Stack.Pop.{pop-Holds, pop-Holds_nil}
use Distinct.{NotIn, Holds-NotIn}

-- The stack and the integers that its slots hold.
pub record EventStack : Type 0 where
  pub stk : Stack
  pub mem : Slot → ℕ

ℤ_eq : ℤ → ℤ → Bool
ℤ_eq (pos a) (pos b) = a == b
ℤ_eq (negsuc a) (negsuc b) = a == b
ℤ_eq _ _ = false

slot_eq : Slot → Slot → Bool
unfolding ℤ_eq
slot_eq x y = x.node == y.node && ℤ_eq x.offset y.offset

-- `*elemptr = ev`
store : (Slot → ℕ) → Slot → ℕ → Slot → ℕ
unfolding slot_eq
store mem x ev y = if slot_eq y x then ev else mem y

-- EventStack::EventStack: elements of 4 bytes, 256 to a node, in the 1024 bytes of `m_mem`.
unfoldable pub init_event_stack : ℕ → (Slot → ℕ) → EventStack
init_event_stack buf mem = record { stk = init_stack 4 256 buf 1024; mem = mem }

-- What EventStack::push does with the pointer that it gets; `none` stands for `std::bad_alloc`.
push_event_at : (Slot → ℕ) → ℕ → Option Slot × Stack → Option EventStack
unfolding store
push_event_at mem ev (none, stk) = none
push_event_at mem ev (some x, stk) = some (record { stk = stk; mem = store mem x ev })

-- EventStack::push. The outer `none` is a fault, the inner one an exception.
unfoldable pub push_event : Option ℕ → ℕ → EventStack → Option (Option EventStack)
unfolding push_event_at
push_event malloc ev s = elim (push malloc s.stk) [
  | none ↦ none
  | some r ↦ some (push_event_at s.mem ev r)
]

pop_event_at : (Slot → ℕ) → Option Slot × Stack → ℕ × EventStack
pop_event_at mem (none, stk) = (0, record { stk = stk; mem = mem })
pop_event_at mem (some x, stk) = (mem x, record { stk = stk; mem = mem })

-- EventStack::pop
unfoldable pub pop_event : EventStack → Option (ℕ × EventStack)
unfolding pop_event_at
pop_event s = elim (pop s.stk) [ none ↦ none | some r ↦ some (pop_event_at s.mem r) ]

-- The events that the stack holds, the last one pushed first.
pub record HoldsEvents (s : EventStack) (evs : List ℕ) : Type 0 where
  pub slots : List Slot
  pub stack : Holds s.stk slots
  pub content : map s.mem slots ≡ evs

ℤ_eq_iff : (a b : ℤ) → (ℤ_eq a b ≡ true) ↔ (a ≡ b)
unfolding ℤ_eq
ℤ_eq_iff (pos a) (pos b) = ground arith
ℤ_eq_iff (negsuc a) (negsuc b) = ground arith
ℤ_eq_iff (pos a) (negsuc b) = ground arith
ℤ_eq_iff (negsuc a) (pos b) = ground arith

slot_eq_iff : (x y : Slot) → (slot_eq x y ≡ true) ↔ (x ≡ y)
unfolding slot_eq
slot_eq_iff x y = ground (arith, ℤ_eq_iff x.offset y.offset)

map-store :
    (mem : Slot → ℕ) (x : Slot) (ev : ℕ) (xs : List Slot)
    → NotIn x xs
    → map (store mem x ev) xs ≡ map mem xs
unfolding store
map-store mem x ev [] h = refl
map-store mem x ev (y ∷ xs) h = ground (arith, slot_eq_iff y x, map-store mem x ev xs h.1)

store_self : (mem : Slot → ℕ) (x : Slot) (ev : ℕ) → store mem x ev x ≡ ev
unfolding store
store_self mem x ev = ground (arith, slot_eq_iff x x)

-- A new event stack holds nothing, and its buffer fits its node header.
pub init_event_stack-HoldsEvents :
    (buf : ℕ) (mem : Slot → ℕ) → HoldsEvents (init_event_stack buf mem) []
unfolding init_event_stack
init_event_stack-HoldsEvents buf mem = record {
  slots = [];
  stack =
      init_stack-Holds 4 256 buf 1024 (omega arith) (omega arith) (omega arith) (omega arith)
        (omega arith);
  content = refl;
}

-- Pushing an event puts it in front, unless the memory for a new node cannot be had: then the push
-- throws.
pub push_event-HoldsEvents :
    (malloc : Option ℕ) (ev : ℕ) (s : EventStack) (evs : List ℕ)
    → HoldsEvents s evs
    → s.stk.size + 2 < size_mod
    → ((address : ℕ) → malloc ≡ some address → IsFresh s.stk address)
    → ((s' : EventStack) × (push_event malloc ev s ≡ some (some s')) × HoldsEvents s' (ev ∷ evs))
      ⊎ ((malloc ≡ none) × (push_event malloc ev s ≡ some none))
unfolding push_event
push_event-HoldsEvents malloc ev s evs h small fresh =
    elim (push-Holds malloc s.stk h.slots h.stack small fresh) [
      | inl (x, stk, pushed, holds) ↦ inl (
        record { stk = stk; mem = store s.mem x ev },
        rw (pushed, push_event),
        record {
          slots = x ∷ h.slots;
          stack = holds;
          content = ground (
            arith,
            store_self s.mem x ev,
            h.content,
            map-store s.mem x ev h.slots (Holds-NotIn stk x h.slots holds),
          );
        },
      )
      | inr (failed, unchanged) ↦ inr (failed, rw (unchanged, push_event))
    ]

-- Popping gives the event that was pushed last, and leaves the others as they were.
pub pop_event-HoldsEvents :
    (s : EventStack) (ev : ℕ) (evs : List ℕ)
    → HoldsEvents s (ev ∷ evs)
    → (s' : EventStack) × (pop_event s ≡ some (ev, s')) × HoldsEvents s' evs
unfolding pop_event
pop_event-HoldsEvents s ev evs h = go h.slots h.stack h.content
  where
    go :
        (xs : List Slot)
        → Holds s.stk xs
        → map s.mem xs ≡ ev ∷ evs
        → (s' : EventStack) × (pop_event s ≡ some (ev, s')) × HoldsEvents s' evs
    go [] holds e = cc
    go (x ∷ xs) holds e =
        let (stk, popped, rest) = pop-Holds s.stk x xs holds in
        (
          record { stk = stk; mem = s.mem },
          ground (arith, popped),
          record { slots = xs; stack = rest; content = ground arith },
        )

-- An empty event stack gives 0 and stays as it is.
pub pop_event-HoldsEvents_nil : (s : EventStack) → HoldsEvents s [] → pop_event s ≡ some (0, s)
unfolding pop_event
pop_event-HoldsEvents_nil s h = go h.slots h.stack h.content
  where
    go : (xs : List Slot) → Holds s.stk xs → map s.mem xs ≡ [] → pop_event s ≡ some (0, s)
    go [] holds e = rw (pop-Holds_nil s.stk holds, pop_event)
    go (x ∷ xs) holds e = cc
