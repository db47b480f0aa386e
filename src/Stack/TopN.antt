-- ===== src/Stack/TopN.antt =====
-- papuga_Stack_top_n on a top node that holds more elements than are asked for.
use native.Mathlib.Nat.{suc-mul}
use papuga.Prelude.{
  ℕ, zero, suc, ◌+◌, ◌-◌, ◌*◌, ◌%◌, ◌≤◌, ◌<◌, ◌≡◌, ap, ◌∙◌, inl, inr, Bool-cases, false, Option,
  none, some, List, ◌∷◌, ltb, if◌then◌else◌, length, set, length-set, arith,
}
use papuga.Stack.{
  Stack, StackNode, Slot, size_mod, node_header, last_slot, put_slot, fill_node, top_n_nodes, top_n,
}

index-suc : (nn : ℕ) → nn < size_mod → (suc nn + size_mod - 1) % size_mod ≡ nn
index-suc nn h = omega arith

put_slot-zero :
    (out : List (Option Slot)) (x : Slot) → length out < size_mod - 1 → put_slot out 0 x ≡ none
unfolding put_slot
put_slot-zero out x h = ground arith

put_slot-suc :
    (out : List (Option Slot)) (nn : ℕ) (x : Slot)
    → nn < size_mod
    → put_slot out (suc nn) x ≡ (if ltb nn (length out) then some (set out nn (some x)) else none)
unfolding put_slot
put_slot-suc out nn x h = rw (index-suc nn h)

le-mul : (n e : ℕ) → 0 < e → n ≤ n * e
le-mul zero e p = omega arith
le-mul (suc n) e p = omega (arith, suc-mul n e, le-mul n e p)

module _ (rounds elemsize address n nn : ℕ) (out : List (Option Slot))
    (fits : node_header + suc n * elemsize < size_mod) where
  guard : ltb (node_header + suc n * elemsize) ((node_header + elemsize) % size_mod) ≡ false
  guard = ground (arith, suc-mul n elemsize)

  less : node_header + suc n * elemsize - elemsize ≡ node_header + n * elemsize
  less = omega (arith, suc-mul n elemsize)

  -- A node with n + 1 elements makes the inner loop write once more.
  fill_node-none :
      put_slot out nn (last_slot elemsize address (node_header + suc n * elemsize)) ≡ none
      → fill_node (suc rounds) elemsize address (node_header + suc n * elemsize) nn out ≡ none
  unfolding fill_node
  fill_node-none e = rw (guard, fill_node) (rw e)

  fill_node-some :
      (out' : List (Option Slot))
      → put_slot out nn (last_slot elemsize address (node_header + suc n * elemsize)) ≡ some out'
      → fill_node (suc rounds) elemsize address (node_header + suc n * elemsize) nn out
        ≡ fill_node rounds elemsize address
            (node_header + n * elemsize)
            ((nn + size_mod - 1) % size_mod)
            out'
  fill_node-some out' e =
      unfold fill_node in
      rw (guard, fill_node)
        (rw e (
          ap (λ a. fill_node rounds elemsize address a ((nn + size_mod - 1) % size_mod) out') less))

-- With fewer places than elements the inner loop goes on to write in front of the array.
fill_node_overrun :
    (rounds elemsize address n nn : ℕ) (out : List (Option Slot))
    → n < rounds
    → nn < n
    → nn < size_mod
    → length out < size_mod - 1
    → node_header + n * elemsize < size_mod
    → fill_node rounds elemsize address (node_header + n * elemsize) nn out ≡ none
unfolding fill_node
fill_node_overrun zero elemsize address n nn out p h lt small fits = absurd (omega arith)
fill_node_overrun (suc rounds) elemsize address zero nn out p h lt small fits = absurd (omega arith)
fill_node_overrun (suc rounds) elemsize address (suc n) zero out p h lt small fits =
    fill_node-none rounds elemsize address n 0 out fits (put_slot-zero out _ small)
fill_node_overrun (suc rounds) elemsize address (suc n) (suc nn) out p h lt small fits =
    elim (Bool-cases (ltb nn (length out))) [
      | inl inside ↦
          fill_node-some rounds elemsize address n (suc nn) out fits (set out nn (some last))
            (put_slot-suc out nn last (omega arith) ∙ rw inside)
          ∙ rw (index-suc nn (omega arith)) (
              fill_node_overrun rounds elemsize address n nn (set out nn (some last)) (omega arith)
                (omega arith) (omega arith) (rw length-set small)
                (omega (arith, suc-mul n elemsize)))
      | inr outside ↦
          fill_node-none rounds elemsize address n (suc nn) out fits
            (put_slot-suc out nn last (omega arith) ∙ rw outside)
    ]
  where
    last : Slot
    last = last_slot elemsize address (node_header + suc n * elemsize)

-- `papuga_Stack_top_n` called for fewer elements than the top node holds, but at least one, writes
-- outside of the array of that many places that it is given.
pub top_n_overrun :
    (s : Stack) (nd : StackNode) (nds : List StackNode) (n nn : ℕ) (out : List (Option Slot))
    → s.nodes ≡ nd ∷ nds
    → nd.arsize ≡ node_header + n * s.elemsize
    → nd.arsize < size_mod
    → 0 < s.elemsize
    → 0 < nn
    → nn < n
    → nn ≤ s.size
    → length out ≡ nn
    → top_n nn out s ≡ none
unfolding top_n top_n_nodes
top_n_overrun s nd nds n nn out e filled fits p q h enough places = ground (
  arith,
  filled,
  le-mul n s.elemsize p,
  fill_node_overrun (suc nd.arsize) s.elemsize nd.address n nn out,
)
