-- ===== src/Serialization/Flatten.antt =====
-- papuga_Serialization_flatten of src/serialization.c: serializations that are values inside of one another
-- become structures. `store` gives the serialization that a value points to.
use mathlib.Core.List.{append_assoc, append-nil}
use papuga.Prelude.{
  ℕ, zero, suc, ◌≡◌, sym, ap, ◌∙◌, inl, inr, Bool, true, false, ◌&&◌, Option, none, some, List, [],
  ◌∷◌, ◌++◌, arith, Bool-cases, Option-cases, if◌then◌else◌,
}
use papuga.Prelude.Int.{ℤ, pos}
use papuga.Request.Keys.{eqb_ℤ}
use papuga.Serialization.{
  tag_open, tag_close, Content, void, structid_value, atom, serialization, Node, Serialization,
  SerializationIter, init_serialization, chain, push_node, push_open, push_open_struct, push_close,
  init_iter, skip,
}
use papuga.Serialization.Push.{nodes, push_node-nodes, concat-chain}
use papuga.Serialization.Walk.{Walkable, IsAt, init_iter-IsAt, skip-IsAt}

-- The serialization that a value points to, if it is one.
abbrev pub inner_of : {V : Type 0} → Content V → Option ℕ
inner_of void = none
inner_of (structid_value n) = none
inner_of (atom v) = none
inner_of (serialization p) = some p

module _ (V Mem : Type 0) (alloc : Mem → Option Mem) (stale : Node V)
    (store : ℕ → Serialization V Mem) where
  -- The opening node of an inner serialization.
  unfoldable pub push_opening : Serialization V Mem → ℤ → Bool × Serialization V Mem
  unfolding push_open push_open_struct
  push_opening dest structid =
      if eqb_ℤ structid (pos 0)
      then push_open V Mem alloc dest
      else push_open_struct V Mem alloc dest structid

  -- The rest of the loop, unless a push has failed.
  abbrev pub go_on :
      Bool × Serialization V Mem
      → (Serialization V Mem → Option (Bool × Serialization V Mem))
      → Option (Bool × Serialization V Mem)
  go_on r rest = elim r.0 [ true ↦ rest r.1 | false ↦ some r ]

  -- Behind the nodes of an inner serialization: the closing node, pushed even if a push has failed.
  unfoldable pub closing_push : Bool → Bool × Serialization V Mem → Bool × Serialization V Mem
  unfolding push_close
  closing_push opened r = let c = push_close V Mem alloc r.1 in (opened && r.0 && c.0, c.1)

  abbrev pub inside :
      Bool
      → Option (Bool × Serialization V Mem)
      → (Serialization V Mem → Option (Bool × Serialization V Mem))
      → Option (Bool × Serialization V Mem)
  inside opened none rest = none
  inside opened (some r) rest = go_on (closing_push opened r) rest

  -- Serialization_flatten from an iterator on, on fuel: `none` is a loop that has not ended.
  unfoldable pub flatten_loop :
      ℕ
      → Serialization V Mem
      → List (List (Node V))
      → SerializationIter V
      → Option (Bool × Serialization V Mem)
  unfolding push_opening push_node skip init_iter
  flatten_loop zero dest chunks it = none
  flatten_loop (suc fuel) dest chunks it = elim it.value [
    | none ↦ some (true, dest)
    | some nd ↦ elim (inner_of nd.content) [
      | none ↦
          go_on (push_node V Mem alloc dest nd)
            (λ d. flatten_loop fuel d chunks (skip V stale chunks it))
      | some p ↦
          let o = push_opening dest (store p).structid in
          let inner = chain V Mem (store p) in
          inside o.0 (flatten_loop fuel o.1 inner (init_iter V stale inner))
            (λ d. flatten_loop fuel d chunks (skip V stale chunks it))
    ]
  ]

  -- hasInnerSerialization
  unfoldable pub has_inner : ℕ → List (List (Node V)) → SerializationIter V → Option Bool
  unfolding skip
  has_inner zero chunks it = none
  has_inner (suc fuel) chunks it = elim it.value [
    | none ↦ some false
    | some nd ↦ elim (inner_of nd.content) [
      | none ↦ has_inner fuel chunks (skip V stale chunks it)
      | some p ↦ some true
    ]
  ]

  -- The flat serialization takes the place of the other one; a failure has only used the allocator.
  abbrev pub replaced :
      Serialization V Mem
      → Option (Bool × Serialization V Mem)
      → Option (Bool × Serialization V Mem)
  replaced s none = none
  replaced s (some r) = if r.0 then some r else some (false, record s { allocator = r.1.allocator })

  -- papuga_Serialization_flatten. The last chunk is the current one here; the source copies the pointer to it,
  -- which is that of a local object where the result has one chunk only.
  unfoldable pub flatten : ℕ → Serialization V Mem → Option (Bool × Serialization V Mem)
  unfolding has_inner flatten_loop init_serialization init_iter
  flatten fuel s =
      let chunks = chain V Mem s in
      elim (has_inner fuel chunks (init_iter V stale chunks)) [
        | none ↦ none
        | some false ↦ some (true, s)
        | some true ↦ replaced s (
            flatten_loop fuel (init_serialization V Mem s.allocator) chunks
              (init_iter V stale chunks))
      ]

  -- The node that stands for an inner serialization, and the flat list of nodes, for inner serializations
  -- that end within `fuel`.
  abbrev pub opening_node : ℤ → Node V
  opening_node structid =
      if eqb_ℤ structid (pos 0)
      then record { content = void; tag = tag_open }
      else record { content = structid_value structid; tag = tag_open }

  abbrev pub joined : ℤ → Option (List (Node V)) → Option (List (Node V)) → Option (List (Node V))
  joined structid none rest = none
  joined structid (some zs) none = none
  joined structid (some zs) (some ys) =
      some (opening_node structid ∷ (zs ++ (record { content = void; tag = tag_close } ∷ ys)))

  abbrev pub followed : Node V → Option (List (Node V)) → Option (List (Node V))
  followed nd none = none
  followed nd (some ys) = some (nd ∷ ys)

  abbrev pub flat : ℕ → List (Node V) → Option (List (Node V))
  flat zero xs = none
  flat (suc fuel) [] = some []
  flat (suc fuel) (nd ∷ xs) = elim (inner_of nd.content) [
    | none ↦ followed nd (flat fuel xs)
    | some p ↦ joined (store p).structid (flat fuel (nodes V Mem (store p))) (flat fuel xs)
  ]

  -- The loop ends where the flat list is defined, and without a failure it has pushed that list.
  abbrev pub Flattens :
      Serialization V Mem → Option (List (Node V)) → Option (Bool × Serialization V Mem) → Type 0
  Flattens dest none r = Unit
  Flattens dest (some ys) none = ⊥
  Flattens dest (some ys) (some r) = r.0 ≡ true → nodes V Mem r.1 ≡ nodes V Mem dest ++ ys

  push_opening-nodes :
      (dest : Serialization V Mem) (structid : ℤ)
      → (push_opening dest structid).0 ≡ true
      → nodes V Mem (push_opening dest structid).1
        ≡ nodes V Mem dest ++ (opening_node structid ∷ [])
  unfolding push_opening push_open push_open_struct
  push_opening-nodes dest structid h = elim (Bool-cases (eqb_ℤ structid (pos 0))) [
    | inl e ↦
        rw (e, push_opening, opening_node)
          (push_node-nodes V Mem alloc dest (record { content = void; tag = tag_open })
            (rw (e, push_opening) at h))
    | inr e ↦
        rw (e, push_opening, opening_node)
          (push_node-nodes V Mem alloc dest
            (record { content = structid_value structid; tag = tag_open })
            (rw (e, push_opening) at h))
  ]

  -- What is pushed in front of the rest.
  shift :
      (dest d : Serialization V Mem) (zs ys : List (Node V))
      (r : Option (Bool × Serialization V Mem))
      → nodes V Mem d ≡ nodes V Mem dest ++ zs
      → Flattens d (some ys) r
      → Flattens dest (some (zs ++ ys)) r
  shift dest d zs ys none e h = h
  shift dest d zs ys (some r) e h =
      λ q. h q ∙ ap (λ (l : List (Node V)). l ++ ys) e ∙ append_assoc (nodes V Mem dest) zs ys

  go_on-Flattens :
      (dest : Serialization V Mem) (zs ys : List (Node V)) (p : Bool × Serialization V Mem)
      (rest : Serialization V Mem → Option (Bool × Serialization V Mem))
      → (p.0 ≡ true → nodes V Mem p.1 ≡ nodes V Mem dest ++ zs)
      → ((d : Serialization V Mem) → Flattens d (some ys) (rest d))
      → Flattens dest (some (zs ++ ys)) (go_on p rest)
  go_on-Flattens dest zs ys p rest e h = elim (Bool-cases p.0) [
    | inl q ↦ rw (q, go_on) (shift dest p.1 zs ys (rest p.1) (e q) (h p.1))
    | inr q ↦ rw (q, go_on) (λ k. absurd (ground arith))
  ]

  plain-Flattens :
      (dest : Serialization V Mem) (nd : Node V) (o : Option (List (Node V)))
      (rest : Serialization V Mem → Option (Bool × Serialization V Mem))
      → ((d : Serialization V Mem) → Flattens d o (rest d))
      → Flattens dest (followed nd o) (go_on (push_node V Mem alloc dest nd) rest)
  plain-Flattens dest nd none rest h = tt
  plain-Flattens dest nd (some ys) rest h =
      go_on-Flattens dest (nd ∷ []) ys (push_node V Mem alloc dest nd) rest
        (push_node-nodes V Mem alloc dest nd) h

  abbrev close_node : Node V
  close_node = record { content = void; tag = tag_close }

  closing_push-nodes :
      (dest o : Serialization V Mem) (opened : Bool) (r : Bool × Serialization V Mem) (op : Node V)
      (zs : List (Node V))
      → (opened ≡ true → nodes V Mem o ≡ nodes V Mem dest ++ (op ∷ []))
      → (r.0 ≡ true → nodes V Mem r.1 ≡ nodes V Mem o ++ zs)
      → (closing_push opened r).0 ≡ true
      → nodes V Mem (closing_push opened r).1 ≡ nodes V Mem dest ++ (op ∷ (zs ++ (close_node ∷ [])))
  unfolding closing_push push_close
  closing_push-nodes dest o opened r op zs e h k =
      let all : (opened ≡ true) × (r.0 ≡ true) × ((push_node V Mem alloc r.1 close_node).0 ≡ true) =
        ground arith in
      push_node-nodes V Mem alloc r.1 close_node all.2
      ∙ ap (λ (l : List (Node V)). l ++ (close_node ∷ []))
          (h all.1 ∙ ap (λ (l : List (Node V)). l ++ zs) (e all.0))
      ∙ append_assoc (nodes V Mem dest ++ (op ∷ [])) zs (close_node ∷ [])
      ∙ append_assoc (nodes V Mem dest) (op ∷ []) (zs ++ (close_node ∷ []))

  inside-Flattens :
      (dest : Serialization V Mem) (o : Bool × Serialization V Mem) (structid : ℤ)
      (z y : Option (List (Node V))) (inner : Option (Bool × Serialization V Mem))
      (rest : Serialization V Mem → Option (Bool × Serialization V Mem))
      → (o.0 ≡ true → nodes V Mem o.1 ≡ nodes V Mem dest ++ (opening_node structid ∷ []))
      → Flattens o.1 z inner
      → ((d : Serialization V Mem) → Flattens d y (rest d))
      → Flattens dest (joined structid z y) (inside o.0 inner rest)
  inside-Flattens dest o structid none y inner rest e h k = tt
  inside-Flattens dest o structid (some zs) none inner rest e h k = tt
  inside-Flattens dest o structid (some zs) (some ys) none rest e h k = h
  inside-Flattens dest o structid (some zs) (some ys) (some r) rest e h k =
      let op = opening_node structid in
      rw⁻¹ (append_assoc zs (close_node ∷ []) ys) (
        go_on-Flattens dest (op ∷ (zs ++ (close_node ∷ []))) ys (closing_push o.0 r) rest
          (closing_push-nodes dest o.1 o.0 r op zs e h) k)

  -- Where the flat list of the nodes in front is defined, the loop ends; without a failure it has pushed that
  -- list behind the nodes that the destination had. The chains of all serializations are walkable.
  pub flatten_loop-Flattens :
      (fuel : ℕ) (dest : Serialization V Mem) (chunks : List (List (Node V)))
      (it : SerializationIter V) (xs : List (Node V))
      → ((p : ℕ) → Walkable (chain V Mem (store p)))
      → Walkable chunks
      → IsAt V stale chunks it xs
      → Flattens dest (flat fuel xs) (flatten_loop fuel dest chunks it)
  unfolding flatten_loop
  flatten_loop-Flattens zero dest chunks it xs s w h = tt
  flatten_loop-Flattens (suc fuel) dest chunks it [] s w h =
      rw (h.value, flatten_loop) (λ q. sym (append-nil (nodes V Mem dest)))
  flatten_loop-Flattens (suc fuel) dest chunks it (nd ∷ xs) s w h =
      elim (Option-cases (inner_of nd.content)) [
        | inl e ↦
            rw (h.value, e, flatten_loop, flat)
              (plain-Flattens dest nd (flat fuel xs)
                (λ d. flatten_loop fuel d chunks (skip V stale chunks it))
                (λ d.
                  flatten_loop-Flattens fuel d chunks (skip V stale chunks it) xs s w
                    (skip-IsAt V stale chunks it (nd ∷ xs) w h)))
        | inr (p, e) ↦
            let o = push_opening dest (store p).structid in
            let inner = chain V Mem (store p) in
            let below =
              flatten_loop-Flattens fuel o.1 inner (init_iter V stale inner) (nodes V Mem (store p))
                s (s p)
                (rw (concat-chain V Mem (store p)) at (init_iter-IsAt V stale inner (s p))) in
            rw (h.value, e, flatten_loop, flat)
              (inside-Flattens dest o (store p).structid (flat fuel (nodes V Mem (store p)))
                (flat fuel xs) (flatten_loop fuel o.1 inner (init_iter V stale inner))
                (λ d. flatten_loop fuel d chunks (skip V stale chunks it))
                (push_opening-nodes dest (store p).structid) below
                (λ d.
                  flatten_loop-Flattens fuel d chunks (skip V stale chunks it) xs s w
                    (skip-IsAt V stale chunks it (nd ∷ xs) w h)))
      ]
