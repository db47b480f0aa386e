-- ===== src/Serialization/Push.antt =====
-- The nodes that a serialization of src/serialization.c holds, and what pushing and releasing do to
-- them.
use mathlib.Core.List.{append_assoc, append-nil}
use papuga.Prelude.{
  ℕ, zero, suc, ◌≤◌, ◌≡◌, refl, sym, ap, ◌∙◌, ◌⊎◌, inl, inr, Bool, true, false, Option, none, some,
  List, [], ◌∷◌, ◌++◌, ◌==◌, length, take, arith, Bool-cases, Option-cases, length-append,
}
use papuga.Serialization.{Serialization, Node, node_chunk_size, chain, next_chunk, push_node}

abbrev pub concat {ℓ} : {A : Type ℓ} → List (List A) → List A
concat [] = []
concat (c ∷ cs) = c ++ concat cs

pub concat-append {ℓ} :
    {A : Type ℓ} (xs ys : List (List A)) → concat (xs ++ ys) ≡ concat xs ++ concat ys
concat-append [] ys = refl
concat-append (x ∷ xs) ys = rw (concat-append xs ys) (sym (append_assoc x (concat xs) (concat ys)))

-- The chunks in front of the current one are full.
abbrev pub AllFull {ℓ} : {A : Type ℓ} → List (List A) → Type 0
AllFull [] = Unit
AllFull (c ∷ cs) = (length c ≡ node_chunk_size) × AllFull cs

AllFull-append {ℓ} :
    {A : Type ℓ} (cs : List (List A)) (c : List A)
    → AllFull cs
    → length c ≡ node_chunk_size
    → AllFull (cs ++ (c ∷ []))
AllFull-append [] c h e = (e, tt)
AllFull-append (x ∷ cs) c (p, h) e = (p, AllFull-append cs c h e)

pub AllFull-take {ℓ} : {A : Type ℓ} (k : ℕ) (cs : List (List A)) → AllFull cs → AllFull (take k cs)
AllFull-take zero cs h = tt
AllFull-take (suc k) [] h = tt
AllFull-take (suc k) (c ∷ cs) (p, h) = (p, AllFull-take k cs h)

module _ (V Mem : Type 0) where
  abbrev pub nodes : Serialization V Mem → List (Node V)
  nodes s = concat s.before ++ s.current

  pub record IsPacked (s : Serialization V Mem) : Type 0 where
    pub full : AllFull s.before
    pub fits : length s.current ≤ node_chunk_size

  pub concat-chain : (s : Serialization V Mem) → concat (chain V Mem s) ≡ nodes s
  concat-chain s =
      concat-append s.before (s.current ∷ [])
      ∙ ap (λ (l : List (Node V)). concat s.before ++ l) (append-nil s.current)

module _ (V Mem : Type 0) (alloc : Mem → Option Mem) where
  -- What a push gives: the node behind all others, or a failure that changes nothing.
  pub record Pushes (s : Serialization V Mem) (nd : Node V) (r : Bool × Serialization V Mem)
      : Type 0 where
    pub outcome :
        ((r.0 ≡ true) × (nodes V Mem r.1 ≡ nodes V Mem s ++ (nd ∷ [])))
        ⊎ ((r ≡ (false, s)) × (s.freelist ≡ 0) × (alloc s.allocator ≡ none))
    pub packed : IsPacked V Mem r.1
    pub same : r.1.structid ≡ s.structid

  next_chunk-same :
      (s t : Serialization V Mem)
      → next_chunk V Mem alloc s ≡ some t
      → (t.before ≡ s.before) × (t.current ≡ s.current) × (t.structid ≡ s.structid)
  unfolding next_chunk
  next_chunk-same s t h = ground arith

  next_chunk-none :
      (s : Serialization V Mem)
      → next_chunk V Mem alloc s ≡ none
      → (s.freelist ≡ 0) × (alloc s.allocator ≡ none)
  unfolding next_chunk
  next_chunk-none s h = ground arith

  grown :
      (b : List (List (Node V))) (c : List (Node V)) (nd : Node V)
      → concat (b ++ (c ∷ [])) ++ (nd ∷ []) ≡ (concat b ++ c) ++ (nd ∷ [])
  grown b c nd =
      ap (λ (l : List (Node V)). l ++ (nd ∷ []))
        (concat-append b (c ∷ []) ∙ ap (λ (l : List (Node V)). concat b ++ l) (append-nil c))

  -- A push that succeeds has put its node behind all others, packed or not.
  pub push_node-nodes :
      (s : Serialization V Mem) (nd : Node V)
      → (push_node V Mem alloc s nd).0 ≡ true
      → nodes V Mem (push_node V Mem alloc s nd).1 ≡ nodes V Mem s ++ (nd ∷ [])
  unfolding push_node
  push_node-nodes s nd h = elim (Bool-cases (length s.current == node_chunk_size)) [
    | inr e ↦ rw (e, push_node) (sym (append_assoc (concat s.before) s.current (nd ∷ [])))
    | inl e ↦ elim (Option-cases (next_chunk V Mem alloc s)) [
      | inl q ↦ let failed : false ≡ true = rw (e, q, push_node) at h in absurd (ground arith)
      | inr (t, q) ↦
          let (b, c, i) = next_chunk-same s t q in
          rw (e, q, push_node) (rw (b, c) (grown s.before s.current nd))
    ]
  ]

  pushed_fits :
      (s : Serialization V Mem) (nd : Node V)
      → IsPacked V Mem s
      → (length s.current == node_chunk_size) ≡ false
      → length (s.current ++ (nd ∷ [])) ≤ node_chunk_size
  pushed_fits s nd p e = ground (arith, p.fits, length-append {0} s.current (nd ∷ []))

  -- Pushing a node to a packed serialization puts it behind all that it holds, and keeps it packed; it
  -- fails only where a chunk is needed, the freelist is empty and the allocator gives none, and
  -- changes nothing then.
  pub push_node-Pushes :
      (s : Serialization V Mem) (nd : Node V)
      → IsPacked V Mem s
      → Pushes s nd (push_node V Mem alloc s nd)
  unfolding push_node
  push_node-Pushes s nd p = elim (Bool-cases (length s.current == node_chunk_size)) [
    | inr e ↦
        rw (e, push_node)
          (record {
            outcome = inl (refl, sym (append_assoc (concat s.before) s.current (nd ∷ [])));
            packed = record { full = p.full; fits = pushed_fits s nd p e };
            same = refl;
          })
    | inl e ↦ elim (Option-cases (next_chunk V Mem alloc s)) [
      | inl q ↦
          rw (e, q, push_node)
            (record {
              outcome = let h = next_chunk-none s q in inr (refl, h.0, h.1);
              packed = p;
              same = refl;
            })
      | inr (t, q) ↦
          let (b, c, i) = next_chunk-same s t q in
          rw (e, q, push_node)
            (record {
              outcome = inl (refl, rw (b, c) (grown s.before s.current nd));
              packed = record {
                full = rw (b, c) (AllFull-append s.before s.current p.full (ground arith));
                fits = omega arith;
              };
              same = i;
            })
    ]
  ]
