-- ===== src/Serialization/Walk.antt =====
-- What an iterator of src/serialization.c has in front of it, and that skipping walks the nodes one by
-- one.
use papuga.Prelude.{
  ℕ, zero, suc, ◌+◌, ◌≤◌, ◌<◌, ◌≡◌, refl, sym, ◌∙◌, ◌⊎◌, inl, inr, true, false, Option, none, some,
  List, [], ◌∷◌, ◌++◌, ◌==◌, ltb, leb, length, get_or, drop, arith, Bool-cases,
}
use papuga.Serialization.{
  Tag, tag_close, Node, SerializationIter, init_iter, skip, follow_tag, at_node, at_end,
}
use papuga.Serialization.Push.{concat}

-- The first of them, and its tag; at the end the tag is that of a close.
abbrev pub head? {ℓ} : {A : Type ℓ} → List A → Option A
head? [] = none
head? (x ∷ xs) = some x

abbrev pub NonEmpty {ℓ} : {A : Type ℓ} → List (List A) → Type 0
NonEmpty [] = Unit
NonEmpty (c ∷ cs) = (0 < length c) × NonEmpty cs

-- The nodes from a position of a chunk on.
abbrev pub ahead {ℓ} : {A : Type ℓ} → List (List A) → ℕ → ℕ → List A
ahead chunks k p = drop p (get_or chunks k []) ++ concat (drop (suc k) chunks)

drop-cons {ℓ} :
    {A : Type ℓ} (p : ℕ) (c : List A) (a : A)
    → p < length c
    → drop p c ≡ get_or c p a ∷ drop (suc p) c
drop-cons p [] a h = absurd (omega arith)
drop-cons zero (x ∷ c) a h = refl
drop-cons (suc p) (x ∷ c) a h = drop-cons p c a (omega arith)

drop-end {ℓ} : {A : Type ℓ} (p : ℕ) (c : List A) → length c ≤ p → drop p c ≡ []
drop-end zero [] h = refl
drop-end zero (x ∷ c) h = absurd (omega arith)
drop-end (suc p) [] h = refl
drop-end (suc p) (x ∷ c) h = drop-end p c (omega arith)

NonEmpty-get {ℓ} :
    {A : Type ℓ} (cs : List (List A)) (k : ℕ)
    → NonEmpty cs
    → k < length cs
    → 0 < length (get_or cs k [])
NonEmpty-get [] k h lt = absurd (omega arith)
NonEmpty-get (c ∷ cs) zero (p, h) lt = p
NonEmpty-get (c ∷ cs) (suc k) (p, h) lt = NonEmpty-get cs k h (omega arith)

-- All chunks but the first one hold a node, and the first one too if there is another one.
abbrev pub Walkable {ℓ} : {A : Type ℓ} → List (List A) → Type 0
Walkable [] = ⊥
Walkable (c ∷ cs) = NonEmpty cs × ((length cs ≡ 0) ⊎ (0 < length c))

Walkable-get {ℓ} :
    {A : Type ℓ} (cs : List (List A)) (k : ℕ)
    → Walkable cs
    → k + 1 < length cs
    → 0 < length (get_or cs (k + 1) [])
Walkable-get [] k h lt = absurd (omega arith)
Walkable-get (c ∷ cs) k h lt =
    let e : k + 1 ≡ suc k = omega arith in rw e (NonEmpty-get cs k h.0 (omega arith))

abbrev pub first_tag : {V : Type 0} → List (Node V) → Tag
first_tag [] = tag_close
first_tag (nd ∷ nds) = nd.tag

module _ (V : Type 0) (stale : Node V) where
  -- The iterator stands in front of the nodes `xs` of the chain.
  pub record IsAt (chunks : List (List (Node V))) (it : SerializationIter V) (xs : List (Node V))
      : Type 0 where
    pub within : it.chunk < length chunks
    pub ahead_of : ahead chunks it.chunk it.chunkpos ≡ xs
    pub value : it.value ≡ head? xs
    pub tag : it.tag ≡ first_tag xs
    pub inside :
        (it.chunkpos < length (get_or chunks it.chunk []))
        ⊎ (xs ≡ []) × (it.chunkpos ≡ length (get_or chunks it.chunk []))

  at_node-IsAt :
      (chunks : List (List (Node V))) (k p : ℕ)
      → k < length chunks
      → p < length (get_or chunks k [])
      → IsAt chunks (at_node V stale k p (get_or (get_or chunks k []) p stale)) (ahead chunks k p)
  at_node-IsAt chunks k p lt lp =
      let e = drop-cons p (get_or chunks k []) stale lp in
      record { within = lt; ahead_of = refl; value = rw e refl; tag = rw e refl; inside = inl lp }

  at_end-IsAt :
      (chunks : List (List (Node V))) (k : ℕ)
      → suc k ≡ length chunks
      → IsAt chunks (at_end V stale k (length (get_or chunks k []))) []
  at_end-IsAt chunks k e = record {
    within = omega arith;
    ahead_of =
        rw
          (
            drop-end (length (get_or chunks k [])) (get_or chunks k []) (omega arith),
            drop-end (suc k) chunks (omega arith),
          )
          refl;
    value = refl;
    tag = refl;
    inside = inr (refl, refl);
  }

  -- The node in front is gone after a step inside of a chunk, and after one out of it.
  ahead-inside :
      (chunks : List (List (Node V))) (k p : ℕ)
      → p + 1 < length (get_or chunks k [])
      → drop 1 (ahead chunks k p) ≡ ahead chunks k (p + 1)
  ahead-inside chunks k p lp =
      let e : p + 1 ≡ suc p = omega arith in
      rw (drop-cons p (get_or chunks k []) stale (omega arith), e) refl

  ahead-outside :
      (chunks : List (List (Node V))) (k p : ℕ)
      → p < length (get_or chunks k [])
      → length (get_or chunks k []) ≤ p + 1
      → drop 1 (ahead chunks k p) ≡ concat (drop (suc k) chunks)
  ahead-outside chunks k p lp le =
      rw
        (
          drop-cons p (get_or chunks k []) stale lp,
          drop-end (suc p) (get_or chunks k []) (omega arith),
        )
        refl

  ahead-next :
      (chunks : List (List (Node V))) (k : ℕ)
      → k + 1 < length chunks
      → concat (drop (suc k) chunks) ≡ ahead chunks (k + 1) 0
  ahead-next chunks k lt =
      let e : k + 1 ≡ suc k = omega arith in rw (drop-cons (suc k) chunks [] (omega arith), e) refl

  after_last :
      (chunks : List (List (Node V))) (k : ℕ)
      → length chunks ≤ k + 1
      → concat (drop (suc k) chunks) ≡ []
  after_last chunks k h = rw (drop-end (suc k) chunks (omega arith)) refl

  skip_inside :
      (chunks : List (List (Node V))) (it : SerializationIter V)
      → Walkable chunks
      → it.chunk < length chunks
      → it.chunkpos < length (get_or chunks it.chunk [])
      → IsAt chunks (skip V stale chunks it) (drop 1 (ahead chunks it.chunk it.chunkpos))
  unfolding skip
  skip_inside chunks it ne lt lp =
      elim (Bool-cases (leb (length (get_or chunks it.chunk [])) (it.chunkpos + 1))) [
        | inr e ↦
            rw (e, skip, ahead-inside chunks it.chunk it.chunkpos (ground arith))
              (at_node-IsAt chunks it.chunk (it.chunkpos + 1) lt (ground arith))
        | inl e ↦ elim (Bool-cases (ltb (it.chunk + 1) (length chunks))) [
          | inl n ↦
              rw
                (
                  e,
                  n,
                  skip,
                  ahead-outside chunks it.chunk it.chunkpos lp (ground arith),
                  ahead-next chunks it.chunk (ground arith),
                )
                (at_node-IsAt chunks (it.chunk + 1) 0 (ground arith)
                  (Walkable-get chunks it.chunk ne (ground arith)))
          | inr n ↦
              rw
                (
                  e,
                  n,
                  skip,
                  ahead-outside chunks it.chunk it.chunkpos lp (ground arith),
                  after_last chunks it.chunk (ground arith),
                )
                (at_end-IsAt chunks it.chunk (ground arith))
        ]
      ]

  not_behind :
      (chunks : List (List (Node V))) (k p : ℕ)
      → Walkable chunks
      → k + 1 < length chunks
      → length (get_or chunks k []) ≤ p
      → ahead chunks k p ≡ []
      → ⊥
  not_behind chunks k p ne lt le h =
      let filled = Walkable-get chunks k ne lt in
      let same : drop p (get_or chunks k []) ++ concat (drop (suc k) chunks)
          ≡ ahead chunks (k + 1) 0 =
        rw (drop-end p (get_or chunks k []) le) (ahead-next chunks k lt) in
      let head = drop-cons 0 (get_or chunks (k + 1) []) stale filled in ground arith

  last_chunk :
      (k : ℕ) (chunks : List (List (Node V)))
      → k < length chunks
      → ltb (k + 1) (length chunks) ≡ false
      → suc k ≡ length chunks
  last_chunk k chunks lt n = ground arith

  skip-IsAt_end :
      (chunks : List (List (Node V))) (it : SerializationIter V)
      → Walkable chunks
      → IsAt chunks it []
      → it.chunkpos ≡ length (get_or chunks it.chunk [])
      → IsAt chunks (skip V stale chunks it) []
  unfolding skip
  skip-IsAt_end chunks it ne h e = elim (Bool-cases (ltb (it.chunk + 1) (length chunks))) [
    | inl n ↦
        absurd
          (not_behind chunks it.chunk it.chunkpos ne (ground arith) (omega (arith, e)) h.ahead_of)
    | inr n ↦
        let out : leb (length (get_or chunks it.chunk [])) (it.chunkpos + 1) ≡ true =
          ground arith in
        rw (out, n, skip) (at_end-IsAt chunks it.chunk (last_chunk it.chunk chunks h.within n))
  ]

  -- On a chain that is walkable, skipping an iterator that stands in front of some nodes leaves it in front of
  -- those behind the first one; at the end it stays.
  pub skip-IsAt :
      (chunks : List (List (Node V))) (it : SerializationIter V) (xs : List (Node V))
      → Walkable chunks
      → IsAt chunks it xs
      → IsAt chunks (skip V stale chunks it) (drop 1 xs)
  skip-IsAt chunks it xs ne h = elim h.inside [
    | inl lp ↦ rw (sym h.ahead_of) (skip_inside chunks it ne h.within lp)
    | inr (e, q) ↦ rw e (skip-IsAt_end chunks it ne (rw e at h) q)
  ]

  -- A new iterator stands in front of all nodes.
  pub init_iter-IsAt :
      (chunks : List (List (Node V)))
      → Walkable chunks
      → IsAt chunks (init_iter V stale chunks) (concat chunks)
  unfolding init_iter
  init_iter-IsAt [] h = elim h [ ]
  init_iter-IsAt ([] ∷ []) h = at_end-IsAt ([] ∷ []) 0 refl
  init_iter-IsAt ([] ∷ d ∷ ds) (h, e) =
      absurd (elim e [ inl z ↦ omega arith | inr z ↦ omega arith ])
  init_iter-IsAt ((x ∷ c) ∷ cs) h =
      let z : (length (x ∷ c) == 0) ≡ false = ground arith in
      rw (z, init_iter) (at_node-IsAt ((x ∷ c) ∷ cs) 0 0 (omega arith) (omega arith))

  follow_tag-skip :
      (chunks : List (List (Node V))) (it : SerializationIter V)
      → follow_tag V stale chunks it ≡ (skip V stale chunks it).tag
  unfolding follow_tag skip
  follow_tag-skip chunks it = ground arith

  -- What comes behind the node in front.
  pub follow_tag-IsAt :
      (chunks : List (List (Node V))) (it : SerializationIter V) (xs : List (Node V))
      → Walkable chunks
      → IsAt chunks it xs
      → follow_tag V stale chunks it ≡ first_tag (drop 1 xs)
  follow_tag-IsAt chunks it xs w h = follow_tag-skip chunks it ∙ (skip-IsAt chunks it xs w h).tag
