-- ===== src/Serialization/Release.antt =====
-- What releasing the tail of a serialization of src/serialization.c leaves of its nodes and its chunks.
use mathlib.Core.List.{append_assoc}
use papuga.Prelude.{
  ℕ, zero, suc, ◌+◌, ◌≤◌, ◌<◌, ◌≡◌, refl, sym, ap, ◌∙◌, true, some, List, [], ◌∷◌, ◌++◌, ltb, leb,
  length, get_or, take, drop, arith, length-append, length-take, take-append-drop,
}
use papuga.Serialization.{
  Serialization, SerializationIter, Node, node_chunk_size, chain, release_tail, skip, at_node,
}
use papuga.Serialization.Push.{concat, concat-chain, nodes, IsPacked, AllFull, AllFull-take}
use papuga.Serialization.Walk.{ahead, IsAt}

split_at {ℓ} :
    {A : Type ℓ} (chunks : List (List A)) (k p : ℕ)
    → k < length chunks
    → concat chunks ≡ (concat (take k chunks) ++ take p (get_or chunks k [])) ++ ahead chunks k p
split_at [] k p lt = absurd (omega arith)
split_at (c ∷ cs) zero p lt =
    ap (λ l. l ++ concat cs) (sym (take-append-drop p c))
    ∙ append_assoc (take p c) (drop p c) (concat cs)
split_at (c ∷ cs) (suc k) p lt =
    ap (λ l. c ++ l) (split_at cs k p (omega arith))
    ∙ sym (append_assoc c (concat (take k cs) ++ take p (get_or cs k [])) (ahead cs k p))
    ∙ ap (λ l. l ++ ahead cs k p)
        (sym (append_assoc c (concat (take k cs)) (take p (get_or cs k []))))

take-append-le {ℓ} :
    {A : Type ℓ} (k : ℕ) (xs ys : List A) → k ≤ length xs → take k (xs ++ ys) ≡ take k xs
take-append-le zero xs ys h = refl
take-append-le (suc k) [] ys h = absurd (omega arith)
take-append-le (suc k) (x ∷ xs) ys h = ap (λ l. x ∷ l) (take-append-le k xs ys (omega arith))

get_or-take {ℓ} :
    {A : Type ℓ} (k : ℕ) (xs ys : List A) (i : ℕ) (d : A)
    → i < k
    → k ≤ length xs
    → get_or (take k xs ++ ys) i d ≡ get_or xs i d
get_or-take zero xs ys i d lt le = absurd (omega arith)
get_or-take (suc k) [] ys i d lt le = absurd (omega arith)
get_or-take (suc k) (x ∷ xs) ys zero d lt le = refl
get_or-take (suc k) (x ∷ xs) ys (suc i) d lt le =
    get_or-take k xs ys i d (omega arith) (omega arith)

get_or-last {ℓ} :
    {A : Type ℓ} (k : ℕ) (xs : List A) (a : A)
    → k ≤ length xs
    → get_or (take k xs ++ (a ∷ [])) k a ≡ a
get_or-last zero xs a le = refl
get_or-last (suc k) [] a le = absurd (omega arith)
get_or-last (suc k) (x ∷ xs) a le = get_or-last k xs a (omega arith)

module _ (V Mem : Type 0) (stale : Node V) where
  -- What a release leaves: the nodes in front of the iterator, packed, and the chunks behind it in the
  -- freelist.
  pub record Releases (s : Serialization V Mem) (xs : List (Node V)) (t : Serialization V Mem)
      : Type 0 where
    pub split : nodes V Mem s ≡ nodes V Mem t ++ xs
    pub packed : IsPacked V Mem t
    pub chunks : length (chain V Mem t) + t.freelist ≡ length (chain V Mem s) + s.freelist

  chunk_fits :
      (before : List (List (Node V))) (current : List (Node V)) (k : ℕ)
      → AllFull before
      → length current ≤ node_chunk_size
      → length (get_or (before ++ (current ∷ [])) k []) ≤ node_chunk_size
  chunk_fits [] current zero f h = h
  chunk_fits [] current (suc k) f h = omega arith
  chunk_fits (c ∷ cs) current zero (e, f) h = omega (arith, e)
  chunk_fits (c ∷ cs) current (suc k) (e, f) h = chunk_fits cs current k f h

  full_in_front :
      (before : List (List (Node V))) (current : List (Node V)) (k : ℕ)
      → AllFull before
      → k < length (before ++ (current ∷ []))
      → AllFull (take k (before ++ (current ∷ [])))
  full_in_front before current k f lt =
      let le : k ≤ length before = omega (arith, length-append before (current ∷ [])) in
      rw (take-append-le k before (current ∷ []) le) (AllFull-take k before f)

  length-one :
      (xs : List (List (Node V))) (c : List (Node V)) → length (xs ++ (c ∷ [])) ≡ suc (length xs)
  length-one xs c = omega (arith, length-append xs (c ∷ []))

  -- Releasing a packed serialization at an iterator that stands in front of some of its nodes keeps the nodes in front of it and drops those from it on, keeps the chunks
  -- packed, and moves the chunks behind it to the freelist, where none is lost.
  pub release_tail-Releases :
      (s : Serialization V Mem) (it : SerializationIter V) (xs : List (Node V))
      → IsPacked V Mem s
      → IsAt V stale (chain V Mem s) it xs
      → Releases s xs (release_tail V Mem s (some it))
  unfolding release_tail
  release_tail-Releases s it xs p h = record {
    split =
        sym (concat-chain V Mem s)
        ∙ split_at (chain V Mem s) it.chunk it.chunkpos h.within
        ∙ ap (λ (l : List (Node V)). nodes V Mem (release_tail V Mem s (some it)) ++ l) h.ahead_of;
    packed = record {
      full = full_in_front s.before s.current it.chunk p.full h.within;
      fits =
          let small = chunk_fits s.before s.current it.chunk p.full p.fits in
          omega (arith, small, length-take it.chunkpos (get_or (chain V Mem s) it.chunk []));
    };
    chunks = omega (
      arith,
      h.within,
      length-one (take it.chunk (chain V Mem s))
          (take it.chunkpos (get_or (chain V Mem s) it.chunk [])),
      length-take it.chunk (chain V Mem s),
    );
  }

  -- Releasing at the first node of a chunk behind another one leaves an empty chunk: skipping from the last
  -- node in front of it then gives a node that the chunk holds behind its fill size instead of the end.
  pub release_tail-stale :
      (s : Serialization V Mem) (it : SerializationIter V) (k p : ℕ) (nd : Node V)
      → k + 1 < length (chain V Mem s)
      → it.chunk ≡ k + 1
      → it.chunkpos ≡ 0
      → p + 1 ≡ length (get_or (chain V Mem s) k [])
      → skip V stale (chain V Mem (release_tail V Mem s (some it))) (at_node V stale k p nd)
        ≡ at_node V stale (k + 1) 0 stale
  unfolding release_tail skip
  release_tail-stale s it k p nd lt e z q =
      let same : get_or (take (k + 1) (chain V Mem s) ++ ([] ∷ [])) k []
          ≡ get_or (chain V Mem s) k [] =
        get_or-take (k + 1) (chain V Mem s) ([] ∷ []) k [] (omega arith) (omega arith) in
      let new : get_or (take (k + 1) (chain V Mem s) ++ ([] ∷ [])) (k + 1) [] ≡ [] =
        get_or-last (k + 1) (chain V Mem s) [] (omega arith) in
      let out : leb (length (get_or (chain V Mem s) k [])) (p + 1) ≡ true = ground arith in
      let more : ltb (k + 1) (length (take (k + 1) (chain V Mem s) ++ ([] ∷ []))) ≡ true = ground (
        arith,
        length-one (take (k + 1) (chain V Mem s)) [],
        length-take (k + 1) (chain V Mem s),
      ) in
      rw (e, z, release_tail, skip, same, out, more, new) refl
