-- ===== src/Serialization/Structure.antt =====
-- What skipping a structure in src/serialization.c does to the nodes that an iterator has in front of
-- it: it ends, and goes over one element of the tree that the nodes encode.
use mathlib.Core.List.{append_assoc}
use papuga.Prelude.{
  ℕ, zero, suc, ◌<◌, ◌≡◌, refl, ap, ◌∙◌, Bool, true, false, Option, none, some, List, [], ◌∷◌, ◌++◌,
  ◌==◌, ltb, length, drop, arith,
}
use papuga.Serialization.{
  Tag, tag_value, tag_open, tag_close, tag_name, Content, void, Node, SerializationIter, skip,
  is_eof, level_after, skip_open, skip_named, skip_element, skip_structure,
}
use papuga.Serialization.Walk.{Walkable, IsAt, first_tag, skip-IsAt}

-- An element of a structure is an item behind a name or without one; an item is a value or a structure
-- of elements, with what the node that opens it holds.
mutual
  pub data Item (V : Type 0) : Type 0 where
    leaf : Content V → Item V
    struct : Content V → Elements V → Item V

  pub data Elements (V : Type 0) : Type 0 where
    nil : Elements V
    plain : Item V → Elements V → Elements V
    named : Content V → Item V → Elements V → Elements V

module _ (V : Type 0) where
  abbrev pub tagged : Tag → Content V → Node V
  tagged tag content = record { content = content; tag = tag }

  -- The nodes of an item and of elements.
  abbrev mutual
    pub encode_item : Item V → List (Node V)
    encode_item (leaf v) = tagged tag_value v ∷ []
    encode_item (struct c xs) =
        tagged tag_open c ∷ (encode_elements xs ++ (tagged tag_close void ∷ []))

    pub encode_elements : Elements V → List (Node V)
    encode_elements nil = []
    encode_elements (plain i xs) = encode_item i ++ encode_elements xs
    encode_elements (named n i xs) = tagged tag_name n ∷ (encode_item i ++ encode_elements xs)

  -- What is left behind the node that closes the last of `level` structures.
  abbrev pub behind_close : ℕ → List (Node V) → Bool × List (Node V)
  behind_close zero xs = (true, xs)
  behind_close (suc level) [] = (false, [])
  behind_close (suc level) (nd ∷ xs) = behind_close (level_after (suc level) nd.tag) xs

  abbrev pub behind_named : Tag → List (Node V) → Bool × List (Node V)
  behind_named tag_value xs = (true, drop 1 xs)
  behind_named tag_open xs = behind_close 1 (drop 1 xs)
  behind_named tag_close xs = (false, xs)
  behind_named tag_name xs = (false, xs)

  abbrev pub behind_tag : Tag → List (Node V) → Bool × List (Node V)
  behind_tag tag_value xs = (true, drop 1 xs)
  behind_tag tag_open xs = behind_close 1 (drop 1 xs)
  behind_tag tag_close xs = (false, xs)
  behind_tag tag_name xs = behind_named (first_tag (drop 1 xs)) (drop 1 xs)

  -- What is left behind the element in front, of a list of nodes.
  abbrev pub behind_element : List (Node V) → Bool × List (Node V)
  behind_element [] = (false, [])
  behind_element (nd ∷ xs) = behind_tag nd.tag (nd ∷ xs)

  mutual
    behind_close-item :
        (level : ℕ) (i : Item V) (rest : List (Node V))
        → behind_close (suc level) (encode_item i ++ rest) ≡ behind_close (suc level) rest
    behind_close-item level (leaf v) rest = refl
    behind_close-item level (struct c xs) rest =
        rw (append_assoc (encode_elements xs) (tagged tag_close void ∷ []) rest)
          (behind_close-elements (suc level) xs (tagged tag_close void ∷ rest))

    behind_close-elements :
        (level : ℕ) (xs : Elements V) (rest : List (Node V))
        → behind_close (suc level) (encode_elements xs ++ rest) ≡ behind_close (suc level) rest
    behind_close-elements level nil rest = refl
    behind_close-elements level (plain i xs) rest =
        rw (append_assoc (encode_item i) (encode_elements xs) rest) (
          behind_close-item level i (encode_elements xs ++ rest)
          ∙ behind_close-elements level xs rest)
    behind_close-elements level (named n i xs) rest =
        rw (append_assoc (encode_item i) (encode_elements xs) rest) (
          behind_close-item level i (encode_elements xs ++ rest)
          ∙ behind_close-elements level xs rest)

  -- What the loop gives: whether it found the close, and an iterator in front of the nodes behind.
  module _ (stale : Node V) where
    abbrev pub Arrives :
        List (List (Node V)) → Option (Bool × SerializationIter V) → Bool × List (Node V) → Type 0
    Arrives chunks none r = ⊥
    Arrives chunks (some o) r = (o.0 ≡ r.0) × IsAt V stale chunks o.1 r.1

    skip_open-Arrives :
        (fuel level : ℕ) (chunks : List (List (Node V))) (it : SerializationIter V)
        (xs : List (Node V))
        → Walkable chunks
        → IsAt V stale chunks it xs
        → length xs < fuel
        → Arrives chunks (skip_open V stale fuel chunks level it) (behind_close level xs)
    unfolding skip_open
    skip_open-Arrives zero level chunks it xs w h lt = absurd (omega arith)
    skip_open-Arrives (suc fuel) zero chunks it xs w h lt = (refl, h)
    skip_open-Arrives (suc fuel) (suc level) chunks it [] w h lt =
        let deep : ltb 0 (suc level) ≡ true = ground arith in
        let end : is_eof V stale it ≡ true = rw h.value refl in
        let more : (suc level == 0) ≡ false = ground arith in
        rw (deep, end, more, skip_open) (refl, h)
    skip_open-Arrives (suc fuel) (suc level) chunks it (nd ∷ xs) w h lt =
        let deep : ltb 0 (suc level) ≡ true = ground arith in
        let end : is_eof V stale it ≡ false = rw h.value refl in
        let next : level_after (suc level) it.tag ≡ level_after (suc level) nd.tag =
          ap (level_after (suc level)) h.tag in
        rw (deep, end, skip_open, next)
          (skip_open-Arrives fuel (level_after (suc level) nd.tag) chunks (skip V stale chunks it)
            xs w (skip-IsAt V stale chunks it (nd ∷ xs) w h) (omega arith))

    drop_shorter : (xs : List (Node V)) (fuel : ℕ) → length xs < fuel → length (drop 1 xs) < fuel
    drop_shorter [] fuel lt = lt
    drop_shorter (nd ∷ xs) fuel lt = omega arith

    -- The two ways into a structure: over its opening node, with one structure open.
    opened-Arrives :
        (fuel : ℕ) (chunks : List (List (Node V))) (it : SerializationIter V) (xs : List (Node V))
        → Walkable chunks
        → IsAt V stale chunks it xs
        → length xs < fuel
        → Arrives chunks
            (skip_open V stale fuel chunks 1 (skip V stale chunks it))
            (behind_close 1 (drop 1 xs))
    opened-Arrives fuel chunks it xs w h lt =
        skip_open-Arrives fuel 1 chunks (skip V stale chunks it) (drop 1 xs) w
          (skip-IsAt V stale chunks it xs w h) (drop_shorter xs fuel lt)

    skip_named-Arrives :
        (fuel : ℕ) (chunks : List (List (Node V))) (tag : Tag) (it : SerializationIter V)
        (xs : List (Node V))
        → Walkable chunks
        → IsAt V stale chunks it xs
        → length xs < fuel
        → Arrives chunks (skip_named V stale fuel chunks tag it) (behind_named tag xs)
    unfolding skip_named
    skip_named-Arrives fuel chunks tag_value it xs w h lt =
        (refl, skip-IsAt V stale chunks it xs w h)
    skip_named-Arrives fuel chunks tag_open it xs w h lt = opened-Arrives fuel chunks it xs w h lt
    skip_named-Arrives fuel chunks tag_close it xs w h lt = (refl, h)
    skip_named-Arrives fuel chunks tag_name it xs w h lt = (refl, h)

    skip_element-Arrives :
        (fuel : ℕ) (chunks : List (List (Node V))) (tag : Tag) (it : SerializationIter V)
        (xs : List (Node V))
        → Walkable chunks
        → IsAt V stale chunks it xs
        → length xs < fuel
        → Arrives chunks (skip_element V stale fuel chunks tag it) (behind_tag tag xs)
    unfolding skip_element
    skip_element-Arrives fuel chunks tag_value it xs w h lt =
        (refl, skip-IsAt V stale chunks it xs w h)
    skip_element-Arrives fuel chunks tag_open it xs w h lt = opened-Arrives fuel chunks it xs w h lt
    skip_element-Arrives fuel chunks tag_close it xs w h lt = (refl, h)
    skip_element-Arrives fuel chunks tag_name it xs w h lt =
        let next = skip-IsAt V stale chunks it xs w h in
        let same = ap (λ t. behind_named t (drop 1 xs)) next.tag in
        rw⁻¹ same (
          skip_named-Arrives fuel chunks (skip V stale chunks it).tag (skip V stale chunks it)
            (drop 1 xs) w next (drop_shorter xs fuel lt))

    -- On a chain that is walkable, with more fuel than there are nodes in front of the iterator, skipping a
    -- structure ends, with the result and the position that these nodes determine, whatever chunks they lie in.
    pub skip_structure-Arrives :
        (fuel : ℕ) (chunks : List (List (Node V))) (it : SerializationIter V) (xs : List (Node V))
        → Walkable chunks
        → IsAt V stale chunks it xs
        → length xs < fuel
        → Arrives chunks (skip_structure V stale fuel chunks it) (behind_element xs)
    unfolding skip_structure
    skip_structure-Arrives fuel chunks it [] w h lt =
        let end : is_eof V stale it ≡ true = rw h.value refl in rw (end, skip_structure) (refl, h)
    skip_structure-Arrives fuel chunks it (nd ∷ xs) w h lt =
        let end : is_eof V stale it ≡ false = rw h.value refl in
        let same = ap (λ t. behind_tag t (nd ∷ xs)) h.tag in
        rw (end, skip_structure)
          (rw⁻¹ same (skip_element-Arrives fuel chunks it.tag it (nd ∷ xs) w h lt))

  behind_tag-item :
      (i : Item V) (rest : List (Node V)) → behind_element (encode_item i ++ rest) ≡ (true, rest)
  behind_tag-item (leaf v) rest = refl
  behind_tag-item (struct c xs) rest =
      rw (append_assoc (encode_elements xs) (tagged tag_close void ∷ []) rest)
        (behind_close-elements 0 xs (tagged tag_close void ∷ rest))

  behind_element-named :
      (n : Content V) (i : Item V) (rest : List (Node V))
      → behind_element (tagged tag_name n ∷ (encode_item i ++ rest)) ≡ (true, rest)
  behind_element-named n (leaf v) rest = refl
  behind_element-named n (struct c xs) rest =
      rw (append_assoc (encode_elements xs) (tagged tag_close void ∷ []) rest)
        (behind_close-elements 0 xs (tagged tag_close void ∷ rest))

  -- The nodes of an element, with its name if it has one.
  abbrev pub encode_element : Option (Content V) → Item V → List (Node V)
  encode_element none i = encode_item i
  encode_element (some n) i = tagged tag_name n ∷ encode_item i

  behind_element-encode :
      (n : Option (Content V)) (i : Item V) (rest : List (Node V))
      → behind_element (encode_element n i ++ rest) ≡ (true, rest)
  behind_element-encode none i rest = behind_tag-item i rest
  behind_element-encode (some n) i rest = behind_element-named n i rest

  -- On a chain that is walkable, in front of the nodes of an element and with more fuel than nodes are in
  -- front, skipping a structure gives true and leaves the iterator in front of what comes behind the element.
  pub skip_structure-encode :
      (stale : Node V) (fuel : ℕ) (chunks : List (List (Node V))) (it : SerializationIter V)
      (name : Option (Content V)) (i : Item V) (rest : List (Node V))
      → Walkable chunks
      → IsAt V stale chunks it (encode_element name i ++ rest)
      → length (encode_element name i ++ rest) < fuel
      → Arrives stale chunks (skip_structure V stale fuel chunks it) (true, rest)
  skip_structure-encode stale fuel chunks it name i rest w h lt =
      rw⁻¹ (behind_element-encode name i rest)
        (skip_structure-Arrives stale fuel chunks it (encode_element name i ++ rest) w h lt)
