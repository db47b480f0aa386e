-- ===== src/Tests/Serialization.antt =====
-- Serializations of src/serialization.c on concrete inputs: chunks of a few nodes, and one that is full.
use papuga.Prelude.{
  ℕ, zero, suc, ◌≡◌, refl, inl, inr, true, Option, none, some, List, [], ◌∷◌, ◌++◌, replicate,
  arith,
}
use papuga.Prelude.Int.{pos}
use papuga.Serialization.{
  structid_value, serialization, tag_value, tag_open, tag_close, tag_name, void, atom, Node,
  Serialization, SerializationIter, push_node, init_iter, init_iter_last, skip, skip_structure,
  follow_tag, release_tail, chain, at_node, next_chunk, skip_element, skip_named, skip_open,
}
use papuga.Serialization.Push.{IsPacked, Pushes, push_node-Pushes}
use papuga.Serialization.Walk.{Walkable, IsAt, skip-IsAt}
use papuga.Serialization.Structure.{
  Item, leaf, struct, nil, plain, tagged, encode_element, Arrives, skip_structure-Arrives,
  skip_structure-encode,
}
use papuga.Serialization.Flatten.{
  closing_push, flat, flatten, flatten_loop, Flattens, flatten_loop-Flattens,
}
use papuga.Serialization.Release.{Releases, release_tail-Releases, release_tail-stale}

-- The allocator counts the chunks that it can still give.
abbrev alloc : ℕ → Option ℕ
alloc zero = none
alloc (suc n) = some n

abbrev value : ℕ → Node ℕ
value v = tagged ℕ tag_value (atom v)

abbrev stale : Node ℕ
stale = value 99

abbrev chunks_of : List (List (Node ℕ)) → List (Node ℕ) → Serialization ℕ ℕ
chunks_of before current = record {
  before = before;
  current = current;
  freelist = 0;
  allocator = 1;
  structid = pos 0;
}

abbrev full : List (Node ℕ)
full = replicate 128 (value 7)

push_run : push_node ℕ ℕ alloc (chunks_of [] full) (value 1) ≡ (
  true,
  record {
    before = full ∷ [];
    current = value 1 ∷ [];
    freelist = 0;
    allocator = 0;
    structid = pos 0;
  },
)
unfolding push_node next_chunk
push_run = refl

-- The name 5 of a structure with one value, and a value behind it.
abbrev item : Item ℕ
item = struct void (plain (leaf (atom 1)) nil)

abbrev three : List (List (Node ℕ))
three =
    (tagged ℕ tag_name (atom 5) ∷ tagged ℕ tag_open void ∷ [])
    ∷ (value 1 ∷ tagged ℕ tag_close void ∷ [])
    ∷ (value 2 ∷ [])
    ∷ []

three-Walkable : Walkable three
three-Walkable = ((omega arith, (omega arith, tt)), inr (omega arith))

start : SerializationIter ℕ
start = record {
  chunk = 0;
  chunkpos = 0;
  tag = tag_name;
  value = some (tagged ℕ tag_name (atom 5));
}

start-IsAt : IsAt ℕ stale three start (encode_element ℕ (some (atom 5)) item ++ (value 2 ∷ []))
unfolding start
start-IsAt = record {
  within = omega arith;
  ahead_of = refl;
  value = refl;
  tag = refl;
  inside = inl (omega arith);
}

skip_structure_run :
    skip_structure ℕ stale 9 three (init_iter ℕ stale three)
    ≡ some (true, at_node ℕ stale 2 0 (value 2))
unfolding skip_structure skip_element skip_named skip_open skip init_iter
skip_structure_run = refl

init_iter_last_run :
    init_iter_last ℕ stale (full ∷ []) (value 1 ∷ value 2 ∷ []) ≡ at_node ℕ stale 1 1 (value 2)
unfolding init_iter_last
init_iter_last_run = refl

follow_tag_run : follow_tag ℕ stale three start ≡ tag_open
unfolding follow_tag start
follow_tag_run = refl

full-IsPacked : IsPacked ℕ ℕ (chunks_of [] full)
full-IsPacked = record { full = tt; fits = omega arith }

push_node-Pushes_example :
    Pushes ℕ ℕ alloc
      (chunks_of [] full)
      (value 1)
      (push_node ℕ ℕ alloc (chunks_of [] full) (value 1))
push_node-Pushes_example = push_node-Pushes ℕ ℕ alloc (chunks_of [] full) (value 1) full-IsPacked

skip-IsAt_example :
    IsAt ℕ stale three
      (skip ℕ stale three start)
      (tagged ℕ tag_open void ∷ value 1 ∷ tagged ℕ tag_close void ∷ value 2 ∷ [])
skip-IsAt_example =
    skip-IsAt ℕ stale three start (encode_element ℕ (some (atom 5)) item ++ (value 2 ∷ []))
      three-Walkable start-IsAt

skip_structure-Arrives_example :
    Arrives ℕ stale three (skip_structure ℕ stale 9 three start) (true, value 2 ∷ [])
skip_structure-Arrives_example =
    skip_structure-Arrives ℕ stale 9 three start
      (encode_element ℕ (some (atom 5)) item ++ (value 2 ∷ [])) three-Walkable start-IsAt
      (omega arith)

skip_structure-encode_example :
    Arrives ℕ stale three (skip_structure ℕ stale 9 three start) (true, value 2 ∷ [])
skip_structure-encode_example =
    skip_structure-encode ℕ stale 9 three start (some (atom 5)) item (value 2 ∷ []) three-Walkable
      start-IsAt (omega arith)

-- A full chunk and one of two nodes, released at the second one.
abbrev two : Serialization ℕ ℕ
two = chunks_of (full ∷ []) (value 1 ∷ value 2 ∷ [])

two-IsPacked : IsPacked ℕ ℕ two
two-IsPacked = record { full = (refl, tt); fits = omega arith }

second : SerializationIter ℕ
second = at_node ℕ stale 1 1 (value 2)

second-IsAt : IsAt ℕ stale (chain ℕ ℕ two) second (value 2 ∷ [])
unfolding second
second-IsAt = record {
  within = omega arith;
  ahead_of = refl;
  value = refl;
  tag = refl;
  inside = inl (omega arith);
}

release_tail-Releases_example :
    Releases ℕ ℕ stale two (value 2 ∷ []) (release_tail ℕ ℕ two (some second))
release_tail-Releases_example =
    release_tail-Releases ℕ ℕ stale two second (value 2 ∷ []) two-IsPacked second-IsAt

release_tail-stale_example :
    skip ℕ stale
      (chain ℕ ℕ (release_tail ℕ ℕ two (some (at_node ℕ stale 1 0 (value 1)))))
      (at_node ℕ stale 0 127 (value 7))
    ≡ at_node ℕ stale 1 0 stale
release_tail-stale_example =
    release_tail-stale ℕ ℕ stale two (at_node ℕ stale 1 0 (value 1)) 0 127 (value 7) (omega arith)
      refl refl refl

-- A serialization of a value and of an inner one, which has the value 4.
abbrev inner : Serialization ℕ ℕ
inner = record {
  before = [];
  current = value 4 ∷ [];
  freelist = 0;
  allocator = 1;
  structid = pos 6;
}

abbrev outer : Serialization ℕ ℕ
outer = chunks_of [] (value 3 ∷ tagged ℕ tag_value (serialization 0) ∷ [])

flat_nodes : List (Node ℕ)
flat_nodes =
    value 3 ∷ tagged ℕ tag_open (structid_value (pos 6)) ∷ value 4 ∷ tagged ℕ tag_close void ∷ []

flatten_run :
    flatten ℕ ℕ alloc stale (λ p. inner) 9 outer
    ≡ some (
      true,
      record { before = []; current = flat_nodes; freelist = 0; allocator = 1; structid = pos 0 },
    )
unfolding flatten flat_nodes closing_push
flatten_run = refl

inner-Walkable : ℕ → Walkable (chain ℕ ℕ inner)
inner-Walkable p = (tt, inl refl)

outer_start : SerializationIter ℕ
outer_start = at_node ℕ stale 0 0 (value 3)

outer_start-IsAt : IsAt ℕ stale (chain ℕ ℕ outer) outer_start outer.current
unfolding outer_start
outer_start-IsAt = record {
  within = omega arith;
  ahead_of = refl;
  value = refl;
  tag = refl;
  inside = inl (omega arith);
}

flatten_loop-Flattens_example :
    Flattens ℕ ℕ alloc stale
      (λ p. inner)
      outer
      (flat ℕ ℕ alloc stale (λ p. inner) 9 outer.current)
      (flatten_loop ℕ ℕ alloc stale (λ p. inner) 9 outer (chain ℕ ℕ outer) outer_start)
flatten_loop-Flattens_example =
    flatten_loop-Flattens ℕ ℕ alloc stale (λ p. inner) 9 outer (chain ℕ ℕ outer) outer_start
      outer.current inner-Walkable (tt, inl refl) outer_start-IsAt
