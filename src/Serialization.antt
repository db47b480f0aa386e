-- ===== src/Serialization.antt =====
-- The node chunks and iterators of src/serialization.c and include/papuga/serialization.h.
pub mod Push
pub mod Walk
pub mod Structure
pub mod Release
pub mod Flatten
use papuga.Prelude.{
  ℕ, zero, suc, ◌+◌, ◌-◌, Bool, true, false, ◌&&◌, not, Option, none, some, List, [], ◌∷◌, ◌++◌,
  ltb, leb, ◌==◌, if◌then◌else◌, length, get_or, take,
}
use papuga.Prelude.Int.{ℤ, pos}

-- papuga_Tag
pub data Tag : Type 0 where
  tag_value tag_open tag_close tag_name : Tag

-- The content of a node: a value that is no serialization, of a type `V`, or a pointer to one.
pub data Content (V : Type 0) : Type 0 where
  void : Content V
  structid_value : ℤ → Content V
  atom : V → Content V
  serialization : ℕ → Content V

-- papuga_Node: a value variant with its `_tag`.
pub record Node (V : Type 0) : Type 0 where
  pub content : Content V
  pub tag : Tag

-- papuga_NodeChunkSize
abbrev pub node_chunk_size : ℕ
node_chunk_size = 128

-- papuga_Serialization: the chunks in front of the current one, and the current one, which is the
-- last of the chain. A chunk is the list of its first `size` nodes. `freelist` counts its chunks.
pub record Serialization (V Mem : Type 0) : Type 0 where
  pub before : List (List (Node V))
  pub current : List (Node V)
  pub freelist : ℕ
  pub allocator : Mem
  pub structid : ℤ

-- papuga_SerializationIter: `chunk` is the chunk's place in the chain.
pub record SerializationIter (V : Type 0) : Type 0 where
  pub chunk : ℕ
  pub chunkpos : ℕ
  pub tag : Tag
  pub value : Option (Node V)

module _ (V Mem : Type 0) where
  -- papuga_init_Serialization
  unfoldable pub init_serialization : Mem → Serialization V Mem
  init_serialization allocator = record {
    before = [];
    current = [];
    freelist = 0;
    allocator = allocator;
    structid = pos 0;
  }

  -- The chain from `head` on.
  abbrev pub chain : Serialization V Mem → List (List (Node V))
  chain s = s.before ++ (s.current ∷ [])

-- `alloc` is papuga_Allocator_alloc for the size of a chunk.
module _ (V Mem : Type 0) (alloc : Mem → Option Mem) where
  -- A chunk from the freelist or the allocator.
  unfoldable pub next_chunk : Serialization V Mem → Option (Serialization V Mem)
  next_chunk s =
      if ltb 0 s.freelist
      then some (record s { freelist = s.freelist - 1 })
      else elim (alloc s.allocator) [ none ↦ none | some mem ↦ some (record s { allocator = mem }) ]

  -- alloc_node with the node's assignment: papuga_Serialization_push_node, and every push.
  unfoldable pub push_node : Serialization V Mem → Node V → Bool × Serialization V Mem
  push_node s nd =
      if length s.current == node_chunk_size
      then elim (next_chunk s) [
        | none ↦ (false, s)
        | some t ↦ (true, record t { before = t.before ++ (t.current ∷ []); current = nd ∷ [] })
      ]
      else (true, record s { current = s.current ++ (nd ∷ []) })

  unfoldable pub push_open : Serialization V Mem → Bool × Serialization V Mem
  push_open s = push_node s (record { content = void; tag = tag_open })

  unfoldable pub push_open_struct : Serialization V Mem → ℤ → Bool × Serialization V Mem
  push_open_struct s structid =
      push_node s (record { content = structid_value structid; tag = tag_open })

  unfoldable pub push_close : Serialization V Mem → Bool × Serialization V Mem
  push_close s = push_node s (record { content = void; tag = tag_close })

  -- papuga_Serialization_push, and pushName and pushValue with a value.
  unfoldable pub push_tagged : Serialization V Mem → Tag → Content V → Bool × Serialization V Mem
  push_tagged s tag content = push_node s (record { content = content; tag = tag })

-- The level of open structures after a tag.
abbrev pub level_after : ℕ → Tag → ℕ
level_after taglevel tag_value = taglevel
level_after taglevel tag_open = suc taglevel
level_after zero tag_close = zero
level_after (suc taglevel) tag_close = taglevel
level_after taglevel tag_name = taglevel

-- `stale` is what the memory of a chunk holds behind its fill size.
module _ (V : Type 0) (stale : Node V) where
  abbrev pub at_node : ℕ → ℕ → Node V → SerializationIter V
  at_node chunk chunkpos nd = record {
    chunk = chunk;
    chunkpos = chunkpos;
    tag = nd.tag;
    value = some nd;
  }

  abbrev pub at_end : ℕ → ℕ → SerializationIter V
  at_end chunk chunkpos = record {
    chunk = chunk;
    chunkpos = chunkpos;
    tag = tag_close;
    value = none;
  }

  -- papuga_init_SerializationIter, of the chain of chunks.
  unfoldable pub init_iter : List (List (Node V)) → SerializationIter V
  init_iter [] = at_end 0 0
  init_iter (c ∷ cs) = if length c == 0 then at_end 0 0 else at_node 0 0 (get_or c 0 stale)

  -- papuga_init_SerializationIter_last and papuga_init_SerializationIter_end, of the chunks in front
  -- and the current one.
  unfoldable pub init_iter_last : List (List (Node V)) → List (Node V) → SerializationIter V
  init_iter_last before current =
      if length current == 0
      then at_end (length before) 0
      else at_node (length before) (length current - 1) (get_or current (length current - 1) stale)

  unfoldable pub init_iter_end : List (List (Node V)) → List (Node V) → SerializationIter V
  init_iter_end before current = at_end (length before) (length current)

  abbrev pub is_eof : SerializationIter V → Bool
  is_eof it = elim it.value [ none ↦ true | some nd ↦ false ]

  -- papuga_SerializationIter_skip
  unfoldable pub skip : List (List (Node V)) → SerializationIter V → SerializationIter V
  skip chunks it =
      let c = get_or chunks it.chunk [] in
      if leb (length c) (it.chunkpos + 1)
      then if ltb (it.chunk + 1) (length chunks)
        then at_node (it.chunk + 1) 0 (get_or (get_or chunks (it.chunk + 1) []) 0 stale)
        else at_end it.chunk (length c)
      else at_node it.chunk (it.chunkpos + 1) (get_or c (it.chunkpos + 1) stale)

  -- papuga_SerializationIter_follow_tag
  unfoldable pub follow_tag : List (List (Node V)) → SerializationIter V → Tag
  follow_tag chunks it =
      let c = get_or chunks it.chunk [] in
      if leb (length c) (it.chunkpos + 1)
      then if ltb (it.chunk + 1) (length chunks)
        then (get_or (get_or chunks (it.chunk + 1) []) 0 stale).tag
        else tag_close
      else (get_or c (it.chunkpos + 1) stale).tag

  -- SerializationIter_skip_structure_open, on fuel: `none` is a loop that has not ended.
  unfoldable pub skip_open :
      ℕ → List (List (Node V)) → ℕ → SerializationIter V → Option (Bool × SerializationIter V)
  skip_open zero chunks taglevel it = none
  skip_open (suc fuel) chunks taglevel it = elim (ltb 0 taglevel && not (is_eof it)) [
    | true ↦ skip_open fuel chunks (level_after taglevel it.tag) (skip chunks it)
    | false ↦ some (taglevel == 0, it)
  ]

  -- papuga_SerializationIter_skip_structure behind a name.
  unfoldable pub skip_named :
      ℕ → List (List (Node V)) → Tag → SerializationIter V → Option (Bool × SerializationIter V)
  skip_named fuel chunks tag_value it = some (true, skip chunks it)
  skip_named fuel chunks tag_open it = skip_open fuel chunks 1 (skip chunks it)
  skip_named fuel chunks tag_close it = some (false, it)
  skip_named fuel chunks tag_name it = some (false, it)

  -- papuga_SerializationIter_skip_structure where the iterator is not at the end, by its tag.
  unfoldable pub skip_element :
      ℕ → List (List (Node V)) → Tag → SerializationIter V → Option (Bool × SerializationIter V)
  skip_element fuel chunks tag_value it = some (true, skip chunks it)
  skip_element fuel chunks tag_open it = skip_open fuel chunks 1 (skip chunks it)
  skip_element fuel chunks tag_close it = some (false, it)
  skip_element fuel chunks tag_name it =
      skip_named fuel chunks (skip chunks it).tag (skip chunks it)

  unfoldable pub skip_structure :
      ℕ → List (List (Node V)) → SerializationIter V → Option (Bool × SerializationIter V)
  skip_structure fuel chunks it =
      if is_eof it then some (false, it) else skip_element fuel chunks it.tag it

module _ (V Mem : Type 0) where
  -- papuga_Serialization_release_tail; `none` stands for the iterator of no chunk.
  unfoldable pub release_tail :
      Serialization V Mem → Option (SerializationIter V) → Serialization V Mem
  release_tail s none = s
  release_tail s (some it) = record s {
    before = take it.chunk (chain V Mem s);
    current = take it.chunkpos (get_or (chain V Mem s) it.chunk []);
    freelist = s.freelist + (length (chain V Mem s) - 1 - it.chunk);
  }
