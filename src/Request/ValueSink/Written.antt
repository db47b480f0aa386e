-- ===== src/Request/ValueSink/Written.antt =====
-- The class ValueSink of src/request.cpp on the serializations of src/serialization.c.
use papuga.Prelude.{
  ℕ, ◌+◌, ◌≡◌, refl, sym, ap, ◌∙◌, Bool, true, false, Option, none, some, List, [], ◌∷◌, ◌++◌,
  arith,
}
use papuga.Request.Description.Expression.{Text}
use papuga.Request.ValueSink.{Writer}
use papuga.Request.ValueSink.Balance.{Depth}
use papuga.Serialization.{
  Tag, tag_value, tag_open, tag_close, tag_name, Content, void, structid_value, atom, serialization,
  Node, Serialization, init_serialization, push_node, push_open, push_close, push_tagged,
}
use papuga.Serialization.Push.{nodes, push_node-nodes}

-- papuga_ValueVariant_defined
abbrev pub is_defined_content : {V : Type 0} → Content V → Bool
is_defined_content void = false
is_defined_content (structid_value n) = true
is_defined_content (atom v) = true
is_defined_content (serialization p) = true

-- A push that failed has changed nothing, so its serialization can be dropped.
abbrev pub pushed_to : {S : Type 0} → Bool × S → Option S
pushed_to r = elim r.0 [ true ↦ some r.1 | false ↦ none ]

abbrev pub opens_of : Tag → ℕ
opens_of tag_value = 0
opens_of tag_open = 1
opens_of tag_close = 0
opens_of tag_name = 0

abbrev pub closes_of : Tag → ℕ
closes_of tag_value = 0
closes_of tag_open = 0
closes_of tag_close = 1
closes_of tag_name = 0

module _ {V : Type 0} where
  -- How many nodes open a structure, and how many close one.
  abbrev pub count_of : (Tag → ℕ) → List (Node V) → ℕ
  count_of f [] = 0
  count_of f (nd ∷ nds) = f nd.tag + count_of f nds

  count_of-append :
      (f : Tag → ℕ) (xs : List (Node V)) (nd : Node V)
      → count_of f (xs ++ (nd ∷ [])) ≡ count_of f xs + f nd.tag
  count_of-append f [] nd = omega arith
  count_of-append f (x ∷ xs) nd = omega (arith, count_of-append f xs nd)

pushed_to-some :
    {S : Type 0} (r : Bool × S) (t : S) → pushed_to r ≡ some t → (r.0 ≡ true) × (t ≡ r.1)
pushed_to-some (false, s) t h = absurd (ground arith)
pushed_to-some (true, s) t h =
    (refl, ap (λ (o : Option _). elim o [ none ↦ s | some x ↦ x ]) (sym h))

-- `of_text` is the value of a name, `address` where a new serialization lies, and `fresh` the allocator's
-- state once it has given the memory for one.
module _ (V Mem : Type 0) (alloc : Mem → Option Mem) (of_text : Text → V) (address : ℕ)
    (fresh : Option Mem) where
  abbrev pub new_serialization : Option Mem → Option (Serialization V Mem)
  new_serialization none = none
  new_serialization (some mem) = some (init_serialization V Mem mem)

  abbrev pub serialization_writer : Writer
  serialization_writer = record {
    Ser = Serialization V Mem;
    Value = Content V;
    push_name = λ s n. pushed_to (push_tagged V Mem alloc s tag_name (atom (of_text n)));
    push_open = λ s. pushed_to (push_open V Mem alloc s);
    push_close = λ s. pushed_to (push_close V Mem alloc s);
    push_value = λ s v. pushed_to (push_tagged V Mem alloc s tag_value v);
    is_defined = is_defined_content;
    undefined = void;
    of_serialization = λ s. serialization address;
    alloc_serialization = new_serialization fresh;
  }

  abbrev pub counted : (Tag → ℕ) → Serialization V Mem → ℕ
  counted f s = count_of f (nodes V Mem s)

  pushed_nodes :
      (s t : Serialization V Mem) (nd : Node V)
      → pushed_to (push_node V Mem alloc s nd) ≡ some t
      → nodes V Mem t ≡ nodes V Mem s ++ (nd ∷ [])
  pushed_nodes s t nd h =
      let (p, e) = pushed_to-some (push_node V Mem alloc s nd) t h in
      rw e (push_node-nodes V Mem alloc s nd p)

  pub counted_push :
      (f : Tag → ℕ) (s t : Serialization V Mem) (nd : Node V)
      → pushed_to (push_node V Mem alloc s nd) ≡ some t
      → counted f t ≡ counted f s + f nd.tag
  counted_push f s t nd h =
      ap (count_of f) (pushed_nodes s t nd h) ∙ count_of-append f (nodes V Mem s) nd

  pub counted_fresh :
      (f : Tag → ℕ) (o : Option Mem) (s : Serialization V Mem)
      → new_serialization o ≡ some s
      → counted f s ≡ 0
  unfolding init_serialization
  counted_fresh f none s h = absurd (ground arith)
  counted_fresh f (some mem) s h =
      ap (λ (o : Option (Serialization V Mem)). elim o [ none ↦ 0 | some t ↦ counted f t ]) (sym h)

  -- What the class ValueSink asks of serializations holds of those of src/serialization.c.
  unfoldable pub serialization_depth : Depth serialization_writer
  unfolding push_open push_close push_tagged
  serialization_depth = record {
    opens = counted opens_of;
    closes = counted closes_of;
    named = λ a b n h.
        let nd : Node V = record { content = atom (of_text n); tag = tag_name } in
        (
          omega (arith, counted_push opens_of a b nd h),
          omega (arith, counted_push closes_of a b nd h),
        );
    opened = λ a b h.
        let nd : Node V = record { content = void; tag = tag_open } in
        (
          omega (arith, counted_push opens_of a b nd h),
          omega (arith, counted_push closes_of a b nd h),
        );
    closed = λ a b h.
        let nd : Node V = record { content = void; tag = tag_close } in
        (
          omega (arith, counted_push opens_of a b nd h),
          omega (arith, counted_push closes_of a b nd h),
        );
    valued = λ a b v h.
        let nd : Node V = record { content = v; tag = tag_value } in
        (
          omega (arith, counted_push opens_of a b nd h),
          omega (arith, counted_push closes_of a b nd h),
        );
    fresh = λ a h. (counted_fresh opens_of fresh a h, counted_fresh closes_of fresh a h);
  }
