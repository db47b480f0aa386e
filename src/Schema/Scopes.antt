-- ===== src/Schema/Scopes.antt =====
-- TreeNode::assignScope of src/schemaDescription.cpp: the scopes of the nodes of a tree. The numbers are at
-- most the nodes of the tree, which is taken to be fewer than an `int` can count.
use papuga.Prelude.{
  ℕ, zero, suc, ◌≤◌, ◌<◌, ◌≡◌, sym, ap, Bool, true, false, ◌&&◌, Option, none, some, List, [], ◌∷◌,
  arith,
}
use papuga.Prelude.Int.{pos}
use papuga.Request.Keys.{Scope, inside}
use papuga.Schema.{NodeData, TreeNode, node, Children, no_child, child}

abbrev pub scope_of : ℕ → ℕ → Scope
scope_of from to = record { from = pos from; to = pos to }

-- assignScope: the counter behind the node, and the node.
unfoldable mutual
  pub assign_scope : ℕ → TreeNode → ℕ × TreeNode
  assign_scope start (node d cs) =
      let r = assign_children (suc start) cs in
      (r.0, node (record d { scope = scope_of start r.0 }) r.1)

  pub assign_children : ℕ → Children → ℕ × Children
  assign_children start no_child = (start, no_child)
  assign_children start (child t ts) =
      let r = assign_scope start t in let s = assign_children r.0 ts in (s.0, child r.1 s.1)

-- The node at a path, which has the place of a child for each step down.
abbrev mutual
  pub node_at : List ℕ → TreeNode → Option NodeData
  node_at [] (node d cs) = some d
  node_at (i ∷ path) (node d cs) = node_in i path cs

  pub node_in : ℕ → List ℕ → Children → Option NodeData
  node_in i path no_child = none
  node_in zero path (child t ts) = node_at path t
  node_in (suc i) path (child t ts) = node_in i path ts

abbrev pub same_place : ℕ → ℕ → Bool
same_place zero zero = true
same_place zero (suc j) = false
same_place (suc i) zero = false
same_place (suc i) (suc j) = same_place i j

-- Whether the node at the first path is the one at the second or above it.
abbrev pub is_above : List ℕ → List ℕ → Bool
is_above [] q = true
is_above (i ∷ p) [] = false
is_above (i ∷ p) (j ∷ q) = same_place i j && is_above p q

mutual
  unfolding assign_scope

  scope_grows : (start : ℕ) (t : TreeNode) → start < (assign_scope start t).0
  scope_grows start (node d cs) = omega (arith, children_grow (suc start) cs)

  children_grow : (start : ℕ) (cs : Children) → start ≤ (assign_children start cs).0
  children_grow start no_child = omega arith
  children_grow start (child t ts) =
      omega (arith, scope_grows start t, children_grow (assign_scope start t).0 ts)

-- The scope of a node lies between two numbers and is not empty.
abbrev Spans : ℕ → ℕ → Scope → Type 0
Spans lo hi s =
    (from : ℕ) × (to : ℕ) × (s ≡ scope_of from to) × (lo ≤ from) × (from < to) × (to ≤ hi)

Spans-le :
    (lo hi low high : ℕ) (s : Scope) → low ≤ lo → hi ≤ high → Spans lo hi s → Spans low high s
Spans-le lo hi low high s h k (from, to, e, a, b, c) = (from, to, e, omega arith, b, omega arith)

scope_of_some : (d b : NodeData) → some d ≡ some b → b.scope ≡ d.scope
scope_of_some d b h =
    ap (λ (o : Option NodeData). elim o [ none ↦ d.scope | some x ↦ x.scope ]) (sym h)

mutual
  unfolding assign_scope

  node_at-Spans :
      (start : ℕ) (t : TreeNode) (path : List ℕ) (b : NodeData)
      → node_at path (assign_scope start t).1 ≡ some b
      → Spans start (assign_scope start t).0 b.scope
  node_at-Spans start (node d cs) [] b h =
      let end = (assign_children (suc start) cs).0 in
      (
        start,
        end,
        scope_of_some (record d { scope = scope_of start end }) b h,
        omega arith,
        omega (arith, children_grow (suc start) cs),
        omega arith,
      )
  node_at-Spans start (node d cs) (i ∷ path) b h =
      let end = (assign_children (suc start) cs).0 in
      Spans-le (suc start) end start end b.scope (omega arith) (omega arith)
        (node_in-Spans (suc start) cs i path b h)

  node_in-Spans :
      (start : ℕ) (cs : Children) (i : ℕ) (path : List ℕ) (b : NodeData)
      → node_in i path (assign_children start cs).1 ≡ some b
      → Spans start (assign_children start cs).0 b.scope
  node_in-Spans start no_child i path b h = absurd (ground arith)
  node_in-Spans start (child t ts) zero path b h =
      let next = (assign_scope start t).0 in
      Spans-le start next start (assign_children next ts).0 b.scope (omega arith)
        (children_grow next ts) (node_at-Spans start t path b h)
  node_in-Spans start (child t ts) (suc i) path b h =
      let next = (assign_scope start t).0 in
      let end = (assign_children next ts).0 in
      Spans-le next end start end b.scope (omega (arith, scope_grows start t)) (omega arith)
        (node_in-Spans next ts i path b h)

inside_true : (lo hi : ℕ) (s : Scope) → Spans lo hi s → inside s (scope_of lo hi) ≡ true
unfolding inside
inside_true lo hi s (from, to, e, a, b, c) = rw e (ground arith)

inside_root_false :
    (lo hi : ℕ) (s : Scope) → Spans (suc lo) hi s → inside (scope_of lo hi) s ≡ false
unfolding inside
inside_root_false lo hi s (from, to, e, a, b, c) = rw e (ground arith)

inside_before : (lo mid hi : ℕ) (s t : Scope) → Spans lo mid s → Spans mid hi t → inside s t ≡ false
unfolding inside
inside_before lo mid hi s t (f, e, p, a, b, c) (g, k, q, x, y, z) = rw (p, q) (ground arith)

inside_behind : (lo mid hi : ℕ) (s t : Scope) → Spans lo mid t → Spans mid hi s → inside s t ≡ false
unfolding inside
inside_behind lo mid hi s t (f, e, p, a, b, c) (g, k, q, x, y, z) = rw (p, q) (ground arith)

mutual
  unfolding assign_scope

  inside_at :
      (start : ℕ) (t : TreeNode) (p q : List ℕ) (a b : NodeData)
      → node_at p (assign_scope start t).1 ≡ some a
      → node_at q (assign_scope start t).1 ≡ some b
      → inside b.scope a.scope ≡ is_above p q
  inside_at start (node d cs) [] q a b h k =
      let end = (assign_children (suc start) cs).0 in
      rw (scope_of_some (record d { scope = scope_of start end }) a h)
        (inside_true start end b.scope (node_at-Spans start (node d cs) q b k))
  inside_at start (node d cs) (i ∷ p) [] a b h k =
      let end = (assign_children (suc start) cs).0 in
      rw (scope_of_some (record d { scope = scope_of start end }) b k)
        (inside_root_false start end a.scope (node_in-Spans (suc start) cs i p a h))
  inside_at start (node d cs) (i ∷ p) (j ∷ q) a b h k = inside_in (suc start) cs i j p q a b h k

  inside_in :
      (start : ℕ) (cs : Children) (i j : ℕ) (p q : List ℕ) (a b : NodeData)
      → node_in i p (assign_children start cs).1 ≡ some a
      → node_in j q (assign_children start cs).1 ≡ some b
      → inside b.scope a.scope ≡ (same_place i j && is_above p q)
  inside_in start no_child i j p q a b h k = absurd (ground arith)
  inside_in start (child t ts) zero zero p q a b h k = inside_at start t p q a b h k
  inside_in start (child t ts) zero (suc j) p q a b h k =
      let next = (assign_scope start t).0 in
      inside_behind start next (assign_children next ts).0 b.scope a.scope
        (node_at-Spans start t p a h) (node_in-Spans next ts j q b k)
  inside_in start (child t ts) (suc i) zero p q a b h k =
      let next = (assign_scope start t).0 in
      inside_before start next (assign_children next ts).0 b.scope a.scope
        (node_at-Spans start t q b k) (node_in-Spans next ts i p a h)
  inside_in start (child t ts) (suc i) (suc j) p q a b h k =
      inside_in (assign_scope start t).0 ts i j p q a b h k

-- After the assignment the scope of a node lies inside of that of another one exactly if the other one is
-- the node itself or above it in the tree.
pub assign_scope-inside :
    (start : ℕ) (t : TreeNode) (p q : List ℕ) (a b : NodeData)
    → node_at p (assign_scope start t).1 ≡ some a
    → node_at q (assign_scope start t).1 ≡ some b
    → inside b.scope a.scope ≡ is_above p q
assign_scope-inside start t p q a b h k = inside_at start t p q a b h k
