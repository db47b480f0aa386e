-- ===== src/Schema/Finish/Deep.antt =====
-- SchemaDescription::declareDeepNodesAsGlobals of src/schemaDescription.cpp.
use papuga.ErrorCode.{ErrorCode, ok, is_ok, ambiguous_reference}
use papuga.Prelude.{
  Bool, true, false, ◌&&◌, ◌||◌, not, Option, none, some, List, [], ◌∷◌, ltb, ◌==◌, if◌then◌else◌,
}
use papuga.Prelude.Int.{ℤ}
use papuga.Request.Keys.{eqb_ℤ}
use papuga.Request.Description.Expression.{Text, text_eq}
use papuga.Schema.{
  null_type, follow_immediate, follow_deep, NodeData, TreeNode, node, Children, no_child, child,
  append_child,
}
use papuga.Schema.Node.{is_follow}
use papuga.Schema.Finish.{has_child}

-- `operator<` of std::string
unfoldable pub text_lt : Text → Text → Bool
text_lt [] [] = false
text_lt [] (d ∷ ds) = true
text_lt (c ∷ cs) [] = false
text_lt (c ∷ cs) (d ∷ ds) = ltb c d || (c == d && text_lt cs ds)

-- NameItemMap, in the order of the names.
abbrev pub NameItemMap : Type 0
NameItemMap = List (Text × ℤ)

unfoldable pub find_item : Text → NameItemMap → Option ℤ
unfolding text_eq
find_item name [] = none
find_item name (e ∷ es) = if text_eq e.0 name then some e.1 else find_item name es

unfoldable pub insert_item : Text → ℤ → NameItemMap → NameItemMap
unfolding text_lt
insert_item name id [] = (name, id) ∷ []
insert_item name id (e ∷ es) =
    if text_lt name e.0 then (name, id) ∷ e ∷ es else e ∷ insert_item name id es

-- What the passes over the tree collect: the names of deep nodes, and the new nodes of the root.
pub record Globals : Type 0 where
  pub items : NameItemMap
  pub roots : Children

unfoldable pub has_root : Text → Children → Bool
unfolding text_eq
has_root name no_child = false
has_root name (child (node d cs) ts) = text_eq d.name name || has_root name ts

-- A node that has lost all its children is no struct any more.
abbrev pub emptied : NodeData → Children → Children → NodeData
emptied d before after =
    if has_child before && not (has_child after) then record d { element_type = null_type } else d

abbrev pub immediate : NodeData → NodeData
immediate d = record d { follow_type = follow_immediate }

-- What is left to do with the next children, after a child that is kept or one that is erased.
abbrev pub keeping :
    TreeNode
    → Children
    → ErrorCode × Globals
    → (Globals → ErrorCode × Children × Globals)
    → ErrorCode × Children × Globals
keeping t ts r next = elim (is_ok r.0) [
  | true ↦ let s = next r.1 in (s.0, child t s.1, s.2)
  | false ↦ (r.0, child t ts, r.1)
]

abbrev pub erasing :
    TreeNode
    → Children
    → ErrorCode × Globals
    → (Globals → ErrorCode × Children × Globals)
    → ErrorCode × Children × Globals
erasing t ts r next = elim (is_ok r.0) [ true ↦ next r.1 | false ↦ (r.0, child t ts, r.1) ]

-- A deep node with a name that is there: it is erased if the new nodes of the root have it with that id.
unfoldable pub declared_again : NodeData → ℤ → Globals → ErrorCode × Globals
unfolding has_root
declared_again d id g =
    if eqb_ℤ d.id id && has_root d.name g.roots then (ok, g) else (ambiguous_reference, g)

abbrev pub with_item : NodeData → Globals → Globals
with_item d g = record g { items = insert_item d.name d.id g.items }

abbrev pub with_root : TreeNode → ErrorCode × Globals → ErrorCode × Globals
with_root t r = elim (is_ok r.0) [
  | true ↦ (ok, record r.1 { roots = append_child r.1.roots t })
  | false ↦ r
]

-- declareDeepNodesAsGlobals of the children of a node, `root` being whether it is the root of the tree.
unfoldable pub declare_children : Bool → Children → Globals → ErrorCode × Children × Globals
unfolding find_item insert_item declared_again
declare_children root no_child g = (ok, no_child, g)
declare_children root (child (node d cs) ts) g = elim (is_follow d.follow_type follow_deep) [
  | false ↦
      let r = declare_children false cs g in
      keeping (node (emptied d cs r.1) r.1) ts (r.0, r.2) (declare_children root ts)
  | true ↦ elim (find_item d.name g.items) [
    | some id ↦ erasing (node d cs) ts (declared_again d id g) (declare_children root ts)
    | none ↦
        let r = declare_children false cs (with_item d g) in
        let t = node (emptied (immediate d) cs r.1) r.1 in
        elim root [
          | true ↦ keeping t ts (r.0, r.2) (declare_children true ts)
          | false ↦ erasing (node d cs) ts (with_root t (r.0, r.2)) (declare_children false ts)
        ]
  ]
]
