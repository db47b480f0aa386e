-- ===== src/Schema/Fuel.antt =====
-- When the operations of src/schemaDescription.cpp on trees end, by their parts.
use mathlib.Core.Path.{subst}
use papuga.ErrorCode.{is_ok}
use papuga.Prelude.{
  inl, inr, Bool, true, false, Option, none, some, if◌then◌else◌, Bool-cases, Option-cases,
}
use papuga.Request.Description.Expression.{Text, text_eq}
use papuga.Schema.{TreeNode, node, Children, no_child, child, Effect, Run, and_run, bind_run}
use papuga.Schema.Node.{at_child, on_children, new_node, in_front, behind_child}

abbrev pub Ends : {A : Type 0} → Option A → Type 0
Ends none = ⊥
Ends (some a) = Unit

-- What holds of both branches holds of a test.
pub on_if : {A : Type 0} (P : A → Type 0) (b : Bool) (x y : A) → P x → P y → P (if b then x else y)
on_if P true x y h k = h
on_if P false x y h k = k

pub on_elim :
    {A : Type 0} (P : A → Type 0) (b : Bool) (x y : A)
    → P x
    → P y
    → P (elim b [ true ↦ x | false ↦ y ])
on_elim P true x y h k = h
on_elim P false x y h k = k

-- Ends where each step ends.
pub and_run-Ends :
    {A : Type 0} (r : Effect A) (next : A → Run A)
    → ((a : A) → Ends (next a))
    → Ends (and_run r next)
and_run-Ends r next h = on_elim Ends (is_ok r.0) (next r.1) (some r) (h r.1) tt

pub bind_run-Ends :
    {A : Type 0} (r : Run A) (next : A → Run A)
    → Ends r
    → ((a : A) → Ends (next a))
    → Ends (bind_run r next)
bind_run-Ends none next k h = k
bind_run-Ends (some r) next k h = and_run-Ends r next h

in_front-Ends : (ts : Children) (r : Run TreeNode) → Ends r → Ends (in_front ts r)
in_front-Ends ts none h = h
in_front-Ends ts (some r) h = tt

behind_child-Ends : (t : TreeNode) (r : Run Children) → Ends r → Ends (behind_child t r)
behind_child-Ends t none h = h
behind_child-Ends t (some r) h = tt

pub at_child-Ends :
    (name : Text) (f : TreeNode → Run TreeNode) (cs : Children)
    → ((t : TreeNode) → Ends (f t))
    → Ends (at_child name f cs)
unfolding at_child
at_child-Ends name f no_child h = in_front-Ends no_child (f (new_node name)) (h (new_node name))
at_child-Ends name f (child (node d cs) ts) h = elim (Bool-cases (text_eq name d.name)) [
  | inl e ↦ rw (e, at_child) (in_front-Ends ts (f (node d cs)) (h (node d cs)))
  | inr e ↦
      rw (e, at_child)
        (behind_child-Ends (node d cs) (at_child name f ts) (at_child-Ends name f ts h))
]

pub on_children-Ends :
    (f : Children → Run Children) (t : TreeNode)
    → ((cs : Children) → Ends (f cs))
    → Ends (on_children f t)
on_children-Ends f (node d cs) h = elim (Option-cases (f cs)) [
  | inl q ↦ absurd (subst (λ (r : Run Children). Ends r) q (h cs))
  | inr (r, q) ↦ rw (q, on_children, Ends) tt
]
