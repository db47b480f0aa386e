-- ===== src/Request/Context/Dropped.antt =====
-- The scopes of method calls behind MethodCallPrioritize of AutomatonContext in src/request.cpp.
use papuga.Prelude.{
  ℕ, ◌≡◌, refl, ◌∙◌, ◌⊎◌, inl, inr, Bool, true, false, ◌&&◌, not, Option, none, some, List, [], ◌∷◌,
  if◌then◌else◌, Bool-cases,
}
use papuga.Prelude.Int.{ℤ, pos, negsuc}
use papuga.Request.Keys.{Scope}
use papuga.Request.Description.State.{CallDef}
use papuga.Request.Description.Calls.{leb_ℤ}
use papuga.Request.Context.{
  Context, MethodCallNode, curscope, method_call_prioritize, prioritized, suppress, regroup,
  grouped, has_item, kept, is_suppressed, reached, is_item, is_variable_assignment, with_group,
}
use papuga.Request.Context.Scopes.{
  RecordsSome, ObjectScope, CallScope, HasScope, Records-refl, Records-fields,
}

-- Prioritizing drops calls and changes groups.
abbrev Within : Option (List MethodCallNode) → List MethodCallNode → Type 0
Within none mcs = Unit
Within (some left) mcs = (s : Scope) → CallScope left s → CallScope mcs s

behind_head :
    (mc : MethodCallNode) (left mcs : List MethodCallNode) (s : Scope)
    → (CallScope left s → CallScope mcs s)
    → CallScope (mc ∷ left) s
    → CallScope (mc ∷ mcs) s
behind_head mc left mcs s f (inl e) = inl e
behind_head mc left mcs s f (inr h) = inr (f h)

kept-Within :
    (o : Option Bool) (mc : MethodCallNode) (rest : Option (List MethodCallNode))
    (mcs : List MethodCallNode)
    → Within rest mcs
    → Within (kept o mc rest) (mc ∷ mcs)
kept-Within none mc rest mcs w = tt
kept-Within (some b) mc none mcs w = tt
kept-Within (some true) mc (some rest) mcs w = λ s h. inr (w s h)
kept-Within (some false) mc (some rest) mcs w = λ s. behind_head mc rest mcs s (w s)

either_list :
    (b : Bool) (x y : Option (List MethodCallNode)) (mcs : List MethodCallNode)
    → Within x mcs
    → Within y mcs
    → Within (if b then x else y) mcs
either_list true x y mcs w u = w
either_list false x y mcs w u = u

suppress-Within :
    (cscope : Scope) (elemidx : ℤ) (def : CallDef) (mcs : List MethodCallNode)
    → Within (suppress cscope elemidx def mcs) mcs
unfolding suppress
suppress-Within cscope elemidx def [] = λ s h. h
suppress-Within cscope elemidx def (mc ∷ mcs) =
    either_list (not (reached cscope mc)) (some (mc ∷ mcs))
      (kept (is_suppressed cscope elemidx def mc) mc (suppress cscope elemidx def mcs)) (mc ∷ mcs)
      (λ s h. h)
      (kept-Within (is_suppressed cscope elemidx def mc) mc (suppress cscope elemidx def mcs) mcs
        (suppress-Within cscope elemidx def mcs))

same_head :
    (mc mc' : MethodCallNode) (left mcs : List MethodCallNode) (s : Scope)
    → mc.scope ≡ mc'.scope
    → (CallScope left s → CallScope mcs s)
    → CallScope (mc' ∷ left) s
    → CallScope (mc ∷ mcs) s
same_head mc mc' left mcs s e f (inl h) = inl (e ∙ h)
same_head mc mc' left mcs s e f (inr h) = inr (f h)

regroup-Within :
    (cscope : Scope) (elemidx group : ℤ) (mcs : List MethodCallNode)
    → Within (some (regroup cscope elemidx group mcs)) mcs
unfolding regroup
regroup-Within cscope elemidx group [] = λ s h. h
regroup-Within cscope elemidx group (mc ∷ mcs) =
    let found =
      if is_item cscope elemidx mc && not (leb_ℤ (pos 0) group) then mc.key.group else group in
    let rest = regroup cscope elemidx found mcs in
    let below = regroup-Within cscope elemidx found mcs in
    elim (Bool-cases (reached cscope mc)) [
      | inr e ↦ rw (e, Within) (λ s h. h)
      | inl e ↦ elim (Bool-cases (is_item cscope elemidx mc && leb_ℤ (pos 0) group)) [
        | inl i ↦
            rw (e, i, Within) (λ s. same_head mc (with_group mc group) rest mcs s refl (below s))
        | inr i ↦ rw (e, i, Within) (λ s. behind_head mc rest mcs s (below s))
      ]
    ]

grouped-Within :
    (cscope : Scope) (elemidx : ℤ) (def : CallDef) (o : Option (List MethodCallNode))
    (mcs : List MethodCallNode)
    → Within o mcs
    → Within (grouped cscope elemidx def o) mcs
unfolding grouped
grouped-Within cscope elemidx def none mcs w = tt
grouped-Within cscope elemidx def (some left) mcs w =
    either_list (is_variable_assignment def) (some (regroup cscope elemidx (negsuc 0) left))
      (some left) mcs (λ s h. w s (regroup-Within cscope elemidx (negsuc 0) left s h)) w

prioritized-Within :
    (cscope : Scope) (elemidx : ℤ) (def : CallDef) (mcs : List MethodCallNode)
    → Within (prioritized cscope elemidx def mcs) mcs
unfolding prioritized
prioritized-Within cscope elemidx def mcs =
    either_list (has_item cscope elemidx mcs)
      (grouped cscope elemidx def (suppress cscope elemidx def mcs)) (some mcs) mcs
      (grouped-Within cscope elemidx def (suppress cscope elemidx def mcs) mcs
        (suppress-Within cscope elemidx def mcs))
      (λ s h. h)

module _ (V : Type 0) where
  fewer_calls :
      (c : Context V) (left : List MethodCallNode) (s : Scope)
      → (CallScope left s → CallScope c.methodcalls s)
      → ObjectScope c.scopeobjects s ⊎ CallScope left s
      → HasScope V c s
  fewer_calls c left s f (inl h) = inl h
  fewer_calls c left s f (inr h) = inr (f h)

  some_calls :
      (c : Context V) (o : Option (List MethodCallNode))
      → Within o c.methodcalls
      → RecordsSome V c (elim o [ none ↦ none | some mcs ↦ some (record c { methodcalls = mcs }) ])
  some_calls c none w = tt
  some_calls c (some left) w =
      Records-fields V c c (record c { methodcalls = left }) (Records-refl V c) refl refl
        (λ s. fewer_calls c left s (w s))

  pub method_call_prioritize-Records :
      (c : Context V) (def : CallDef) (evidx : ℕ)
      → RecordsSome V c (method_call_prioritize V c def evidx)
  unfolding method_call_prioritize
  method_call_prioritize-Records c def evidx =
      some_calls c (prioritized (curscope V c) (pos evidx) def c.methodcalls)
        (prioritized-Within (curscope V c) (pos evidx) def c.methodcalls)
