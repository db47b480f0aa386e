-- ===== src/Request/Context/Prioritize.antt =====
-- MethodCallPrioritize of the class AutomatonContext in src/request.cpp.
use papuga.Prelude.{
  ◌≡◌, refl, sym, ◌⊎◌, inl, inr, ◌↔◌, Bool, true, false, Option, none, some, List, [], ◌∷◌, arith,
  Option-cases,
}
use papuga.Prelude.Int.{ℤ, ◌≤ℤ◌}
use papuga.Request.Keys.{Scope, inside}
use papuga.Request.Description.Expression.{Text}
use papuga.Request.Description.State.{CallDef}
use papuga.Request.Description.Calls.{eqb_ℤ}
use papuga.Request.Context.{
  MethodCallNode, reached, is_suppressed, isequal_varname, kept, suppress, has_item, grouped,
  prioritized,
}

abbrev pub IsIn : MethodCallNode → List MethodCallNode → Type 0
IsIn m [] = ⊥
IsIn m (mc ∷ mcs) = (mc ≡ m) ⊎ IsIn m mcs

-- The loops see every call that begins in the scope: none stands behind one that does not.
abbrev pub NoneReached : Scope → List MethodCallNode → Type 0
NoneReached cscope [] = Unit
NoneReached cscope (mc ∷ mcs) = (¬ (cscope.from ≤ℤ mc.scope.from)) × NoneReached cscope mcs

abbrev pub ReachedFirst : Scope → List MethodCallNode → Type 0
ReachedFirst cscope [] = Unit
ReachedFirst cscope (mc ∷ mcs) =
    (cscope.from ≤ℤ mc.scope.from) × ReachedFirst cscope mcs ⊎ NoneReached cscope (mc ∷ mcs)

pub outside-is_suppressed :
    (cscope : Scope) (e : ℤ) (def : CallDef) (mc : MethodCallNode)
    → ¬ (cscope.from ≤ℤ mc.scope.from)
    → is_suppressed cscope e def mc ≡ some false
unfolding is_suppressed inside
outside-is_suppressed cscope e def mc h = ground arith

pub NoneReached-is_suppressed :
    (cscope : Scope) (e : ℤ) (def : CallDef) (mcs : List MethodCallNode) (m : MethodCallNode)
    → NoneReached cscope mcs
    → IsIn m mcs
    → is_suppressed cscope e def m ≡ some false
NoneReached-is_suppressed cscope e def [] m h q = elim q [ ]
NoneReached-is_suppressed cscope e def (mc ∷ mcs) m (h, r) (inl q) =
    rw (sym q) (outside-is_suppressed cscope e def mc h)
NoneReached-is_suppressed cscope e def (mc ∷ mcs) m (h, r) (inr q) =
    NoneReached-is_suppressed cscope e def mcs m r q

pub kept-none :
    (b : Option Bool) (mc : MethodCallNode) (o : Option (List MethodCallNode))
    (r : List MethodCallNode)
    → o ≡ none
    → kept b mc o ≡ some r
    → ⊥
kept-none b mc o r q h = ground arith

suppress_step :
    (cscope : Scope) (e : ℤ) (def : CallDef) (mc : MethodCallNode)
    (mcs rest r : List MethodCallNode) (m : MethodCallNode)
    → IsIn m rest ↔ IsIn m mcs × (is_suppressed cscope e def m ≡ some false)
    → kept (is_suppressed cscope e def mc) mc (some rest) ≡ some r
    → IsIn m r ↔ IsIn m (mc ∷ mcs) × (is_suppressed cscope e def m ≡ some false)
suppress_step cscope e def mc mcs rest r m ih h =
    elim (Option-cases (is_suppressed cscope e def mc)) [
      | inl q ↦ ground arith
      | inr (true, q) ↦
          let same : r ≡ rest = ground arith in
          rw same (
            λ p. (inr (ih.0 p).0, (ih.0 p).1),
            λ p. elim p.0 [ inl eq ↦ absurd (ground arith) | inr k ↦ ih.1 (k, p.1) ],
          )
      | inr (false, q) ↦
          let same : r ≡ mc ∷ rest = ground arith in
          rw same (
            λ p. elim p [ inl eq ↦ (inl eq, rw (sym eq) q) | inr k ↦ (inr (ih.0 k).0, (ih.0 k).1) ],
            λ p. elim p.0 [ inl eq ↦ inl eq | inr k ↦ inr (ih.1 (k, p.1)) ],
          )
    ]

-- The loop leaves the calls whose test is false.
pub suppress_tests :
    (cscope : Scope) (e : ℤ) (def : CallDef) (mcs r : List MethodCallNode)
    → ReachedFirst cscope mcs
    → suppress cscope e def mcs ≡ some r
    → (m : MethodCallNode) → IsIn m r ↔ IsIn m mcs × (is_suppressed cscope e def m ≡ some false)
unfolding suppress
suppress_tests cscope e def [] r f h m = ground arith
suppress_tests cscope e def (mc ∷ mcs) r (inr n) h m =
    let same : r ≡ mc ∷ mcs = ground arith in
    rw same (λ q. (q, NoneReached-is_suppressed cscope e def (mc ∷ mcs) m n q), λ p. p.0)
suppress_tests cscope e def (mc ∷ mcs) r (inl (t, f)) h m =
    let step : kept (is_suppressed cscope e def mc) mc (suppress cscope e def mcs) ≡ some r =
      ground arith in
    elim (Option-cases (suppress cscope e def mcs)) [
      | inl q ↦
          absurd (kept-none (is_suppressed cscope e def mc) mc (suppress cscope e def mcs) r q step)
      | inr (rest, q) ↦
          suppress_step cscope e def mc mcs rest r m (suppress_tests cscope e def mcs rest f q m)
            (rw (sym q) step)
    ]

fault_test :
    (cscope : Scope) (e : ℤ) (def : CallDef) (mc : MethodCallNode) (variable : Text)
    → inside mc.scope cscope ≡ true
    → eqb_ℤ mc.key.elemidx e ≡ false
    → mc.def.resultvarname ≡ some variable
    → def.resultvarname ≡ none
    → is_suppressed cscope e def mc ≡ none
unfolding is_suppressed isequal_varname
fault_test cscope e def mc variable within other v n = ground arith

inside-reached :
    (cscope : Scope) (mc : MethodCallNode)
    → inside mc.scope cscope ≡ true
    → reached cscope mc ≡ true
unfolding inside
inside-reached cscope mc h = ground arith

fault_suppress :
    (cscope : Scope) (e : ℤ) (def : CallDef) (mc : MethodCallNode) (mcs : List MethodCallNode)
    → reached cscope mc ≡ true
    → is_suppressed cscope e def mc ≡ none
    → suppress cscope e def (mc ∷ mcs) ≡ none
unfolding suppress
fault_suppress cscope e def mc mcs t h = rw (t, h, suppress) refl

-- Prioritizing a call that has no result variable is a fault, `strcmp` with a null pointer, where the
-- last call has one, lies in the same scope and is of another definition, and the loop finds a call
-- with the prioritized definition in the scope.
pub prioritized_fault :
    (cscope : Scope) (e : ℤ) (def : CallDef) (mc : MethodCallNode) (mcs : List MethodCallNode)
    (variable : Text)
    → has_item cscope e (mc ∷ mcs) ≡ true
    → inside mc.scope cscope ≡ true
    → eqb_ℤ mc.key.elemidx e ≡ false
    → mc.def.resultvarname ≡ some variable
    → def.resultvarname ≡ none
    → prioritized cscope e def (mc ∷ mcs) ≡ none
unfolding prioritized grouped
prioritized_fault cscope e def mc mcs variable item within other v n =
    rw
      (
        item,
        fault_suppress cscope e def mc mcs (inside-reached cscope mc within)
            (fault_test cscope e def mc variable within other v n),
        prioritized,
      )
      refl
