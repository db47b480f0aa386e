-- ===== src/Request/Context/Suppressed.antt =====
-- Which calls MethodCallPrioritize of the class AutomatonContext in src/request.cpp suppresses.
use papuga.Prelude.{
  ◌≡◌, ◌≢◌, refl, ap, ◌∙◌, inl, inr, ◌↔◌, true, false, Option, none, some, List, [], ◌∷◌, arith,
  Bool-cases, Option-cases,
}
use papuga.Prelude.Int.{ℤ, ◌≤ℤ◌}
use papuga.Request.Keys.{Scope, inside}
use papuga.Request.Description.Expression.{Text}
use papuga.Request.Description.Selectors.{text_eq_iff}
use papuga.Request.Description.State.{CallDef}
use papuga.Request.Description.Calls.{eqb_ℤ}
use papuga.Request.Context.{MethodCallNode, is_suppressed, isequal_varname, kept, suppress}
use papuga.Request.Context.Prioritize.{
  IsIn, ReachedFirst, suppress_tests, kept-none, NoneReached-is_suppressed,
}

-- A call in the scope that is of another definition than the prioritized one, the element `e`, and has the same
-- result variable, where none is the same as none.
abbrev pub IsRival : Scope → ℤ → CallDef → MethodCallNode → Type 0
IsRival cscope e def m =
    (cscope.from ≤ℤ m.scope.from)
    × (m.scope.to ≤ℤ cscope.to)
    × (m.key.elemidx ≢ e)
    × (m.def.resultvarname ≡ def.resultvarname)

eqb_ℤ_iff : (a b : ℤ) → (eqb_ℤ a b ≡ true) ↔ (a ≡ b)
eqb_ℤ_iff a b = ground arith

same_name : (v w : Option Text) → isequal_varname v w ≡ some true → v ≡ w
unfolding isequal_varname
same_name none none h = refl
same_name none (some w) h = absurd (ground arith)
same_name (some v) none h = absurd (ground arith)
same_name (some v) (some w) h = ap some ((text_eq_iff v w).0 (ground arith))

other_name : (v w : Option Text) → isequal_varname v w ≡ some false → v ≢ w
unfolding isequal_varname
other_name none none h = λ e. absurd (ground arith)
other_name none (some w) h = λ e. absurd (ground arith)
other_name (some v) none h = λ e. absurd (ground arith)
other_name (some v) (some w) h = λ e.
    let same : v ≡ w = ground arith in let t = (text_eq_iff v w).1 same in absurd (ground arith)

test_false :
    (cscope : Scope) (e : ℤ) (def : CallDef) (m : MethodCallNode)
    → is_suppressed cscope e def m ≡ some false
    → ¬ IsRival cscope e def m
unfolding is_suppressed inside
test_false cscope e def m h (from, to, other, same) =
    let within : inside m.scope cscope ≡ true = ground arith in
    elim (Bool-cases (eqb_ℤ m.key.elemidx e)) [
      | inl i ↦ other ((eqb_ℤ_iff m.key.elemidx e).0 i)
      | inr i ↦ other_name m.def.resultvarname def.resultvarname (ground arith) same
    ]

test_true :
    (cscope : Scope) (e : ℤ) (def : CallDef) (m : MethodCallNode)
    → is_suppressed cscope e def m ≡ some true
    → IsRival cscope e def m
unfolding is_suppressed inside
test_true cscope e def m h =
    let other : eqb_ℤ m.key.elemidx e ≡ false = ground arith in
    (
      ground arith,
      ground arith,
      λ i. let t = (eqb_ℤ_iff m.key.elemidx e).1 i in absurd (ground arith),
      same_name m.def.resultvarname def.resultvarname (ground arith),
    )

-- Where the loop ends without a fault, the test of each call gives a result.
tested :
    (cscope : Scope) (e : ℤ) (def : CallDef) (mcs r : List MethodCallNode) (m : MethodCallNode)
    → ReachedFirst cscope mcs
    → suppress cscope e def mcs ≡ some r
    → IsIn m mcs
    → is_suppressed cscope e def m ≢ none
unfolding suppress
tested cscope e def [] r m f h q = elim q [ ]
tested cscope e def (mc ∷ mcs) r m (inr n) h q =
    λ z. let t = NoneReached-is_suppressed cscope e def (mc ∷ mcs) m n q in absurd (ground arith)
tested cscope e def (mc ∷ mcs) r m (inl (t, f)) h q =
    let step : kept (is_suppressed cscope e def mc) mc (suppress cscope e def mcs) ≡ some r =
      ground arith in
    elim (Option-cases (suppress cscope e def mcs)) [
      | inl s ↦
          absurd (kept-none (is_suppressed cscope e def mc) mc (suppress cscope e def mcs) r s step)
      | inr (rest, s) ↦ elim q [
        | inl eq ↦ λ z.
            let head : is_suppressed cscope e def mc ≡ none =
              ap (λ (x : MethodCallNode). is_suppressed cscope e def x) eq ∙ z in
            absurd (ground arith)
        | inr k ↦ tested cscope e def mcs rest m f s k
      ]
    ]

-- The loop that suppresses calls, in a scope and for a prioritized definition, leaves exactly the calls that
-- are not rivals of it: a rival begins and ends in the scope, is of another definition, and has the same
-- result variable, where none is the same as none. The calls that begin in the scope stand first, and the loop
-- ends without comparing a name with a null pointer.
pub suppress_iff :
    (cscope : Scope) (e : ℤ) (def : CallDef) (mcs r : List MethodCallNode)
    → ReachedFirst cscope mcs
    → suppress cscope e def mcs ≡ some r
    → (m : MethodCallNode) → IsIn m r ↔ IsIn m mcs × ¬ IsRival cscope e def m
suppress_iff cscope e def mcs r f h m =
    let tests = suppress_tests cscope e def mcs r f h m in
    (
      λ q. let p = tests.0 q in (p.0, test_false cscope e def m p.1),
      λ p. elim (Option-cases (is_suppressed cscope e def m)) [
        | inl z ↦ absurd (tested cscope e def mcs r m f h p.0 z)
        | inr (true, z) ↦ absurd (p.1 (test_true cscope e def m z))
        | inr (false, z) ↦ tests.1 (p.0, z)
      ],
    )
