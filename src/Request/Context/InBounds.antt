-- ===== src/Request/Context/InBounds.antt =====
-- The functions papuga_Request_feed_* of src/request.cpp on an automaton whose events refer to what it
-- defines: none of them reads outside of a vector or an array.
use mathlib.Core.Path.{subst}
use papuga.ErrorCode.{ErrorCode}
use papuga.Prelude.{
  ℕ, zero, suc, ◌<◌, ◌≡◌, refl, ap, ◌∙◌, ◌⊎◌, inl, inr, Bool, true, false, Option, none, some, List,
  [], ◌∷◌, ◌==◌, length, get_elem?, set, length-set, Bool-cases, arith,
}
use papuga.Request.Refs.{
  AtmRefType, to_number, instantiate_value, collect_value, close_struct, method_call,
  method_call_prioritize, inherit_from, result_instruction,
}
use papuga.Request.Description.Expression.{Text}
use papuga.Request.Description.State.{Services, Description}
use papuga.Request.Context.Events.{
  ElementType, Processing, process_event, push_events, drain_stack, drain_stacks,
}
use papuga.Request.Context.References.{IsRef, Keeps, process_event-Keeps}
use papuga.Value.{Value, Textwolf, Numbers}

module _ (svc : Services) (atm : Description svc) where
  abbrev pub AllRefs : List ℕ → Type 0
  AllRefs [] = Unit
  AllRefs (ev ∷ evs) = IsRef svc atm ev × AllRefs evs

  abbrev pub AllStacks : List (List ℕ) → Type 0
  AllStacks [] = Unit
  AllStacks (s ∷ ss) = AllRefs s × AllStacks ss

  set-AllStacks :
      (ss : List (List ℕ)) (i : ℕ) (s : List ℕ) → AllStacks ss → AllRefs s → AllStacks (set ss i s)
  set-AllStacks [] i s h r = tt
  set-AllStacks (x ∷ xs) zero s h r = (r, h.1)
  set-AllStacks (x ∷ xs) (suc i) s h r = (h.0, set-AllStacks xs i s h.1 r)

  stack_at :
      (ss : List (List ℕ)) (i : ℕ)
      → AllStacks ss
      → i < length ss
      → (s : List ℕ) × (get_elem? ss i ≡ some s) × AllRefs s
  stack_at [] i h l = elim l [ ]
  stack_at (x ∷ xs) zero h l = (x, refl, h.0)
  stack_at (x ∷ xs) (suc i) h l = stack_at xs i h.1 (omega arith)

  abbrev pub Pushed : Option (List (List ℕ)) → Type 0
  Pushed none = ⊥
  Pushed (some ss) = AllStacks ss × (length ss ≡ 7)

to_number_below : (t : AtmRefType) → to_number t < 7
to_number_below instantiate_value = omega arith
to_number_below collect_value = omega arith
to_number_below close_struct = omega arith
to_number_below method_call = omega arith
to_number_below method_call_prioritize = omega arith
to_number_below inherit_from = omega arith
to_number_below result_instruction = omega arith

module _ (tw : Textwolf) (nums : Numbers) (Atm : Type 0)
    (push_atm : Atm → ElementType → Text → List ℕ × Atm)
    (copy : Value nums.Float → Value nums.Float ⊎ ErrorCode) (has_room : Text → Bool)
    (svc : Services) (atm : Description svc) where
  abbrev Q : Type 0
  Q = Processing nums.Float Atm

  pub push_events-Pushed :
      (evs : List ℕ) (ss : List (List ℕ))
      → AllRefs svc atm evs
      → AllStacks svc atm ss
      → length ss ≡ 7
      → Pushed svc atm (push_events tw nums Atm push_atm copy has_room svc atm ss evs)
  unfolding push_events
  push_events-Pushed [] ss r h n = (h, n)
  push_events-Pushed (ev ∷ evs) ss r h n =
      let has_type = r.0.has_type in
      let i = to_number r.0.type in
      let below = to_number_below r.0.type in
      let found = stack_at svc atm ss i h (omega arith) in
      rw (has_type, found.1, Pushed)
        (push_events-Pushed evs (set ss i (ev ∷ found.0)) r.1
          (set-AllStacks svc atm ss i (ev ∷ found.0) h (r.0, found.2))
          (length-set ss i (ev ∷ found.0) ∙ n))

  abbrev OneDrained : List ℕ → Option (Bool × List ℕ × Q) → Type 0
  OneDrained st none = ⊥
  OneDrained st (some r) = AllRefs svc atm r.1 × (r.2.context.scopestack ≡ st)

  after_event :
      (st : List ℕ) (v : Value nums.Float) (evs : List ℕ) (p : Q) (o : Option (Bool × Q))
      → AllRefs svc atm evs
      → p.context.scopestack ≡ st
      → Keeps tw nums Atm push_atm copy has_room svc atm p o
      → ((q : Q)
          → q.context.scopestack ≡ st
          → OneDrained st (drain_stack tw nums Atm push_atm copy has_room svc atm q v evs))
      → OneDrained st (elim o [
        | none ↦ none
        | some (false, q) ↦ some (false, evs, q)
        | some (true, q) ↦ drain_stack tw nums Atm push_atm copy has_room svc atm q v evs
      ])
  after_event st v evs p none r e k f = k
  after_event st v evs p (some (false, q)) r e k f = (r, k ∙ e)
  after_event st v evs p (some (true, q)) r e k f = f q (k ∙ e)

  drain_stack-OneDrained :
      (st : List ℕ) (v : Value nums.Float) (evs : List ℕ)
      → AllRefs svc atm evs
      → 0 < length st
      → (p : Q) → p.context.scopestack ≡ st
      → OneDrained st (drain_stack tw nums Atm push_atm copy has_room svc atm p v evs)
  unfolding drain_stack
  drain_stack-OneDrained st v [] r h p e = (tt, e)
  drain_stack-OneDrained st v (ev ∷ evs) r h p e = elim (Bool-cases (ev == 0)) [
    | inl z ↦ rw (z, OneDrained) (r.1, e)
    | inr z ↦
        rw (z, OneDrained)
          (after_event st v evs p (process_event tw nums Atm push_atm copy has_room svc atm p ev v)
            r.1 e
            (process_event-Keeps tw nums Atm push_atm copy has_room svc atm p ev v r.0 (rw e h))
            (drain_stack-OneDrained st v evs r.1 h))
  ]

  abbrev AllDrained : ℕ → List ℕ → Option (Bool × List (List ℕ) × Q) → Type 0
  AllDrained n st none = ⊥
  AllDrained n st (some r) =
      AllStacks svc atm r.1 × (length r.1 ≡ n) × (r.2.context.scopestack ≡ st)

  rest_of_stacks :
      (n : ℕ) (st left : List ℕ) (o : Option (Bool × List (List ℕ) × Q))
      → AllRefs svc atm left
      → AllDrained n st o
      → AllDrained (suc n) st (elim o [ none ↦ none | some r ↦ some (r.0, left ∷ r.1, r.2) ])
  rest_of_stacks n st left none r h = h
  rest_of_stacks n st left (some x) r h = ((r, h.0), ap suc h.1, h.2)

  after_stack :
      (st : List ℕ) (v : Value nums.Float) (ss : List (List ℕ)) (o : Option (Bool × List ℕ × Q))
      → AllStacks svc atm ss
      → OneDrained st o
      → ((q : Q)
          → q.context.scopestack ≡ st
          → AllDrained
              (length ss)
              st
              (drain_stacks tw nums Atm push_atm copy has_room svc atm q v ss))
      → AllDrained (suc (length ss)) st (elim o [
        | none ↦ none
        | some (false, left, q) ↦ some (false, left ∷ ss, q)
        | some (true, left, q) ↦
            elim (drain_stacks tw nums Atm push_atm copy has_room svc atm q v ss) [
              | none ↦ none
              | some r ↦ some (r.0, left ∷ r.1, r.2)
            ]
      ])
  after_stack st v ss none h d f = d
  after_stack st v ss (some (false, left, q)) h d f = ((d.0, h), refl, d.1)
  after_stack st v ss (some (true, left, q)) h d f =
      rest_of_stacks (length ss) st left
        (drain_stacks tw nums Atm push_atm copy has_room svc atm q v ss) d.0 (f q d.1)

  drain_stacks-AllDrained :
      (st : List ℕ) (v : Value nums.Float) (ss : List (List ℕ))
      → AllStacks svc atm ss
      → 0 < length st
      → (p : Q) → p.context.scopestack ≡ st
      → AllDrained (length ss) st (drain_stacks tw nums Atm push_atm copy has_room svc atm p v ss)
  unfolding drain_stacks
  drain_stacks-AllDrained st v [] h l p e = (tt, refl, e)
  drain_stacks-AllDrained st v (s ∷ ss) h l p e =
      after_stack st v ss (drain_stack tw nums Atm push_atm copy has_room svc atm p v s) h.1
        (drain_stack-OneDrained st v s h.0 l p e) (drain_stacks-AllDrained st v ss h.1 l)

  -- The event stacks hold references, there are seven of them, and a tag is open.
  pub record IsReady (p : Q) : Type 0 where
    pub references : AllStacks svc atm p.stacks
    pub seven : length p.stacks ≡ 7
    pub opened : 0 < length p.context.scopestack

  -- A result, with the same tags open.
  abbrev pub Stays : List ℕ → Option (Bool × Q) → Type 0
  Stays st none = ⊥
  Stays st (some r) = IsReady r.1 × (r.1.context.scopestack ≡ st)

  drained_events :
      (st : List ℕ) (o : Option (Bool × List (List ℕ) × Q))
      → 0 < length st
      → AllDrained 7 st o
      → Stays st
          (elim o [ none ↦ none | some (ok, left, q) ↦ some (ok, record q { stacks = left }) ])
  drained_events st none l d = d
  drained_events st (some (ok, left, q)) l d =
      (record { references = d.0; seven = d.1; opened = rw (d.2) l }, d.2)

  pub drain-Stays :
      (v : Value nums.Float) (p : Q) (o : Option (List (List ℕ)))
      → 0 < length p.context.scopestack
      → Pushed svc atm o
      → Stays p.context.scopestack (elim o [
        | none ↦ none
        | some stacks ↦ elim (drain_stacks tw nums Atm push_atm copy has_room svc atm p v stacks) [
          | none ↦ none
          | some (ok, left, q) ↦ some (ok, record q { stacks = left })
        ]
      ])
  drain-Stays v p none l h = h
  drain-Stays v p (some stacks) l h =
      let n = h.1 in
      drained_events p.context.scopestack
        (drain_stacks tw nums Atm push_atm copy has_room svc atm p v stacks) l
        (subst
          (λ (k : ℕ).
            AllDrained k p.context.scopestack
              (drain_stacks tw nums Atm push_atm copy has_room svc atm p v stacks))
          n (drain_stacks-AllDrained p.context.scopestack v stacks h.0 l p refl))
