-- ===== src/Request/Context/Drains.antt =====
-- The loops of processEvents of AutomatonContext in src/request.cpp keep the recorded scopes nested.
use papuga.ErrorCode.{ErrorCode}
use papuga.Prelude.{
  ℕ, ◌⊎◌, inl, inr, Bool, true, false, Option, none, some, List, [], ◌∷◌, ◌==◌, Bool-cases,
}
use papuga.Request.Description.Expression.{Text}
use papuga.Request.Description.State.{Services, Description}
use papuga.Request.Context.Events.{
  ElementType, process_event, push_events, drain_stack, drain_stacks, process_events,
  push_value_and_process, noted,
}
use papuga.Request.Context.Scopes.{Records, Records-refl}
use papuga.Request.Context.Runs.{P, Event, failing, process_event-Event}
use papuga.Request.Context.Nesting.{IsNested, Records-IsNested}
use papuga.Value.{Value, Textwolf, Numbers}
use papuga.Value.Strings.{value_tostring_enc}
use papuga.Encoding.{utf8}

module _ (tw : Textwolf) (nums : Numbers) (Atm : Type 0)
    (push_atm : Atm → ElementType → Text → List ℕ × Atm)
    (copy : Value nums.Float → Value nums.Float ⊎ ErrorCode) (has_room : Text → Bool)
    (svc : Services) (atm : Description svc) where
  abbrev Q : Type 0
  Q = P tw nums Atm push_atm copy has_room svc atm

  -- The context that an operation leaves, with success or without.
  abbrev pub Nests : Option (Bool × Q) → Type 0
  Nests none = Unit
  Nests (some r) = IsNested (Value nums.Float) r.1.context

  abbrev Drained : {L : Type 0} → Option (Bool × L × Q) → Type 0
  Drained none = Unit
  Drained (some r) = IsNested (Value nums.Float) r.2.context

  Event-Nests :
      (p : Q) (o : Option (Bool × Q))
      → Event tw nums Atm push_atm copy has_room svc atm p o
      → IsNested (Value nums.Float) p.context
      → Nests o
  Event-Nests p none e n = tt
  Event-Nests p (some r) e n = Records-IsNested (Value nums.Float) p.context r.1.context e n

  after_event :
      (v : Value nums.Float) (evs : List ℕ) (o : Option (Bool × Q))
      → ((q : Q)
          → IsNested (Value nums.Float) q.context
          → Drained (drain_stack tw nums Atm push_atm copy has_room svc atm q v evs))
      → Nests o
      → Drained (elim o [
        | none ↦ none
        | some (false, q) ↦ some (false, evs, q)
        | some (true, q) ↦ drain_stack tw nums Atm push_atm copy has_room svc atm q v evs
      ])
  after_event v evs none f n = tt
  after_event v evs (some (false, q)) f n = n
  after_event v evs (some (true, q)) f n = f q n

  drain_stack-Drained :
      (v : Value nums.Float) (evs : List ℕ) (p : Q)
      → IsNested (Value nums.Float) p.context
      → Drained (drain_stack tw nums Atm push_atm copy has_room svc atm p v evs)
  unfolding drain_stack
  drain_stack-Drained v [] p n = n
  drain_stack-Drained v (ev ∷ evs) p n = elim (Bool-cases (ev == 0)) [
    | inl e ↦ rw (e, Drained) n
    | inr e ↦
        rw (e, Drained)
          (after_event v evs (process_event tw nums Atm push_atm copy has_room svc atm p ev v)
            (drain_stack-Drained v evs)
            (Event-Nests p (process_event tw nums Atm push_atm copy has_room svc atm p ev v)
              (process_event-Event tw nums Atm push_atm copy has_room svc atm p ev v) n))
  ]

  rest_of_stacks :
      (left : List ℕ) (o : Option (Bool × List (List ℕ) × Q))
      → Drained o
      → Drained (elim o [ none ↦ none | some r ↦ some (r.0, left ∷ r.1, r.2) ])
  rest_of_stacks left none n = tt
  rest_of_stacks left (some r) n = n

  after_stack :
      (v : Value nums.Float) (ss : List (List ℕ)) (o : Option (Bool × List ℕ × Q))
      → ((q : Q)
          → IsNested (Value nums.Float) q.context
          → Drained (drain_stacks tw nums Atm push_atm copy has_room svc atm q v ss))
      → Drained o
      → Drained (elim o [
        | none ↦ none
        | some (false, left, q) ↦ some (false, left ∷ ss, q)
        | some (true, left, q) ↦
            elim (drain_stacks tw nums Atm push_atm copy has_room svc atm q v ss) [
              | none ↦ none
              | some r ↦ some (r.0, left ∷ r.1, r.2)
            ]
      ])
  after_stack v ss none f n = tt
  after_stack v ss (some (false, left, q)) f n = n
  after_stack v ss (some (true, left, q)) f n =
      rest_of_stacks left (drain_stacks tw nums Atm push_atm copy has_room svc atm q v ss) (f q n)

  drain_stacks-Drained :
      (v : Value nums.Float) (ss : List (List ℕ)) (p : Q)
      → IsNested (Value nums.Float) p.context
      → Drained (drain_stacks tw nums Atm push_atm copy has_room svc atm p v ss)
  unfolding drain_stacks
  drain_stacks-Drained v [] p n = n
  drain_stacks-Drained v (s ∷ ss) p n =
      after_stack v ss (drain_stack tw nums Atm push_atm copy has_room svc atm p v s)
        (drain_stacks-Drained v ss) (drain_stack-Drained v s p n)

  drained_events :
      (o : Option (Bool × List (List ℕ) × Q))
      → Drained o
      → Nests (elim o [ none ↦ none | some (ok, left, q) ↦ some (ok, record q { stacks = left }) ])
  drained_events none n = tt
  drained_events (some (ok, left, q)) n = n

  pushed_events :
      (v : Value nums.Float) (p : Q) (o : Option (List (List ℕ)))
      → IsNested (Value nums.Float) p.context
      → Nests (elim o [
        | none ↦ none
        | some stacks ↦ elim (drain_stacks tw nums Atm push_atm copy has_room svc atm p v stacks) [
          | none ↦ none
          | some (ok, left, q) ↦ some (ok, record q { stacks = left })
        ]
      ])
  pushed_events v p none n = tt
  pushed_events v p (some stacks) n =
      drained_events (drain_stacks tw nums Atm push_atm copy has_room svc atm p v stacks)
        (drain_stacks-Drained v stacks p n)

  -- The events of one step of the automaton keep the scopes nested.
  pub process_events-Nests :
      (p : Q) (type : ElementType) (v : Value nums.Float) (str : Text)
      → IsNested (Value nums.Float) p.context
      → Nests (process_events tw nums Atm push_atm copy has_room svc atm p type v str)
  unfolding process_events
  process_events-Nests p type v str n =
      let r = push_atm p.atmstate type str in
      pushed_events v (record p { atmstate = r.1 })
        (push_events tw nums Atm push_atm copy has_room svc atm p.stacks r.0) n

  pub noted-Records :
      (p : Q) (o : Option ErrorCode)
      → Records
          (Value nums.Float)
          p.context
          ((noted tw nums Atm push_atm copy has_room svc atm p o).context)
  noted-Records p none = Records-refl (Value nums.Float) p.context
  noted-Records p (some code) = failing tw nums Atm push_atm copy has_room svc atm p code

  converted :
      (p : Q) (type : ElementType) (v : Value nums.Float) (o : Option Text)
      → IsNested (Value nums.Float) p.context
      → Nests (elim o [
        | none ↦ some (false, p)
        | some str ↦ process_events tw nums Atm push_atm copy has_room svc atm p type v str
      ])
  converted p type v none n = n
  converted p type v (some str) n = process_events-Nests p type v str n

  pub push_value_and_process-Nests :
      (p : Q) (type : ElementType) (v : Value nums.Float)
      → IsNested (Value nums.Float) p.context
      → Nests (push_value_and_process tw nums Atm push_atm copy has_room svc atm p type v)
  unfolding push_value_and_process
  push_value_and_process-Nests p type v n =
      let r = value_tostring_enc tw nums utf8 1023 v in
      let q = noted tw nums Atm push_atm copy has_room svc atm p r.2 in
      converted q type v (r.0)
        (Records-IsNested (Value nums.Float) p.context q.context (noted-Records p r.2) n)
