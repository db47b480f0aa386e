-- ===== src/RequestParser/Total.antt =====
-- papuga_RequestParser_feed_request of src/requestParser.c on whole documents.
use mathlib.Core.Path.{subst}
use mathlib.Core.Bool.{false≢true}
use papuga.ErrorCode.{ErrorCode, is_ok}
use papuga.Prelude.{
  ℕ, suc, zero, ◌≡◌, refl, ◌⊎◌, Bool, true, false, Option, none, some, List, [], ◌∷◌, leb,
  if◌then◌else◌, length, arith,
}
use papuga.Request.Description.Expression.{Text, is_valid_root_tag_set}
use papuga.Request.Description.State.{Services, Description}
use papuga.Request.Context.{MethodCallNode}
use papuga.Request.Context.Events.{
  ElementType, max_nof_inherited, tag_attrib_name, tag_attrib_value, content, Processing,
  next_scope, process_attribute_name, process_attribute_value, process_value,
}
use papuga.Request.Context.Feed.{feed_close_tag, finish_request, feed, new_request}
use papuga.Request.Context.InBounds.{IsReady}
use papuga.Request.Context.Ready.{
  GivesRefs, process_events-Stays, push_value_and_process-Stays, counted,
}
use papuga.RequestParser.Feeding.{
  Element, element_open, element_attribute_name, element_attribute_value, element_value,
  element_close, Fed, finished, end_request, feed_request,
}
use papuga.RequestParser.Fed.{
  Balanced, Deep, Left, Stays-Deep, process_open_tag-Deep, process_close_tag-Left, Left-Deep,
}
use papuga.Value.{Value, Textwolf, Numbers}

module _ (tw : Textwolf) (nums : Numbers) (Atm : Type 0)
    (push_atm : Atm → ElementType → Text → List ℕ × Atm)
    (copy : Value nums.Float → Value nums.Float ⊎ ErrorCode) (has_room : Text → Bool)
    (svc : Services) (atm : Description svc)
    (sort : List MethodCallNode → List MethodCallNode) where
  abbrev Q : Type 0
  Q = Processing nums.Float Atm

  abbrev Results : Type 0
  Results = Fed tw nums Atm push_atm copy has_room svc atm sort

  -- A result, with success of a request that is done only.
  abbrev Ends : Option Results → Type 0
  Ends none = ⊥
  Ends (some r) = r.0 ≡ true → r.2.context.done ≡ true

  abbrev DoneIf : Bool × Q → Type 0
  DoneIf x = x.0 ≡ true → x.1.context.done ≡ true

  already_done :
      (b : Bool) (p : Q) (y : Bool × Q)
      → p.context.done ≡ b
      → DoneIf y
      → DoneIf (if b then (true, p) else y)
  already_done true p y e h = λ t. e
  already_done false p y e h = h

  done_if : (b : Bool) (x y : Bool × Q) → DoneIf x → DoneIf y → DoneIf (if b then x else y)
  done_if true x y h g = h
  done_if false x y h g = g

  finish_request-DoneIf :
      (p : Q) → DoneIf (finish_request tw nums Atm push_atm copy has_room svc atm sort p)
  unfolding finish_request
  finish_request-DoneIf p =
      let q = next_scope tw nums Atm push_atm copy has_room svc atm p in
      already_done p.context.done p _ refl (
        done_if (is_valid_root_tag_set atm.strict atm.accepted_root_tags q.rootelements) _ _
          (λ t. refl) (λ t. elim (false≢true t) [ ]))

  finished-Ends :
      (code : ErrorCode) (x : Bool × Q)
      → DoneIf x
      → Ends (some (finished tw nums Atm push_atm copy has_room svc atm sort code x))
  finished-Ends code (true, q) h = h
  finished-Ends code (false, q) h = λ t. elim (false≢true t) [ ]

  end_request-Ends :
      (code : ErrorCode) (n : ℕ) (o : Option (Bool × Q))
      → Left tw nums Atm push_atm copy has_room svc atm n o
      → Ends (end_request tw nums Atm push_atm copy has_room svc atm sort code o)
  end_request-Ends code n none h = h
  end_request-Ends code n (some (false, q)) h = λ t. elim (false≢true t) [ ]
  end_request-Ends code n (some (true, q)) h =
      finished-Ends code (finish_request tw nums Atm push_atm copy has_room svc atm sort q)
        (finish_request-DoneIf q)

  Ends-if : (b : Bool) (x y : Option Results) → Ends x → Ends y → Ends (if b then x else y)
  Ends-if true x y h g = h
  Ends-if false x y h g = g

  after_element :
      (code : ErrorCode) (n : ℕ) (es : List (Element (Value nums.Float))) (o : Option (Bool × Q))
      → Deep tw nums Atm push_atm copy has_room svc atm n o
      → ((q : Q)
          → IsReady tw nums Atm push_atm copy has_room svc atm q
          → length q.context.scopestack ≡ n
          → Ends (feed_request tw nums Atm push_atm copy has_room svc atm sort q es code))
      → Ends (elim o [
        | none ↦ none
        | some (false, q) ↦ some (false, q.context.errcode, q)
        | some (true, q) ↦ feed_request tw nums Atm push_atm copy has_room svc atm sort q es code
      ])
  after_element code n es none h f = h
  after_element code n es (some (false, q)) h f = λ t. elim (false≢true t) [ ]
  after_element code n es (some (true, q)) h f = f q h.0 h.1

  feed_request-Ends :
      (code : ErrorCode)
      → GivesRefs tw nums Atm push_atm copy has_room svc atm
      → (es : List (Element (Value nums.Float))) (d : ℕ) → Balanced d es
      → (p : Q) → IsReady tw nums Atm push_atm copy has_room svc atm p
      → length p.context.scopestack ≡ suc d
      → Ends (feed_request tw nums Atm push_atm copy has_room svc atm sort p es code)
  unfolding feed_request process_attribute_name process_attribute_value process_value next_scope
  feed_request-Ends code g [] d b p r e =
      Ends-if (is_ok code) _ _
        (end_request-Ends code d
          (feed tw nums Atm push_atm copy has_room svc atm sort p feed_close_tag)
          (process_close_tag-Left tw nums Atm push_atm copy has_room svc atm p d e g r))
        (λ t. elim (false≢true t) [ ])
  feed_request-Ends code g (element_open v ∷ es) d b p r e =
      after_element code (suc (suc d)) es _
        (process_open_tag-Deep tw nums Atm push_atm copy has_room svc atm p v (suc d) e g r)
        (feed_request-Ends code g es (suc d) b)
  feed_request-Ends code g (element_close ∷ es) zero b p r e = elim b [ ]
  feed_request-Ends code g (element_close ∷ es) (suc d) b p r e =
      after_element code (suc d) es _
        (Left-Deep tw nums Atm push_atm copy has_room svc atm d _
          (process_close_tag-Left tw nums Atm push_atm copy has_room svc atm p (suc d) e g r))
        (feed_request-Ends code g es d b)
  feed_request-Ends code g (element_attribute_name v ∷ es) d b p r e =
      after_element code (suc d) es _
        (Stays-Deep tw nums Atm push_atm copy has_room svc atm p.context.scopestack (suc d) _ e (
          push_value_and_process-Stays tw nums Atm push_atm copy has_room svc atm
            (next_scope tw nums Atm push_atm copy has_room svc atm p) tag_attrib_name v g
            (counted tw nums Atm push_atm copy has_room svc atm p r)))
        (feed_request-Ends code g es d b)
  feed_request-Ends code g (element_attribute_value v ∷ es) d b p r e =
      after_element code (suc d) es _
        (Stays-Deep tw nums Atm push_atm copy has_room svc atm p.context.scopestack (suc d) _ e (
          push_value_and_process-Stays tw nums Atm push_atm copy has_room svc atm
            (next_scope tw nums Atm push_atm copy has_room svc atm p) tag_attrib_value v g
            (counted tw nums Atm push_atm copy has_room svc atm p r)))
        (feed_request-Ends code g es d b)
  feed_request-Ends code g (element_value v ∷ es) d b p r e =
      after_element code (suc d) es _
        (Stays-Deep tw nums Atm push_atm copy has_room svc atm p.context.scopestack (suc d) _ e (
          process_events-Stays tw nums Atm push_atm copy has_room svc atm
            (next_scope tw nums Atm push_atm copy has_room svc atm p) content v [] g
            (counted tw nums Atm push_atm copy has_room svc atm p r)))
        (feed_request-Ends code g es d b)

  ended :
      (o : Option Results)
      → Ends o
      → (r : Results) × (o ≡ some r) × (r.0 ≡ true → r.2.context.done ≡ true)
  ended none h = elim h [ ]
  ended (some r) h = (r, refl, h)

  abbrev ReadyAt : Option Q → Type 0
  ReadyAt none = Unit
  ReadyAt (some p) =
      IsReady tw nums Atm push_atm copy has_room svc atm p × (length p.context.scopestack ≡ 1)

  created : (b : Bool) (p : Q) → ReadyAt (some p) → ReadyAt (if b then none else some p)
  created true p h = tt
  created false p h = h

  new_request-ReadyAt :
      (start : Atm) → ReadyAt (new_request tw nums Atm push_atm copy has_room svc atm sort start)
  unfolding new_request
  new_request-ReadyAt start = created (leb max_nof_inherited (length atm.inheritdefs)) _ (
    record {
      references = (tt, (tt, (tt, (tt, (tt, (tt, (tt, tt)))))));
      seven = refl;
      opened = omega arith;
    },
    refl,
  )

  -- A new request is fed with the elements of a document in which each tag that closes is open, for an
  -- automaton that only gives references to what is defined: to values and structures whose item is at most
  -- the greatest one of the description, and to calls that take priority only where they have a result
  -- variable. There is a result, without a read outside of a vector or an array; the tag of the document is
  -- the last that is closed. Where it is success, the request is done.
  pub feed_request_lem :
      (start : Atm) (p : Q) (es : List (Element (Value nums.Float))) (code : ErrorCode)
      → GivesRefs tw nums Atm push_atm copy has_room svc atm
      → Balanced 0 es
      → new_request tw nums Atm push_atm copy has_room svc atm sort start ≡ some p
      → (r : Results) × (feed_request tw nums Atm push_atm copy has_room svc atm sort p es code
          ≡ some r)
        × (r.0 ≡ true → r.2.context.done ≡ true)
  feed_request_lem start p es code g b e =
      let r = subst ReadyAt e (new_request-ReadyAt start) in
      ended (feed_request tw nums Atm push_atm copy has_room svc atm sort p es code)
        (feed_request-Ends code g es 0 b p r.0 r.1)
