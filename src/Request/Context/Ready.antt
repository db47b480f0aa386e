-- ===== src/Request/Context/Ready.antt =====
-- The functions papuga_Request_feed_* of src/request.cpp one by one, on an automaton whose events refer to
-- what it defines.
use papuga.ErrorCode.{ErrorCode, syntax_error, is_ok}
use papuga.Prelude.{
  ℕ, ◌<◌, ◌≡◌, refl, ◌⊎◌, Bool, true, false, ◌&&◌, Option, none, some, List, [], ◌∷◌, leb, ◌==◌,
  if◌then◌else◌, length, arith,
}
use papuga.Encoding.{utf8}
use papuga.Request.Description.Expression.{Text, is_valid_root_tag_set}
use papuga.Request.Description.State.{Services, Description}
use papuga.Request.Context.{MethodCallNode}
use papuga.Request.Context.Events.{
  ElementType, open_tag, tag_attrib_name, tag_attrib_value, content, close_tag, Processing,
  push_events, process_events, push_value_and_process, next_scope, entered, enter_root,
  process_open_tag, process_attribute_name, process_attribute_value, process_value,
  process_close_tag, left_scope, with_error, noted, is_string_kind,
}
use papuga.Request.Context.Feed.{
  Call, feed_open_tag, feed_attribute_name, feed_attribute_value, feed_content_value,
  feed_close_tag, finish, finish_request, feed,
}
use papuga.Request.Context.InBounds.{AllRefs, IsReady, Stays, push_events-Pushed, drain-Stays}
use papuga.Value.{Value, kind, Textwolf, Numbers}
use papuga.Value.Strings.{value_tostring_enc, value_tostring_stl}

module _ (tw : Textwolf) (nums : Numbers) (Atm : Type 0)
    (push_atm : Atm → ElementType → Text → List ℕ × Atm)
    (copy : Value nums.Float → Value nums.Float ⊎ ErrorCode) (has_room : Text → Bool)
    (svc : Services) (atm : Description svc) where
  abbrev Q : Type 0
  Q = Processing nums.Float Atm

  abbrev ReadyQ : Q → Type 0
  ReadyQ p = IsReady tw nums Atm push_atm copy has_room svc atm p

  abbrev StaysQ : List ℕ → Option (Bool × Q) → Type 0
  StaysQ st o = Stays tw nums Atm push_atm copy has_room svc atm st o

  -- The automaton only gives references to what it defines.
  abbrev pub GivesRefs : Type 0
  GivesRefs =
      (a : Atm) (type : ElementType) (str : Text) → AllRefs svc atm ((push_atm a type str).0)

  pub process_events-Stays :
      (p : Q) (type : ElementType) (v : Value nums.Float) (str : Text)
      → GivesRefs
      → ReadyQ p
      → StaysQ p.context.scopestack
          (process_events tw nums Atm push_atm copy has_room svc atm p type v str)
  unfolding process_events
  process_events-Stays p type v str g r =
      let x = push_atm p.atmstate type str in
      drain-Stays tw nums Atm push_atm copy has_room svc atm v (record p { atmstate = x.1 })
        (push_events tw nums Atm push_atm copy has_room svc atm p.stacks x.0) r.opened
        (push_events-Pushed tw nums Atm push_atm copy has_room svc atm x.0 p.stacks
          (g p.atmstate type str) r.references r.seven)

  pub noted-IsReady :
      (p : Q) (o : Option ErrorCode)
      → ReadyQ p
      → ReadyQ (noted tw nums Atm push_atm copy has_room svc atm p o)
  noted-IsReady p none r = r
  noted-IsReady p (some code) r = record {
    references = r.references;
    seven = r.seven;
    opened = r.opened;
  }

  pub noted_stack :
      (p : Q) (o : Option ErrorCode)
      → (noted tw nums Atm push_atm copy has_room svc atm p o).context.scopestack
        ≡ p.context.scopestack
  noted_stack p none = refl
  noted_stack p (some code) = refl

  converted :
      (st : List ℕ) (p : Q) (type : ElementType) (v : Value nums.Float) (o : Option Text)
      → GivesRefs
      → ReadyQ p
      → p.context.scopestack ≡ st
      → StaysQ st (elim o [
        | none ↦ some (false, p)
        | some str ↦ process_events tw nums Atm push_atm copy has_room svc atm p type v str
      ])
  converted st p type v none g r e = (r, e)
  converted st p type v (some str) g r e = rw⁻¹ e (process_events-Stays p type v str g r)

  pub push_value_and_process-Stays :
      (p : Q) (type : ElementType) (v : Value nums.Float)
      → GivesRefs
      → ReadyQ p
      → StaysQ p.context.scopestack
          (push_value_and_process tw nums Atm push_atm copy has_room svc atm p type v)
  unfolding push_value_and_process
  push_value_and_process-Stays p type v g r =
      let x = value_tostring_enc tw nums utf8 1023 v in
      converted p.context.scopestack (noted tw nums Atm push_atm copy has_room svc atm p x.2) type v
        x.0 g (noted-IsReady p x.2 r) (noted_stack p x.2)

  -- A result, after which the next call can be made.
  abbrev pub Gives : Option (Bool × Q) → Type 0
  Gives none = ⊥
  Gives (some r) = ReadyQ r.1

  Stays-Gives : (st : List ℕ) (o : Option (Bool × Q)) → StaysQ st o → Gives o
  Stays-Gives st none h = h
  Stays-Gives st (some r) h = h.0

  Gives-if : (b : Bool) (x y : Option (Bool × Q)) → Gives x → Gives y → Gives (if b then x else y)
  Gives-if true x y h g = h
  Gives-if false x y h g = g

  entered-Gives :
      (p : Q) (v : Value nums.Float)
      → GivesRefs
      → ReadyQ p
      → Gives (
          push_value_and_process tw nums Atm push_atm copy has_room svc atm
            (entered tw nums Atm push_atm copy has_room svc atm p)
            open_tag
            v)
  entered-Gives p v g r =
      let q = entered tw nums Atm push_atm copy has_room svc atm p in
      Stays-Gives q.context.scopestack _ (
        push_value_and_process-Stays q open_tag v g
          (record { references = r.references; seven = r.seven; opened = omega arith }))

  pub blamed :
      (b : Bool) (p : Q) (code : ErrorCode)
      → ReadyQ p
      → Gives (
          some
            (false, if b then with_error tw nums Atm push_atm copy has_room svc atm p code else p))
  blamed true p code r = record { references = r.references; seven = r.seven; opened = r.opened }
  blamed false p code r = r

  enter_root-Gives :
      (p : Q) (v : Value nums.Float) (x : Text × Option ErrorCode)
      → GivesRefs
      → ReadyQ p
      → Gives (enter_root tw nums Atm push_atm copy has_room svc atm p v x)
  unfolding enter_root
  enter_root-Gives p v x g r =
      let q = noted tw nums Atm push_atm copy has_room svc atm p x.1 in
      let h = noted-IsReady p x.1 r in
      Gives-if (length x.0 == 0) _ _ (blamed (is_ok q.context.errcode) q syntax_error h) (
        entered-Gives (record q { rootelements = x.0 ∷ q.rootelements }) v g
          (record { references = h.references; seven = h.seven; opened = h.opened }))

  pub counted :
      (p : Q) → ReadyQ p → ReadyQ (next_scope tw nums Atm push_atm copy has_room svc atm p)
  unfolding next_scope
  counted p r = record { references = r.references; seven = r.seven; opened = r.opened }

  left_scope-Gives :
      (p : Q) (st : List ℕ)
      → 1 < length st
      → ReadyQ p
      → Gives (left_scope tw nums Atm push_atm copy has_room svc atm st p)
  left_scope-Gives p [] h r = elim h [ ]
  left_scope-Gives p (s ∷ ss) h r = record {
    references = r.references;
    seven = r.seven;
    opened = omega arith;
  }

  closed_tag :
      (st : List ℕ) (o : Option (Bool × Q))
      → 1 < length st
      → StaysQ st o
      → Gives (elim o [
        | none ↦ none
        | some (false, q) ↦ some (false, q)
        | some (true, q) ↦
            left_scope tw nums Atm push_atm copy has_room svc atm q.context.scopestack q
      ])
  closed_tag st none l h = h
  closed_tag st (some (false, q)) l h = h.0
  closed_tag st (some (true, q)) l h = left_scope-Gives q q.context.scopestack (rw (h.1) l) h.0

  -- A tag that closes is one that was opened.
  abbrev pub ClosesOpen : List ℕ → Call (Value nums.Float) → Type 0
  ClosesOpen st (feed_open_tag v) = Unit
  ClosesOpen st (feed_attribute_name v) = Unit
  ClosesOpen st (feed_attribute_value v) = Unit
  ClosesOpen st (feed_content_value v) = Unit
  ClosesOpen st feed_close_tag = 1 < length st
  ClosesOpen st finish = Unit

  module _ (sort : List MethodCallNode → List MethodCallNode) where
    ready_if :
        (b : Bool) (x y : Bool × Q) → ReadyQ x.1 → ReadyQ y.1 → ReadyQ ((if b then x else y).1)
    ready_if true x y h g = h
    ready_if false x y h g = g

    pub finish_request-IsReady :
        (p : Q)
        → ReadyQ p
        → ReadyQ ((finish_request tw nums Atm push_atm copy has_room svc atm sort p).1)
    unfolding finish_request
    finish_request-IsReady p r =
        let q = next_scope tw nums Atm push_atm copy has_room svc atm p in
        let h = counted p r in
        ready_if p.context.done (true, p) _ r
          (ready_if (is_valid_root_tag_set atm.strict atm.accepted_root_tags q.rootelements) _ _
            (record { references = h.references; seven = h.seven; opened = h.opened })
            (record { references = h.references; seven = h.seven; opened = h.opened }))

    feed-Gives :
        (p : Q) (o : Call (Value nums.Float))
        → GivesRefs
        → ReadyQ p
        → ClosesOpen p.context.scopestack o
        → Gives (feed tw nums Atm push_atm copy has_room svc atm sort p o)
    unfolding feed process_open_tag process_attribute_name process_attribute_value process_value
        process_close_tag next_scope
    feed-Gives p (feed_open_tag v) g r l =
        let q = next_scope tw nums Atm push_atm copy has_room svc atm p in
        Gives-if
          (leb (length p.context.scopestack) 1
            && is_string_kind tw nums Atm push_atm copy has_room svc atm (kind v))
          _ _ (enter_root-Gives q v (value_tostring_stl tw nums v) g (counted p r))
          (entered-Gives q v g (counted p r))
    feed-Gives p (feed_attribute_name v) g r l = Stays-Gives p.context.scopestack _ (
        push_value_and_process-Stays (next_scope tw nums Atm push_atm copy has_room svc atm p)
          tag_attrib_name v g (counted p r))
    feed-Gives p (feed_attribute_value v) g r l = Stays-Gives p.context.scopestack _ (
        push_value_and_process-Stays (next_scope tw nums Atm push_atm copy has_room svc atm p)
          tag_attrib_value v g (counted p r))
    feed-Gives p (feed_content_value v) g r l = Stays-Gives p.context.scopestack _ (
        process_events-Stays (next_scope tw nums Atm push_atm copy has_room svc atm p) content v []
          g (counted p r))
    feed-Gives p feed_close_tag g r l = closed_tag p.context.scopestack _ l (
        process_events-Stays (next_scope tw nums Atm push_atm copy has_room svc atm p) close_tag
          Value.void [] g (counted p r))
    feed-Gives p finish g r l = finish_request-IsReady p r

    given : (o : Option (Bool × Q)) → Gives o → (r : Bool × Q) × (o ≡ some r) × ReadyQ r.1
    given none h = elim h [ ]
    given (some r) h = (r, refl, h)

    -- Where the automaton only gives references to what is defined, and the event stacks hold such only,
    -- each call gives a result, without a read outside of a vector or an array, and the request is then
    -- ready for the next call. A tag that closes has to be behind the one of the document, a call that takes
    -- priority to have a result variable, and the item of a value or a structure to be at most the greatest.
    pub feed-IsReady :
        (p : Q) (o : Call (Value nums.Float))
        → GivesRefs
        → ReadyQ p
        → ClosesOpen p.context.scopestack o
        → (r : Bool × Q) × (feed tw nums Atm push_atm copy has_room svc atm sort p o ≡ some r)
          × ReadyQ r.1
    feed-IsReady p o g r l =
        given (feed tw nums Atm push_atm copy has_room svc atm sort p o) (feed-Gives p o g r l)
