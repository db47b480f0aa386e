-- ===== src/Request/Context/Documents.antt =====
-- What a document leaves behind the functions papuga_Request_feed_* of src/request.cpp: the recorded scopes
-- are nested or apart.
use mathlib.Core.Path.{subst}
use papuga.ErrorCode.{ErrorCode}
use papuga.Prelude.{
  ℕ, ◌≡◌, ◌⊎◌, Bool, true, false, Option, none, some, List, [], ◌∷◌, leb, length, if◌then◌else◌,
}
use papuga.Request.Keys.{Scope}
use papuga.Request.Description.Expression.{Text, is_valid_root_tag_set}
use papuga.Request.Description.State.{Services, Description}
use papuga.Request.Context.{MethodCallNode}
use papuga.Request.Context.Events.{
  ElementType, tag_attrib_name, tag_attrib_value, content, Processing, next_scope,
  process_attribute_name, process_attribute_value, process_value, max_nof_inherited,
}
use papuga.Request.Context.Scopes.{HasScope}
use papuga.Request.Context.Drains.{Nests, process_events-Nests, push_value_and_process-Nests}
use papuga.Request.Context.Nesting.{IsNested, NestedOrApart}
use papuga.Request.Context.Feed.{
  Call, feed_open_tag, feed_attribute_name, feed_attribute_value, feed_content_value,
  feed_close_tag, finish, new_request, finish_request, feed, feed_all, run_request,
}
use papuga.Value.{Value, Textwolf, Numbers}
use papuga.Request.Context.Tags.{
  KeepsCalls, sorted-IsNested, new_context-IsNested, process_open_tag-Nests, next_scope-IsNested,
  process_close_tag-Nests,
}

module _ (tw : Textwolf) (nums : Numbers) (Atm : Type 0)
    (push_atm : Atm → ElementType → Text → List ℕ × Atm)
    (copy : Value nums.Float → Value nums.Float ⊎ ErrorCode) (has_room : Text → Bool)
    (svc : Services) (atm : Description svc)
    (sort : List MethodCallNode → List MethodCallNode) where
  pair_if :
      (b : Bool) (x y : Bool × Processing nums.Float Atm)
      → IsNested (Value nums.Float) x.1.context
      → IsNested (Value nums.Float) y.1.context
      → IsNested (Value nums.Float) ((if b then x else y).1.context)
  pair_if true x y n m = n
  pair_if false x y n m = m

  finish_request-IsNested :
      (p : Processing nums.Float Atm)
      → KeepsCalls sort
      → IsNested (Value nums.Float) p.context
      → IsNested
          (Value nums.Float)
          ((finish_request tw nums Atm push_atm copy has_room svc atm sort p).1.context)
  unfolding finish_request
  finish_request-IsNested p k n =
      let q = next_scope tw nums Atm push_atm copy has_room svc atm p in
      let m =
        sorted-IsNested (Value nums.Float) q.context sort k
          (next_scope-IsNested tw nums Atm push_atm copy has_room svc atm p n) in
      pair_if p.context.done (true, p) _ n
        (pair_if (is_valid_root_tag_set atm.strict atm.accepted_root_tags q.rootelements) _ _
          (record { descending = m.descending; ended = m.ended; nested = m.nested })
          (record { descending = m.descending; ended = m.ended; nested = m.nested }))

  feed-Nests :
      (p : Processing nums.Float Atm) (o : Call (Value nums.Float))
      → KeepsCalls sort
      → IsNested (Value nums.Float) p.context
      → Nests tw nums Atm push_atm copy has_room svc atm
          (feed tw nums Atm push_atm copy has_room svc atm sort p o)
  unfolding feed process_attribute_name process_attribute_value process_value
  feed-Nests p (feed_open_tag v) k n =
      process_open_tag-Nests tw nums Atm push_atm copy has_room svc atm p v n
  feed-Nests p (feed_attribute_name v) k n =
      push_value_and_process-Nests tw nums Atm push_atm copy has_room svc atm _ tag_attrib_name v
        (next_scope-IsNested tw nums Atm push_atm copy has_room svc atm p n)
  feed-Nests p (feed_attribute_value v) k n =
      push_value_and_process-Nests tw nums Atm push_atm copy has_room svc atm _ tag_attrib_value v
        (next_scope-IsNested tw nums Atm push_atm copy has_room svc atm p n)
  feed-Nests p (feed_content_value v) k n =
      process_events-Nests tw nums Atm push_atm copy has_room svc atm _ content v []
        (next_scope-IsNested tw nums Atm push_atm copy has_room svc atm p n)
  feed-Nests p feed_close_tag k n =
      process_close_tag-Nests tw nums Atm push_atm copy has_room svc atm p n
  feed-Nests p finish k n = finish_request-IsNested p k n

  -- Of a number of calls.
  abbrev Left : Option (Processing nums.Float Atm) → Type 0
  Left none = Unit
  Left (some q) = IsNested (Value nums.Float) q.context

  after_call :
      (os : List (Call (Value nums.Float))) (o : Option (Bool × Processing nums.Float Atm))
      → ((q : Processing nums.Float Atm)
          → IsNested (Value nums.Float) q.context
          → Left (feed_all tw nums Atm push_atm copy has_room svc atm sort q os))
      → Nests tw nums Atm push_atm copy has_room svc atm o
      → Left (elim o [
        | none ↦ none
        | some r ↦ feed_all tw nums Atm push_atm copy has_room svc atm sort r.1 os
      ])
  after_call os none f n = tt
  after_call os (some r) f n = f (r.1) n

  feed_all-Left :
      (k : KeepsCalls sort) (os : List (Call (Value nums.Float))) (p : Processing nums.Float Atm)
      → IsNested (Value nums.Float) p.context
      → Left (feed_all tw nums Atm push_atm copy has_room svc atm sort p os)
  unfolding feed_all
  feed_all-Left k [] p n = n
  feed_all-Left k (o ∷ os) p n =
      after_call os (feed tw nums Atm push_atm copy has_room svc atm sort p o) (feed_all-Left k os)
        (feed-Nests p o k n)

  created :
      (os : List (Call (Value nums.Float))) (b : Bool) (p : Processing nums.Float Atm)
      → KeepsCalls sort
      → IsNested (Value nums.Float) p.context
      → Left (elim (if b then none else some p) [
        | none ↦ none
        | some p ↦ feed_all tw nums Atm push_atm copy has_room svc atm sort p os
      ])
  created os true p k n = tt
  created os false p k n = feed_all-Left k os p n

  run_request-Left :
      (start : Atm) (os : List (Call (Value nums.Float)))
      → KeepsCalls sort
      → Left (run_request tw nums Atm push_atm copy has_room svc atm sort start os)
  unfolding run_request new_request
  run_request-Left start os k =
      created os (leb max_nof_inherited (length atm.inheritdefs)) _ k
        (new_context-IsNested (Value nums.Float))

  -- A new request is fed with any calls, in any order, whether they succeed or fail, for an automaton that
  -- gives any events, and where sorting keeps the same calls. Where no call reads outside of a vector or
  -- an array, any two scopes that are then recorded for values, structures and method calls are nested,
  -- or one ends before the other begins.
  pub run_request-NestedOrApart :
      (start : Atm) (os : List (Call (Value nums.Float))) (q : Processing nums.Float Atm)
      (s t : Scope)
      → KeepsCalls sort
      → run_request tw nums Atm push_atm copy has_room svc atm sort start os ≡ some q
      → HasScope (Value nums.Float) q.context s
      → HasScope (Value nums.Float) q.context t
      → NestedOrApart s t
  run_request-NestedOrApart start os q s t k e hs ht =
      let n = subst Left e (run_request-Left start os k) in n.nested s t hs ht
