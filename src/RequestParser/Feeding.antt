-- ===== src/RequestParser/Feeding.antt =====
-- papuga_RequestParser_feed_request of src/requestParser.c, which feeds a request with the elements that a
-- parser of documents gives.
use papuga.ErrorCode.{ErrorCode, is_ok}
use papuga.Prelude.{ℕ, Bool, true, false, Option, none, some, List, [], ◌∷◌, ◌⊎◌, if◌then◌else◌}
use papuga.Request.Description.Expression.{Text}
use papuga.Request.Description.State.{Services, Description}
use papuga.Request.Context.{MethodCallNode}
use papuga.Request.Context.Events.{ElementType, Processing}
use papuga.Request.Context.Feed.{
  Call, feed_open_tag, feed_attribute_name, feed_attribute_value, feed_content_value,
  feed_close_tag, finish_request, feed,
}
use papuga.Value.{Value, Textwolf, Numbers}

-- papuga_RequestElementType with its value, as papuga_RequestParser_next gives them. The element None ends
-- the list.
pub data Element (V : Type 0) : Type 0 where
  element_open element_attribute_name element_attribute_value element_value : V → Element V
  element_close : Element V

abbrev pub call_of : {V : Type 0} → Element V → Call V
call_of (element_open v) = feed_open_tag v
call_of element_close = feed_close_tag
call_of (element_attribute_name v) = feed_attribute_name v
call_of (element_attribute_value v) = feed_attribute_value v
call_of (element_value v) = feed_content_value v

module _ (tw : Textwolf) (nums : Numbers) (Atm : Type 0)
    (push_atm : Atm → ElementType → Text → List ℕ × Atm)
    (copy : Value nums.Float → Value nums.Float ⊎ ErrorCode) (has_room : Text → Bool)
    (svc : Services) (atm : Description svc)
    (sort : List MethodCallNode → List MethodCallNode) where
  -- Success, the error code, and the request.
  abbrev pub Fed : Type 0
  Fed = Bool × ErrorCode × Processing nums.Float Atm

  -- papuga_Request_done, behind the last close tag; without an error the code is the parser's.
  abbrev pub finished : ErrorCode → Bool × Processing nums.Float Atm → Fed
  finished code (true, q) = (true, code, q)
  finished code (false, q) = (false, q.context.errcode, q)

  -- What is behind the loop.
  abbrev pub end_request : ErrorCode → Option (Bool × Processing nums.Float Atm) → Option Fed
  end_request code none = none
  end_request code (some (false, q)) = some (false, q.context.errcode, q)
  end_request code (some (true, q)) =
      some (finished code (finish_request tw nums Atm push_atm copy has_room svc atm sort q))

  -- The loop and what is behind it, for the elements up to None and the error of the parser there.
  unfoldable pub feed_request :
      Processing nums.Float Atm → List (Element (Value nums.Float)) → ErrorCode → Option Fed
  unfolding feed
  feed_request p [] code =
      if is_ok code
      then end_request code (feed tw nums Atm push_atm copy has_room svc atm sort p feed_close_tag)
      else some (false, code, p)
  feed_request p (e ∷ es) code =
      elim (feed tw nums Atm push_atm copy has_room svc atm sort p (call_of e)) [
        | none ↦ none
        | some (false, q) ↦ some (false, q.context.errcode, q)
        | some (true, q) ↦ feed_request q es code
      ]
