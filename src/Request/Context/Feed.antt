-- ===== src/Request/Context/Feed.antt =====
-- The functions papuga_Request_feed_* and papuga_Request_done of src/request.cpp, and the constructor and
-- `done` of the class AutomatonContext. `none` is a read outside of a vector or an array.
use papuga.ErrorCode.{ErrorCode, ok, invalid_request}
use papuga.Prelude.{
  ℕ, Bool, true, false, Option, none, some, List, [], ◌∷◌, ◌⊎◌, leb, if◌then◌else◌, length,
}
use papuga.Prelude.Int.{negsuc}
use papuga.Request.Description.Expression.{Text, is_valid_root_tag_set}
use papuga.Request.Description.State.{Services, Description}
use papuga.Request.Context.{Context, MethodCallNode}
use papuga.Request.Context.Events.{
  ElementType, Processing, max_nof_inherited, required_mask, with_error, next_scope,
  process_open_tag, process_attribute_name, process_attribute_value, process_value,
  process_close_tag,
}
use papuga.Value.{Value, Textwolf, Numbers}

-- A call of one of the functions, with its argument.
pub data Call (V : Type 0) : Type 0 where
  feed_open_tag feed_attribute_name feed_attribute_value feed_content_value : V → Call V
  feed_close_tag finish : Call V

-- The context of a new request.
abbrev pub new_context : {V : Type 0} → Context V
new_context = record {
  scopecnt = 0;
  scopestack = 0 ∷ [];
  valuenodes = [];
  values = [];
  structs = [];
  scopeobjects = [];
  methodcalls = [];
  done = false;
  errcode = ok;
  erritemid = negsuc 0;
}

-- `m_event_stacks`, of `MaxAtmRefType+1` stacks.
abbrev pub event_stacks : List (List ℕ)
event_stacks = [] ∷ [] ∷ [] ∷ [] ∷ [] ∷ [] ∷ [] ∷ []

-- `sort` is std::sort on the method calls, which puts them in the order of their keys, the last one first
-- here.
module _ (tw : Textwolf) (nums : Numbers) (Atm : Type 0)
    (push_atm : Atm → ElementType → Text → List ℕ × Atm)
    (copy : Value nums.Float → Value nums.Float ⊎ ErrorCode) (has_room : Text → Bool)
    (svc : Services) (atm : Description svc)
    (sort : List MethodCallNode → List MethodCallNode) where
  -- The constructor, with the state of a new automaton; `none` where it throws.
  unfoldable pub new_request : Atm → Option (Processing nums.Float Atm)
  unfolding required_mask
  new_request start =
      if leb max_nof_inherited (length atm.inheritdefs)
      then none
      else some (record {
        context = new_context;
        atmstate = start;
        stacks = event_stacks;
        rootelements = [];
        result_calls = [];
        required = required_mask atm.inheritdefs;
        inherited = [];
      })

  -- done
  unfoldable pub finish_request : Processing nums.Float Atm → Bool × Processing nums.Float Atm
  unfolding next_scope
  finish_request p0 =
      if p0.context.done
      then (true, p0)
      else let p1 = next_scope tw nums Atm push_atm copy has_room svc atm p0 in
        let p = record p1 {
          context = record p1.context { methodcalls = sort p1.context.methodcalls };
        } in
        if is_valid_root_tag_set atm.strict atm.accepted_root_tags p.rootelements
        then (true, record p { context = record p.context { done = true } })
        else (false, with_error tw nums Atm push_atm copy has_room svc atm p invalid_request)

  unfoldable pub feed :
      Processing nums.Float Atm
      → Call (Value nums.Float)
      → Option (Bool × Processing nums.Float Atm)
  unfolding finish_request
  feed p (feed_open_tag v) = process_open_tag tw nums Atm push_atm copy has_room svc atm p v
  feed p (feed_attribute_name v) =
      process_attribute_name tw nums Atm push_atm copy has_room svc atm p v
  feed p (feed_attribute_value v) =
      process_attribute_value tw nums Atm push_atm copy has_room svc atm p v
  feed p (feed_content_value v) = process_value tw nums Atm push_atm copy has_room svc atm p v
  feed p feed_close_tag = process_close_tag tw nums Atm push_atm copy has_room svc atm p
  feed p finish = some (finish_request p)

  -- One call after another, whether they succeed or not.
  unfoldable pub feed_all :
      Processing nums.Float Atm
      → List (Call (Value nums.Float))
      → Option (Processing nums.Float Atm)
  unfolding feed
  feed_all p [] = some p
  feed_all p (o ∷ os) = elim (feed p o) [ none ↦ none | some r ↦ feed_all r.1 os ]

  -- papuga_create_Request and the calls.
  unfoldable pub run_request :
      Atm → List (Call (Value nums.Float)) → Option (Processing nums.Float Atm)
  unfolding new_request feed_all
  run_request start os = elim (new_request start) [ none ↦ none | some p ↦ feed_all p os ]
