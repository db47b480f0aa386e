-- ===== src/Tests/Context.antt =====
-- A document fed to a request of src/request.cpp, with an automaton that keeps the contents and calls a
-- method at each end of a tag.
use papuga.ErrorCode.{ErrorCode}
use papuga.Prelude.{
  get_elem?, arith, ℕ, ◌+◌, ◌*◌, ◌^◌, ◌≡◌, refl, ◌⊎◌, inl, inr, Bool, true, some, List, [], ◌∷◌,
}
use papuga.Prelude.Int.{ℤ, pos, negsuc}
use papuga.Encoding.{utf8}
use papuga.Request.Keys.{Scope}
use papuga.Request.Refs
use papuga.Request.Refs.{atm_ref_type, atm_ref_index}
use papuga.Request.Description.Expression.{
  Text, is_valid_root_tag_set, is_empty, all_contained, contains,
}
use papuga.Request.Description.State.{Description}
use papuga.Request.Context.{
  MethodCallNode, instantiate_value, collect_value, collected, collect_nodes, push_value_ref,
  has_map, with_object_ref, insert_object_ref, method_call, curscope, scope_start,
}
use papuga.Request.Context.Events.{
  ElementType, Processing, required_mask, open_tag, tag_attrib_name, tag_attrib_value, content,
  close_tag, process_open_tag, process_value, process_close_tag,
}
use papuga.Request.Context.Nesting.{NestedOrApart}
use papuga.Request.Context.Feed.{
  Call, feed_open_tag, feed_content_value, feed_close_tag, finish, run_request, new_context,
  event_stacks, feed, new_request,
}
use papuga.Request.Context.References.{IsRef}
use papuga.Request.Context.InBounds.{AllRefs, IsReady}
use papuga.Request.Context.Ready.{feed-IsReady}
use papuga.Request.Context.Documents.{run_request-NestedOrApart}
use papuga.RequestParser.Feeding.{
  Element, element_open, element_close, element_value, Fed, feed_request,
}
use papuga.RequestParser.Total.{feed_request_lem}
use papuga.ErrorCode.{ok}
use papuga.Value.{Value}
use papuga.Tests.Value.{scanner, numbers}
use papuga.Tests.Request.{counting, described}

-- The references of the first value and of the first call.
abbrev keep : ℕ
keep = 1

abbrev collect : ℕ
collect = 1 * 2 ^ 28 + 1

abbrev call_first : ℕ
call_first = 3 * 2 ^ 28 + 1

abbrev events_of : ElementType → List ℕ
events_of open_tag = []
events_of tag_attrib_name = []
events_of tag_attrib_value = []
events_of content = keep ∷ []
events_of close_tag = call_first ∷ collect ∷ []

abbrev push : ℕ → ElementType → Text → List ℕ × ℕ
push n type str = (events_of type, n + 1)

abbrev same_value : Value ℤ → Value ℤ ⊎ ErrorCode
same_value v = inl v

abbrev any_room : Text → Bool
any_room s = true

abbrev same_calls : List MethodCallNode → List MethodCallNode
same_calls mcs = mcs

abbrev word : Text → Value ℤ
word s = Value.string utf8 s

-- <d><e>1</e></d>
abbrev calls : List (Call (Value ℤ))
calls =
    feed_open_tag (word (b'd' ∷ []))
    ∷ feed_open_tag (word (b'e' ∷ []))
    ∷ feed_content_value (word (b'1' ∷ []))
    ∷ feed_close_tag
    ∷ feed_close_tag
    ∷ finish
    ∷ []

abbrev with_value : Description counting
with_value = record described { valuedefs = pos 1 ∷ [] }

abbrev inner : Scope
inner = record { from = pos 2; to = pos 4 }

abbrev outer : Scope
outer = record { from = pos 1; to = pos 5 }

run_request-NestedOrApart_example : NestedOrApart inner outer
unfolding run_request process_open_tag process_value process_close_tag atm_ref_type atm_ref_index
    instantiate_value collect_value collected collect_nodes push_value_ref insert_object_ref
    with_object_ref has_map method_call is_valid_root_tag_set is_empty all_contained contains
    curscope scope_start
run_request-NestedOrApart_example =
    run_request-NestedOrApart scanner numbers ℕ push same_value any_room counting with_value
      same_calls 0 calls _ inner outer (λ mcs mc. (λ h. h, λ h. h)) refl (inl (inr (inl refl)))
      (inl (inl refl))

-- The request while the tag is open.
abbrev in_tag : Processing ℤ ℕ
in_tag = record {
  context = record new_context { scopestack = 1 ∷ 0 ∷ []; scopecnt = 1 };
  atmstate = 0;
  stacks = event_stacks;
  rootelements = [];
  result_calls = [];
  required = [];
  inherited = [];
}

keep-IsRef : IsRef counting with_value keep
unfolding atm_ref_type atm_ref_index has_map
keep-IsRef = record {
  type = Refs.instantiate_value;
  index = 0;
  has_type = refl;
  has_index = refl;
  defined = omega arith;
}

first_map :
    (itemid : ℤ)
    → get_elem? with_value.valuedefs 0 ≡ some itemid
    → has_map with_value.maxitemid itemid ≡ true
unfolding has_map
first_map (pos n) e = ground arith
first_map (negsuc n) e = absurd (ground arith)

collect-IsRef : IsRef counting with_value collect
unfolding atm_ref_type atm_ref_index has_map
collect-IsRef = record {
  type = Refs.collect_value;
  index = 0;
  has_type = refl;
  has_index = refl;
  defined = (omega arith, λ itemid e. first_map itemid e);
}

call-IsRef : IsRef counting with_value call_first
unfolding atm_ref_type atm_ref_index has_map
call-IsRef = record {
  type = Refs.method_call;
  index = 0;
  has_type = refl;
  has_index = refl;
  defined = omega arith;
}

gives_refs :
    (n : ℕ) (type : ElementType) (str : Text) → AllRefs counting with_value (events_of type)
gives_refs n open_tag str = tt
gives_refs n tag_attrib_name str = tt
gives_refs n tag_attrib_value str = tt
gives_refs n content str = (keep-IsRef, tt)
gives_refs n close_tag str = (call-IsRef, (collect-IsRef, tt))

feed-IsReady_run :
    (r : Bool × Processing ℤ ℕ) × (feed scanner numbers ℕ push same_value any_room counting
        with_value same_calls in_tag feed_close_tag
      ≡ some r)
    × IsReady scanner numbers ℕ push same_value any_room counting with_value r.1
feed-IsReady_run =
    feed-IsReady scanner numbers ℕ push same_value any_room counting with_value same_calls in_tag
      feed_close_tag gives_refs
      (record {
        references = (tt, (tt, (tt, (tt, (tt, (tt, (tt, tt)))))));
        seven = refl;
        opened = omega arith;
      })
      (omega arith)

abbrev new_one : Processing ℤ ℕ
new_one = record {
  context = new_context;
  atmstate = 0;
  stacks = event_stacks;
  rootelements = [];
  result_calls = [];
  required = [];
  inherited = [];
}

-- <d><e>1</e></d>
abbrev elements : List (Element (Value ℤ))
elements =
    element_open (word (b'd' ∷ []))
    ∷ element_open (word (b'e' ∷ []))
    ∷ element_value (word (b'1' ∷ []))
    ∷ element_close
    ∷ element_close
    ∷ []

feed_request_lem_example :
    (r : Fed scanner numbers ℕ push same_value any_room counting with_value same_calls)
    × (feed_request scanner numbers ℕ push same_value any_room counting with_value same_calls
          new_one elements ok
        ≡ some r)
    × (r.0 ≡ true → r.2.context.done ≡ true)
unfolding new_request required_mask
feed_request_lem_example =
    feed_request_lem scanner numbers ℕ push same_value any_room counting with_value same_calls 0
      new_one elements ok gives_refs tt refl
