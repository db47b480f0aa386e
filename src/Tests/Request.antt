-- ===== src/Tests/Request.antt =====
-- The references, the keys and the builder of src/request.cpp on concrete inputs.
use papuga.ErrorCode.{ok, type_error, out_of_range_error, buffer_overflow_error}
use papuga.Prelude.{
  Bool, Option, ℕ, ◌+◌, ◌-◌, ◌^◌, ◌==◌, ◌≤◌, ◌<◌, ◌≡◌, ◌≢◌, refl, suc, ◌↔◌, ◌⊎◌, inl, true, false,
  none, some, List, [], ◌∷◌, ltb, if◌then◌else◌, length, take, get_or, arith,
}
use papuga.Prelude.Int.{pos, negsuc, ◌≤ℤ◌}
use papuga.Request.Refs.{
  method_call, atm_ref_get, atm_ref_type, atm_ref_index, atm_ref_get-fields, res_ref_check,
  res_ref_get, res_ref_resultidx, res_ref_instridx, res_ref_get-fields, res_ref_collision,
  object_ref_value, object_ref_struct, value_id, struct_id, is_value, is_struct, is_defined,
  object_ref-fields,
}
use papuga.Request.Keys.{
  Scope, inside, ScopeKey, object_scope, search, scope_key_lt, scope_key_lt-search,
}
use papuga.Request.Description.Expression.{
  Text, text_eq, contains_char, trailing_slashes, cut_trailing_slashes, until_slash, root_tag_name,
  is_valid_root_tag_set,
}
use papuga.Request.Description.Selectors.{
  IsIn, cut_trailing_slashes-IsCut, cut_trailing_slashes_idem, is_valid_root_tag_set_iff,
  root_tag_name-append,
}
use papuga.Request.Description.State.{
  init_description, Services, Description, ClassDef, CallDef, RequestMethodId, EnvAssignment,
  no_arg, back, set_back, check_item_id,
}
use papuga.Request.Description.Calls.{close_group, finish, set_call_arg_var}
use papuga.Request.Description.Structs.{add_env_assignment}
use papuga.Request.Description.Operations.{
  Operation, run, run_all, values, structures, closes_group, opens_group, finishes,
}
use papuga.Request.Description.Items.{AllMapped}
use papuga.Request.Description.Mapped.{run_all-AllMapped}
use papuga.Request.Description.Errors.{run-failure, run_all-errcode}
use papuga.Request.Description.Groups.{AllIndices}
use papuga.Request.Description.Grouping.{
  GroupStep, adds, opens, closes, built, steps-finish-AllIndices,
}
use papuga.Request.Context.{
  Context, has_item, isequal_varname, MethodCallNode, collect_value, suppress, is_suppressed,
  prioritized,
}
use papuga.Request.Context.Collect.{Collected, collect_value_lem}
use papuga.Request.Context.Prioritize.{IsIn as IsCallIn, prioritized_fault}
use papuga.Request.Context.Suppressed.{IsRival, suppress_iff}
use papuga.Request.ValueSink.{
  SinkOperation, open_serialization, close_serialization, push_name, push_value, Writer, ValueSink,
  run_sink_all, opens as sink_opens, closes as sink_closes, names, writes,
}
use papuga.Request.ValueSink.Balance.{IsBalanced, run_sink_all-IsBalanced}
use papuga.Request.ValueSink.Written.{serialization_writer, serialization_depth}
use papuga.Serialization.{
  tag_open, void, atom, Serialization, push_open, push_close, push_tagged, push_node,
}
use papuga.Request.Description.Expression.{Text}
use papuga.Request.Description.Checks.{
  check_item_id_lem, set_call_arg_var_of_empty_name, add_env_assignment-length,
}

-- A memory of 4096 bytes, and an automaton that counts its expressions.
abbrev pub counting : Services
counting = record {
  Mem = ℕ;
  Atm = ℕ;
  alloc = λ m n a. if ltb 4096 (m + n) then none else some (m + n);
  add_path = λ a ev e. (0, a + 1);
}

abbrev one_class : List ClassDef
one_class =
    record { class_name = some (b'C' ∷ []); methodtablesize = 2 }
    ∷ record { class_name = none; methodtablesize = 0 }
    ∷ []

abbrev doc : Text
doc = b'/' ∷ b'd' ∷ b'o' ∷ b'c' ∷ b'/' ∷ []

abbrev method : RequestMethodId
method = record { classid = pos 1; functionid = pos 2 }

-- A call without arguments, one of two arguments, and no group.
abbrev call : CallDef
call = record {
  methodid = method;
  selfvarname = some (b'c' ∷ []);
  resultvarname = none;
  args = no_arg ∷ no_arg ∷ [];
  groupid = pos 0;
}

abbrev pub described : Description counting
described = record {
  classdefs = one_class;
  calldefs = call ∷ [];
  structdefs = [];
  valuedefs = [];
  inheritdefs = [];
  resultdefs = [];
  result_variables = [];
  accepted_root_tags = (b'd' ∷ b'o' ∷ b'c' ∷ []) ∷ [];
  env_assignments = [];
  strict = true;
  exclusive_access = false;
  mem = 0;
  atm = 0;
  maxitemid = 3;
  errcode = ok;
  groupidmap = [];
  groupid = negsuc 0;
  done = false;
}

atm_ref_get-fields_example :
    (atm_ref_type (atm_ref_get method_call 7) ≡ some method_call)
    × (atm_ref_index (atm_ref_get method_call 7) ≡ pos 7)
    × (atm_ref_get method_call 7 < 2 ^ 31)
    × (atm_ref_get method_call 7 ≢ 0)
atm_ref_get-fields_example = atm_ref_get-fields method_call 7 (omega arith)

res_ref_get-fields_run :
    (res_ref_resultidx (res_ref_get 255 65535) ≡ 255)
    × (res_ref_instridx (res_ref_get 255 65535) ≡ 65535)
res_ref_get-fields_run = res_ref_get-fields 255 65535 (unfold res_ref_check in refl) (omega arith)

res_ref_collision_run :
    (res_ref_check 3 (2 ^ 16) ≡ true) × (res_ref_get 3 (2 ^ 16) ≡ res_ref_get (3 + 1) 0)
res_ref_collision_run = res_ref_collision 3 (omega arith)

object_ref-fields_run :
    (value_id (object_ref_value 5) ≡ 5)
    × (struct_id (object_ref_struct 5) ≡ 5)
    × (is_value (object_ref_value 5) ≡ true)
    × (is_struct (object_ref_value 5) ≡ false)
    × (is_struct (object_ref_struct 5) ≡ true)
    × (is_value (object_ref_struct 5) ≡ false)
    × (is_defined (object_ref_value 5) ≡ true)
    × (is_defined (object_ref_struct 5) ≡ true)
object_ref-fields_run = object_ref-fields 5

abbrev scope_key : ScopeKey
scope_key = record { scope = record { from = pos 4; to = pos 9 }; key_type = object_scope }

scope_key_lt-search_run : scope_key_lt scope_key (search (pos 5)) ≡ true
scope_key_lt-search_run = scope_key_lt-search scope_key (pos 5) (omega arith)

cut_trailing_slashes-IsCut_run :
    (n : ℕ) × (cut_trailing_slashes doc ≡ take n doc)
    × (n ≤ length doc)
    × ((i : ℕ) → n ≤ i → i < length doc → contains_char trailing_slashes (get_or doc i 0) ≡ true)
    × ((j : ℕ) → suc j ≡ n → contains_char trailing_slashes (get_or doc j 0) ≡ false)
cut_trailing_slashes-IsCut_run = cut_trailing_slashes-IsCut doc

cut_again_run : cut_trailing_slashes (cut_trailing_slashes doc) ≡ cut_trailing_slashes doc
cut_again_run = cut_trailing_slashes_idem doc

is_valid_root_tag_set_iff_run : (is_valid_root_tag_set true (doc ∷ []) (doc ∷ []) ≡ true) ↔ (
    (true ≡ false)
    ⊎ (((t : Text) → IsIn t (doc ∷ []) → IsIn t (doc ∷ [])) × ((doc ∷ [] ≢ []) ⊎ (doc ∷ [] ≡ []))))
is_valid_root_tag_set_iff_run = is_valid_root_tag_set_iff true (doc ∷ []) (doc ∷ [])

root_tag_name-append_run : root_tag_name doc ≡ some (b'd' ∷ b'o' ∷ b'c' ∷ [])
root_tag_name-append_run =
    root_tag_name-append b'd' (b'o' ∷ b'c' ∷ []) (b'/' ∷ []) (omega arith)
      (inl (unfold until_slash in refl))

run-failure_example : (run counting closes_group described).1.errcode ≢ ok
run-failure_example = run-failure counting closes_group described (unfold close_group in refl)

run_all-errcode_run :
    (run_all counting
      (opens_group (pos 1) ∷ finishes ∷ [])
      (record described { errcode = type_error })).errcode
    ≢ ok
run_all-errcode_run =
    run_all-errcode counting (opens_group (pos 1) ∷ finishes ∷ [])
      (record described { errcode = type_error }) (λ q. cc)

abbrev steps : List GroupStep
steps =
    adds doc method (some (b'c' ∷ [])) none (pos 2)
    ∷ opens (pos 7) (omega arith)
    ∷ adds doc method (some (b'c' ∷ [])) none (pos 0)
    ∷ closes
    ∷ []

steps-finish-AllIndices_example :
    ((finish counting (built counting one_class true false 0 0 steps)).0 ≡ true)
    × ((finish counting (built counting one_class true false 0 0 steps)).1.done ≡ true)
    × AllIndices
        (length (built counting one_class true false 0 0 steps).calldefs)
        (finish counting (built counting one_class true false 0 0 steps)).1.calldefs
    × (length (finish counting (built counting one_class true false 0 0 steps)).1.calldefs
        ≡ length (built counting one_class true false 0 0 steps).calldefs)
steps-finish-AllIndices_example = steps-finish-AllIndices counting one_class true false 0 0 steps

check_item_id_lem_run :
    ((pos 0 ≤ℤ pos 9)
      × (pos 9 ≤ℤ pos (2 ^ 28 - 1))
      × ((check_item_id counting described (pos 9)).0 ≡ true)
      × (pos 9 ≤ℤ pos ((check_item_id counting described (pos 9)).1.maxitemid))
      × (described.maxitemid ≤ (check_item_id counting described (pos 9)).1.maxitemid)
      × (((check_item_id counting described (pos 9)).1.maxitemid ≡ described.maxitemid)
          ⊎ (pos ((check_item_id counting described (pos 9)).1.maxitemid) ≡ pos 9)))
    ⊎ (((pos 9 ≤ℤ negsuc 0) ⊎ (pos (2 ^ 28) ≤ℤ pos 9))
        × (check_item_id counting described (pos 9)
            ≡ (false, record described { errcode = out_of_range_error })))
check_item_id_lem_run = check_item_id_lem counting described (pos 9)

set_call_arg_var_of_empty_name_run : set_call_arg_var counting described (pos 1) (some []) ≡ (
  true,
  record described {
    calldefs =
        set_back
          (call ∷ [])
          (record call { args = no_arg ∷ record no_arg { itemid = pos 0 } ∷ [] });
  },
)
set_call_arg_var_of_empty_name_run =
    set_call_arg_var_of_empty_name counting described call 1 refl (unfold back in refl)
      (omega arith) refl

abbrev assignment : EnvAssignment
assignment = record { variable = b'v' ∷ []; envid = pos 1; argument = none }

add_env_assignment-length_run :
    ((0 ≤ 7)
      × ((add_env_assignment counting described assignment).0 ≡ true)
      × (length (add_env_assignment counting described assignment).1.env_assignments ≡ 1))
    ⊎ ((length described.env_assignments ≡ 8)
        × (add_env_assignment counting described assignment
            ≡ (false, record described { errcode = buffer_overflow_error })))
add_env_assignment-length_run =
    add_env_assignment-length counting described assignment (omega arith)

abbrev context : Context ℕ
context = record {
  scopecnt = 6;
  scopestack = 4 ∷ 0 ∷ [];
  valuenodes =
      record { value = 11; itemid = pos 1 }
      ∷ record { value = 22; itemid = pos 2 }
      ∷ record { value = 33; itemid = pos 1 }
      ∷ [];
  values = [];
  structs = [];
  scopeobjects = [];
  methodcalls = [];
  done = false;
  errcode = ok;
  erritemid = negsuc 0;
}

collect_value_lem_example :
    ((pos 0 ≤ℤ pos 1)
      × (pos 1 ≤ℤ pos 3)
      × (r : Bool × Context ℕ) × (collect_value ℕ 3 context (pos 1) ≡ some r)
      × Collected ℕ context (pos 1) r)
    ⊎ (¬ ((pos 0 ≤ℤ pos 1) × (pos 1 ≤ℤ pos 3)) × (collect_value ℕ 3 context (pos 1) ≡ none))
collect_value_lem_example = collect_value_lem ℕ 3 context (pos 1)

abbrev value_and_structure : List Operation
value_and_structure = values doc [] (pos 2) ∷ structures doc (pos 5) (pos 1) ∷ finishes ∷ []

run_all-AllMapped_example :
    AllMapped counting
      (run_all counting value_and_structure (init_description counting one_class true false 0 0))
run_all-AllMapped_example = run_all-AllMapped counting one_class true false 0 0 value_and_structure

abbrev in_scope : Scope
in_scope = record { from = pos 4; to = pos 9 }

-- A call of the definition 1 with a result variable, and one of the definition 2 without one.
abbrev last_call : MethodCallNode
last_call = record {
  key = record { group = pos 1; scope_from = pos 8; elemidx = pos 1 };
  def = record call { resultvarname = some (b'r' ∷ []) };
  scope = record { from = pos 7; to = pos 8 };
  taglevel = 3;
}

abbrev first_call : MethodCallNode
first_call = record {
  key = record { group = pos 2; scope_from = pos 6; elemidx = pos 2 };
  def = call;
  scope = record { from = pos 5; to = pos 6 };
  taglevel = 3;
}

suppress_iff_example :
    IsCallIn first_call (first_call ∷ [])
    ↔ IsCallIn first_call (last_call ∷ first_call ∷ [])
      × ¬ IsRival in_scope (pos 2) (record call { resultvarname = some (b'r' ∷ []) }) first_call
suppress_iff_example =
    suppress_iff in_scope (pos 2) (record call { resultvarname = some (b'r' ∷ []) })
      (last_call ∷ first_call ∷ []) (first_call ∷ []) (inl (omega arith, inl (omega arith, tt)))
      (unfold suppress is_suppressed isequal_varname text_eq inside in refl) first_call

prioritized_fault_example : prioritized in_scope (pos 2) call (last_call ∷ first_call ∷ []) ≡ none
prioritized_fault_example =
    prioritized_fault in_scope (pos 2) call last_call (first_call ∷ []) (b'r' ∷ [])
      (unfold has_item inside in refl) (unfold inside in refl) refl refl refl

-- A serialization whose values and names are numbers, with two structures open.
abbrev chunk_alloc : ℕ → Option ℕ
chunk_alloc n = if n == 0 then none else some (n - 1)

abbrev text_value : Text → ℕ
text_value [] = 0
text_value (c ∷ cs) = c

abbrev writer : Writer
writer = serialization_writer ℕ ℕ chunk_alloc text_value 1000 none

abbrev opened_twice : Serialization ℕ ℕ
opened_twice = record {
  before = [];
  current =
      record { content = void; tag = tag_open } ∷ record { content = void; tag = tag_open } ∷ [];
  freelist = 0;
  allocator = 1;
  structid = pos 0;
}

abbrev sink : ValueSink writer
sink = record { ser = some opened_twice; val = none; name = none; opentags = 0 }

abbrev sink_run : List (SinkOperation writer)
sink_run = names (b'n' ∷ []) ∷ sink_opens ∷ writes (atom 5) ∷ sink_closes ∷ []

sink_run-true : (run_sink_all writer sink_run sink).0 ≡ true
unfolding open_serialization close_serialization push_name push_value push_open push_close
    push_tagged push_node
sink_run-true = refl

sink-IsBalanced :
    IsBalanced writer (serialization_depth ℕ ℕ chunk_alloc text_value 1000 none) 2 sink
unfolding serialization_depth
sink-IsBalanced = refl

run_sink_all-IsBalanced_example :
    IsBalanced writer
      (serialization_depth ℕ ℕ chunk_alloc text_value 1000 none)
      2
      (run_sink_all writer sink_run sink).1
run_sink_all-IsBalanced_example =
    run_sink_all-IsBalanced writer (serialization_depth ℕ ℕ chunk_alloc text_value 1000 none) 2
      sink_run sink sink-IsBalanced sink_run-true
