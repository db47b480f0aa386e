-- ===== src/Request/Description/State.antt =====
-- The definitions that AutomatonDescription in src/request.cpp collects, its members, and the private
-- helpers of its operations. A call or a structure holds its array as a list; the counts of
-- arguments and of members are at least 0. Growing a vector, a map or a set is taken to succeed.
use papuga.ErrorCode.{
  ErrorCode, ok, no_mem_error, out_of_range_error, syntax_error, buffer_overflow_error,
}
use papuga.Prelude.{
  ℕ, suc, ◌+◌, ◌^◌, Bool, true, false, ◌||◌, not, Option, none, some, List, [], ◌∷◌, ◌++◌, ltb,
  ◌==◌, if◌then◌else◌, length,
}
use papuga.Prelude.Int.{ℤ, pos, negsuc, pos_part, ltb_ℤ}
use papuga.Request.Refs.{result_instruction, atm_ref_get, res_ref_check, res_ref_get}
use papuga.Request.Description.Expression.{Text, root_tag_name, insert}

pub data ResolveType : Type 0 where
  required optional inherited array array_non_empty : ResolveType

pub record CallArgDef : Type 0 where
  pub varname : Option Text
  pub itemid : ℤ
  pub resolvetype : ResolveType
  pub max_tag_diff : ℤ

-- The three constructors of CallArgDef.
abbrev pub no_arg : CallArgDef
no_arg = record { varname = none; itemid = negsuc 0; resolvetype = required; max_tag_diff = pos 0 }

abbrev pub var_arg : Option Text → CallArgDef
var_arg varname = record {
  varname = varname;
  itemid = pos 0;
  resolvetype = required;
  max_tag_diff = pos 0;
}

abbrev pub item_arg : ℤ → ResolveType → ℤ → CallArgDef
item_arg itemid resolvetype max_tag_diff = record {
  varname = none;
  itemid = itemid;
  resolvetype = resolvetype;
  max_tag_diff = max_tag_diff;
}

pub record RequestMethodId : Type 0 where
  pub classid : ℤ
  pub functionid : ℤ

pub record CallDef : Type 0 where
  pub methodid : RequestMethodId
  pub selfvarname : Option Text
  pub resultvarname : Option Text
  pub args : List CallArgDef
  pub groupid : ℤ

pub record StructMemberDef : Type 0 where
  pub name : Option Text
  pub varname : Option Text
  pub itemid : ℤ
  pub resolvetype : ResolveType
  pub max_tag_diff : ℤ

abbrev pub no_member : StructMemberDef
no_member = record {
  name = none;
  varname = none;
  itemid = negsuc 0;
  resolvetype = required;
  max_tag_diff = pos 0;
}

pub record StructDef : Type 0 where
  pub itemid : ℤ
  pub members : List StructMemberDef

pub record InheritFromDef : Type 0 where
  pub inherited_type : Text
  pub is_required : Bool

pub record EnvAssignment : Type 0 where
  pub variable : Text
  pub envid : ℤ
  pub argument : Option Text

pub data ResultNodeType : Type 0 where
  constant open_structure close_structure open_array close_array : ResultNodeType
  input_reference result_reference : ResultNodeType

pub record ResultNode : Type 0 where
  pub inputselect : Text
  pub node_type : ResultNodeType
  pub str : Text

-- A class of the array of classes: its name, which the last entry does not have, and its number of
-- methods.
pub record ClassDef : Type 0 where
  pub class_name : Option Text
  pub methodtablesize : ℕ

-- nofClassDefs; an array without an end is the list's end here.
unfoldable pub nof_class_defs : List ClassDef → ℕ
nof_class_defs [] = 0
nof_class_defs (c ∷ cs) = elim c.class_name [ none ↦ 0 | some n ↦ suc (nof_class_defs cs) ]

-- What the class relies on: the allocator (its state, the size and the alignment), and the automaton
-- of textwolf, that gives an error code that is not 0 for an expression it refuses.
pub record Services : Type 1 where
  pub Mem : Type 0
  pub Atm : Type 0
  pub alloc : Mem → ℕ → ℕ → Option Mem
  pub add_path : Atm → ℕ → Text → ℕ × Atm

-- The members of the class. `env_assignments` are the entries set in the array.
pub record Description (svc : Services) : Type 0 where
  pub classdefs : List ClassDef
  pub calldefs : List CallDef
  pub structdefs : List StructDef
  pub valuedefs : List ℤ
  pub inheritdefs : List InheritFromDef
  pub resultdefs : List (List ResultNode)
  pub result_variables : List Text
  pub accepted_root_tags : List Text
  pub env_assignments : List EnvAssignment
  pub strict : Bool
  pub exclusive_access : Bool
  pub mem : svc.Mem
  pub atm : svc.Atm
  pub maxitemid : ℕ
  pub errcode : ErrorCode
  pub groupidmap : List (ℤ × ℕ)
  pub groupid : ℤ
  pub done : Bool

-- `MaxNofCallDefs`, `papuga_MAX_NOF_ARGUMENTS` and `MaxNofEnvAssignments`
abbrev pub max_nof_call_defs : ℕ
max_nof_call_defs = 2 ^ 15

abbrev pub max_nof_arguments : ℕ
max_nof_arguments = 32

abbrev pub max_nof_env_assignments : ℕ
max_nof_env_assignments = 7

-- `push_back`, `back()`, and `back() = x`
abbrev pub push_back {ℓ} : {A : Type ℓ} → List A → A → List A
push_back xs x = xs ++ (x ∷ [])

unfoldable pub back {ℓ} : {A : Type ℓ} → List A → Option A
back [] = none
back (x ∷ xs) = elim xs [ [] ↦ some x | y ∷ ys ↦ back xs ]

unfoldable pub set_back {ℓ} : {A : Type ℓ} → List A → A → List A
set_back [] b = []
set_back (x ∷ xs) b = elim xs [ [] ↦ b ∷ [] | y ∷ ys ↦ x ∷ set_back xs b ]

module _ (svc : Services) where
  abbrev pub Result : Type 0
  Result = Bool × Description svc

  -- `m_errcode = code; return false`
  abbrev pub fail : Description svc → ErrorCode → Result
  fail d code = (false, record d { errcode = code })

  -- The constructor.
  unfoldable pub init_description :
      List ClassDef → Bool → Bool → svc.Mem → svc.Atm → Description svc
  init_description classdefs strict exclusive_access mem atm = record {
    classdefs = classdefs;
    calldefs = [];
    structdefs = [];
    valuedefs = [];
    inheritdefs = [];
    resultdefs = [];
    result_variables = [];
    accepted_root_tags = [];
    env_assignments = [];
    strict = strict;
    exclusive_access = exclusive_access;
    mem = mem;
    atm = atm;
    maxitemid = 0;
    errcode = ok;
    groupidmap = [];
    groupid = negsuc 0;
    done = false;
  }

  copied : Description svc → Text → Option svc.Mem → Option Text × Description svc
  copied d str none = (none, record d { errcode = no_mem_error })
  copied d str (some mem) = (some str, record d { mem = mem })

  -- copyIfDefined
  unfoldable pub copy_if_defined : Description svc → Option Text → Option Text × Description svc
  unfolding copied
  copy_if_defined d none = (none, d)
  copy_if_defined d (some []) = (none, d)
  copy_if_defined d (some (c ∷ cs)) = copied d (c ∷ cs) (svc.alloc d.mem (length (c ∷ cs) + 1) 1)

  -- checkItemId
  unfoldable pub check_item_id : Description svc → ℤ → Result
  check_item_id d itemid =
      if ltb_ℤ itemid (pos 0) || not (ltb_ℤ itemid (pos (2 ^ 28)))
      then fail d out_of_range_error
      else if ltb d.maxitemid (pos_part itemid)
      then (true, record d { maxitemid = pos_part itemid })
      else (true, d)

  -- extractRootTagName
  unfoldable pub extract_root_tag_name : Description svc → Text → Description svc
  extract_root_tag_name d expression = elim (root_tag_name expression) [
    | none ↦ d
    | some tag ↦ record d { accepted_root_tags = insert tag d.accepted_root_tags }
  ]

  path_added : Description svc → ℕ × svc.Atm → Result
  path_added d (code, atm) =
      if code == 0
      then (true, record d { atm = atm })
      else fail (record d { atm = atm }) syntax_error

  -- addExpression
  unfoldable pub add_expression : Description svc → ℕ → Text → Result
  unfolding path_added
  add_expression d eventid expression =
      path_added (extract_root_tag_name d expression) (svc.add_path d.atm eventid expression)

  -- addResultInstructionTrigger
  unfoldable pub add_result_instruction_trigger : Description svc → Text → ℕ → ℕ → Result
  add_result_instruction_trigger d expression resultidx instridx =
      if not (res_ref_check resultidx instridx)
      then fail d buffer_overflow_error
      else add_expression d (atm_ref_get result_instruction (res_ref_get resultidx instridx))
          expression

  -- The rest of an operation, where the part before it has not returned false.
  unfoldable pub and_then : Result → (Description svc → Result) → Result
  and_then (false, d) rest = (false, d)
  and_then (true, d) rest = rest d
