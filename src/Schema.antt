-- ===== src/Schema.antt =====
-- The tree of elements in src/schemaDescription.cpp: its nodes, and the type of an operation that can
-- throw.
pub mod Scan
pub mod Scopes
pub mod Node
pub mod Conditions
pub mod Follow
pub mod Build
pub mod Calls
pub mod Finish
pub mod Quoted
pub mod Fuel
pub mod Positions
pub mod ConditionsEnd
pub mod Termination
use papuga.ErrorCode.{ErrorCode, ok, is_ok}
use papuga.Prelude.{ℕ, Bool, true, false, Option, none, some, List, [], ◌==◌, if◌then◌else◌}
use papuga.Prelude.Int.{ℤ, negsuc}
use papuga.Request.Keys.{Scope, no_scope}
use papuga.Request.Description.Expression.{Text}
use papuga.Request.Description.State.{ResolveType, required}

pub data ElementType : Type 0 where
  null_type struct_type value_type attribute_type reference_type union_type : ElementType

pub data FollowType : Type 0 where
  follow_null follow_immediate follow_deep : FollowType

-- papuga_Type
pub data ValueType : Type 0 where
  type_void type_double type_int type_bool type_string : ValueType
  type_host_object type_serialization type_iterator : ValueType

-- The places of the constructors in their enumerations, to compare them.
abbrev pub element_code : ElementType → ℕ
element_code null_type = 0
element_code struct_type = 1
element_code value_type = 2
element_code attribute_type = 3
element_code reference_type = 4
element_code union_type = 5

abbrev pub follow_code : FollowType → ℕ
follow_code follow_null = 0
follow_code follow_immediate = 1
follow_code follow_deep = 2

abbrev pub value_code : ValueType → ℕ
value_code type_void = 0
value_code type_double = 1
value_code type_int = 2
value_code type_bool = 3
value_code type_string = 4
value_code type_host_object = 5
value_code type_serialization = 6
value_code type_iterator = 7

abbrev pub resolve_code : ResolveType → ℕ
resolve_code ResolveType.required = 0
resolve_code ResolveType.optional = 1
resolve_code ResolveType.inherited = 2
resolve_code ResolveType.array = 3
resolve_code ResolveType.array_non_empty = 4

-- TreeNode::NullId
abbrev pub null_id : ℤ
null_id = negsuc 0

-- TreeNode::Related
pub record Related : Type 0 where
  pub id : ℤ
  pub resolve_type : ResolveType

abbrev pub no_relation : Related
no_relation = record { id = null_id; resolve_type = required }

-- The members of a TreeNode but its children.
pub record NodeData : Type 0 where
  pub name : Text
  pub id : ℤ
  pub element_type : ElementType
  pub value_type : ValueType
  pub follow_type : FollowType
  pub resolve_type : ResolveType
  pub scope : Scope
  pub related : List Related
  pub examples : List Text

mutual
  pub data TreeNode : Type 0 where
    node : NodeData → Children → TreeNode

  pub data Children : Type 0 where
    no_child : Children
    child : TreeNode → Children → Children

-- TreeNode::TreeNode with a name and types.
abbrev pub new_data : Text → ElementType → ValueType → FollowType → List Text → NodeData
new_data name element_type atom_type follow_type examples = record {
  name = name;
  id = null_id;
  element_type = element_type;
  value_type = atom_type;
  follow_type = follow_type;
  resolve_type = required;
  scope = no_scope;
  related = [];
  examples = examples;
}

abbrev pub node_data : TreeNode → NodeData
node_data (node d cs) = d

abbrev pub children : TreeNode → Children
children (node d cs) = cs

abbrev pub append_child : Children → TreeNode → Children
append_child no_child t = child t no_child
append_child (child x xs) t = child x (append_child xs t)

-- An operation that changes a state and may throw: the error code, `ok` if it does not, and the state as
-- it then is.
abbrev pub Effect : Type 0 → Type 0
Effect A = ErrorCode × A

-- The next operation, unless there was an exception.
abbrev pub and_then : {A : Type 0} → Effect A → (A → Effect A) → Effect A
and_then r next = elim (is_ok r.0) [ true ↦ next r.1 | false ↦ r ]

-- The same where loops run on fuel: `none` is a loop that has not ended.
abbrev pub Run : Type 0 → Type 0
Run A = Option (Effect A)

abbrev pub and_run : {A : Type 0} → Effect A → (A → Run A) → Run A
and_run r next = elim (is_ok r.0) [ true ↦ next r.1 | false ↦ some r ]

abbrev pub bind_run : {A : Type 0} → Run A → (A → Run A) → Run A
bind_run none next = none
bind_run (some r) next = and_run r next

-- What an expression is parsed to, or the code of the exception.
pub data Parsed (A : Type 0) : Type 0 where
  thrown : ErrorCode → Parsed A
  parsed : A → Parsed A
