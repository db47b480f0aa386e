-- ===== src/Schema/Calls.antt =====
-- The functions papuga_SchemaDescription_* of src/schemaDescription.cpp that add to the tree.
use papuga.ErrorCode.{ErrorCode, is_ok, execution_order}
use papuga.Prelude.{ℕ, Bool, false, Option, none, some, if◌then◌else◌}
use papuga.Prelude.Int.{ℤ}
use papuga.Request.Description.Expression.{Text}
use papuga.Request.Description.State.{ResolveType, required}
use papuga.Schema.{ValueType, type_void, null_id, no_relation, TreeNode, Run}
use papuga.Schema.Follow.{Added}
use papuga.Schema.Build.{add_sub_tree}

-- SchemaDescription
pub record SchemaDescription : Type 0 where
  pub lasterr : ErrorCode
  pub tree : TreeNode
  pub done : Bool

-- papuga_SchemaDescription_add_element, papuga_SchemaDescription_add_relation and
-- papuga_SchemaDescription_set_resolve with their arguments in `Added`.
abbrev pub returned : SchemaDescription → Run TreeNode → Option (Bool × SchemaDescription)
returned s none = none
returned s (some r) = some (is_ok r.0, record s { lasterr = r.0; tree = r.1 })

unfoldable pub add_to_schema :
    ℕ → Added → Text → SchemaDescription → Option (Bool × SchemaDescription)
unfolding add_sub_tree
add_to_schema fuel a src s =
    if s.done
    then some (false, record s { lasterr = execution_order })
    else returned s (add_sub_tree fuel a src s.tree)

unfoldable pub schema_add_element :
    ℕ
    → ℤ
    → Text
    → ValueType
    → ResolveType
    → Option Text
    → SchemaDescription
    → Option (Bool × SchemaDescription)
unfolding add_to_schema
schema_add_element fuel id src atom_type resolve_type examples s =
    add_to_schema fuel
      (record {
        id = id;
        value_type = atom_type;
        resolve_type = resolve_type;
        examples = examples;
        related = no_relation;
      })
      src s

unfoldable pub schema_add_relation :
    ℕ → ℤ → Text → ℤ → ResolveType → SchemaDescription → Option (Bool × SchemaDescription)
unfolding add_to_schema
schema_add_relation fuel id src elemid resolve_type s =
    add_to_schema fuel
      (record {
        id = id;
        value_type = type_void;
        resolve_type = required;
        examples = none;
        related = record { id = elemid; resolve_type = resolve_type };
      })
      src s

unfoldable pub schema_set_resolve :
    ℕ → Text → ResolveType → SchemaDescription → Option (Bool × SchemaDescription)
unfolding add_to_schema
schema_set_resolve fuel src resolve_type s =
    add_to_schema fuel
      (record {
        id = null_id;
        value_type = type_void;
        resolve_type = resolve_type;
        examples = none;
        related = no_relation;
      })
      src s

unfoldable pub schema_add_dependency :
    ℕ → Text → ℤ → ResolveType → SchemaDescription → Option (Bool × SchemaDescription)
unfolding schema_add_relation
schema_add_dependency fuel src elemid resolve_type s =
    schema_add_relation fuel null_id src elemid resolve_type s
