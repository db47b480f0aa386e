-- ===== src/Request/ValueSink.antt =====
-- The class ValueSink of src/request.cpp: values, names and structures written to a serialization, or
-- one value written to a variable, which a structure turns into a serialization.
pub mod Balance
pub mod Written
use papuga.Prelude.{
  ℕ, ◌+◌, ◌-◌, Bool, true, false, Option, none, some, List, [], ◌∷◌, ◌==◌, if◌then◌else◌,
}
use papuga.Request.Description.Expression.{Text}

-- What the class uses of serializations and values. A push gives `none` where it fails; `depth`
-- counts the structures that a serialization has open.
pub record Writer : Type 1 where
  pub Ser : Type 0
  pub Value : Type 0
  pub push_name : Ser → Text → Option Ser
  pub push_open : Ser → Option Ser
  pub push_close : Ser → Option Ser
  pub push_value : Ser → Value → Option Ser
  pub is_defined : Value → Bool
  pub undefined : Value
  pub of_serialization : Ser → Value
  pub alloc_serialization : Option Ser

module _ (w : Writer) where
  -- The members `ser`, `val` (the variable's content), `name` and `opentags`.
  pub record ValueSink : Type 0 where
    pub ser : Option w.Ser
    pub val : Option w.Value
    pub name : Option Text
    pub opentags : ℕ

  pushed_open : ValueSink → Option w.Ser → Bool × ValueSink
  pushed_open s none = (false, s)
  pushed_open s (some ser) = (true, record s { ser = some ser; opentags = s.opentags + 1 })

  -- openSerialization with a serialization, after its name.
  open_named : ValueSink → Option w.Ser → Bool × ValueSink
  unfolding pushed_open
  open_named s none = (false, s)
  open_named s (some ser) = pushed_open (record s { ser = some ser; name = none }) (w.push_open ser)

  -- openSerialization for a variable; the variable then has the serialization as its value.
  open_variable : ValueSink → Option w.Value → Option w.Ser → Bool × ValueSink
  open_variable s none ser = (false, s)
  open_variable s (some v) none = (false, s)
  open_variable s (some v) (some ser) =
      if w.is_defined v
      then (false, s)
      else (true, record s { ser = some ser; val = some (w.of_serialization ser) })

  unfoldable pub open_serialization : ValueSink → Bool × ValueSink
  unfolding pushed_open open_named open_variable
  open_serialization s = elim s.ser [
    | none ↦ open_variable s s.val w.alloc_serialization
    | some ser ↦ elim s.name [
      | none ↦ pushed_open s (w.push_open ser)
      | some name ↦ open_named s (w.push_name ser name)
    ]
  ]

  pushed_close : ValueSink → Option w.Ser → Bool × ValueSink
  pushed_close s none = (false, s)
  pushed_close s (some ser) = (true, record s { ser = some ser })

  unfoldable pub close_serialization : ValueSink → Bool × ValueSink
  unfolding pushed_close
  close_serialization s = elim s.ser [
    | none ↦ (true, s)
    | some ser ↦
        if s.opentags == 0
        then (true, s)
        else pushed_close (record s { opentags = s.opentags - 1 }) (w.push_close ser)
  ]

  unfoldable pub push_name : ValueSink → Text → Bool × ValueSink
  push_name s name = elim s.name [
    | none ↦ (true, record s { name = some name })
    | some n ↦ (false, s)
  ]

  pushed_value : ValueSink → Option w.Ser → Bool × ValueSink
  pushed_value s none = (false, s)
  pushed_value s (some ser) = (true, record s { ser = some ser; name = none })

  -- pushValue of a value with a name; one that is not defined is left out with its name.
  push_named : ValueSink → Option w.Ser → w.Value → Bool × ValueSink
  unfolding pushed_value
  push_named s none v = (false, s)
  push_named s (some ser) v = pushed_value (record s { ser = some ser }) (w.push_value ser v)

  -- pushValue for a variable.
  push_variable : ValueSink → Option w.Value → w.Value → Bool × ValueSink
  push_variable s none v = (false, s)
  push_variable s (some old) v = elim s.name [
    | some n ↦ (false, s)
    | none ↦ if w.is_defined old then (false, s) else (true, record s { val = some v })
  ]

  unfoldable pub push_value : ValueSink → w.Value → Bool × ValueSink
  unfolding pushed_value push_named push_variable
  push_value s v = elim s.ser [
    | none ↦ push_variable s s.val v
    | some ser ↦ elim s.name [
      | none ↦ pushed_value s (w.push_value ser v)
      | some name ↦
          if w.is_defined v
          then push_named s (w.push_name ser name) v
          else (true, record s { name = none })
    ]
  ]

  unfoldable pub push_void : ValueSink → Bool × ValueSink
  push_void s = elim s.name [
    | some n ↦ (true, record s { name = none })
    | none ↦ push_value s w.undefined
  ]

  pub data SinkOperation : Type 0 where
    opens closes voids : SinkOperation
    names : Text → SinkOperation
    writes : w.Value → SinkOperation

  abbrev pub run_sink : SinkOperation → ValueSink → Bool × ValueSink
  run_sink opens s = open_serialization s
  run_sink closes s = close_serialization s
  run_sink voids s = push_void s
  run_sink (names n) s = push_name s n
  run_sink (writes v) s = push_value s v

  -- The rest of the operations, after one that has not failed.
  abbrev pub after : Bool × ValueSink → (ValueSink → Bool × ValueSink) → Bool × ValueSink
  after (false, s) rest = (false, s)
  after (true, s) rest = rest s

  -- Operations up to the first one that fails.
  abbrev pub run_sink_all : List SinkOperation → ValueSink → Bool × ValueSink
  run_sink_all [] s = (true, s)
  run_sink_all (op ∷ ops) s = after (run_sink op s) (run_sink_all ops)
