-- ===== src/Request/ValueSink/Balance.antt =====
-- The structures that the class ValueSink of src/request.cpp opens and closes.
use papuga.Prelude.{
  ℕ, suc, ◌+◌, ◌-◌, ◌≡◌, refl, inl, inr, Bool, true, false, Option, none, some, List, [], ◌∷◌, ◌==◌,
  arith, Bool-cases,
}
use papuga.Request.Description.Expression.{Text}
use papuga.Request.ValueSink.{
  Writer, ValueSink, pushed_open, open_named, open_variable, open_serialization, pushed_close,
  close_serialization, push_name, pushed_value, push_named, push_variable, push_value, push_void,
  SinkOperation, opens, closes, voids, names, writes, run_sink, after, run_sink_all,
}

-- How many structures have been opened and closed in a serialization: names and values leave the numbers,
-- and a new serialization has none of either.
pub record Depth (w : Writer) : Type 0 where
  pub opens : w.Ser → ℕ
  pub closes : w.Ser → ℕ
  pub named :
      (a b : w.Ser) (n : Text)
      → w.push_name a n ≡ some b
      → (opens b ≡ opens a) × (closes b ≡ closes a)
  pub opened :
      (a b : w.Ser) → w.push_open a ≡ some b → (opens b ≡ suc (opens a)) × (closes b ≡ closes a)
  pub closed :
      (a b : w.Ser) → w.push_close a ≡ some b → (opens b ≡ opens a) × (closes b ≡ suc (closes a))
  pub valued :
      (a b : w.Ser) (v : w.Value)
      → w.push_value a v ≡ some b
      → (opens b ≡ opens a) × (closes b ≡ closes a)
  pub fresh : (a : w.Ser) → w.alloc_serialization ≡ some a → (opens a ≡ 0) × (closes a ≡ 0)

-- The structures open are the `base` ones and those counted by `opentags`.
abbrev pub IsBalancedAt : {w : Writer} → Depth w → ℕ → Option w.Ser → ℕ → Type 0
IsBalancedAt m base none opentags = (opentags ≡ 0) × (base ≡ 0)
IsBalancedAt m base (some ser) opentags = m.opens ser ≡ base + opentags + m.closes ser

module _ (w : Writer) (m : Depth w) (base : ℕ) where
  abbrev pub IsBalanced : ValueSink w → Type 0
  IsBalanced s = IsBalancedAt m base s.ser s.opentags

  abbrev Keeps : Bool × ValueSink w → Type 0
  Keeps (false, s) = Unit
  Keeps (true, s) = IsBalanced s

  pushed_open-Keeps :
      (s : ValueSink w) (ser : w.Ser) (o : Option w.Ser)
      → w.push_open ser ≡ o
      → m.opens ser ≡ base + s.opentags + m.closes ser
      → Keeps (pushed_open w s o)
  unfolding pushed_open
  pushed_open-Keeps s ser none q h = tt
  pushed_open-Keeps s ser (some a) q h = omega (arith, m.opened ser a q)

  open_named-Keeps :
      (s : ValueSink w) (ser : w.Ser) (name : Text) (o : Option w.Ser)
      → w.push_name ser name ≡ o
      → m.opens ser ≡ base + s.opentags + m.closes ser
      → Keeps (open_named w s o)
  unfolding open_named
  open_named-Keeps s ser name none q h = tt
  open_named-Keeps s ser name (some a) q h =
      pushed_open-Keeps (record s { ser = some a; name = none }) a (w.push_open a) refl
        (omega (arith, m.named ser a name q))

  open_variable-Keeps :
      (s : ValueSink w) (v : Option w.Value) (o : Option w.Ser)
      → w.alloc_serialization ≡ o
      → (s.opentags ≡ 0) × (base ≡ 0)
      → Keeps (open_variable w s v o)
  unfolding open_variable
  open_variable-Keeps s none o q h = tt
  open_variable-Keeps s (some v) none q h = tt
  open_variable-Keeps s (some v) (some a) q h = elim (Bool-cases (w.is_defined v)) [
    | inl d ↦ rw d tt
    | inr d ↦ rw d (omega (arith, m.fresh a q))
  ]

  pushed_close-Keeps :
      (s : ValueSink w) (ser : w.Ser) (o : Option w.Ser)
      → w.push_close ser ≡ o
      → m.opens ser ≡ suc (base + s.opentags + m.closes ser)
      → Keeps (pushed_close w s o)
  unfolding pushed_close
  pushed_close-Keeps s ser none q h = tt
  pushed_close-Keeps s ser (some a) q h = omega (arith, m.closed ser a q)

  pushed_value-Keeps :
      (s : ValueSink w) (ser : w.Ser) (v : w.Value) (o : Option w.Ser)
      → w.push_value ser v ≡ o
      → m.opens ser ≡ base + s.opentags + m.closes ser
      → Keeps (pushed_value w s o)
  unfolding pushed_value
  pushed_value-Keeps s ser v none q h = tt
  pushed_value-Keeps s ser v (some a) q h = omega (arith, m.valued ser a v q)

  push_named-Keeps :
      (s : ValueSink w) (ser : w.Ser) (name : Text) (v : w.Value) (o : Option w.Ser)
      → w.push_name ser name ≡ o
      → m.opens ser ≡ base + s.opentags + m.closes ser
      → Keeps (push_named w s o v)
  unfolding push_named
  push_named-Keeps s ser name v none q h = tt
  push_named-Keeps s ser name v (some a) q h =
      pushed_value-Keeps (record s { ser = some a }) a v (w.push_value a v) refl
        (omega (arith, m.named ser a name q))

  abbrev sink : Option w.Ser → Option w.Value → Option Text → ℕ → ValueSink w
  sink ser val name opentags = record { ser = ser; val = val; name = name; opentags = opentags }

  open-Keeps :
      (ser : Option w.Ser) (val : Option w.Value) (name : Option Text) (k : ℕ)
      → IsBalancedAt m base ser k
      → Keeps (open_serialization w (sink ser val name k))
  unfolding open_serialization
  open-Keeps none val name k h =
      open_variable-Keeps (sink none val name k) val w.alloc_serialization refl h
  open-Keeps (some a) val none k h =
      pushed_open-Keeps (sink (some a) val none k) a (w.push_open a) refl h
  open-Keeps (some a) val (some n) k h =
      open_named-Keeps (sink (some a) val (some n) k) a n (w.push_name a n) refl h

  close-Keeps :
      (ser : Option w.Ser) (val : Option w.Value) (name : Option Text) (k : ℕ)
      → IsBalancedAt m base ser k
      → Keeps (close_serialization w (sink ser val name k))
  unfolding close_serialization
  close-Keeps none val name k h = h
  close-Keeps (some a) val name k h = elim (Bool-cases (k == 0)) [
    | inl e ↦ rw e h
    | inr e ↦
        rw e (
          pushed_close-Keeps (sink (some a) val name (k - 1)) a (w.push_close a) refl
            (ground arith))
  ]

  value-Keeps :
      (ser : Option w.Ser) (val : Option w.Value) (name : Option Text) (k : ℕ) (v : w.Value)
      → IsBalancedAt m base ser k
      → Keeps (push_value w (sink ser val name k) v)
  unfolding push_value push_variable
  value-Keeps none none name k v h = tt
  value-Keeps none (some old) (some n) k v h = tt
  value-Keeps none (some old) none k v h = elim (Bool-cases (w.is_defined old)) [
    | inl d ↦ rw d tt
    | inr d ↦ rw d h
  ]
  value-Keeps (some a) val none k v h =
      pushed_value-Keeps (sink (some a) val none k) a v (w.push_value a v) refl h
  value-Keeps (some a) val (some n) k v h = elim (Bool-cases (w.is_defined v)) [
    | inl d ↦ rw d (push_named-Keeps (sink (some a) val (some n) k) a n v (w.push_name a n) refl h)
    | inr d ↦ rw d h
  ]

  void-Keeps :
      (s : ValueSink w) (name : Option Text) → s.name ≡ name → IsBalanced s → Keeps (push_void w s)
  unfolding push_void
  void-Keeps s none q h = rw q (value-Keeps s.ser s.val none s.opentags w.undefined h)
  void-Keeps s (some n) q h = rw q h

  name-Keeps :
      (s : ValueSink w) (n : Text) (name : Option Text)
      → s.name ≡ name
      → IsBalanced s
      → Keeps (push_name w s n)
  unfolding push_name
  name-Keeps s n none q h = rw q h
  name-Keeps s n (some o) q h = rw q tt

  run_sink-Keeps : (op : SinkOperation w) (s : ValueSink w) → IsBalanced s → Keeps (run_sink w op s)
  run_sink-Keeps opens s h = open-Keeps s.ser s.val s.name s.opentags h
  run_sink-Keeps closes s h = close-Keeps s.ser s.val s.name s.opentags h
  run_sink-Keeps voids s h = void-Keeps s s.name refl h
  run_sink-Keeps (names n) s h = name-Keeps s n s.name refl h
  run_sink-Keeps (writes v) s h = value-Keeps s.ser s.val s.name s.opentags v h

  run_sink_all-Keeps :
      (ops : List (SinkOperation w)) (s : ValueSink w) → IsBalanced s → Keeps (run_sink_all w ops s)
  run_sink_all-Keeps [] s h = h
  run_sink_all-Keeps (op ∷ ops) s h =
      after-Keeps (run_sink w op s) ops (run_sink-Keeps op s h) (run_sink_all-Keeps ops)
    where
      after-Keeps :
          (r : Bool × ValueSink w) (ops : List (SinkOperation w))
          → Keeps r
          → ((t : ValueSink w) → IsBalanced t → Keeps (run_sink_all w ops t))
          → Keeps (after w r (run_sink_all w ops))
      after-Keeps (false, t) ops k all = tt
      after-Keeps (true, t) ops k all = all t k

  Keeps-true : (r : Bool × ValueSink w) → r.0 ≡ true → Keeps r → IsBalanced r.1
  Keeps-true (false, s) q h = absurd (ground arith)
  Keeps-true (true, s) q h = h

  -- From a sink whose serialization has `base` structures open besides those that `opentags` counts
  -- (a sink without a serialization has none of either), a sequence of operations that all succeed
  -- leaves it so: no structure is closed that the sink has not opened.
  pub run_sink_all-IsBalanced :
      (ops : List (SinkOperation w)) (s : ValueSink w)
      → IsBalanced s
      → (run_sink_all w ops s).0 ≡ true
      → IsBalanced (run_sink_all w ops s).1
  run_sink_all-IsBalanced ops s h q =
      Keeps-true (run_sink_all w ops s) q (run_sink_all-Keeps ops s h)
