-- ===== src/Request/Context/Tags.antt =====
-- The operations of AutomatonContext in src/request.cpp on tags keep the recorded scopes nested, and so does
-- the sorting of the method calls.
use papuga.ErrorCode.{ErrorCode, syntax_error, is_ok}
use papuga.Prelude.{
  ℕ, ◌+◌, ◌<◌, ◌≡◌, refl, ap, ◌∙◌, ◌⊎◌, inl, inr, ◌↔◌, Bool, true, false, ◌&&◌, Option, none, some,
  List, [], ◌∷◌, ◌==◌, leb, length, if◌then◌else◌, arith,
}
use papuga.Prelude.Int.{pos_part}
use papuga.Request.Keys.{Scope}
use papuga.Request.Description.Expression.{Text}
use papuga.Request.Description.State.{Services, Description}
use papuga.Request.Context.{Context, MethodCallNode}
use papuga.Request.Context.Prioritize.{IsIn}
use papuga.Request.Context.Events.{
  ElementType, open_tag, close_tag, Processing, process_events, push_value_and_process, next_scope,
  entered, enter_root, process_open_tag, process_close_tag, left_scope, with_error, noted,
  is_string_kind,
}
use papuga.Request.Context.Scopes.{HasScope, CallScope}
use papuga.Request.Context.Runs.{failing}
use papuga.Request.Context.Drains.{Nests, process_events-Nests, push_value_and_process-Nests}
use papuga.Request.Context.Nesting.{
  IsNested, Records-IsNested, counted-IsNested, counted_later, entered-IsNested, left-IsNested,
}
use papuga.Request.Context.Feed.{new_context}
use papuga.Value.{Value, kind, Textwolf, Numbers}
use papuga.Value.Strings.{value_tostring_stl}

has_call :
    (mcs : List MethodCallNode) (s : Scope)
    → CallScope mcs s
    → (mc : MethodCallNode) × IsIn mc mcs × (mc.scope ≡ s)
has_call [] s h = elim h [ ]
has_call (mc ∷ mcs) s (inl e) = (mc, inl refl, e)
has_call (mc ∷ mcs) s (inr h) = let r = has_call mcs s h in (r.0, inr (r.1), r.2)

call_scope :
    (mcs : List MethodCallNode) (mc : MethodCallNode) (s : Scope)
    → IsIn mc mcs
    → mc.scope ≡ s
    → CallScope mcs s
call_scope [] mc s h e = elim h [ ]
call_scope (x ∷ xs) mc s (inl h) e = inl (ap (λ (y : MethodCallNode). y.scope) h ∙ e)
call_scope (x ∷ xs) mc s (inr h) e = inr (call_scope xs mc s h e)

-- The same calls.
abbrev pub KeepsCalls : (List MethodCallNode → List MethodCallNode) → Type 0
KeepsCalls sort =
    (mcs : List MethodCallNode) (mc : MethodCallNode) → IsIn mc (sort mcs) ↔ IsIn mc mcs

module _ (V : Type 0) where
  sorted_scope :
      (c : Context V) (sort : List MethodCallNode → List MethodCallNode) (s : Scope)
      → KeepsCalls sort
      → HasScope V (record c { methodcalls = sort c.methodcalls }) s
      → HasScope V c s
  sorted_scope c sort s k (inl h) = inl h
  sorted_scope c sort s k (inr h) =
      let r = has_call (sort c.methodcalls) s h in
      inr (call_scope c.methodcalls (r.0) s ((k c.methodcalls (r.0)).0 (r.1)) (r.2))

  pub sorted-IsNested :
      (c : Context V) (sort : List MethodCallNode → List MethodCallNode)
      → KeepsCalls sort
      → IsNested V c
      → IsNested V (record c { methodcalls = sort c.methodcalls })
  sorted-IsNested c sort k n = record {
    descending = n.descending;
    ended = λ s h. n.ended s (sorted_scope c sort s k h);
    nested = λ s t h g. n.nested s t (sorted_scope c sort s k h) (sorted_scope c sort t k g);
  }

  -- The count is above the ends of the scopes.
  record IsFresh (c : Context V) : Type 0 where
    is_nested : IsNested V c
    later : (s : Scope) → HasScope V c s → pos_part s.to < c.scopecnt

  counted-IsFresh :
      (c : Context V) → IsNested V c → IsFresh (record c { scopecnt = c.scopecnt + 1 })
  counted-IsFresh c n = record {
    is_nested = counted-IsNested V c n;
    later = λ s h. counted_later V c s n h;
  }

  pub new_context-IsNested : IsNested V new_context
  new_context-IsNested = record {
    descending = (omega arith, tt);
    ended = λ s h. elim h [ inl x ↦ elim x [ ] | inr x ↦ elim x [ ] ];
    nested = λ s t h g. elim h [ inl x ↦ elim x [ ] | inr x ↦ elim x [ ] ];
  }

module _ (tw : Textwolf) (nums : Numbers) (Atm : Type 0)
    (push_atm : Atm → ElementType → Text → List ℕ × Atm)
    (copy : Value nums.Float → Value nums.Float ⊎ ErrorCode) (has_room : Text → Bool)
    (svc : Services) (atm : Description svc) where
  abbrev Q : Type 0
  Q = Processing nums.Float Atm

  abbrev NestsQ : Option (Bool × Q) → Type 0
  NestsQ o = Nests tw nums Atm push_atm copy has_room svc atm o

  noted-IsFresh :
      (p : Q) (o : Option ErrorCode)
      → IsFresh (Value nums.Float) p.context
      → IsFresh (Value nums.Float) ((noted tw nums Atm push_atm copy has_room svc atm p o).context)
  noted-IsFresh p none f = f
  noted-IsFresh p (some code) f = record {
    is_nested =
        Records-IsNested (Value nums.Float) p.context (record p.context { errcode = code })
          (failing tw nums Atm push_atm copy has_room svc atm p code) f.is_nested;
    later = f.later;
  }

  entered-Nests :
      (p : Q) (v : Value nums.Float)
      → IsFresh (Value nums.Float) p.context
      → NestsQ (
          push_value_and_process tw nums Atm push_atm copy has_room svc atm
            (entered tw nums Atm push_atm copy has_room svc atm p)
            open_tag
            v)
  entered-Nests p v f =
      push_value_and_process-Nests tw nums Atm push_atm copy has_room svc atm
        (entered tw nums Atm push_atm copy has_room svc atm p) open_tag v
        (entered-IsNested (Value nums.Float) p.context f.later f.is_nested)

  Nests-if :
      (b : Bool) (x y : Option (Bool × Q)) → NestsQ x → NestsQ y → NestsQ (if b then x else y)
  Nests-if true x y n m = n
  Nests-if false x y n m = m

  blamed :
      (b : Bool) (p : Q) (code : ErrorCode)
      → IsNested (Value nums.Float) p.context
      → NestsQ (
          some
            (false, if b then with_error tw nums Atm push_atm copy has_room svc atm p code else p))
  blamed true p code n =
      Records-IsNested (Value nums.Float) p.context (record p.context { errcode = code })
        (failing tw nums Atm push_atm copy has_room svc atm p code) n
  blamed false p code n = n

  enter_root-Nests :
      (p : Q) (v : Value nums.Float) (r : Text × Option ErrorCode)
      → IsFresh (Value nums.Float) p.context
      → NestsQ (enter_root tw nums Atm push_atm copy has_room svc atm p v r)
  unfolding enter_root
  enter_root-Nests p v r f =
      let q = noted tw nums Atm push_atm copy has_room svc atm p r.1 in
      let g = noted-IsFresh p (r.1) f in
      Nests-if (length r.0 == 0) _ _ (blamed (is_ok q.context.errcode) q syntax_error g.is_nested)
        (entered-Nests (record q { rootelements = r.0 ∷ q.rootelements }) v g)

  pub process_open_tag-Nests :
      (p : Q) (v : Value nums.Float)
      → IsNested (Value nums.Float) p.context
      → NestsQ (process_open_tag tw nums Atm push_atm copy has_room svc atm p v)
  unfolding process_open_tag next_scope
  process_open_tag-Nests p v n =
      let f = counted-IsFresh (Value nums.Float) p.context n in
      let q = next_scope tw nums Atm push_atm copy has_room svc atm p in
      Nests-if
        (leb (length p.context.scopestack) 1
          && is_string_kind tw nums Atm push_atm copy has_room svc atm (kind v))
        _ _ (enter_root-Nests q v (value_tostring_stl tw nums v) f) (entered-Nests q v f)

  pub next_scope-IsNested :
      (p : Q)
      → IsNested (Value nums.Float) p.context
      → IsNested
          (Value nums.Float)
          ((next_scope tw nums Atm push_atm copy has_room svc atm p).context)
  unfolding next_scope
  next_scope-IsNested p n = counted-IsNested (Value nums.Float) p.context n

  left_scope-Nests :
      (p : Q) (st : List ℕ)
      → p.context.scopestack ≡ st
      → IsNested (Value nums.Float) p.context
      → NestsQ (left_scope tw nums Atm push_atm copy has_room svc atm st p)
  left_scope-Nests p [] e n = tt
  left_scope-Nests p (s ∷ ss) e n = left-IsNested (Value nums.Float) p.context s ss e n

  closed_tag :
      (o : Option (Bool × Q))
      → NestsQ o
      → NestsQ (elim o [
        | none ↦ none
        | some (false, q) ↦ some (false, q)
        | some (true, q) ↦
            left_scope tw nums Atm push_atm copy has_room svc atm q.context.scopestack q
      ])
  closed_tag none n = tt
  closed_tag (some (false, q)) n = n
  closed_tag (some (true, q)) n = left_scope-Nests q q.context.scopestack refl n

  pub process_close_tag-Nests :
      (p : Q)
      → IsNested (Value nums.Float) p.context
      → NestsQ (process_close_tag tw nums Atm push_atm copy has_room svc atm p)
  unfolding process_close_tag
  process_close_tag-Nests p n =
      let q = next_scope tw nums Atm push_atm copy has_room svc atm p in
      closed_tag
        (process_events tw nums Atm push_atm copy has_room svc atm q close_tag Value.void [])
        (process_events-Nests tw nums Atm push_atm copy has_room svc atm q close_tag Value.void []
          (next_scope-IsNested p n))
