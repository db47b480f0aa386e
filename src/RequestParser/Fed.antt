-- ===== src/RequestParser/Fed.antt =====
-- papuga_RequestParser_feed_request of src/requestParser.c gives a result for every document in which each
-- tag that closes is open.
use papuga.ErrorCode.{ErrorCode}
use papuga.Prelude.{
  ℕ, suc, zero, ◌<◌, ◌≡◌, ap, ◌∙◌, ◌⊎◌, Bool, true, false, ◌&&◌, Option, none, some, List, [], ◌∷◌,
  leb, ◌==◌, if◌then◌else◌, length, arith,
}
use papuga.Request.Description.Expression.{Text}
use papuga.Request.Description.State.{Services, Description}
use papuga.Request.Context.Events.{
  ElementType, open_tag, close_tag, Processing, push_value_and_process, next_scope, entered,
  enter_root, process_open_tag, process_close_tag, left_scope, noted, is_string_kind,
}
use papuga.Request.Context.InBounds.{IsReady, Stays}
use papuga.Request.Context.Ready.{
  GivesRefs, process_events-Stays, push_value_and_process-Stays, noted-IsReady, noted_stack,
  counted,
}
use papuga.RequestParser.Feeding.{
  Element, element_open, element_attribute_name, element_attribute_value, element_value,
  element_close,
}
use papuga.Value.{Value, kind, Textwolf, Numbers}
use papuga.Value.Strings.{value_tostring_stl}

-- With a number of open tags, each tag that closes is open.
abbrev pub Balanced : {V : Type 0} → ℕ → List (Element V) → Type 0
Balanced d [] = Unit
Balanced d (element_open v ∷ es) = Balanced (suc d) es
Balanced zero (element_close ∷ es) = ⊥
Balanced (suc d) (element_close ∷ es) = Balanced d es
Balanced d (element_attribute_name v ∷ es) = Balanced d es
Balanced d (element_attribute_value v ∷ es) = Balanced d es
Balanced d (element_value v ∷ es) = Balanced d es

module _ (tw : Textwolf) (nums : Numbers) (Atm : Type 0)
    (push_atm : Atm → ElementType → Text → List ℕ × Atm)
    (copy : Value nums.Float → Value nums.Float ⊎ ErrorCode) (has_room : Text → Bool)
    (svc : Services) (atm : Description svc) where
  abbrev Q : Type 0
  Q = Processing nums.Float Atm

  abbrev ReadyQ : Q → Type 0
  ReadyQ p = IsReady tw nums Atm push_atm copy has_room svc atm p

  -- A result, and where it is success a number of open tags.
  abbrev pub Deep : ℕ → Option (Bool × Q) → Type 0
  Deep n none = ⊥
  Deep n (some (false, q)) = Unit
  Deep n (some (true, q)) = ReadyQ q × (length q.context.scopestack ≡ n)

  pub Stays-Deep :
      (st : List ℕ) (n : ℕ) (o : Option (Bool × Q))
      → length st ≡ n
      → Stays tw nums Atm push_atm copy has_room svc atm st o
      → Deep n o
  Stays-Deep st n none e h = h
  Stays-Deep st n (some (false, q)) e h = tt
  Stays-Deep st n (some (true, q)) e h = (h.0, ap length h.1 ∙ e)

  Deep-if :
      (n : ℕ) (b : Bool) (x y : Option (Bool × Q))
      → Deep n x
      → Deep n y
      → Deep n (if b then x else y)
  Deep-if n true x y h g = h
  Deep-if n false x y h g = g

  entered-Deep :
      (p : Q) (v : Value nums.Float) (n : ℕ)
      → length p.context.scopestack ≡ n
      → GivesRefs tw nums Atm push_atm copy has_room svc atm
      → ReadyQ p
      → Deep (suc n) (
          push_value_and_process tw nums Atm push_atm copy has_room svc atm
            (entered tw nums Atm push_atm copy has_room svc atm p)
            open_tag
            v)
  entered-Deep p v n e g r =
      let q = entered tw nums Atm push_atm copy has_room svc atm p in
      Stays-Deep q.context.scopestack (suc n) _ (ap suc e) (
        push_value_and_process-Stays tw nums Atm push_atm copy has_room svc atm q open_tag v g
          (record { references = r.references; seven = r.seven; opened = omega arith }))

  enter_root-Deep :
      (p : Q) (v : Value nums.Float) (x : Text × Option ErrorCode) (n : ℕ)
      → length p.context.scopestack ≡ n
      → GivesRefs tw nums Atm push_atm copy has_room svc atm
      → ReadyQ p
      → Deep (suc n) (enter_root tw nums Atm push_atm copy has_room svc atm p v x)
  unfolding enter_root
  enter_root-Deep p v x n e g r =
      let q = noted tw nums Atm push_atm copy has_room svc atm p x.1 in
      let h = noted-IsReady tw nums Atm push_atm copy has_room svc atm p x.1 r in
      Deep-if (suc n) (length x.0 == 0) _ _ tt (
        entered-Deep (record q { rootelements = x.0 ∷ q.rootelements }) v n
          (ap length (noted_stack tw nums Atm push_atm copy has_room svc atm p x.1) ∙ e) g
          (record { references = h.references; seven = h.seven; opened = h.opened }))

  pub process_open_tag-Deep :
      (p : Q) (v : Value nums.Float) (n : ℕ)
      → length p.context.scopestack ≡ n
      → GivesRefs tw nums Atm push_atm copy has_room svc atm
      → ReadyQ p
      → Deep (suc n) (process_open_tag tw nums Atm push_atm copy has_room svc atm p v)
  unfolding process_open_tag next_scope
  process_open_tag-Deep p v n e g r =
      let q = next_scope tw nums Atm push_atm copy has_room svc atm p in
      let h = counted tw nums Atm push_atm copy has_room svc atm p r in
      Deep-if (suc n)
        (leb (length p.context.scopestack) 1
          && is_string_kind tw nums Atm push_atm copy has_room svc atm (kind v))
        _ _ (enter_root-Deep q v (value_tostring_stl tw nums v) n e g h) (entered-Deep q v n e g h)

  -- A tag is left, if it be that of the document.
  abbrev pub Left : ℕ → Option (Bool × Q) → Type 0
  Left n none = ⊥
  Left n (some (false, q)) = Unit
  Left n (some (true, q)) = 0 < n → ReadyQ q × (length q.context.scopestack ≡ n)

  left_scope-Left :
      (p : Q) (st : List ℕ) (n : ℕ)
      → length st ≡ suc n
      → ReadyQ p
      → Left n (left_scope tw nums Atm push_atm copy has_room svc atm st p)
  left_scope-Left p [] n e r = omega (arith, e)
  left_scope-Left p (s ∷ ss) n e r = λ h. (
    record { references = r.references; seven = r.seven; opened = omega arith },
    omega (arith, e),
  )

  closed_tag :
      (st : List ℕ) (n : ℕ) (o : Option (Bool × Q))
      → length st ≡ suc n
      → Stays tw nums Atm push_atm copy has_room svc atm st o
      → Left n (elim o [
        | none ↦ none
        | some (false, q) ↦ some (false, q)
        | some (true, q) ↦
            left_scope tw nums Atm push_atm copy has_room svc atm q.context.scopestack q
      ])
  closed_tag st n none e h = h
  closed_tag st n (some (false, q)) e h = tt
  closed_tag st n (some (true, q)) e h =
      left_scope-Left q q.context.scopestack n (ap length h.1 ∙ e) h.0

  pub process_close_tag-Left :
      (p : Q) (n : ℕ)
      → length p.context.scopestack ≡ suc n
      → GivesRefs tw nums Atm push_atm copy has_room svc atm
      → ReadyQ p
      → Left n (process_close_tag tw nums Atm push_atm copy has_room svc atm p)
  unfolding process_close_tag next_scope
  process_close_tag-Left p n e g r = closed_tag p.context.scopestack n _ e (
      process_events-Stays tw nums Atm push_atm copy has_room svc atm
        (next_scope tw nums Atm push_atm copy has_room svc atm p) close_tag Value.void [] g
        (counted tw nums Atm push_atm copy has_room svc atm p r))

  pub Left-Deep : (n : ℕ) (o : Option (Bool × Q)) → Left (suc n) o → Deep (suc n) o
  Left-Deep n none h = h
  Left-Deep n (some (false, q)) h = h
  Left-Deep n (some (true, q)) h = h (omega arith)
