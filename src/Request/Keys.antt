-- ===== src/Request/Keys.antt =====
-- Scopes (src/request_utils.hpp) and the keys of src/request.cpp that order scopes and method calls.
use papuga.Prelude.{ℕ, ◌+◌, ◌<◌, ◌≡◌, ◌⊎◌, Bool, true, false, ◌&&◌, not, ltb, if◌then◌else◌, arith}
use papuga.Prelude.Int.{ℤ, pos, negsuc, pos_part, neg_part, ◌+ℤ◌, ◌≤ℤ◌, ltb_ℤ}

abbrev leb_ℤ : ℤ → ℤ → Bool
leb_ℤ a b = not (ltb_ℤ b a)

abbrev pub eqb_ℤ : ℤ → ℤ → Bool
eqb_ℤ a b = leb_ℤ a b && leb_ℤ b a

-- `std::numeric_limits<int>::max()`
abbrev pub int_max : ℤ
int_max = pos 0x7fff_ffff

pub record Scope : Type 0 where
  pub from : ℤ
  pub to : ℤ

unfoldable pub no_scope : Scope
no_scope = record { from = negsuc 0; to = negsuc 0 }

unfoldable pub defined : Scope → Bool
defined s = leb_ℤ (pos 0) s.from

unfoldable pub inside : Scope → Scope → Bool
inside s o = leb_ℤ o.from s.from && leb_ℤ s.to o.to

unfoldable pub covers : Scope → Scope → Bool
covers s o = leb_ℤ s.from o.from && leb_ℤ o.to s.to

unfoldable pub inner : Scope → Scope
inner s = record { from = s.from +ℤ pos 1; to = s.to }

-- The order of the enumeration's constructors is a priority.
pub data ScopeKeyType : Type 0 where
  search_scope value_scope object_scope : ScopeKeyType

abbrev pub prio : ScopeKeyType → ℕ
prio search_scope = 0
prio value_scope = 1
prio object_scope = 2

pub record ScopeKey : Type 0 where
  pub scope : Scope
  pub key_type : ScopeKeyType

unfoldable pub search : ℤ → ScopeKey
search from = record { scope = record { from = from; to = int_max }; key_type = search_scope }

-- `operator<`: a scope that begins earlier, then one that ends later, then the kind.
unfoldable pub scope_key_lt : ScopeKey → ScopeKey → Bool
scope_key_lt k o =
    if eqb_ℤ k.scope.from o.scope.from
    then if eqb_ℤ k.scope.to o.scope.to
      then ltb (prio k.key_type) (prio o.key_type)
      else ltb_ℤ o.scope.to k.scope.to
    else ltb_ℤ k.scope.from o.scope.from

pub record MethodCallKey : Type 0 where
  pub group : ℤ
  pub scope_from : ℤ
  pub elemidx : ℤ

-- `compare`
unfoldable pub compare_keys : MethodCallKey → MethodCallKey → ℤ
compare_keys k o =
    if not (eqb_ℤ k.group o.group)
    then if ltb_ℤ k.group o.group then negsuc 0 else pos 1
    else if not (eqb_ℤ k.scope_from o.scope_from)
    then if ltb_ℤ k.scope_from o.scope_from then negsuc 0 else pos 1
    else if not (eqb_ℤ k.elemidx o.elemidx)
    then if ltb_ℤ k.elemidx o.elemidx then negsuc 0 else pos 1
    else pos 0

unfoldable pub call_key_lt : MethodCallKey → MethodCallKey → Bool
call_key_lt k o = ltb_ℤ (compare_keys k o) (pos 0)

-- A test that sorts and searches may use: never true of one key, transitive, and deciding between
-- any two keys that differ.
abbrev pub IsStrictTotal : {A : Type 0} → (A → A → Bool) → Type 0
IsStrictTotal {A} lt =
    ((a : A) → lt a a ≡ false)
    × ((a b c : A) → lt a b ≡ true → lt b c ≡ true → lt a c ≡ true)
    × ((a b : A) → (lt a b ≡ true) ⊎ (a ≡ b) ⊎ (lt b a ≡ true))

-- The orders as propositions about the parts of integers.
infix 50 ◌≪◌ ◌≈◌
abbrev ◌≪◌ : ℤ → ℤ → Type 0
a ≪ b = pos_part a + neg_part b < pos_part b + neg_part a

abbrev ◌≈◌ : ℤ → ℤ → Type 0
a ≈ b = pos_part a + neg_part b ≡ pos_part b + neg_part a

abbrev BeforeScope : ScopeKey → ScopeKey → Type 0
BeforeScope k o =
    (k.scope.from ≪ o.scope.from)
    ⊎ (k.scope.from ≈ o.scope.from)
      × ((o.scope.to ≪ k.scope.to)
          ⊎ (k.scope.to ≈ o.scope.to) × (prio k.key_type < prio o.key_type))

abbrev BeforeCall : MethodCallKey → MethodCallKey → Type 0
BeforeCall k o =
    (k.group ≪ o.group)
    ⊎ (k.group ≈ o.group)
      × ((k.scope_from ≪ o.scope_from) ⊎ (k.scope_from ≈ o.scope_from) × (k.elemidx ≪ o.elemidx))

scope_key_lt-BeforeScope : (a b : ScopeKey) → scope_key_lt a b ≡ true → BeforeScope a b
unfolding scope_key_lt
scope_key_lt-BeforeScope a b h = ground arith

BeforeScope-scope_key_lt : (a b : ScopeKey) → BeforeScope a b → scope_key_lt a b ≡ true
unfolding scope_key_lt
BeforeScope-scope_key_lt a b h = ground arith

BeforeScope-trans : (a b c : ScopeKey) → BeforeScope a b → BeforeScope b c → BeforeScope a c
BeforeScope-trans a b c h k = omega arith

call_key_lt-BeforeCall : (a b : MethodCallKey) → call_key_lt a b ≡ true → BeforeCall a b
unfolding call_key_lt compare_keys
call_key_lt-BeforeCall a b h = ground arith

BeforeCall-call_key_lt : (a b : MethodCallKey) → BeforeCall a b → call_key_lt a b ≡ true
unfolding call_key_lt compare_keys
BeforeCall-call_key_lt a b h = ground arith

BeforeCall-trans : (a b c : MethodCallKey) → BeforeCall a b → BeforeCall b c → BeforeCall a c
BeforeCall-trans a b c h k = omega arith

scope_key_lt_trans :
    (a b c : ScopeKey) → scope_key_lt a b ≡ true → scope_key_lt b c ≡ true → scope_key_lt a c ≡ true
scope_key_lt_trans a b c h k =
    BeforeScope-scope_key_lt a c
      (BeforeScope-trans a b c (scope_key_lt-BeforeScope a b h) (scope_key_lt-BeforeScope b c k))

scope_key_lt_total :
    (a b : ScopeKey) → (scope_key_lt a b ≡ true) ⊎ (a ≡ b) ⊎ (scope_key_lt b a ≡ true)
unfolding scope_key_lt
scope_key_lt_total a b = ground arith

-- The order of the keys of a scope map is a strict total order.
pub scope_key_lt-IsStrictTotal : IsStrictTotal scope_key_lt
unfolding scope_key_lt
scope_key_lt-IsStrictTotal = (λ a. ground arith, scope_key_lt_trans, scope_key_lt_total)

call_key_lt_trans :
    (a b c : MethodCallKey)
    → call_key_lt a b ≡ true
    → call_key_lt b c ≡ true
    → call_key_lt a c ≡ true
call_key_lt_trans a b c h k =
    BeforeCall-call_key_lt a c
      (BeforeCall-trans a b c (call_key_lt-BeforeCall a b h) (call_key_lt-BeforeCall b c k))

call_key_lt_total :
    (a b : MethodCallKey) → (call_key_lt a b ≡ true) ⊎ (a ≡ b) ⊎ (call_key_lt b a ≡ true)
unfolding call_key_lt compare_keys
call_key_lt_total a b = ground arith

-- The order of the keys of method calls is a strict total order.
pub call_key_lt-IsStrictTotal : IsStrictTotal call_key_lt
unfolding call_key_lt compare_keys
call_key_lt-IsStrictTotal = (λ a. ground arith, call_key_lt_trans, call_key_lt_total)

-- The key of a search comes after exactly the keys of the scopes that begin earlier, where scopes end
-- at an `int`: a lower bound for it is the first scope that begins there or later.
pub scope_key_lt-search :
    (k : ScopeKey) (from : ℤ)
    → k.scope.to ≤ℤ int_max
    → scope_key_lt k (search from) ≡ ltb_ℤ k.scope.from from
unfolding scope_key_lt search
scope_key_lt-search k from h = ground arith

-- A scope that another one covers comes after it in a map's order, or is the same scope.
pub covers-scope_key_lt :
    (k o : ScopeKey)
    → covers k.scope o.scope ≡ true
    → (scope_key_lt k o ≡ true) ⊎ (k.scope ≡ o.scope)
unfolding covers scope_key_lt
covers-scope_key_lt k o h = ground arith
