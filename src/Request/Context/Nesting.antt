-- ===== src/Request/Context/Nesting.antt =====
-- The scopes that AutomatonContext of src/request.cpp records are nested or apart.
use mathlib.Core.Path.{subst}
use papuga.Prelude.{ℕ, ◌+◌, ◌≤◌, ◌<◌, ◌≡◌, sym, ◌∙◌, ◌⊎◌, inl, inr, List, [], ◌∷◌, arith}
use papuga.Prelude.Int.{ℤ, pos, negsuc, pos_part, neg_part, ◌≤ℤ◌}
use papuga.Request.Keys.{Scope}
use papuga.Request.Context.{Context, scope_start, curscope}
use papuga.Request.Context.Scopes.{HasScope, Records}

-- The first scope lies in the second.
abbrev pub Inside : Scope → Scope → Type 0
Inside s t = (t.from ≤ℤ s.from) × (s.to ≤ℤ t.to)

-- The first scope ends before the second begins.
abbrev pub EndsBefore : Scope → Scope → Type 0
EndsBefore s t = pos_part s.to + neg_part t.from < pos_part t.from + neg_part s.to

-- One lies in the other, or they have nothing in common.
abbrev pub NestedOrApart : Scope → Scope → Type 0
NestedOrApart s t = (Inside s t ⊎ Inside t s) ⊎ (EndsBefore s t ⊎ EndsBefore t s)

-- The tags that are open began in the order of the stack, and none after the count.
abbrev pub Descending : ℕ → List ℕ → Type 0
Descending cnt [] = Unit
Descending cnt (x ∷ xs) = (x ≤ cnt) × Descending x xs

-- A scope has ended, and it began in each of the open tags or ended before them.
abbrev pub BesideTags : Scope → List ℕ → Type 0
BesideTags s [] = Unit
BesideTags s (x ∷ xs) = ((pos x ≤ℤ s.from) ⊎ (pos_part s.to < x)) × BesideTags s xs

abbrev pub HasEnded : ℕ → Scope → Type 0
HasEnded cnt s = (pos 0 ≤ℤ s.from) × (s.to ≤ℤ pos cnt)

module _ (V : Type 0) where
  pub record IsNested (c : Context V) : Type 0 where
    pub descending : Descending c.scopecnt c.scopestack
    pub ended : (s : Scope) → HasScope V c s → HasEnded c.scopecnt s × BesideTags s c.scopestack
    pub nested : (s t : Scope) → HasScope V c s → HasScope V c t → NestedOrApart s t

-- `curscope`, of a stack and a count.
abbrev current : List ℕ → ℕ → Scope
current xs cnt = record { from = pos (scope_start xs); to = pos cnt }

below_top : (x : ℕ) (xs : List ℕ) (s : Scope) → Descending x xs → pos x ≤ℤ s.from → BesideTags s xs
below_top x [] s d le = tt
below_top x (y ∷ ys) s d le = (inl (omega arith), below_top y ys s d.1 (omega arith))

current_beside : (cnt : ℕ) (xs : List ℕ) → Descending cnt xs → BesideTags (current xs cnt) xs
unfolding scope_start
current_beside cnt [] d = tt
current_beside cnt (x ∷ xs) d =
    (inl (omega arith), below_top x xs (current (x ∷ xs) cnt) d.1 (omega arith))

current_ended : (cnt : ℕ) (xs : List ℕ) → HasEnded cnt (current xs cnt)
current_ended cnt xs = (omega arith, omega arith)

-- The current scope is nested with every scope that is beside the open tags.
nested_current :
    (cnt : ℕ) (xs : List ℕ) (s : Scope)
    → HasEnded cnt s
    → BesideTags s xs
    → NestedOrApart s (current xs cnt)
unfolding scope_start
nested_current cnt [] s e b = inl (inl (omega arith, omega arith))
nested_current cnt (x ∷ xs) s e b = elim (b.0) [
  | inl le ↦ inl (inl (omega arith, omega arith))
  | inr lt ↦ inr (inl (omega arith))
]

to_below : (k : ℤ) (cnt : ℕ) → k ≤ℤ pos cnt → pos_part k < cnt + 1
to_below (pos n) cnt le = omega arith
to_below (negsuc n) cnt le = omega arith

outer_tags : (cnt x : ℕ) (xs : List ℕ) → Descending cnt (x ∷ xs) → Descending cnt xs
outer_tags cnt x [] d = tt
outer_tags cnt x (y ∷ ys) d = (omega arith, d.1.1)

NestedOrApart-sym : (s t : Scope) → NestedOrApart s t → NestedOrApart t s
NestedOrApart-sym s t (inl (inl h)) = inl (inr h)
NestedOrApart-sym s t (inl (inr h)) = inl (inl h)
NestedOrApart-sym s t (inr (inl h)) = inr (inr h)
NestedOrApart-sym s t (inr (inr h)) = inr (inl h)

NestedOrApart-refl : (s : Scope) → NestedOrApart s s
NestedOrApart-refl s = inl (inl (omega arith, omega arith))

module _ (V : Type 0) where
  -- A statement of the open tags and the count, behind an event.
  moved :
      (P : ℕ → List ℕ → Type 0) (c d : Context V)
      → d.scopestack ≡ c.scopestack
      → d.scopecnt ≡ c.scopecnt
      → P c.scopecnt c.scopestack
      → P d.scopecnt d.scopestack
  moved P c d e f h =
      subst (λ (k : ℕ). P k d.scopestack) (sym f)
        (subst (λ (st : List ℕ). P c.scopecnt st) (sym e) h)

  old_or_current :
      (c : Context V) (s : Scope)
      → IsNested V c
      → HasScope V c s ⊎ (curscope V c ≡ s)
      → HasEnded c.scopecnt s × BesideTags s c.scopestack
  unfolding curscope
  old_or_current c s n (inl old) = n.ended s old
  old_or_current c s n (inr now) =
      subst (λ (t : Scope). HasEnded c.scopecnt t × BesideTags t c.scopestack) now
        (current_ended c.scopecnt c.scopestack, current_beside c.scopecnt c.scopestack n.descending)

  both :
      (c : Context V) (s t : Scope)
      → IsNested V c
      → HasScope V c s ⊎ (curscope V c ≡ s)
      → HasScope V c t ⊎ (curscope V c ≡ t)
      → NestedOrApart s t
  unfolding curscope
  both c s t n (inl x) (inl y) = n.nested s t x y
  both c s t n (inl x) (inr y) =
      let e = n.ended s x in
      subst (λ (u : Scope). NestedOrApart s u) y (nested_current c.scopecnt c.scopestack s e.0 e.1)
  both c s t n (inr x) (inl y) =
      let e = n.ended t y in
      subst (λ (u : Scope). NestedOrApart u t) x
        (NestedOrApart-sym t (current c.scopestack c.scopecnt)
          (nested_current c.scopecnt c.scopestack t e.0 e.1))
  both c s t n (inr x) (inr y) =
      subst (λ (u : Scope). NestedOrApart s u) (sym x ∙ y) (NestedOrApart-refl s)

  -- Events keep the scopes nested.
  pub Records-IsNested : (c d : Context V) → Records V c d → IsNested V c → IsNested V d
  Records-IsNested c d r n = record {
    descending = moved (λ k st. Descending k st) c d r.same_stack r.same_count n.descending;
    ended = λ s h.
        moved (λ k st. HasEnded k s × BesideTags s st) c d r.same_stack r.same_count
          (old_or_current c s n (r.recorded s h));
    nested = λ s t h g. both c s t n (r.recorded s h) (r.recorded t g);
  }

  -- The next scope begins behind all others.
  count_up : (cnt : ℕ) (xs : List ℕ) → Descending cnt xs → Descending (cnt + 1) xs
  count_up cnt [] d = tt
  count_up cnt (x ∷ xs) d = (omega arith, d.1)

  pub counted-IsNested :
      (c : Context V) → IsNested V c → IsNested V (record c { scopecnt = c.scopecnt + 1 })
  counted-IsNested c n = record {
    descending = count_up c.scopecnt c.scopestack n.descending;
    ended = λ s h. let e = n.ended s h in ((e.0.0, omega arith), e.1);
    nested = n.nested;
  }

  pub counted_later :
      (c : Context V) (s : Scope) → IsNested V c → HasScope V c s → pos_part s.to < c.scopecnt + 1
  counted_later c s n h = to_below s.to c.scopecnt ((n.ended s h).0.1)

  pub entered-IsNested :
      (c : Context V)
      → ((s : Scope) → HasScope V c s → pos_part s.to < c.scopecnt)
      → IsNested V c
      → IsNested V (record c { scopestack = c.scopecnt ∷ c.scopestack })
  entered-IsNested c new n = record {
    descending = (omega arith, n.descending);
    ended = λ s h. let e = n.ended s h in (e.0, (inr (new s h), e.1));
    nested = n.nested;
  }

  pub left-IsNested :
      (c : Context V) (x : ℕ) (xs : List ℕ)
      → c.scopestack ≡ x ∷ xs
      → IsNested V c
      → IsNested V (record c { scopestack = xs })
  left-IsNested c x xs e n = record {
    descending =
        outer_tags c.scopecnt x xs
          (subst (λ (st : List ℕ). Descending c.scopecnt st) e n.descending);
    ended = λ s h. let b = n.ended s h in (b.0, (subst (λ (st : List ℕ). BesideTags s st) e b.1).1);
    nested = n.nested;
  }
