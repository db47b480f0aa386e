-- ===== src/Request/Description/Selectors.antt =====
-- What the handling of selector expressions in src/request.cpp does: cut_trailing_slashes,
-- extractRootTagName and isValidRootTagSet.
use mathlib.Core.Path.{subst}
use mathlib.Core.List.{append-nil}
use native.Mathlib.Decide.{ℕ_discrete}
use Prim.Native.Nat.{min}
use papuga.Prelude.{
  ℕ, zero, suc, ◌-◌, ◌≤◌, ◌<◌, ◌≡◌, ◌≢◌, refl, ap, ◌↔◌, ◌⊎◌, inl, inr, Bool, true, false, some,
  List, [], ◌∷◌, ◌++◌, length, take, get_or, arith, Bool-cases, length-take, length-append, ◌∙◌,
}
use papuga.Request.Description.Expression.{
  Text, contains_char, trailing_slashes, cut_size, cut_trailing_slashes, until_slash, drop_tilde,
  root_tag_name, contains, text_eq, all_contained, is_empty, is_valid_root_tag_set,
}

-- The size reached: nothing behind it but the bytes to cut, and none of those at its end.
record IsCut (e : Text) (n k : ℕ) : Type 0 where
  below : k ≤ n
  cut : (i : ℕ) → k ≤ i → i < n → contains_char trailing_slashes (get_or e i 0) ≡ true
  kept : (j : ℕ) → suc j ≡ k → contains_char trailing_slashes (get_or e j 0) ≡ false

last_or_before :
    (e : Text) {k : ℕ} (i n : ℕ)
    → k ≤ i
    → i < suc n
    → contains_char trailing_slashes (get_or e n 0) ≡ true
    → ((j : ℕ) → k ≤ j → j < n → contains_char trailing_slashes (get_or e j 0) ≡ true)
    → contains_char trailing_slashes (get_or e i 0) ≡ true
last_or_before e i n p q h all = elim (ℕ_discrete i n) [
  | yes same ↦ rw same h
  | no other ↦ all i p (omega arith)
]

cut_size-IsCut : (e : Text) (n : ℕ) → IsCut e n (cut_size e n)
unfolding cut_size
cut_size-IsCut e zero = record {
  below = omega arith;
  cut = λ i p q. absurd (omega arith);
  kept = λ j q. absurd (omega arith);
}
cut_size-IsCut e (suc n) = elim (Bool-cases (contains_char trailing_slashes (get_or e n 0))) [
  | inl h ↦
      let ih = cut_size-IsCut e n in
      rw (h, cut_size)
        (record {
          below = omega (arith, ih.below);
          cut = λ i p q. last_or_before e i n p q h ih.cut;
          kept = ih.kept;
        })
  | inr h ↦
      rw (h, cut_size)
        (record {
          below = omega arith;
          cut = λ i p q. absurd (omega arith);
          kept = λ j q. let same : j ≡ n = omega arith in rw same h;
        })
]

get_or-take : (k i : ℕ) (e : Text) → i < k → get_or (take k e) i 0 ≡ get_or e i 0
get_or-take zero i e h = absurd (omega arith)
get_or-take (suc k) i [] h = refl
get_or-take (suc k) zero (x ∷ e) h = refl
get_or-take (suc k) (suc i) (x ∷ e) h = get_or-take k i e (omega arith)

-- Membership in a set of texts.
abbrev pub IsIn : Text → List Text → Type 0
IsIn t [] = ⊥
IsIn t (s ∷ ss) = (s ≡ t) ⊎ IsIn t ss

pub text_eq_iff : (s t : Text) → (text_eq s t ≡ true) ↔ (s ≡ t)
unfolding text_eq
text_eq_iff [] [] = ground arith
text_eq_iff [] (d ∷ ds) = ground arith
text_eq_iff (c ∷ cs) [] = ground arith
text_eq_iff (c ∷ cs) (d ∷ ds) = ground (arith, text_eq_iff cs ds)

contains_iff : (ss : List Text) (t : Text) → (contains ss t ≡ true) ↔ IsIn t ss
unfolding contains
contains_iff [] t = ground arith
contains_iff (s ∷ ss) t = ground (arith, text_eq_iff s t, contains_iff ss t)

all_contained_iff :
    (accepted tags : List Text)
    → (all_contained accepted tags ≡ true) ↔ ((t : Text) → IsIn t tags → IsIn t accepted)
unfolding all_contained
all_contained_iff accepted [] = (λ h t q. elim q [ ], λ h. refl)
all_contained_iff accepted (s ∷ ts) = elim (Bool-cases (contains accepted s)) [
  | inl c ↦
      rw (c, all_contained)
        (
          λ h t q. elim q [
            | inl e ↦ subst (λ (x : Text). IsIn x accepted) e ((contains_iff accepted s).0 c)
            | inr r ↦ (all_contained_iff accepted ts).0 h t r
          ],
          λ h. (all_contained_iff accepted ts).1 (λ t q. h t (inr q)),
        )
  | inr c ↦
      rw (c, all_contained)
        (
          λ h t q. ground arith,
          λ h. ground (arith, c, (contains_iff accepted s).1 (h s (inl refl))),
        )
]

-- cut_trailing_slashes gives a prefix: the bytes behind it are all slashes, parentheses or tildes, and
-- it does not end with one of these.
pub cut_trailing_slashes-IsCut :
    (e : Text)
    → (n : ℕ) × (cut_trailing_slashes e ≡ take n e)
      × (n ≤ length e)
      × ((i : ℕ) → n ≤ i → i < length e → contains_char trailing_slashes (get_or e i 0) ≡ true)
      × ((j : ℕ) → suc j ≡ n → contains_char trailing_slashes (get_or e j 0) ≡ false)
unfolding cut_trailing_slashes
cut_trailing_slashes-IsCut e =
    let c = cut_size-IsCut e (length e) in (cut_size e (length e), refl, c.below, c.cut, c.kept)

cut_size_again :
    (e : Text) (k : ℕ)
    → ((j : ℕ) → suc j ≡ k → contains_char trailing_slashes (get_or e j 0) ≡ false)
    → cut_size (take k e) k ≡ k
unfolding cut_size
cut_size_again e zero h = refl
cut_size_again e (suc k) h = rw (get_or-take (suc k) k e (omega arith), h k refl) refl

take_again : (k : ℕ) (e : Text) → take k (take k e) ≡ take k e
take_again zero e = refl
take_again (suc k) [] = refl
take_again (suc k) (x ∷ e) = ap (λ (r : Text). x ∷ r) (take_again k e)

min_below : (k n : ℕ) → k ≤ n → min k n ≡ k
min_below k n h = omega arith

-- Cutting the slashes of an expression that has been cut changes nothing.
pub cut_trailing_slashes_idem :
    (e : Text) → cut_trailing_slashes (cut_trailing_slashes e) ≡ cut_trailing_slashes e
unfolding cut_trailing_slashes
cut_trailing_slashes_idem e =
    let c = cut_size-IsCut e (length e) in
    rw (length-take (cut_size e (length e)) e, min_below _ _ c.below)
      (ap (λ (n : ℕ). take n (take (cut_size e (length e)) e)) (cut_size_again e _ c.kept)
        ∙ take_again (cut_size e (length e)) e)

-- The set of root tags is valid if the automaton is not strict, or if each tag is accepted and there
-- is a tag unless no tag at all is accepted; and in no other case.
pub is_valid_root_tag_set_iff :
    (strict : Bool) (accepted tags : List Text)
    → (is_valid_root_tag_set strict accepted tags ≡ true) ↔ (
        (strict ≡ false)
        ⊎ (((t : Text) → IsIn t tags → IsIn t accepted) × ((tags ≢ []) ⊎ (accepted ≡ []))))
unfolding is_valid_root_tag_set is_empty all_contained
is_valid_root_tag_set_iff false accepted tags = ground arith
is_valid_root_tag_set_iff true [] [] = (λ h. inr (λ t q. elim q [ ], inr refl), λ h. refl)
is_valid_root_tag_set_iff true (a ∷ accepted) [] = (λ h. ground arith, λ h. ground arith)
is_valid_root_tag_set_iff true accepted (t ∷ ts) =
    let c = all_contained_iff accepted (t ∷ ts) in
    (
      λ h. inr (c.0 h, inl (λ e. ground arith)),
      λ h. elim h [ inl q ↦ ground arith | inr r ↦ c.1 r.0 ],
    )

-- Bytes that a root tag's name may hold.
abbrev pub AllName : Text → Type 0
AllName [] = Unit
AllName (c ∷ cs) = (c ≢ b'/') × (c ≢ b'~') × AllName cs

until_slash-append :
    (tag rest : Text) → AllName tag → until_slash (tag ++ rest) ≡ tag ++ until_slash rest
unfolding until_slash
until_slash-append [] rest h = refl
until_slash-append (c ∷ cs) rest (h, k, r) = ground (arith, until_slash-append cs rest r)

last_name : (c : ℕ) (cs : Text) → AllName (c ∷ cs) → get_or (c ∷ cs) (length cs) 0 ≢ b'~'
last_name c [] (h, k, r) = k
last_name c (d ∷ ds) (h, k, r) = last_name d ds r

last-append : (tag : Text) (c : ℕ) → get_or (tag ++ (c ∷ [])) (length tag) 0 ≡ c
last-append [] c = refl
last-append (t ∷ tag) c = last-append tag c

take-append : (tag rest : Text) → take (length tag) (tag ++ rest) ≡ tag
take-append [] rest = refl
take-append (t ∷ tag) rest = ap (λ (r : Text). t ∷ r) (take-append tag rest)

drop_tilde-name : (c : ℕ) (cs : Text) → AllName (c ∷ cs) → drop_tilde (c ∷ cs) ≡ c ∷ cs
unfolding drop_tilde
drop_tilde-name c cs h =
    let same : length (c ∷ cs) - 1 ≡ length cs = omega arith in
    rw same (ground (arith, last_name c cs h))

drop_tilde-append : (tag : Text) → drop_tilde (tag ++ (b'~' ∷ [])) ≡ tag
unfolding drop_tilde
drop_tilde-append tag =
    let same : length (tag ++ (b'~' ∷ [])) - 1 ≡ length tag =
      omega (arith, length-append {0} tag (b'~' ∷ [])) in
    rw (same, last-append tag b'~') (take-append tag (b'~' ∷ []))

drop_tilde-until_slash :
    (c : ℕ) (cs rest : Text)
    → AllName (c ∷ cs)
    → (until_slash rest ≡ []) ⊎ (until_slash rest ≡ b'~' ∷ [])
    → drop_tilde (until_slash ((c ∷ cs) ++ rest)) ≡ c ∷ cs
drop_tilde-until_slash c cs rest h e = rw (until_slash-append (c ∷ cs) rest h) (elim e [
  | inl q ↦ rw (q, append-nil (c ∷ cs)) (drop_tilde-name c cs h)
  | inr q ↦ rw q (drop_tilde-append (c ∷ cs))
])

-- The root tag that an expression accepts is the name between its first slash and the next slash or
-- the end, without one tilde behind it. The name is not empty and has no slash and no tilde.
pub root_tag_name-append :
    (c : ℕ) (cs rest : Text)
    → AllName (c ∷ cs)
    → (until_slash rest ≡ []) ⊎ (until_slash rest ≡ b'~' ∷ [])
    → root_tag_name (b'/' ∷ (c ∷ cs) ++ rest) ≡ some (c ∷ cs)
unfolding root_tag_name
root_tag_name-append c cs rest h e = ground (arith, h.0, drop_tilde-until_slash c cs rest h e)
