-- ===== src/Request/Description/Groups.antt =====
-- The groups of calls of AutomatonDescription in src/request.cpp: openGroup, addCall and done().
use papuga.Prelude.{
  ℕ, suc, ◌≤◌, ◌<◌, ◌≡◌, refl, ap, if◌then◌else◌, ◌⊎◌, inl, inr, true, false, some, List, [], ◌∷◌,
  ◌++◌, length, length-append, arith, Bool-cases,
}
use papuga.Prelude.Int.{ℤ, pos, negsuc, ◌≤ℤ◌, ltb_ℤ, ◌+ℤ◌}
use papuga.Request.Description.State.{CallDef, max_nof_call_defs}
use papuga.Request.Description.Calls.{
  virtual_group_id, is_virtual_group_id, assign, find, rewrite_groups, eqb_ℤ,
}

-- The group of a call is a call's index, or a virtual number that the map knows; the map's values
-- are at most the number `n` of calls.
abbrev pub KnowsUpTo : ℕ → List (ℤ × ℕ) → Type 0
KnowsUpTo n [] = Unit
KnowsUpTo n ((k, v) ∷ m) = (v ≤ n) × KnowsUpTo n m

abbrev pub IsGroup : ℕ → List (ℤ × ℕ) → ℤ → Type 0
IsGroup n m g =
    ((is_virtual_group_id g ≡ false) × (pos 0 ≤ℤ g) × (g ≤ℤ pos n))
    ⊎ ((is_virtual_group_id g ≡ true) × ((v : ℕ) × (find g m ≡ some v)))

abbrev pub AllGroups : ℕ → List (ℤ × ℕ) → List CallDef → Type 0
AllGroups n m [] = Unit
AllGroups n m (c ∷ cs) = IsGroup n m c.groupid × AllGroups n m cs

-- Every group is the index of a call, or one behind the last one.
abbrev pub AllIndices : ℕ → List CallDef → Type 0
AllIndices n [] = Unit
AllIndices n (c ∷ cs) =
    (is_virtual_group_id c.groupid ≡ false)
    × (pos 0 ≤ℤ c.groupid)
    × (c.groupid ≤ℤ pos n)
    × AllIndices n cs

find-le : (n : ℕ) (m : List (ℤ × ℕ)) (g : ℤ) (v : ℕ) → KnowsUpTo n m → find g m ≡ some v → v ≤ n
unfolding find
find-le n [] g v h e = ground arith
find-le n ((k, w) ∷ m) g v (p, r) e = ground (arith, find-le n m g v r)

find-assign :
    (g k : ℤ) (v : ℕ) (m : List (ℤ × ℕ))
    → find g (assign k v m) ≡ (if eqb_ℤ k g then some v else find g m)
unfolding find assign
find-assign g k v [] = refl
find-assign g k v ((j, w) ∷ m) = ground (arith, find-assign g k v m)

find-assign_self : (k : ℤ) (v : ℕ) (m : List (ℤ × ℕ)) → find k (assign k v m) ≡ some v
unfolding find assign
find-assign_self k v [] = ground arith
find-assign_self k v ((j, w) ∷ m) = ground (arith, find-assign_self k v m)

find-assign_known :
    (g k : ℤ) (v w : ℕ) (m : List (ℤ × ℕ))
    → find g m ≡ some w
    → (u : ℕ) × (find g (assign k v m) ≡ some u)
find-assign_known g k v w m h = elim (Bool-cases (eqb_ℤ k g)) [
  | inl e ↦ (v, ground (arith, find-assign g k v m))
  | inr e ↦ (w, ground (arith, find-assign g k v m))
]

assign-KnowsUpTo :
    (n : ℕ) (k : ℤ) (v : ℕ) (m : List (ℤ × ℕ)) → KnowsUpTo n m → v ≤ n → KnowsUpTo n (assign k v m)
unfolding assign
assign-KnowsUpTo n k v [] h p = (p, tt)
assign-KnowsUpTo n k v ((j, w) ∷ m) (q, r) p = ground (arith, assign-KnowsUpTo n k v m r p)

KnowsUpTo-mono : (n : ℕ) (m : List (ℤ × ℕ)) → KnowsUpTo n m → KnowsUpTo (suc n) m
KnowsUpTo-mono n [] h = tt
KnowsUpTo-mono n ((k, v) ∷ m) (p, r) = (omega arith, KnowsUpTo-mono n m r)

-- The loop of done() succeeds and leaves indices only.
pub rewrite_groups-AllIndices :
    (n : ℕ) (m : List (ℤ × ℕ)) (cs : List CallDef)
    → n ≤ max_nof_call_defs
    → KnowsUpTo n m
    → AllGroups n m cs
    → ((rewrite_groups m cs).0 ≡ true)
      × AllIndices n (rewrite_groups m cs).1
      × (length (rewrite_groups m cs).1 ≡ length cs)
unfolding rewrite_groups
rewrite_groups-AllIndices n m [] b k h = (refl, tt, refl)
rewrite_groups-AllIndices n m (c ∷ cs) b k (g, r) =
    let ih = rewrite_groups-AllIndices n m cs b k r in
    elim g [
      | inl (e, p, q) ↦ rw (e, rewrite_groups) (ih.0, (e, p, q, ih.1), ap suc ih.2)
      | inr (e, (v, f)) ↦
          let v_le = find-le n m c.groupid v k f in
          rw (e, f, rewrite_groups)
            (ih.0, (ground arith, ground arith, ground arith, ih.1), ap suc ih.2)
    ]

AllGroups-assign :
    (n : ℕ) (k : ℤ) (v : ℕ) (m : List (ℤ × ℕ)) (cs : List CallDef)
    → AllGroups n m cs
    → AllGroups n (assign k v m) cs
AllGroups-assign n k v m [] h = tt
AllGroups-assign n k v m (c ∷ cs) (inl g, r) = (inl g, AllGroups-assign n k v m cs r)
AllGroups-assign n k v m (c ∷ cs) (inr (e, (w, f)), r) =
    (inr (e, find-assign_known c.groupid k v w m f), AllGroups-assign n k v m cs r)

AllGroups-push :
    (n : ℕ) (m : List (ℤ × ℕ)) (cs : List CallDef) (c : CallDef)
    → AllGroups n m cs
    → IsGroup (suc n) m c.groupid
    → AllGroups (suc n) m (cs ++ (c ∷ []))
AllGroups-push n m [] c h g = (g, tt)
AllGroups-push n m (x ∷ cs) c (inl (e, p, q), r) g =
    (inl (e, p, omega arith), AllGroups-push n m cs c r g)
AllGroups-push n m (x ∷ cs) c (inr k, r) g = (inr k, AllGroups-push n m cs c r g)

-- What the operations keep of calls and groups until done() is called.
pub record GroupsOk (cs : List CallDef) (m : List (ℤ × ℕ)) (groupid : ℤ) : Type 0 where
  pub few : length cs ≤ max_nof_call_defs
  pub known : KnowsUpTo (length cs) m
  pub groups : AllGroups (length cs) m cs
  pub current :
      (ltb_ℤ groupid (pos 0) ≡ true)
      ⊎ (is_virtual_group_id groupid ≡ true) × ((v : ℕ) × (find groupid m ≡ some v))

-- A new description has no groups; opening a group of a number that is at least 0, closing one, and
-- adding a call keep the invariant, and done() then succeeds.
pub init-GroupsOk : GroupsOk [] [] (negsuc 0)
init-GroupsOk = record { few = omega arith; known = tt; groups = tt; current = inl refl }

virtual-is_virtual : (g : ℤ) → pos 0 ≤ℤ g → is_virtual_group_id (virtual_group_id g) ≡ true
unfolding ◌+ℤ◌
virtual-is_virtual g p = ground arith

pub open-GroupsOk :
    (cs : List CallDef) (m : List (ℤ × ℕ)) (g g' : ℤ)
    → GroupsOk cs m g
    → pos 0 ≤ℤ g'
    → GroupsOk cs (assign (virtual_group_id g') (length cs) m) (virtual_group_id g')
open-GroupsOk cs m g g' h p = record {
  few = h.few;
  known = assign-KnowsUpTo (length cs) (virtual_group_id g') (length cs) m h.known (omega arith);
  groups = AllGroups-assign (length cs) (virtual_group_id g') (length cs) m cs h.groups;
  current =
      inr (
        virtual-is_virtual g' p,
        (length cs, find-assign_self (virtual_group_id g') (length cs) m),
      );
}

pushed-IsGroup :
    (cs : List CallDef) (m : List (ℤ × ℕ)) (g : ℤ) (c : CallDef)
    → GroupsOk cs m g
    → length cs < max_nof_call_defs
    → c.groupid ≡ (if ltb_ℤ g (pos 0) then pos (length cs) else g)
    → IsGroup (suc (length cs)) m c.groupid
pushed-IsGroup cs m g c h lt e = elim h.current [
  | inl n ↦ inl (ground arith)
  | inr (v, known) ↦
      let same : c.groupid ≡ g = ground arith in inr (rw same v, (known.0, rw same known.1))
]

pub push-GroupsOk :
    (cs : List CallDef) (m : List (ℤ × ℕ)) (g : ℤ) (c : CallDef)
    → GroupsOk cs m g
    → length cs < max_nof_call_defs
    → c.groupid ≡ (if ltb_ℤ g (pos 0) then pos (length cs) else g)
    → GroupsOk (cs ++ (c ∷ [])) m g
push-GroupsOk cs m g c h lt e =
    let len : length (cs ++ (c ∷ [])) ≡ suc (length cs) =
      omega (arith, length-append {0} cs (c ∷ [])) in
    record {
      few = omega (arith, len);
      known = rw len (KnowsUpTo-mono (length cs) m h.known);
      groups = rw len (AllGroups-push (length cs) m cs c h.groups (pushed-IsGroup cs m g c h lt e));
      current = h.current;
    }

pub close-GroupsOk :
    (cs : List CallDef) (m : List (ℤ × ℕ)) (g : ℤ) → GroupsOk cs m g → GroupsOk cs m (negsuc 0)
close-GroupsOk cs m g h = record {
  few = h.few;
  known = h.known;
  groups = h.groups;
  current = inl refl;
}
