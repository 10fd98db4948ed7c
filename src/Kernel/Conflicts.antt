-- ===== src/Kernel/Conflicts.antt =====
-- Intent conflicts and priorities (governance/kernel.py, `_detect_intent_conflicts` and
-- `resolve_intent_conflict`).
use mathlib.Core.Path.{subst}
use general_autonomy_protoco.Prelude.{
  ltb, leb, if◌then◌else◌, Bool-cases, ◌>>=◌, is_empty, any, find, Member, All, ℕ, ◌≤◌, ◌≡◌, refl,
  sym, ap, ◌∙◌, ◌⊎◌, inl, inr, Bool, true, false, ◌||◌, not, Option, none, some, List, [], ◌∷◌,
  arith, ◌==◌, eq_iff, eq_refl,
}
use general_autonomy_protoco.Models.{Runtime, IntentVector, StrategyProposal}
use general_autonomy_protoco.Kernel.{
  insert_sorted, sort_by_priority, resolve_intent_conflict, conflicts_with, detect_intent_conflicts,
  outranked, conflict_unresolvable,
}

insert_sorted-head :
    (i : IntentVector) (l : List IntentVector)
    → (j : IntentVector) × (t : List IntentVector) × (insert_sorted i l ≡ j ∷ t)
unfolding insert_sorted
insert_sorted-head i [] = (i, [], refl)
insert_sorted-head i (j ∷ l) = elim (Bool-cases (leb j.priority i.priority)) [
  | inl e ↦ (i, j ∷ l, rw e refl)
  | inr e ↦ (j, insert_sorted i l, rw e refl)
]

sorted_empty : (l : List IntentVector) → sort_by_priority l ≡ [] → l ≡ []
unfolding sort_by_priority
sorted_empty [] h = refl
sorted_empty (i ∷ l) h =
    let (j, t, e) = insert_sorted-head i (sort_by_priority l) in absurd (cons_ne_nil (sym e ∙ h))
  where
    cons_ne_nil : {x : IntentVector} {xs : List IntentVector} → x ∷ xs ≡ [] → ⊥
    cons_ne_nil e = cc

All-le_trans :
    (m n : ℕ) (l : List IntentVector)
    → m ≤ n
    → All (λ x. x.priority ≤ m) l
    → All (λ x. x.priority ≤ n) l
All-le_trans m n [] h a = tt
All-le_trans m n (x ∷ l) h a = (omega arith, All-le_trans m n l h a.1)

insert_top :
    (i j k : IntentVector) (s t : List IntentVector)
    → insert_sorted i (k ∷ s) ≡ j ∷ t
    → ((i ≡ j) × (k.priority ≤ i.priority)) ⊎ ((k ≡ j) × (i.priority ≤ k.priority))
unfolding insert_sorted
insert_top i j k s t h = elim (Bool-cases (leb k.priority i.priority)) [
  | inl e ↦ inl (ap first (rw e at h), ground arith)
  | inr e ↦ inr (ap first (rw e at h), ground arith)
]
  where
    first : List IntentVector → IntentVector
    first [] = i
    first (x ∷ xs) = x

-- What the head of a sorted list is to the list.
abbrev IsTop : IntentVector → List IntentVector → Type 0
IsTop j l = Member j l × All (λ x. x.priority ≤ j.priority) l

step-IsTop :
    (i j k : IntentVector) (l : List IntentVector)
    → ((i ≡ j) × (k.priority ≤ i.priority)) ⊎ ((k ≡ j) × (i.priority ≤ k.priority))
    → IsTop k l
    → IsTop j (i ∷ l)
step-IsTop i j k l (inl (e, h)) (m, a) =
    subst (λ x. IsTop x (i ∷ l)) e
      (inl refl, (omega arith, All-le_trans k.priority i.priority l h a))
step-IsTop i j k l (inr (e, h)) (m, a) = subst (λ x. IsTop x (i ∷ l)) e (inr m, (h, a))

alone-IsTop :
    (i j : IntentVector) (t : List IntentVector) → insert_sorted i [] ≡ j ∷ t → IsTop j (i ∷ [])
unfolding insert_sorted
alone-IsTop i j t h = subst (λ x. IsTop x (i ∷ [])) (ap first h) (inl refl, (omega arith, tt))
  where
    first : List IntentVector → IntentVector
    first [] = i
    first (x ∷ xs) = x

split-IsTop :
    (i : IntentVector) (l s : List IntentVector)
    → sort_by_priority l ≡ s
    → ((k : IntentVector) (u : List IntentVector) → sort_by_priority l ≡ k ∷ u → IsTop k l)
    → (j : IntentVector) (t : List IntentVector) → insert_sorted i s ≡ j ∷ t
    → IsTop j (i ∷ l)
split-IsTop i l [] e ih j t h = rw (sorted_empty l e) (alone-IsTop i j t h)
split-IsTop i l (k ∷ s) e ih j t h = step-IsTop i j k l (insert_top i j k s t h) (ih k s e)

-- The first of the sorted intents is one of them, and none has a higher priority.
pub sort_by_priority-head :
    (l : List IntentVector) (j : IntentVector) (t : List IntentVector)
    → sort_by_priority l ≡ j ∷ t
    → IsTop j l
unfolding sort_by_priority
sort_by_priority-head [] j t h = ground arith
sort_by_priority-head (i ∷ l) j t h =
    split-IsTop i l (sort_by_priority l) refl (sort_by_priority-head l) j t h

All-any :
    (n : ℕ) (l : List IntentVector)
    → All (λ x. x.priority ≤ n) l
    → any (λ i. ltb n i.priority) l ≡ false
All-any n [] h = refl
All-any n (x ∷ l) h = ground (arith, All-any n l h.1)

Member-any :
    (test : IntentVector → Bool) (j : IntentVector) (l : List IntentVector)
    → Member j l
    → test j ≡ true
    → any test l ≡ true
Member-any test j [] m h = absurd m
Member-any test j (x ∷ l) (inl e) h = rw (ap test (sym e) ∙ h) refl
Member-any test j (x ∷ l) (inr m) h = rw (Member-any test j l m h) (ground arith)

Member-All :
    (P : IntentVector → Type 0) (j : IntentVector) (l : List IntentVector)
    → Member j l
    → All P l
    → P j
Member-All P j [] m h = absurd m
Member-All P j (x ∷ l) (inl e) h = subst P (sym e) h.0
Member-All P j (x ∷ l) (inr m) h = Member-All P j l m h.1

outranked-head :
    (R : Runtime) (conflicts : List IntentVector) (serving k : IntentVector) (s : List IntentVector)
    → sort_by_priority conflicts ≡ k ∷ s
    → outranked R conflicts (some serving)
      ≡ (if leb k.priority serving.priority then false else not (k.id == serving.id))
unfolding outranked resolve_intent_conflict sort_by_priority insert_sorted
outranked-head R conflicts serving k s e = ground (arith, eq_refl serving.id)

-- The serving intent is outranked exactly if one of the conflicting ones, whose ids are other ids,
-- has a strictly higher priority: a tie leaves it the primary one.
outranked-any :
    (R : Runtime) (conflicts : List IntentVector) (serving : IntentVector)
    → All (λ i. (i.id == serving.id) ≡ false) conflicts
    → outranked R conflicts (some serving) ≡ any (λ i. ltb serving.priority i.priority) conflicts
unfolding outranked resolve_intent_conflict sort_by_priority insert_sorted
outranked-any R conflicts serving other = by_head (sort_by_priority conflicts) refl
  where
    by_head :
        (s : List IntentVector)
        → sort_by_priority conflicts ≡ s
        → outranked R conflicts (some serving)
          ≡ any (λ i. ltb serving.priority i.priority) conflicts
    by_head [] e = rw (sorted_empty conflicts e) (ground (arith, eq_refl serving.id))
    by_head (k ∷ s) e =
        let (m, a) = sort_by_priority-head conflicts k s e in
        elim (Bool-cases (leb k.priority serving.priority)) [
          | inl h ↦
              outranked-head R conflicts serving k s e
              ∙ rw h (
                  sym (
                    All-any serving.priority conflicts
                      (All-le_trans k.priority serving.priority conflicts (ground arith) a)))
          | inr h ↦
              outranked-head R conflicts serving k s e
              ∙ rw
                  (
                    h,
                    Member-All (λ i. (i.id == serving.id) ≡ false) k conflicts m other,
                    Member-any (λ i. ltb serving.priority i.priority) k conflicts m (ground arith),
                  )
                  refl
        ]

or_false : (b c : Bool) → (b || c) ≡ false → b ≡ false
or_false b c h = ground arith

module _ (R : Runtime) (p : StrategyProposal) (now : ℕ) where
  abbrev Others : Option (List IntentVector) → Type 0
  Others none = Unit
  Others (some found) = All (λ i. (i.id == p.intent_id) ≡ false) found

  add_other :
      (i : IntentVector) (bad : Option Bool) (rest : Option (List IntentVector))
      → (i.id == p.intent_id) ≡ false
      → Others rest
      → Others (bad >>= λ b. rest >>= λ found. some (if b then i ∷ found else found))
  add_other i none rest e h = tt
  add_other i (some b) none e h = tt
  add_other i (some true) (some found) e h = (e, h)
  add_other i (some false) (some found) e h = h

  pick :
      (b : Bool) (x y : Option (List IntentVector))
      → Others x
      → (b ≡ false → Others y)
      → Others (if b then x else y)
  pick true x y hx hy = hx
  pick false x y hx hy = hy refl

  -- No conflicting intent has the id of the one that is served.
  detected : (intents : List IntentVector) → Others (detect_intent_conflicts R p now intents)
  unfolding detect_intent_conflicts
  detected [] = tt
  detected (i ∷ intents) = pick (i.id == p.intent_id || not i.active) _ _ (detected intents) λ e.
      add_other i (conflicts_with R p now i) (detect_intent_conflicts R p now intents)
        (or_false (i.id == p.intent_id) _ e) (detected intents)

  found_id :
      (intents : List IntentVector) (s : IntentVector)
      → find (λ i. i.id == p.intent_id) intents ≡ some s
      → s.id ≡ p.intent_id
  found_id [] s h = ground arith
  found_id (i ∷ intents) s h = ground (arith, eq_iff i.id p.intent_id, found_id intents s)

  settled :
      (found intents : List IntentVector) (serving : Option IntentVector)
      → find (λ i. i.id == p.intent_id) intents ≡ serving
      → All (λ i. (i.id == p.intent_id) ≡ false) found
      → (if is_empty found then false else outranked R found serving)
        ≡ elim serving [ none ↦ false | some s ↦ any (λ i. ltb s.priority i.priority) found ]
  settled [] intents none e h = refl
  settled [] intents (some s) e h = refl
  settled (x ∷ found) intents none e h = unfold outranked in refl
  settled (x ∷ found) intents (some s) e h =
      outranked-any R (x ∷ found) s
        (subst (λ t. All (λ i. (i.id == t) ≡ false) (x ∷ found)) (sym (found_id intents s e)) h)

  -- The step on intent conflicts, which sorts the serving and the conflicting intents and compares
  -- ids, is the test whether some conflicting intent has a strictly higher priority than the
  -- serving one, where the intents have a serving one.
  pub conflict_unresolvable-any :
      (intents : List IntentVector)
      → conflict_unresolvable R p now intents ≡ (
          detect_intent_conflicts R p now intents >>= λ found.
          some (elim (find (λ i. i.id == p.intent_id) intents) [
            | none ↦ false
            | some serving ↦ any (λ i. ltb serving.priority i.priority) found
          ]))
  unfolding conflict_unresolvable
  conflict_unresolvable-any intents =
      with_found (detect_intent_conflicts R p now intents) (detected intents)
    where
      with_found :
          (o : Option (List IntentVector))
          → Others o
          → (o >>= λ found. some (
              if is_empty found
              then false
              else outranked R found (find (λ i. i.id == p.intent_id) intents)))
            ≡ (o >>= λ found. some (elim (find (λ i. i.id == p.intent_id) intents) [
              | none ↦ false
              | some serving ↦ any (λ i. ltb serving.priority i.priority) found
            ]))
      with_found none h = refl
      with_found (some found) h = ap some (settled found intents _ refl h)
