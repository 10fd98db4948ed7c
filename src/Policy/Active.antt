-- ===== src/Policy/Active.antt =====
-- The constraints in force and their violations (governance/kernel.py).
use general_autonomy_protoco.Prelude.{
  is_some, All, ◌≡◌, refl, ◌⊎◌, inl, inr, true, false, Option, none, some, List, [], ◌∷◌, map,
  arith,
}
use general_autonomy_protoco.Models.{
  Runtime, ConstraintType, hard, soft, Constraint, StrategyProposal, WorldModel, Crypto,
}
use general_autonomy_protoco.Evaluators.{check_constraint_violation}
use general_autonomy_protoco.Policy.{
  GovernanceKernel, built, as_floor, KernelOptions, build_with, new_kernel, hard_violations,
  soft_violations,
}
use general_autonomy_protoco.Profile.{verify_profile, ApplicabilityProfile}

-- The constraint is soft, or the proposal is checked against it and upholds it.
abbrev pub Upholds : Runtime → StrategyProposal → WorldModel → Constraint → Type 0
Upholds R p w c = (c.type ≡ soft) ⊎ (check_constraint_violation R p c w ≡ some false)

module _ (R : Runtime) (p : StrategyProposal) (w : WorldModel) where
  -- With no name on the list, every hard constraint is upheld.
  pub hard_violations-Upholds :
      (cs : List Constraint) → hard_violations R p w cs ≡ some [] → All (Upholds R p w) cs
  unfolding hard_violations
  hard_violations-Upholds [] h = tt
  hard_violations-Upholds (c ∷ cs) h =
      (upheld c.type refl, hard_violations-Upholds cs (ground arith))
    where
      upheld : (t : ConstraintType) → c.type ≡ t → Upholds R p w c
      upheld soft e = inl e
      upheld hard e = inr (ground arith)

  -- And the list is empty if they are.
  pub Upholds-hard_violations :
      (cs : List Constraint) → All (Upholds R p w) cs → hard_violations R p w cs ≡ some []
  unfolding hard_violations
  Upholds-hard_violations [] h = refl
  Upholds-hard_violations (c ∷ cs) h = elim h.0 [
    | inl s ↦ ground (arith, Upholds-hard_violations cs h.1)
    | inr e ↦ ground (arith, Upholds-hard_violations cs h.1)
  ]

  -- Where every check has an answer, so has the list.
  pub hard_violations-total :
      (cs : List Constraint)
      → ((c : Constraint) → is_some (check_constraint_violation R p c w) ≡ true)
      → is_some (hard_violations R p w cs) ≡ true
  unfolding hard_violations
  hard_violations-total [] h = refl
  hard_violations-total (c ∷ cs) h = ground (arith, h c, hard_violations-total cs h)

  pub soft_violations-total :
      (cs : List Constraint)
      → ((c : Constraint) → is_some (check_constraint_violation R p c w) ≡ true)
      → is_some (soft_violations R p w cs) ≡ true
  unfolding soft_violations
  soft_violations-total [] h = refl
  soft_violations-total (c ∷ cs) h = ground (arith, h c, soft_violations-total cs h)

-- Every constraint of a floor is hard and always active.
abbrev pub IsFloor : Constraint → Type 0
IsFloor c = (c.type ≡ hard) × (c.activation.always ≡ true)

as_floor-IsFloor : (cs : List Constraint) → All IsFloor (map as_floor cs)
as_floor-IsFloor [] = tt
as_floor-IsFloor (c ∷ cs) = ((refl, refl), as_floor-IsFloor cs)

-- What a kernel that is built has of its options.
abbrev pub HasFloor :
    Crypto → KernelOptions → GovernanceKernel → Option ApplicabilityProfile → Type 0
HasFloor C o k none = (o.governed ≡ false) × (k.tier1_floor ≡ [])
HasFloor C o k (some profile) =
    (verify_profile C profile o.profile_key_registry ≡ none)
    × (k.tier1_floor ≡ map as_floor profile.tier1_constraints)
    × (k.strict_action_typing ≡ true)

build_with-HasFloor :
    (C : Crypto) (o : KernelOptions) (profile : Option ApplicabilityProfile) {k : GovernanceKernel}
    → o.applicability_profile ≡ profile
    → build_with C o profile ≡ built k
    → HasFloor C o k profile
unfolding build_with
build_with-HasFloor C o none e h = ground arith
build_with-HasFloor C o (some profile) e h = ground arith

HasFloor-IsFloor :
    (C : Crypto) (o : KernelOptions) (k : GovernanceKernel) (profile : Option ApplicabilityProfile)
    → HasFloor C o k profile
    → All IsFloor k.tier1_floor
HasFloor-IsFloor C o k none h = rw h.1 tt
HasFloor-IsFloor C o k (some profile) h = rw h.1 (as_floor-IsFloor profile.tier1_constraints)

-- A kernel that is built without a profile is not governed and has an empty floor; one that is
-- built with a profile has verified it, has its constraints for floor and types strictly; and every
-- constraint of a floor is hard and always active.
pub new_kernel-HasFloor :
    (C : Crypto) (o : KernelOptions) {k : GovernanceKernel}
    → new_kernel C o ≡ built k
    → HasFloor C o k o.applicability_profile × All IsFloor k.tier1_floor
unfolding new_kernel
new_kernel-HasFloor C o {k} h =
    let floor = build_with-HasFloor C o o.applicability_profile refl h in
    (floor, HasFloor-IsFloor C o k o.applicability_profile floor)
