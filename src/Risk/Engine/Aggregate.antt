-- ===== src/Risk/Engine/Aggregate.antt =====
-- How polytrader/risk/engine.py puts the results of the policies together: the decision, and the
-- list of reasons.
use polytrader.Prelude.{
  ℕ, suc, ◌≡◌, ◌↔◌, refl, ◌∙◌, Bool, true, false, ◌||◌, List, [], ◌∷◌, ◌++◌, string_eq, member,
  member-append, IsUnique, append-IsUnique, arith, inl, inr, Bool-cases,
}
use polytrader.Risk.Models.{
  RiskReasonCode, code_eq, same_code_iff, RiskResult, RiskLimits, RiskContext,
}
use polytrader.Risk.Engine.{RiskPolicy, run_policy, aggregate, run_policies, unique_from, check}

module _ {F : Type 0} where
  -- Each policy allows the order at its reading of the clock.
  abbrev pub AllAllow : (ℕ → F) → RiskContext F → RiskLimits F → List (RiskPolicy F) → Type 0
  AllAllow now context limits [] = Unit
  AllAllow now context limits (p ∷ ps) =
      ((run_policy p (now 0) context limits).allowed ≡ true)
      × AllAllow (λ i. now (suc i)) context limits ps

  run_policies-allowed :
      (now : ℕ → F) (context : RiskContext F) (limits : RiskLimits F) (ps : List (RiskPolicy F))
      (all : RiskResult F)
      → ((run_policies now context limits ps all).allowed ≡ true)
        ↔ ((all.allowed ≡ true) × AllAllow now context limits ps)
  unfolding run_policies
  run_policies-allowed now context limits [] all = (λ h. (h, tt), λ h. h.0)
  run_policies-allowed now context limits (p ∷ ps) all =
      let result = run_policy p (now 0) context limits in
      let rest = run_policies-allowed (λ i. now (suc i)) context limits ps (aggregate all result) in
      (
        λ h. let (a, b) = rest.0 h in (ground arith, (ground arith, b)),
        λ (a, (b, c)). rest.1 (rw (a, b) refl, c),
      )

  -- The engine allows an order exactly when every one of its policies does: a later allowance never
  -- overrides a denial, and no denial comes from anywhere else.
  pub check_allowed_iff :
      (policies : List (RiskPolicy F)) (now : ℕ → F) (context : RiskContext F)
      (limits : RiskLimits F)
      → ((check policies now context limits).allowed ≡ true) ↔ AllAllow now context limits policies
  unfolding check
  check_allowed_iff policies now context limits =
      let both = run_policies-allowed now context limits policies _ in
      (λ h. (both.0 h).1, λ h. both.1 (refl, h))

unique_from-IsUnique :
    (xs unique : List RiskReasonCode) → IsUnique unique → IsUnique (unique_from unique xs)
unfolding unique_from
unique_from-IsUnique [] unique u = u
unique_from-IsUnique (x ∷ xs) unique u = elim (Bool-cases (member x unique)) [
  | inl seen ↦ rw seen (unique_from-IsUnique xs unique u)
  | inr fresh ↦
      rw fresh (unique_from-IsUnique xs (unique ++ (x ∷ [])) (append-IsUnique x unique u fresh))
]

member-unique_from :
    (r : RiskReasonCode) (xs unique : List RiskReasonCode)
    → member r (unique_from unique xs) ≡ (member r unique || member r xs)
unfolding unique_from
member-unique_from r [] unique = ground arith
member-unique_from r (x ∷ xs) unique = elim (Bool-cases (member x unique)) [
  | inl seen ↦ rw seen (ground (arith, member-unique_from r xs unique, same_code_iff x r))
  | inr fresh ↦ rw fresh (
      ground (arith, member-unique_from r xs (unique ++ (x ∷ [])), member-append r unique (x ∷ [])))
]

module _ {F : Type 0} where
  -- Some policy gives the reason.
  abbrev pub given_by :
      RiskReasonCode → (ℕ → F) → RiskContext F → RiskLimits F → List (RiskPolicy F) → Bool
  given_by r now context limits [] = false
  given_by r now context limits (p ∷ ps) =
      member r (run_policy p (now 0) context limits).reason_codes
      || given_by r (λ i. now (suc i)) context limits ps

  member-run_policies :
      (r : RiskReasonCode) (now : ℕ → F) (context : RiskContext F) (limits : RiskLimits F)
      (ps : List (RiskPolicy F)) (all : RiskResult F)
      → member r (run_policies now context limits ps all).reason_codes
        ≡ (member r all.reason_codes || given_by r now context limits ps)
  unfolding run_policies
  member-run_policies r now context limits [] all = ground arith
  member-run_policies r now context limits (p ∷ ps) all =
      let result = run_policy p (now 0) context limits in
      ground (
        arith,
        member-run_policies r (λ i. now (suc i)) context limits ps (aggregate all result),
        member-append r all.reason_codes result.reason_codes,
      )

  -- The reason codes of the engine's result: no code occurs twice, and a code occurs exactly when
  -- one of the policies gives it.
  pub check-reasons :
      (policies : List (RiskPolicy F)) (now : ℕ → F) (context : RiskContext F)
      (limits : RiskLimits F)
      → IsUnique (check policies now context limits).reason_codes
        × ((r : RiskReasonCode)
            → member r (check policies now context limits).reason_codes
              ≡ given_by r now context limits policies)
  unfolding check
  check-reasons policies now context limits = (
    unique_from-IsUnique _ [] tt,
    λ r. member-unique_from r _ [] ∙ member-run_policies r now context limits policies _,
  )
