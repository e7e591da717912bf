-- ===== src/Strategies/Registry/Tests.antt =====
-- The theorem about versions at a template with two of them.
use polytrader.Prelude.{◌≡◌, refl, String, ℕ, none, some, [], ◌∷◌, text_eq}
use polytrader.Effect.{ok}
use polytrader.Strategies.Registry.{
  StrategyTemplate, Registry, VersionSelector, versions_of, list_versions, get, get_latest_version,
  sorted, resolve,
}
use polytrader.Strategies.Registry.Resolution.{IsAsked, resolve-Registered}

abbrev template : String → StrategyTemplate ℕ
template version = record {
  type_id = "reversion";
  version = version;
  name = "Mean reversion";
  definition = 0;
}

abbrev registry : Registry ℕ
registry =
    (("reversion", "9.0.0"), template "9.0.0") ∷ (("reversion", "10.0.0"), template "10.0.0") ∷ []

abbrev stable : VersionSelector
stable = record { exact = none; channel = some "stable"; major = none }

-- By their texts, the newest version is 9.0.0.
latest : get_latest_version "reversion" registry ≡ some "9.0.0"
unfolding get_latest_version list_versions versions_of sorted text_eq
latest = refl

stable_version : resolve (λ v. none) stable (list_versions "reversion" registry) ≡ ok "9.0.0"
unfolding resolve list_versions versions_of sorted text_eq
stable_version = refl

resolve-Registered_example :
    ((t : StrategyTemplate ℕ) × (get "reversion" "9.0.0" registry ≡ ok t))
    × IsAsked (λ v. none) stable "9.0.0"
resolve-Registered_example =
    resolve-Registered (λ v. none) stable "reversion" "9.0.0" registry stable_version
