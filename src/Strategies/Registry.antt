-- ===== src/Strategies/Registry.antt =====
-- polytrader/strategies/registry.py and version.py: the templates of strategies and the selection
-- of a version. What the registry only keeps of a template (its schema, its factory and its texts)
-- is one value. Texts are compared by their code points. The number that `int` reads off the part
-- of a version before its first dot is a parameter. The checks of a selector's constructor are left
-- out; `resolve` answers where they fail too.
pub mod Resolution
mod Tests
use Prim.Native.Nat.{Ordering}
use Prim.Native.String.{compare}
use polytrader.Prelude.{
  String, ℕ, Bool, true, false, not, ◌||◌, Option, none, some, List, [], ◌∷◌, keep_if, any,
  is_truthy, text_eq, string_eq, pair_eq, nat_eq, ◌==◌, if◌then◌else◌,
}
use polytrader.Dict.{Dict, lookup, contains, insert, values}
use polytrader.Effect.{Result, ok, err, Action, Done, raise_if, modify, ◌>>◌}

pub record StrategyTemplate (D : Type 0) : Type 0 where
  pub type_id : String
  pub version : String
  pub name : String
  pub definition : D

-- `_registry`
abbrev pub Registry : Type 0 → Type 0
Registry D = Dict (String × String) (StrategyTemplate D)

pub data RegistryError : Type 0 where
  already_registered not_registered invalid_template : RegistryError

-- `a < b` of two texts
abbrev pub text_lt : String → String → Bool
text_lt a b = elim (compare a b) [ Ordering.lt ↦ true | _ ↦ false ]

-- `sorted`, which puts a text before those that are above it.
abbrev pub place : String → List String → List String
place x [] = x ∷ []
place x (y ∷ ys) = let rest = place x ys in if text_lt y x then y ∷ rest else x ∷ y ∷ ys

unfoldable pub sorted : List String → List String
sorted [] = []
sorted (x ∷ xs) = place x (sorted xs)

abbrev last : List String → Option String
last [] = none
last (x ∷ xs) = let rest = last xs in elim xs [ [] ↦ some x | _ ∷ _ ↦ rest ]

module _ {D : Type 0} where
  -- `__post_init__`
  abbrev is_invalid : StrategyTemplate D → Bool
  is_invalid t = not (is_truthy t.type_id) || (not (is_truthy t.version) || not (is_truthy t.name))

  unfoldable pub has_template : String → String → Registry D → Bool
  has_template type_id version s = contains (type_id, version) s

  unfoldable pub register : StrategyTemplate D → Action RegistryError (Registry D) Done
  register t s =
      (raise_if (has_template t.type_id t.version s) already_registered
          >> (raise_if (is_invalid t) invalid_template
              >> modify (λ r. insert (t.type_id, t.version) t r)))
        s

  abbrev found : Option (StrategyTemplate D) → Result RegistryError (StrategyTemplate D)
  found none = err not_registered
  found (some t) = ok t

  unfoldable pub get : String → String → Registry D → Result RegistryError (StrategyTemplate D)
  get type_id version s = found (lookup (type_id, version) s)

  abbrev pub list_templates : Registry D → List (StrategyTemplate D)
  list_templates s = values s

  unfoldable pub versions_of : String → Registry D → List String
  versions_of type_id [] = []
  versions_of type_id ((key, t) ∷ s) =
      let rest = versions_of type_id s in if text_eq key.0 type_id then key.1 ∷ rest else rest

  unfoldable pub list_versions : String → Registry D → List String
  list_versions type_id s = sorted (versions_of type_id s)

  unfoldable pub get_latest_version : String → Registry D → Option String
  get_latest_version type_id s = last (list_versions type_id s)

pub record VersionSelector : Type 0 where
  pub exact : Option String
  pub channel : Option String
  pub major : Option ℕ

pub data VersionResolutionError : Type 0 where
  no_versions version_not_available no_candidates unknown_channel invalid_selector :
      VersionResolutionError

-- `max` of a list: the first of equal texts.
abbrev pub highest : String → List String → String
highest x [] = x
highest x (y ∷ ys) = highest (if text_lt x y then y else x) ys

abbrev is_channel : String → Bool
is_channel c = text_eq c "stable" || (text_eq c "beta" || text_eq c "dev")

abbrev pub has_major : ℕ → Option ℕ → Bool
has_major m none = false
has_major m (some n) = n == m

abbrev pub newest : String → List String → Result VersionResolutionError String
newest channel [] = err no_candidates
newest channel (v ∷ vs) = if is_channel channel then ok (highest v vs) else err unknown_channel

abbrev pub exact_in : String → List String → Result VersionResolutionError String
exact_in v vs = if any (λ w. text_eq w v) vs then ok v else err version_not_available

module _ (major_of : String → Option ℕ) where
  abbrev pub candidates : Option ℕ → List String → List String
  candidates none vs = vs
  candidates (some m) vs = keep_if (λ v. has_major m (major_of v)) vs

  abbrev resolve_channel :
      Option String → Option ℕ → List String → Result VersionResolutionError String
  resolve_channel none major vs = err invalid_selector
  resolve_channel (some channel) major vs = newest channel (candidates major vs)

  abbrev resolve_in : VersionSelector → List String → Result VersionResolutionError String
  resolve_in sel vs = elim sel.exact [
    | none ↦ resolve_channel sel.channel sel.major vs
    | some v ↦ exact_in v vs
  ]

  unfoldable pub resolve : VersionSelector → List String → Result VersionResolutionError String
  resolve sel [] = err no_versions
  resolve sel (v ∷ vs) = resolve_in sel (v ∷ vs)
