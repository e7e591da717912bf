-- ===== src/Strategies/Registry/Resolution.antt =====
-- What polytrader/strategies/version.py selects among the versions that the registry lists.
use polytrader.Prelude.{
  ◌≡◌, refl, sym, ap, ◌∙◌, subst, ==_refl, eq_of_==, inl, inr, String, ℕ, Bool, true, Option, none,
  some, List, [], ◌∷◌, All, keep_if, keep_if-cons, any, Bool-cases, Option-cases, arith, text_eq,
  text_eq_iff, string_eq, pair_eq, nat_eq,
}
use polytrader.Dict.{lookup, contains}
use polytrader.Effect.{ok}
use polytrader.Strategies.Registry.{
  StrategyTemplate, Registry, VersionSelector, text_lt, place, sorted, highest, candidates, newest,
  exact_in, has_major, get, versions_of, list_versions, resolve,
}

All-both :
    {P Q R : String → Type 0} (xs : List String)
    → ((x : String) → P x → Q x → R x)
    → All P xs
    → All Q xs
    → All R xs
All-both [] f p q = tt
All-both (x ∷ xs) f (px, pxs) (qx, qxs) = (f x px qx, All-both xs f pxs qxs)

module _ (P : String → Type 0) where
  place-All : (x : String) (ys : List String) → P x → All P ys → All P (place x ys)
  place-All x [] px pys = (px, tt)
  place-All x (y ∷ ys) px (py, pys) = elim (Bool-cases (text_lt y x)) [
    | inl below ↦ rw (place, below) (py, place-All x ys px pys)
    | inr above ↦ rw (place, above) (px, (py, pys))
  ]

  sorted-All : (xs : List String) → All P xs → All P (sorted xs)
  unfolding sorted
  sorted-All [] p = tt
  sorted-All (x ∷ xs) (px, pxs) = place-All x (sorted xs) px (sorted-All xs pxs)

  highest-All : (x : String) (ys : List String) → P x → All P ys → P (highest x ys)
  highest-All x [] px pys = px
  highest-All x (y ∷ ys) px (py, pys) = elim (Bool-cases (text_lt x y)) [
    | inl below ↦ rw (highest, below) (highest-All y ys py pys)
    | inr above ↦ rw (highest, above) (highest-All x ys px pys)
  ]

  keep_if-All : (q : String → Bool) (xs : List String) → All P xs → All P (keep_if q xs)
  keep_if-All q [] p = tt
  keep_if-All q (x ∷ xs) (px, pxs) = elim (Bool-cases (q x)) [
    | inl kept ↦ rw (keep_if-cons q x xs, kept) (px, keep_if-All q xs pxs)
    | inr left ↦ rw (keep_if-cons q x xs, left) (keep_if-All q xs pxs)
  ]

  any-All : (v : String) (xs : List String) → All P xs → any (λ w. text_eq w v) xs ≡ true → P v
  any-All v [] p h = cc h
  any-All v (x ∷ xs) (px, pxs) h = elim (Bool-cases (text_eq x v)) [
    | inl same ↦ subst P ((text_eq_iff x v).0 same) px
    | inr differ ↦ any-All v xs pxs (rw differ at h)
  ]

-- All that a test keeps pass it.
keep_if-Passed : (q : String → Bool) (xs : List String) → All (λ v. q v ≡ true) (keep_if q xs)
keep_if-Passed q [] = tt
keep_if-Passed q (x ∷ xs) = elim (Bool-cases (q x)) [
  | inl kept ↦ rw (keep_if-cons q x xs, kept) (kept, keep_if-Passed q xs)
  | inr left ↦ rw (keep_if-cons q x xs, left) (keep_if-Passed q xs)
]

module _ (P : String → Type 0) where
  newest-All :
      (channel : String) (vs : List String) {v : String} → All P vs → newest channel vs ≡ ok v → P v
  newest-All channel [] p h = cc h
  newest-All channel (x ∷ xs) {v} (px, pxs) h =
      let chosen : highest x xs ≡ v = ground (arith, h) in
      subst P chosen (highest-All P x xs px pxs)

  exact-All :
      (e : String) (vs : List String) {v : String} → All P vs → exact_in e vs ≡ ok v → (v ≡ e) × P v
  exact-All e vs {v} p h = elim (Bool-cases (any (λ w. text_eq w e) vs)) [
    | inl there ↦
        let same : v ≡ e = ground (arith, there, h) in
        (same, subst P (sym same) (any-All P e vs p there))
    | inr missing ↦ cc (rw missing at h)
  ]

has_major-eq : (m : ℕ) (o : Option ℕ) → has_major m o ≡ true → o ≡ some m
has_major-eq m none h = cc h
has_major-eq m (some n) h = ap some (eq_of_== n m h)

-- What was asked for: the exact version, if there is one, else the major version, if there is one.
abbrev pub IsAsked : (String → Option ℕ) → VersionSelector → String → Type 0
IsAsked major_of sel v =
    ((e : String) → sel.exact ≡ some e → v ≡ e)
    × (sel.exact ≡ none → (m : ℕ) → sel.major ≡ some m → major_of v ≡ some m)

module _ (major_of : String → Option ℕ) (P : String → Type 0) where
  candidates-All :
      (major : Option ℕ) (vs : List String)
      → All P vs
      → All
          (λ v. P v × ((m : ℕ) → major ≡ some m → major_of v ≡ some m))
          (candidates major_of major vs)
  candidates-All none vs p = All-both vs (λ v pv _. (pv, (λ m e. cc e))) p p
  candidates-All (some m) vs p =
      let test : String → Bool = λ v. has_major m (major_of v) in
      All-both (keep_if test vs) (λ v pv kept. (pv, (λ n e. has_major-eq m (major_of v) kept ∙ e)))
        (keep_if-All P test vs p) (keep_if-Passed test vs)

  resolve-All :
      (sel : VersionSelector) (vs : List String) {v : String}
      → All P vs
      → resolve major_of sel vs ≡ ok v
      → P v × IsAsked major_of sel v
  unfolding resolve
  resolve-All sel [] p h = cc h
  resolve-All sel (x ∷ xs) {v} p h = elim (Option-cases sel.exact) [
    | inr (e, exact) ↦
        let (same, pv) = exact-All P e (x ∷ xs) p (rw exact at h) in
        (pv, ((λ e' e-is. cc (same, exact, e-is)), (λ none-is. cc (exact, none-is))))
    | inl inexact ↦ elim (Option-cases sel.channel) [
      | inl nothing ↦ cc (rw (inexact, nothing) at h)
      | inr (channel, through) ↦
          let (pv, of_major) =
            newest-All (λ v. P v × ((m : ℕ) → sel.major ≡ some m → major_of v ≡ some m)) channel
              (candidates major_of sel.major (x ∷ xs)) (candidates-All sel.major (x ∷ xs) p)
              (rw (inexact, through) at h) in
          (pv, ((λ e e-is. cc (inexact, e-is)), (λ none-is. of_major)))
    ]
  ]

module _ {D : Type 0} where
  contains-head :
      (k : String × String) (t : StrategyTemplate D) (s : Registry D)
      → contains k ((k, t) ∷ s) ≡ true
  unfolding lookup
  contains-head k t s = ground (arith, ==_refl k)

  contains-tail :
      (k j : String × String) (t : StrategyTemplate D) (s : Registry D)
      → contains k s ≡ true
      → contains k ((j, t) ∷ s) ≡ true
  unfolding lookup
  contains-tail k j t s h = ground (arith, h)

  versions_of-Registered :
      (type_id : String) (s : Registry D)
      → All (λ v. contains (type_id, v) s ≡ true) (versions_of type_id s)
  unfolding versions_of
  versions_of-Registered type_id [] = tt
  versions_of-Registered type_id ((key, t) ∷ s) =
      let rest = versions_of-Registered type_id s in
      let later : All (λ v. contains (type_id, v) ((key, t) ∷ s) ≡ true) (versions_of type_id s) =
        All-both (versions_of type_id s) (λ v h _. contains-tail (type_id, v) key t s h) rest
          rest in
      elim (Bool-cases (text_eq key.0 type_id)) [
        | inl same ↦
            let own : contains (type_id, key.1) ((key, t) ∷ s) ≡ true =
              subst (λ i. contains (i, key.1) ((key, t) ∷ s) ≡ true)
                ((text_eq_iff key.0 type_id).0 same) (contains-head key t s) in
            rw same (own, later)
        | inr differ ↦ rw differ later
      ]

  contains-get :
      (type_id version : String) (s : Registry D)
      → contains (type_id, version) s ≡ true
      → (t : StrategyTemplate D) × (get type_id version s ≡ ok t)
  unfolding get
  contains-get type_id version s h = elim (Option-cases (lookup (type_id, version) s)) [
    | inl missing ↦ cc (rw (missing, contains) at h)
    | inr (t, there) ↦ (t, rw there refl)
  ]

  -- A version that a selector resolves to, among the versions that the registry lists of a type, is
  -- one that the registry has a template of. It is the exact version that was asked for; without
  -- one, it has the major version that was asked for, if any.
  pub resolve-Registered :
      (major_of : String → Option ℕ) (sel : VersionSelector) (type_id v : String) (s : Registry D)
      → resolve major_of sel (list_versions type_id s) ≡ ok v
      → ((t : StrategyTemplate D) × (get type_id v s ≡ ok t)) × IsAsked major_of sel v
  unfolding list_versions
  resolve-Registered major_of sel type_id v s h =
      let listed =
        sorted-All (λ w. contains (type_id, w) s ≡ true) (versions_of type_id s)
          (versions_of-Registered type_id s) in
      let (there, asked) =
        resolve-All major_of (λ w. contains (type_id, w) s ≡ true) sel
          (sorted (versions_of type_id s)) listed h in
      (contains-get type_id v s there, asked)
