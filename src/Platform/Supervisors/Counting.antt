-- ===== src/Platform/Supervisors/Counting.antt =====
-- The reference counts of polytrader/platform/supervisor_registry.py as tallies of its calls.
use polytrader.Prelude.{
  ◌≡◌, refl, ◌∙◌, ◌==◌, eq_of_==, inl, inr, String, ℕ, zero, suc, Bool, true, false, none, some,
  List, [], ◌∷◌, Bool-cases, ltb, arith, string_eq, if◌then◌else◌,
}
use polytrader.Dict.{lookup, contains, lookup-insert_self}
use polytrader.Platform.Supervisors.{
  Registry, new_registry, get_or_create, release, stop_all, get_ref_count,
}
use polytrader.Platform.Supervisors.Steps.{
  other, other_erased, erased, release_last, release_more, release-none, take_known, take_new,
  take_failed,
}

-- The calls, one after another; the flag says whether a new supervisor starts.
pub data Call : Type 0 where
  takes : String → Bool → Call
  releases : String → Call
  stops : Call

abbrev pub perform : Call → Registry → Registry
perform (takes pattern starts) s = (get_or_create pattern starts s).1
perform (releases pattern) s = (release pattern s).1
perform stops s = (stop_all s).1

abbrev pub run : List Call → Registry → Registry
run [] s = s
run (c ∷ cs) s = run cs (perform c s)

abbrev after_take : Bool → ℕ → ℕ
after_take starts zero = if starts then 1 else 0
after_take starts (suc n) = suc (suc n)

abbrev fewer : ℕ → ℕ
fewer zero = zero
fewer (suc n) = n

-- How many users a pattern has after a call, by how many it had.
abbrev next : Call → String → ℕ → ℕ
next (takes q starts) p n = if q == p then after_take starts n else n
next (releases q) p n = if q == p then fewer n else n
next stops p n = 0

abbrev pub users : List Call → String → ℕ → ℕ
users [] p n = n
users (c ∷ cs) p n = users cs p (next c p n)

-- The entries of a pattern that has `n` users.
abbrev pub Entry : String → Registry → ℕ → Type 0
Entry p s zero = (lookup p s.supervisors ≡ none) × (lookup p s.ref_counts ≡ none)
Entry p s (suc n) =
    (id : ℕ) × (lookup p s.supervisors ≡ some id) × (lookup p s.ref_counts ≡ some (suc n))

same-Entry :
    (p : String) (s t : Registry) (n : ℕ)
    → lookup p t.supervisors ≡ lookup p s.supervisors
    → lookup p t.ref_counts ≡ lookup p s.ref_counts
    → Entry p s n
    → Entry p t n
same-Entry p s t zero a b (x, y) = (a ∙ x, b ∙ y)
same-Entry p s t (suc n) a b (id, x, y) = (id, a ∙ x, b ∙ y)

abbrev SameAt : String → Registry → Registry → Type 0
SameAt p s t =
    (lookup p t.supervisors ≡ lookup p s.supervisors)
    × (lookup p t.ref_counts ≡ lookup p s.ref_counts)

take_own :
    (p : String) (starts : Bool) (s : Registry) (n : ℕ)
    → Entry p s n
    → Entry p (perform (takes p starts) s) (after_take starts n)
take_own p true s zero (x, y) =
    rw (perform, take_new p s x)
      (s.made, lookup-insert_self p s.made s.supervisors, lookup-insert_self p 1 _)
take_own p false s zero (x, y) = rw (perform, take_failed p s x) (x, y)
take_own p starts s (suc n) (id, x, y) =
    rw (perform, take_known p starts s x y) (id, x, lookup-insert_self p (suc (suc n)) s.ref_counts)

take_other :
    (q p : String) (starts : Bool) (s : Registry) (m : ℕ)
    → Entry q s m
    → (q == p) ≡ false
    → SameAt p s (perform (takes q starts) s)
take_other q p true s zero (x, y) h =
    rw (perform, take_new q s x)
      (other q p s.made s.supervisors h, other q p 1 _ h ∙ other q p 0 s.ref_counts h)
take_other q p false s zero (x, y) h = rw (perform, take_failed q s x) (refl, refl)
take_other q p starts s (suc m) (id, x, y) h =
    rw (perform, take_known q starts s x y) (refl, other q p (suc (suc m)) s.ref_counts h)

release_own :
    (p : String) (s : Registry) (n : ℕ) → Entry p s n → Entry p (perform (releases p) s) (fewer n)
release_own p s zero (x, y) = rw (perform, release-none p s y) (x, y)
release_own p s (suc zero) (id, x, y) =
    rw (perform, release_last p s x y) (erased p s.supervisors, erased p _)
release_own p s (suc (suc n)) (id, x, y) =
    rw (perform, release_more p s y) (id, x, lookup-insert_self p (suc n) s.ref_counts)

release_other :
    (q p : String) (s : Registry) (m : ℕ)
    → Entry q s m
    → (q == p) ≡ false
    → SameAt p s (perform (releases q) s)
release_other q p s zero (x, y) h = rw (perform, release-none q s y) (refl, refl)
release_other q p s (suc zero) (id, x, y) h =
    rw (perform, release_last q s x y)
      (other_erased q p s.supervisors h, other_erased q p _ h ∙ other q p 0 s.ref_counts h)
release_other q p s (suc (suc m)) (id, x, y) h =
    rw (perform, release_more q s y) (refl, other q p (suc m) s.ref_counts h)

-- Every pattern has the entries of its number of users.
abbrev Tracks : Registry → (String → ℕ) → Type 0
Tracks s f = (p : String) → Entry p s (f p)

stop_all-Entry : (p : String) (s : Registry) → Entry p (perform stops s) zero
unfolding stop_all lookup
stop_all-Entry p s = (refl, refl)

perform-Tracks :
    (c : Call) (s : Registry) (f : String → ℕ)
    → Tracks s f
    → Tracks (perform c s) (λ p. next c p (f p))
perform-Tracks (takes q starts) s f h p = elim (Bool-cases (q == p)) [
  | inl same ↦ rw (same, eq_of_== q p same) (take_own p starts s (f p) (h p))
  | inr differ ↦
      let (a, b) = take_other q p starts s (f q) (h q) differ in
      rw differ (same-Entry p s (perform (takes q starts) s) (f p) a b (h p))
]
perform-Tracks (releases q) s f h p = elim (Bool-cases (q == p)) [
  | inl same ↦ rw (same, eq_of_== q p same) (release_own p s (f p) (h p))
  | inr differ ↦
      let (a, b) = release_other q p s (f q) (h q) differ in
      rw differ (same-Entry p s (perform (releases q) s) (f p) a b (h p))
]
perform-Tracks stops s f h p = stop_all-Entry p s

run-Tracks :
    (cs : List Call) (s : Registry) (f : String → ℕ)
    → Tracks s f
    → Tracks (run cs s) (λ p. users cs p (f p))
run-Tracks [] s f h = h
run-Tracks (c ∷ cs) s f h =
    run-Tracks cs (perform c s) (λ p. next c p (f p)) (perform-Tracks c s f h)

pub Entry-counts :
    (p : String) (s : Registry) (n : ℕ)
    → Entry p s n
    → (get_ref_count p s ≡ n) × (contains p s.supervisors ≡ ltb 0 n)
unfolding get_ref_count
Entry-counts p s zero (x, y) = ground (arith, x, y)
Entry-counts p s (suc n) (id, x, y) = ground (arith, x, y)

new_registry-Entry : (p : String) → Entry p new_registry zero
unfolding lookup
new_registry-Entry p = (refl, refl)

-- After any calls, one after another, some of which may fail to start a supervisor: the reference
-- count of a pattern is its number of users, which are tallied by the calls alone, and it has a
-- supervisor exactly where that number is above 0.
pub run-users :
    (cs : List Call) (p : String)
    → let s = run cs new_registry in
      (get_ref_count p s ≡ users cs p 0) × (contains p s.supervisors ≡ ltb 0 (users cs p 0))
run-users cs p =
    Entry-counts p (run cs new_registry) (users cs p 0)
      (run-Tracks cs new_registry (λ q. 0) new_registry-Entry p)
