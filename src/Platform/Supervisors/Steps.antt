-- ===== src/Platform/Supervisors/Steps.antt =====
-- What each call of polytrader/platform/supervisor_registry.py returns, and the registry that it
-- leaves, by what a pattern has in it.
use polytrader.Prelude.{
  ◌≡◌, refl, ◌∙◌, ◌==◌, ==_refl, String, ℕ, suc, Bool, true, false, none, some, [], ◌∷◌, ◌++◌,
  arith, string_eq,
}
use polytrader.Dict.{Dict, lookup, insert, erase, lookup-insert, lookup-erase, lookup-insert_self}
use polytrader.Effect.{ok, err, bind_ok}
use polytrader.Platform.Supervisors.{Registry, not_started, begin, finish, get_or_create, release}

pub other :
    (q p : String) {A : Type 0} (v : A) (d : Dict String A)
    → (q == p) ≡ false
    → lookup p (insert q v d) ≡ lookup p d
other q p v d h = lookup-insert q p v d ∙ rw h refl

pub other_erased :
    (q p : String) {A : Type 0} (d : Dict String A)
    → (q == p) ≡ false
    → lookup p (erase q d) ≡ lookup p d
other_erased q p d h = lookup-erase q p d ∙ rw h refl

pub erased : (p : String) {A : Type 0} (d : Dict String A) → lookup p (erase p d) ≡ none
erased p d = lookup-erase p p d ∙ rw (==_refl p) refl

begin_known :
    (p : String) (s : Registry) {id : ℕ}
    → lookup p s.supervisors ≡ some id
    → begin p s ≡ (ok none, s)
unfolding begin
begin_known p s x = ground arith

pub begin_new :
    (p : String) (s : Registry)
    → lookup p s.supervisors ≡ none
    → begin p s ≡ (ok (some s.made), record s { made = suc s.made })
unfolding begin
begin_new p s x = ground arith

abbrev pub counted : String → ℕ → Registry → Registry
counted p n s = record s { ref_counts = insert p n s.ref_counts }

finish_known :
    (p : String) (starts : Bool) (s : Registry) {id n : ℕ}
    → lookup p s.supervisors ≡ some id
    → lookup p s.ref_counts ≡ some n
    → finish p starts none s ≡ (ok id, counted p (suc n) s)
unfolding finish
finish_known p starts s x y = ground arith

-- A supervisor that has started is stored with a count of 1, whatever is stored before.
abbrev pub stored : String → ℕ → Registry → Registry
stored p id s = record s {
  supervisors = insert p id s.supervisors;
  ref_counts = insert p 1 (insert p 0 s.ref_counts);
}

pub finish_new :
    (p : String) (id : ℕ) (s : Registry) → finish p true (some id) s ≡ (ok id, stored p id s)
unfolding finish
finish_new p id s =
    ground (arith, lookup-insert_self p 0 s.ref_counts, lookup-insert_self p id s.supervisors)

finish_failed :
    (p : String) (id : ℕ) (s : Registry) → finish p false (some id) s ≡ (err not_started, s)
unfolding finish
finish_failed p id s = refl

abbrev pub without : String → ℕ → ℕ → Registry → Registry
without p id n s = record s {
  supervisors = erase p s.supervisors;
  ref_counts = erase p (insert p n s.ref_counts);
  stopped = s.stopped ++ (id ∷ []);
}

pub release_last :
    (p : String) (s : Registry) {id : ℕ}
    → lookup p s.supervisors ≡ some id
    → lookup p s.ref_counts ≡ some 1
    → release p s ≡ (ok tt, without p id 0 s)
unfolding release
release_last p s x y = rw y (rw x refl)

pub release_more :
    (p : String) (s : Registry) {n : ℕ}
    → lookup p s.ref_counts ≡ some (suc (suc n))
    → release p s ≡ (ok tt, counted p (suc n) s)
unfolding release
release_more p s y = ground arith

pub release-none :
    (p : String) (s : Registry) → lookup p s.ref_counts ≡ none → release p s ≡ (ok tt, s)
unfolding release
release-none p s y = rw y refl

pub take_known :
    (p : String) (starts : Bool) (s : Registry) {id n : ℕ}
    → lookup p s.supervisors ≡ some id
    → lookup p s.ref_counts ≡ some n
    → get_or_create p starts s ≡ (ok id, counted p (suc n) s)
unfolding get_or_create
take_known p starts s x y =
    bind_ok (begin p) (finish p starts) s (begin_known p s x) ∙ finish_known p starts s x y

pub take_new :
    (p : String) (s : Registry)
    → lookup p s.supervisors ≡ none
    → get_or_create p true s ≡ (ok s.made, stored p s.made (record s { made = suc s.made }))
unfolding get_or_create
take_new p s x =
    bind_ok (begin p) (finish p true) s (begin_new p s x)
    ∙ finish_new p s.made (record s { made = suc s.made })

pub take_failed :
    (p : String) (s : Registry)
    → lookup p s.supervisors ≡ none
    → get_or_create p false s ≡ (err not_started, record s { made = suc s.made })
unfolding get_or_create
take_failed p s x =
    bind_ok (begin p) (finish p false) s (begin_new p s x)
    ∙ finish_failed p s.made (record s { made = suc s.made })
