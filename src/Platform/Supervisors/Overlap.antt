-- ===== src/Platform/Supervisors/Overlap.antt =====
-- What two overlapping calls of `get_or_create` of polytrader/platform/supervisor_registry.py do.
use polytrader.Prelude.{
  ◌≡◌, refl, ◌∙◌, String, zero, suc, true, none, some, [], ◌∷◌, ◌++◌, string_eq,
}
use polytrader.Dict.{lookup, lookup-insert_self}
use polytrader.Effect.{Done, ok, bind_ok, ◌>>=◌, ◌>>◌}
use polytrader.Platform.Supervisors.{Registry, Step, begin, finish, release, get_ref_count}
use polytrader.Platform.Supervisors.Steps.{
  erased, begin_new, finish_new, release_last, stored, without,
}
use polytrader.Platform.Supervisors.Counting.{Entry-counts}

-- Two calls of `get_or_create` that both come to `await supervisor.start()` before one of them
-- goes on, and then one release.
abbrev pub overlapping : String → Step Done
overlapping p = begin p >>= λ a. begin p >>= λ b. finish p true a >> finish p true b >> release p

abbrev both_made : Registry → Registry
both_made s = record s { made = suc (suc s.made) }

abbrev both_stored : String → Registry → Registry
both_stored p s = stored p (suc s.made) (stored p s.made (both_made s))

overlapping_eq :
    (p : String) (s : Registry)
    → lookup p s.supervisors ≡ none
    → overlapping p s ≡ (ok tt, without p (suc s.made) 0 (both_stored p s))
overlapping_eq p s x =
    bind_ok (begin p) (λ a. begin p >>= λ b. finish p true a >> finish p true b >> release p) s
      (begin_new p s x)
    ∙ bind_ok (begin p) (λ b. finish p true (some s.made) >> finish p true b >> release p)
        (record s { made = suc s.made }) (begin_new p (record s { made = suc s.made }) x)
    ∙ bind_ok (finish p true (some s.made) >> finish p true (some (suc s.made))) (λ b. release p)
        (both_made s)
        (bind_ok (finish p true (some s.made)) (λ a. finish p true (some (suc s.made)))
            (both_made s) (finish_new p s.made (both_made s))
          ∙ finish_new p (suc s.made) (stored p s.made (both_made s)))
    ∙ release_last p (both_stored p s) (lookup-insert_self p (suc s.made) _)
        (lookup-insert_self p 1 _)

-- Where the pattern has no supervisor, two are made, and none of the calls raises. After the one
-- release of the two users, the pattern has no supervisor and no count: the second supervisor is
-- stopped, and the first one is not.
pub overlapping_lost :
    (p : String) (s : Registry)
    → lookup p s.supervisors ≡ none
    → let (r, t) = overlapping p s in
      (r ≡ ok tt)
      × (lookup p t.supervisors ≡ none)
      × (get_ref_count p t ≡ 0)
      × (t.made ≡ suc (suc s.made))
      × (t.stopped ≡ s.stopped ++ (suc s.made ∷ []))
overlapping_lost p s x =
    rw (overlapping_eq p s x)
      (refl, erased p _, (Entry-counts p _ zero (erased p _, erased p _)).0, refl, refl)
