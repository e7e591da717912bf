-- ===== src/Platform/Supervisors/Tests.antt =====
-- The theorems about polytrader/platform/supervisor_registry.py at one pattern and a few calls.
use polytrader.Prelude.{◌≡◌, refl, true, false, none, List, [], ◌∷◌, ltb, string_eq}
use polytrader.Dict.{lookup, contains}
use polytrader.Effect.{ok}
use polytrader.Platform.Supervisors.{new_registry, get_ref_count}
use polytrader.Platform.Supervisors.Counting.{Call, takes, releases, run, users, run-users}
use polytrader.Platform.Supervisors.Overlap.{overlapping, overlapping_lost}

abbrev calls : List Call
calls =
    takes "btc" false ∷ takes "btc" true ∷ takes "eth" true ∷ takes "btc" true ∷ releases "btc" ∷ []

run-users_example :
    let s = run calls new_registry in
    (get_ref_count "btc" s ≡ users calls "btc" 0)
    × (contains "btc" s.supervisors ≡ ltb 0 (users calls "btc" 0))
run-users_example = run-users calls "btc"

none_there : lookup "btc" new_registry.supervisors ≡ none
unfolding lookup
none_there = refl

overlapping_lost_example :
    let (r, t) = overlapping "btc" new_registry in
    (r ≡ ok tt)
    × (lookup "btc" t.supervisors ≡ none)
    × (get_ref_count "btc" t ≡ 0)
    × (t.made ≡ 2)
    × (t.stopped ≡ 1 ∷ [])
overlapping_lost_example = overlapping_lost "btc" new_registry none_there
