-- ===== src/Web/Requests/Tests.antt =====
-- Turns of a request and of the metrics explorer, and the theorems at them.
use upstat.Common.{
  ℕ, ◌≡◌, refl, true, false, none, some, [], ◌∷◌, arith, nat_eq, string_eq, ok, err, other,
}
use upstat.Web.Latest.{call, answer, run}
use upstat.Web.Requests.{Request, use_request, use_request-latest}

abbrev idle : Request ℕ
idle = record { loaded = none; loading = true; error = none; seq = 0 }

-- Two reloads, the second answered first; the late first answer is dropped.
late_answer :
    run use_request (call ∷ call ∷ answer 2 (ok 7) ∷ answer 1 (ok 5) ∷ []) idle
    ≡ record { loaded = some 7; loading = false; error = none; seq = 2 }
unfolding run
late_answer = refl

-- The second of two reloads fails after the first was answered late.
use_request-latest_example :
    let waiting = run use_request (call ∷ call ∷ answer 1 (ok 5) ∷ []) idle in
    let last =
      run use_request
        (call ∷ call ∷ answer 1 (ok 5) ∷ answer 2 (err (other "down")) ∷ answer 1 (ok 6) ∷ [])
        idle in
    (waiting.loading ≡ true)
    × (waiting.error ≡ none)
    × (last.loading ≡ false)
    × (last.loaded ≡ none)
    × (last.error ≡ some (other "down"))
unfolding run
use_request-latest_example =
    use_request-latest (call ∷ []) (answer 1 (ok 5) ∷ []) (answer 1 (ok 6) ∷ [])
      (err (other "down")) idle (omega arith, tt) (omega arith, tt)
