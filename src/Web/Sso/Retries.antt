-- ===== src/Web/Sso/Retries.antt =====
-- The exchange of a handoff and its retries: web/src/auth/sso-client.ts and oauth-errors.ts.
use upstat.Common.{
  ℕ, zero, suc, ◌≤◌, String, ◌≡◌, refl, ◌⊎◌, inl, inr, Bool, true, false, not, ◌&&◌, Option, none,
  some, List, [], ◌∷◌, ◌++◌, arith, ltb, leb, if◌then◌else◌, nat_eq, string_eq, ◌==◌, Bool-cases,
  or_else,
}

-- What an attempt's `fetch` comes to: a throw (unreachable, or aborted after 15 s), or a response
-- with its status, and of its body, where that is JSON, the token and the error's code.
pub data Attempt : Type 0 where
  unreachable : Attempt
  response : ℕ → Option String → Option String → Attempt

-- SsoRequestError, and the token.
pub data Exchange : Type 0 where
  token : String → Exchange
  refused : ℕ → String → Exchange

abbrev pub is_ok : ℕ → Bool
is_ok status = leb 200 status && ltb status 300

abbrev non_empty : Option String → Option String
non_empty none = none
non_empty (some t) = if t == "" then none else some t

abbrev granted : Bool → Option String → Exchange → Exchange
granted true (some t) e = token t
granted true none e = e
granted false t e = e

unfoldable pub exchange_once : Attempt → Exchange
exchange_once unreachable = refused 0 "network_error"
exchange_once (response status t code) =
    granted (is_ok status) (non_empty t) (refused status (or_else code "exchange_failed"))

-- Whether the loop goes on after an attempt.
abbrev pub retried : Exchange → Bool
retried (token t) = false
retried (refused status code) = not (not (status == 0) && ltb status 500)

abbrev pub retry_delays_ms : List ℕ
retry_delays_ms = 0 ∷ 1000 ∷ 3000 ∷ 7000 ∷ []

-- The loop from the attempt with the number `i` on: its outcome (`none` is `throw undefined`), and
-- the sleeps made.
pub record Outcome : Type 0 where
  pub result : Option Exchange
  pub attempts : ℕ
  pub slept : List ℕ

abbrev sleep : ℕ → List ℕ → List ℕ
sleep delay slept = if ltb 0 delay then slept ++ delay ∷ [] else slept

unfoldable pub exchange_from : (ℕ → Attempt) → ℕ → Option Exchange → List ℕ → List ℕ → Outcome
exchange_from answers i last slept [] = record { result = last; attempts = i; slept = slept }
exchange_from answers i last slept (delay ∷ delays) =
    let now = sleep delay slept in
    let got = exchange_once (answers i) in
    let rest = exchange_from answers (suc i) (some got) now delays in
    if retried got then rest else record { result = some got; attempts = suc i; slept = now }

unfoldable pub exchange_handoff : (ℕ → Attempt) → Outcome
unfolding exchange_from
exchange_handoff answers = exchange_from answers 0 none [] retry_delays_ms

-- getSsoCompletionErrorMessage of an exchange that failed.
abbrev default_oauth_error : String
default_oauth_error = "Google sign-in could not be completed. Please try again."

unfoldable pub completion_message : ℕ → String → String
completion_message status code =
    if code == "handoff_invalid"
    then "Your sign-in session expired or was already used. Please try again."
    else if status == 0
    then "We could not reach Upstat. Check your connection and try again."
    else if leb 500 status
    then "Google sign-in is temporarily unavailable. Please try again."
    else default_oauth_error

-- What comes before each attempt.
abbrev pub waits : ℕ → List ℕ
waits zero = []
waits (suc zero) = 1000 ∷ []
waits (suc (suc zero)) = 1000 ∷ 3000 ∷ []
waits (suc (suc (suc k))) = 1000 ∷ 3000 ∷ 7000 ∷ []

-- The attempts before the one with the number `k` all failed in a way that is retried.
abbrev pub Failed : (ℕ → Attempt) → ℕ → Type 0
Failed answers zero = Unit {0}
Failed answers (suc k) = Failed answers k × (retried (exchange_once (answers k)) ≡ true)

-- The exchange ends within four attempts, with the answer of the last one: there is a number `k`
-- up to 3 such that the attempts before it all failed by the network or with a status from 500 on,
-- attempt `k` is the last one made and its answer is the result, and unless `k` is 3 it is a token
-- or a failure with another status; it has slept 1, 3 and 7 seconds before the attempts 1 to `k`.
pub exchange_handoff_ends :
    (answers : ℕ → Attempt)
    → let out = exchange_handoff answers in
      (k : ℕ) × (k ≤ 3)
      × Failed answers k
      × ((k ≡ 3) ⊎ (retried (exchange_once (answers k)) ≡ false))
      × (out.result ≡ some (exchange_once (answers k)))
      × (out.attempts ≡ suc k)
      × (out.slept ≡ waits k)
unfolding exchange_handoff
exchange_handoff_ends answers =
    let cases = λ (i : ℕ). Bool-cases (retried (exchange_once (answers i))) in
    elim (cases 0) [
      | inr e0 ↦ (0, omega arith, tt, inr e0, rw e0, rw e0, rw e0)
      | inl r0 ↦ elim (cases 1) [
        | inr e1 ↦ (1, omega arith, (tt, r0), inr e1, rw (r0, e1), rw (r0, e1), rw (r0, e1))
        | inl r1 ↦ elim (cases 2) [
          | inr e2 ↦ (
            2,
            omega arith,
            ((tt, r0), r1),
            inr e2,
            rw (r0, r1, e2),
            rw (r0, r1, e2),
            rw (r0, r1, e2),
          )
          | inl r2 ↦ (
            3,
            omega arith,
            (((tt, r0), r1), r2),
            inl refl,
            ground arith,
            ground arith,
            ground arith,
          )
        ]
      ]
    ]
