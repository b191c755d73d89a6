-- ===== src/Web/Sso/Tests.antt =====
-- Sign-ins, exchanges and sessions at concrete values, and the theorems at them.
use upstat.Common.{
  ℕ, zero, suc, ◌≤◌, String, ◌≡◌, refl, ◌⊎◌, false, Option, none, some, List, [], ◌∷◌,
  if◌then◌else◌, nat_eq, string_eq, ◌==◌, ok,
}
use upstat.Web.Sso.{Storage, store_verifier, take_verifier, parsed, verifier_of}
use upstat.Web.Sso.Verifiers.{take_verifier-store_verifier}
use upstat.Web.Sso.Retries.{
  Attempt, unreachable, response, token, exchange_once, exchange_handoff, retried, Failed, waits,
  exchange_handoff_ends, completion_message,
}
use upstat.Web.Sso.Base64.{base64_url}
use upstat.Web.Sso.Sessions.{Payload, AuthUser, current_user, id_token, id_token_lem, lapsed}
use upstat.Web.Sso.{read_stored_token}

abbrev open_storage : Storage
open_storage = record { blocked = false; verifier = none; token = some "t.p.s" }

take_verifier-store_verifier_example :
    let (kept, s1) = store_verifier 1000 "https://upstat.io" "v" open_storage in
    let (found, s2) = take_verifier 2000 "https://upstat.io" s1 in
    let (again, s3) = take_verifier 3000 "https://upstat.io" s2 in
    (kept ≡ ok tt)
    × (found ≡ ok (some "v"))
    × (again ≡ ok none)
    × (s2.token ≡ some "t.p.s")
    × (s3.token ≡ some "t.p.s")
take_verifier-store_verifier_example =
    take_verifier-store_verifier 1000 2000 3000 "https://upstat.io" "https://upstat.io" "v"
      open_storage refl

-- A text without `expiresAt` never expires.
no_expiry :
    verifier_of 99999999 "o" (
      parsed
        (record { version = some 1; verifier = some "v"; owner = some "o"; expires_at = none }))
    ≡ some "v"
unfolding verifier_of
no_expiry = refl

abbrev flaky : ℕ → Attempt
flaky zero = unreachable
flaky (suc zero) = response 503 none none
flaky (suc (suc n)) = response 200 (some "session") none

flaky_exchange : (exchange_handoff flaky).result ≡ some (token "session")
unfolding exchange_handoff exchange_once
flaky_exchange = refl

exchange_handoff_ends_example :
    let out = exchange_handoff flaky in
    (k : ℕ) × (k ≤ 3)
    × Failed flaky k
    × ((k ≡ 3) ⊎ (retried (exchange_once (flaky k)) ≡ false))
    × (out.result ≡ some (exchange_once (flaky k)))
    × (out.attempts ≡ suc k)
    × (out.slept ≡ waits k)
exchange_handoff_ends_example = exchange_handoff_ends flaky

used_handoff :
    completion_message 401 "handoff_invalid"
    ≡ "Your sign-in session expired or was already used. Please try again."
unfolding completion_message
used_handoff = refl

abbrev zeros : ℕ → List ℕ
zeros zero = []
zeros (suc n) = 255 ∷ zeros n

base64_of_three : base64_url (77 ∷ 97 ∷ 62 ∷ []) ≡ b'T' ∷ b'W' ∷ b'E' ∷ b'-' ∷ []
unfolding base64_url
base64_of_three = refl

abbrev ada : Payload
ada = record { user_id = some "u1"; email = some "a@b"; name = none; exp = some 50 }

abbrev decode : String → Option Payload
decode t = if t == "t.p.s" then some ada else none

signed_in : id_token decode 49999 open_storage ≡ some "t.p.s"
unfolding id_token current_user read_stored_token
signed_in = refl

id_token_lem_example :
    (p : Payload) × (u : AuthUser) × (open_storage.blocked ≡ false)
    × (open_storage.token ≡ some "t.p.s")
    × (decode "t.p.s" ≡ some p)
    × (current_user decode 49999 open_storage ≡ some u)
    × (p.user_id ≡ some u.id)
    × (p.email ≡ some u.email)
    × (lapsed 49999 p.exp ≡ false)
id_token_lem_example = id_token_lem decode 49999 open_storage "t.p.s" signed_in
