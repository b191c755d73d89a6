-- ===== src/Web/Sso.antt =====
-- Google sign-in: web/src/auth/sso-client.ts. The session storage is a state of its two keys; a
-- text under the verifier's key is kept as what JSON.parse makes of it.
pub mod Base64
pub mod Verifiers
pub mod Retries
pub mod Sessions
mod Tests
use upstat.Common.{
  ℕ, zero, suc, ◌+◌, ◌-◌, ◌*◌, ◌/◌, ◌%◌, ◌≤◌, ◌<◌, min, max, String, ◌≡◌, refl, sym, ap, ◌∙◌, ◌≢◌,
  ◌↔◌, ◌⊎◌, inl, inr, Bool, true, false, not, ◌&&◌, ◌||◌, Option, none, some, List, [], ◌∷◌, ◌++◌,
  map, arith, eq_iff, eq_refl, ltb, leb, nat_beq, if◌then◌else◌, nat_beq_iff, Eq, nat_eq, ltb→lt,
  lt→ltb, leb→le, string_eq, ◌==◌, Bool-cases, Option-cases, or_else, is_some, length, get_elem?,
  filter, total, take, length-take, take_all, take-take, take-append_take, length-append,
  total-append, All, All-append, All-take, includes, ApiError, Failure, Result, Action, and_then,
  ◌>>=◌, ◌>>◌, return, throw, caught, try, Result-cases, and_then_ok, and_then_err, caught_quiet,
  caught_state, ok, err, api, other, Dict, get, put, delete, has, get-put, get-delete, length-put,
  get-filter_of_false, get-filter_of_true, get-put_self, Entries, Entries-put, Entries-get, IsMap,
  put-IsMap, get_of_mem,
}

abbrev pub verifier_ttl_ms : ℕ
verifier_ttl_ms = 10 * 60 * 1000

-- What is read of a parsed text: `none` for a field that is missing or of another type.
pub record Parsed : Type 0 where
  pub version : Option ℕ
  pub verifier : Option String
  pub owner : Option String
  pub expires_at : Option ℕ

-- A stored text: empty, no JSON, `null`, or JSON that has (or lacks) the fields of a record.
pub data Item : Type 0 where
  blank : Item
  no_json : Item
  null : Item
  parsed : Parsed → Item

pub record Storage : Type 0 where
  pub blocked : Bool
  pub verifier : Option Item
  pub token : Option String

-- A call of `window.sessionStorage`, which throws where storage is blocked.
abbrev pub access : {A : Type 0} → Action Storage A → Action Storage A
access m s = if s.blocked then (err (other "SecurityError"), s) else m s

-- What JSON.parse makes of the record that `storeVerifier` writes.
abbrev pub committed : ℕ → String → String → Parsed
committed now origin verifier = record {
  version = some 1;
  verifier = some verifier;
  owner = some origin;
  expires_at = some (now + verifier_ttl_ms);
}

unfoldable pub store_verifier : ℕ → String → String → Action Storage (Unit {0})
store_verifier now origin verifier =
    access (λ s. (ok tt, record s { verifier = some (parsed (committed now origin verifier)) }))

-- `record.expiresAt < Date.now()`; nothing compares with undefined.
abbrev pub expired : ℕ → Option ℕ → Bool
expired now none = false
expired now (some t) = ltb t now

abbrev pub is_version_one : Option ℕ → Bool
is_version_one none = false
is_version_one (some v) = v == 1

abbrev pub is_owner : String → Option String → Bool
is_owner origin none = false
is_owner origin (some o) = o == origin

-- What `takeVerifier` returns of a text; the TypeError on `null` is caught.
unfoldable pub verifier_of : ℕ → String → Item → Option String
verifier_of now origin blank = none
verifier_of now origin no_json = none
verifier_of now origin null = none
verifier_of now origin (parsed r) =
    if not (is_version_one r.version) || not (is_owner origin r.owner) || expired now r.expires_at
    then none
    else r.verifier

abbrev taken : ℕ → String → Option Item → Option String
taken now origin none = none
taken now origin (some i) = verifier_of now origin i

unfoldable pub take_verifier : ℕ → String → Action Storage (Option String)
unfolding verifier_of
take_verifier now origin =
    access (λ s. (ok (taken now origin s.verifier), record s { verifier = none }))

-- `readStoredToken`, `storeToken`, `clearToken`: only the second lets a throw through.
unfoldable pub read_stored_token : Storage → Option String
read_stored_token s = if s.blocked then none else s.token

unfoldable pub store_token : String → Action Storage (Unit {0})
store_token token = access (λ s. (ok tt, record s { token = some token }))

unfoldable pub clear_token : Storage → Storage
clear_token s = if s.blocked then s else record s { token = none }
