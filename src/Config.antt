-- ===== src/Config.antt =====
-- config/config.ts: the environment, checked at startup. `Number` of a text is a parameter.
pub mod Load
pub mod Valid
mod Tests
use upstat.Common.{
  ℕ, zero, suc, ◌+◌, ◌-◌, ◌*◌, ◌/◌, ◌%◌, ◌≤◌, ◌<◌, min, max, String, ◌≡◌, refl, sym, ap, ◌∙◌, ◌≢◌,
  ◌↔◌, ◌⊎◌, inl, inr, Bool, true, false, not, ◌&&◌, ◌||◌, Option, none, some, List, [], ◌∷◌, ◌++◌,
  map, arith, eq_iff, eq_refl, ltb, leb, nat_beq, if◌then◌else◌, nat_beq_iff, Eq, nat_eq, ltb→lt,
  lt→ltb, leb→le, string_eq, ◌==◌, Bool-cases, Option-cases, or_else, is_some, length, get_elem?,
  filter, total, length-append, total-append, All, All-append, includes, ApiError, Failure, Result,
  Action, and_then, ◌>>=◌, ◌>>◌, return, throw, caught, try, Result-cases, and_then_ok,
  and_then_err, caught_quiet, caught_state, ok, err, api, other, Dict, get, put, delete, has,
  get-put, get-delete, length-put, get-filter_of_false, get-filter_of_true, get-put_self, Entries,
  Entries-put, Entries-get, IsMap, put-IsMap, get_of_mem,
}
use Prim.Native.String
use upstat.Common.Int.{ℤ, pos}
use upstat.Common.Text.{trim, split, is_empty, eq_lower, trim_slashes, to_string}
use upstat.Usage.{◌&◌}

-- What `Number` makes of a text: an integer, another number with whether it is above 0, or NaN.
pub data Number : Type 0 where
  integer : ℤ → Number
  inexact : Bool → String → Number
  nan : Number

pub data Transport : Type 0 where
  http grpc both : Transport

pub data Driver : Type 0 where
  gcs s3 : Driver

pub record Kafka : Type 0 where
  pub brokers : List String
  pub username : String
  pub password : String
  pub ssl_ca : String

pub record Storage : Type 0 where
  pub driver : Driver
  pub bucket : String
  pub prefix : String
  pub endpoint : String
  pub access_key : String
  pub secret_key : String
  pub use_ssl : Bool

pub record RedisConfig : Type 0 where
  pub host : String
  pub port : Number
  pub username : String
  pub password : String
  pub tls : Bool
  pub db : Number
  pub prefix : String
  pub required : Bool

pub record Config : Type 0 where
  pub port : Number
  pub grpc_port : Number
  pub transport : Transport
  pub collector_url : String
  pub collector_timeout_ms : ℕ
  pub kafka : Kafka
  pub storage : Storage
  pub redis : RedisConfig
  pub bytes_per_second : Number
  pub config_max_age_ms : ℕ
  pub max_body_bytes : ℕ
  pub max_concurrent_bodies : ℕ
  pub trust_proxy : Bool
  pub trust_proxy_hops : ℕ
  pub contract_dir : String

abbrev pub Environment : Type 0
Environment = String → Option String

-- A check of one variable: what is wrong is pushed onto `missing`, and the loading goes on.
abbrev pub Check : Type 0 → Type 0
Check A = List String → A × List String

unfoldable pub complain : Bool → String → List String → List String
complain wrong what missing = if wrong then missing ++ what ∷ [] else missing

-- `env[name]?.trim()`, and `""` for one that is not set.
unfoldable pub trimmed : Environment → String → String
unfolding trim
trimmed env name = elim (env name) [ none ↦ "" | some value ↦ trim value ]

unfoldable pub required : Environment → String → Check String
unfolding trimmed complain
required env name missing = (trimmed env name, complain (is_empty (trimmed env name)) name missing)

unfoldable pub list : String → List String
unfolding split trim
list raw = filter (λ v. not (is_empty v)) (map trim (split b',' raw))

abbrev pub at_least_one : String → Number → Check ℕ
at_least_one name (integer (pos (suc n))) missing = (suc n, missing)
at_least_one name _ missing = (1, missing ++ (name & " (integer >= 1)") ∷ [])

-- `positive`. The value of a wrong one is never used, since the loading then throws.
unfoldable pub positive : (String → Number) → Environment → String → ℕ → Check ℕ
unfolding trimmed
positive number env name fallback missing =
    if is_empty (trimmed env name)
    then (fallback, missing)
    else at_least_one name (number (trimmed env name)) missing

abbrev pub above_zero : Number → Bool
above_zero (integer (pos (suc n))) = true
above_zero (inexact above _) = above
above_zero _ = false

abbrev pub is_set : Option String → Bool
is_set none = false
is_set (some value) = not (is_empty value)

abbrev pub driver_of : String → Option Driver
driver_of raw = if raw == "gcs" then some gcs else if raw == "s3" then some s3 else none

-- The text in lower case is one of the three names.
unfoldable pub transport_of : String → Option Transport
unfolding eq_lower
transport_of raw =
    if eq_lower raw "http"
    then some http
    else if eq_lower raw "grpc"
    then some grpc
    else if eq_lower raw "both"
    then some both
    else none

abbrev pub is_both : Option Transport → Bool
is_both (some both) = true
is_both _ = false

abbrev pub is_s3 : Option Driver → Bool
is_s3 (some s3) = true
is_s3 _ = false

-- `missing.join(", ")`.
abbrev pub joined : List String → String
joined [] = ""
joined (m ∷ []) = m
joined (m ∷ n ∷ ms) = m & ", " & joined (n ∷ ms)

-- A flag that overrides a default when it is set to a text that is not empty.
abbrev pub flag : Option String → Bool → Bool
flag value default = if is_set value then or_else value "" == "true" else default

abbrev pub number_or : (String → Number) → Option String → ℕ → Number
number_or number none default = integer (pos default)
number_or number (some raw) default = number raw
