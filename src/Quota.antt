-- ===== src/Quota.antt =====
-- quota/quota.service.ts: byte quotas, event rates, source limits and the daily salts.
pub mod Window
pub mod Local
pub mod Shared
pub mod Refines
pub mod Salts
mod Tests
use upstat.Common.{
  ℕ, zero, suc, ◌+◌, ◌-◌, ◌*◌, ◌/◌, ◌%◌, ◌≤◌, ◌<◌, min, max, String, ◌≡◌, refl, sym, ap, ◌∙◌, ◌≢◌,
  ◌↔◌, ◌⊎◌, inl, inr, Bool, true, false, not, ◌&&◌, ◌||◌, Option, none, some, List, [], ◌∷◌, ◌++◌,
  map, arith, eq_iff, eq_refl, ltb, leb, nat_beq, if◌then◌else◌, nat_beq_iff, Eq, ◌==◌, nat_eq,
  string_eq, ltb→lt, lt→ltb, leb→le, Bool-cases, Option-cases, or_else, is_some, length, get_elem?,
  filter, total, length-append, total-append, All, All-append, includes, ApiError, Failure, Result,
  Action, and_then, ◌>>=◌, ◌>>◌, return, throw, caught, try, ok, err, api, other, Dict, get, put,
  delete, has, get-put, get-delete, length-put,
}
use upstat.Common.Text.{to_string}
use upstat.Errors.{unavailable}
use upstat.Valkey
use upstat.Valkey.{Redis, Valkey, Link, eval}
use Prim.Native.String

pub record Verdict : Type 0 where
  pub ok : Bool
  pub retry_after : ℕ

pub record Slot : Type 0 where
  pub window : ℕ
  pub used : ℕ

-- The service's fields, and the shared store that its scripts run on.
pub record Quota (S : Type 0) : Type 0 where
  pub local : Dict Slot
  pub salts : Dict String
  pub store : S

abbrev pub shared : {S A : Type 0} → Action S A → Action (Quota S) A
shared m q = ((m q.store).0, record q { store = (m q.store).1 })

abbrev pub max_slots : ℕ
max_slots = 50_000

-- `Math.floor(now / 1000 / windowSeconds)`.
unfoldable pub window_of : ℕ → ℕ → ℕ
window_of window_seconds now = now / (1000 * window_seconds)

-- `Math.max(1, Math.ceil((window + 1) * windowSeconds - now / 1000))`, over milliseconds.
unfoldable pub retry_after : ℕ → ℕ → ℕ
unfolding window_of
retry_after window_seconds now =
    max 1 (((window_of window_seconds now + 1) * window_seconds * 1000 - now + 999) / 1000)

abbrev pub granted : Verdict
granted = record { ok = true; retry_after = 0 }

abbrev pub refused : ℕ → ℕ → Verdict
refused window_seconds now = record { ok = false; retry_after = retry_after window_seconds now }

abbrev pub used_in : Option Slot → ℕ → ℕ
used_in none window = 0
used_in (some slot) window = if slot.window == window then slot.used else 0

-- The in-memory counter of a single local process.
unfoldable pub take_local : String → ℕ → ℕ → ℕ → ℕ → Dict Slot → Verdict × Dict Slot
unfolding window_of
take_local k cost limit window_seconds now local =
    let window = window_of window_seconds now in
    let used = used_in (get local k) window + cost in
    let grown = put local k (record { window = window; used = used }) in
    if ltb limit used
    then (refused window_seconds now, local)
    else (granted, if ltb max_slots (length grown) then [] else grown)

module _ (R : Redis) where
  -- TAKE_SCRIPT.
  unfoldable pub take_script : String → ℕ → ℕ → ℕ → R.Store → ℕ × R.Store
  take_script k cost limit ttl s =
      let used = (R.incrby k cost s).0 in
      let counted = (R.incrby k cost s).1 in
      let lasting = if used == cost then R.expire k ttl counted else counted in
      if ltb limit used then (0, R.decrby k cost lasting) else (1, lasting)

  -- SALT_SCRIPT.
  unfoldable pub salt_script : String → String → ℕ → R.Store → Option String × R.Store
  salt_script k salt ttl s = let kept = R.set_nx_ex k salt ttl s in (R.get k kept, kept)

abbrev pub window_key : Valkey → String → ℕ → String
window_key v k window =
    Valkey.key v (String.◌++◌ (String.◌++◌ "q:" k) (String.◌++◌ ":" (to_string window)))

module _ (R : Redis) (v : Valkey) (link : Link) where
  unfoldable pub take : String → ℕ → ℕ → ℕ → ℕ → Action (Quota R.Store) Verdict
  unfolding window_of take_local take_script eval
  take k cost limit window_seconds now q =
      if v.enabled
      then (do
        allowed ← shared (
            eval v link (
              take_script R (window_key v k (window_of window_seconds now)) cost limit
                (window_seconds * 2)))
        return (if allowed == 1 then granted else refused window_seconds now))
          q
      else (
        ok (take_local k cost limit window_seconds now q.local).0,
        record q { local = (take_local k cost limit window_seconds now q.local).1 },
      )

-- What the salt takes from the platform: base64 and the start of a UTC day in milliseconds
-- (`none` for a text that names no day).
pub record Platform : Type 0 where
  pub to_base64 : String → String
  pub from_base64 : String → String
  pub day_start : String → Option ℕ

abbrev pub hour_ms : ℕ
hour_ms = 3_600_000

-- Milliseconds to seconds, rounded up.
abbrev pub seconds_up : ℕ → ℕ
seconds_up ms = (ms + 999) / 1000

abbrev pub salt_ttl : ℕ → ℕ → ℕ
salt_ttl start now = max 60 (seconds_up (start + 24 * hour_ms + 48 * hour_ms - now))

module _ (p : Platform) where
  -- The loop that drops the salts of days that began more than 72 h ago.
  abbrev pub is_alive : ℕ → String × String → Bool
  is_alive now (day, salt) = elim (p.day_start day) [
    | none ↦ true
    | some start ↦ not (ltb (start + 72 * hour_ms) now)
  ]

  abbrev pub remember : {S : Type 0} → String → ℕ → String → Action (Quota S) String
  remember day now salt q =
      (ok salt, record q { salts = filter (is_alive now) (put q.salts day salt) })

  -- A text that names no day makes the expiry NaN, which the command refuses.
  abbrev pub store_salt :
      (R : Redis) (v : Valkey) (link : Link)
      → String
      → ℕ
      → String
      → Action (Quota R.Store) (Option String)
  store_salt R v link day now fresh = elim (p.day_start day) [
    | none ↦ throw (unavailable 2)
    | some start ↦ shared (
        eval v link (
          salt_script R (Valkey.key v (String.◌++◌ "salt:" day)) (p.to_base64 fresh)
            (salt_ttl start now)))
  ]

  abbrev pub decode_salt : {S : Type 0} → String → ℕ → Option String → Action (Quota S) String
  decode_salt day now none = throw (unavailable 2)
  decode_salt day now (some stored) = remember day now (p.from_base64 stored)

  -- `fresh` is what randomBytes(32) returned.
  unfoldable pub salt :
      (R : Redis) (v : Valkey) (link : Link) → String → ℕ → String → Action (Quota R.Store) String
  unfolding eval salt_script
  salt R v link day now fresh q = elim (get q.salts day) [
    | some cached ↦ (ok cached, q)
    | none ↦
        if v.enabled
        then (do stored ← store_salt R v link day now fresh; decode_salt day now stored) q
        else remember day now fresh q
  ]
