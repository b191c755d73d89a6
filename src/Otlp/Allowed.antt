-- ===== src/Otlp/Allowed.antt =====
-- Whom the OTLP endpoints accept.
use upstat.Common.{
  true, String, ◌≡◌, inl, inr, Bool, some, [], ◌∷◌, arith, nat_eq, string_eq, ◌==◌, Bool-cases,
  Result-cases, and_then_ok, and_then_err, ok, get,
}
use upstat.Valkey.{Redis}
use upstat.ConfigCache.{Cache, IngestKey, ingestion_token, otlp}
use upstat.ConfigCache.Lookup.{Lookup, live, lookup_fresh}
use upstat.ConfigCache.Sound.{IsLive, lookup-live_iff}
use upstat.ConfigCache.Answers.{lookup_fresh-live, Lookup-cases}
use upstat.Quota.{Verdict}
use upstat.Gateway.{Gateway, Env, take_source}
use upstat.Otlp.{preauth_per_minute, authenticate, check_source, check_key}

module _ {R : Redis} (env : Env R) where
  abbrev asked : String → Gateway R.Store → Lookup × Cache
  asked plain g =
      lookup_fresh env.library plain ingestion_token (otlp ∷ []) env.at.lookup env.keys_fetch
        g.cache

  check_key-found :
      (plain : String) (g : Gateway R.Store) (key : IngestKey)
      → (check_key env plain g).0 ≡ ok key
      → ((asked plain g).0 ≡ live key) × ((check_key env plain g).1.cache ≡ (asked plain g).1)
  check_key-found plain g key h = elim (Bool-cases (plain == "")) [
    | inl empty ↦ absurd (ground (arith, empty))
    | inr sent ↦ elim (Lookup-cases (asked plain g).0) [
      | inr (inl q) ↦ absurd (ground (arith, sent, q))
      | inr (inr q) ↦ absurd (ground (arith, sent, q))
      | inl (k, q) ↦ ground (arith, sent, q)
    ]
  ]

  check_key-IsLive :
      (plain : String) (g : Gateway R.Store) (key : IngestKey)
      → (check_key env plain g).0 ≡ ok key
      → (get (check_key env plain g).1.cache.keys (env.library.sha256 plain) ≡ some key)
        × IsLive env.library
            (env.library.sha256 plain)
            ingestion_token
            (otlp ∷ [])
            env.at.lookup
            key
  check_key-IsLive plain g key h =
      let (answered, left) = check_key-found plain g key h in
      let held =
        lookup_fresh-live env.library plain ingestion_token (otlp ∷ []) env.at.lookup env.keys_fetch
          g.cache key answered in
      (lookup-live_iff env.library plain ingestion_token (otlp ∷ []) env.at.lookup
          (check_key env plain g).1.cache key).0
        (rw left held)

  -- With the check of the source, only a request within its rate authenticates.
  pub authenticate-within :
      (plain ip : String) (g : Gateway R.Store) (key : IngestKey)
      → (authenticate env plain ip true g).0 ≡ ok key
      → (verdict : Verdict) × ((take_source env ip preauth_per_minute g).0 ≡ ok verdict)
        × (verdict.ok ≡ true)
  unfolding authenticate
  authenticate-within plain ip g key h =
      elim (Result-cases (take_source env ip preauth_per_minute g).0) [
        | inl (e, failed) ↦ absurd (ground (arith, failed))
        | inr (verdict, took) ↦ elim (Bool-cases verdict.ok) [
          | inr over ↦ absurd (ground (arith, took, over))
          | inl within ↦ (verdict, took, within)
        ]
      ]

  -- A token that authenticates is held as live by the copy of the keys that the request leaves: an
  -- ingestion token for OTLP, not revoked, and if it was rotated out, within its grace.
  pub authenticate-IsLive :
      (plain ip : String) (preauth : Bool) (g : Gateway R.Store) (key : IngestKey)
      → (authenticate env plain ip preauth g).0 ≡ ok key
      → (get (authenticate env plain ip preauth g).1.cache.keys (env.library.sha256 plain)
          ≡ some key)
        × IsLive env.library
            (env.library.sha256 plain)
            ingestion_token
            (otlp ∷ [])
            env.at.lookup
            key
  unfolding authenticate
  authenticate-IsLive plain ip preauth g key h =
      elim (Result-cases (check_source env preauth ip g).0) [
        | inl (x, failed) ↦
            let step = rw (and_then_err (check_source env preauth ip g) _ x failed) at h in
            absurd cc
        | inr (_, passed) ↦
            let through =
              and_then_ok (check_source env preauth ip g) (λ _. check_key env plain) tt passed in
            rw through
              (check_key-IsLive plain (check_source env preauth ip g).1 key (rw through at h))
      ]
