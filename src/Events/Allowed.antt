-- ===== src/Events/Allowed.antt =====
-- Whom the events endpoint accepts.
use upstat.Common.{
  ◌≡◌, inl, inr, true, some, [], ◌∷◌, arith, nat_eq, string_eq, Bool-cases, Result-cases, ok, get,
}
use upstat.Common.Text.{is_empty}
use upstat.Valkey.{Redis}
use upstat.ConfigCache.{IngestKey, property_key, rum}
use upstat.ConfigCache.Lookup.{live, lookup_fresh}
use upstat.ConfigCache.Sound.{IsLive, lookup-live_iff}
use upstat.ConfigCache.Answers.{lookup_fresh-live, Lookup-cases}
use upstat.Gateway.{Gateway, Env, take_source}
use upstat.Otlp.{preauth_per_minute}
use upstat.Events.Batch.{Context, authorize, authenticate, allows_origin}

module _ {R : Redis} (env : Env R) where
  authorize-found :
      (ctx : Context) (g : Gateway R.Store) (key : IngestKey)
      → (authorize env ctx g).0 ≡ ok key
      → ((lookup_fresh env.library ctx.plain_key property_key
            (rum ∷ [])
            env.at.lookup
            env.keys_fetch
            g.cache).0
          ≡ live key)
        × ((authorize env ctx g).1.cache
            ≡ (lookup_fresh env.library ctx.plain_key property_key
                (rum ∷ [])
                env.at.lookup
                env.keys_fetch
                g.cache).1)
        × (allows_origin key ctx.origin ≡ true)
  unfolding authorize
  authorize-found ctx g key h = elim (Bool-cases (is_empty ctx.plain_key)) [
    | inl empty ↦ absurd (ground (arith, empty))
    | inr sent ↦
        let asked =
          lookup_fresh env.library ctx.plain_key property_key (rum ∷ []) env.at.lookup
            env.keys_fetch g.cache in
        elim (Lookup-cases asked.0) [
          | inr (inl q) ↦ absurd (ground (arith, sent, q))
          | inr (inr q) ↦ absurd (ground (arith, sent, q))
          | inl (k, q) ↦ elim (Bool-cases (allows_origin k ctx.origin)) [
            | inr foreign ↦ absurd (ground (arith, sent, q, foreign))
            | inl allowed ↦ ground (arith, sent, q, allowed)
          ]
        ]
  ]

  -- A key that the events endpoint accepts is held as live by the copy of the keys that the request
  -- leaves, as a property key for rum, and its allowlist names the Origin, if one was sent.
  pub authorize-IsLive :
      (ctx : Context) (g : Gateway R.Store) (key : IngestKey)
      → (authorize env ctx g).0 ≡ ok key
      → (get (authorize env ctx g).1.cache.keys (env.library.sha256 ctx.plain_key) ≡ some key)
        × IsLive env.library
            (env.library.sha256 ctx.plain_key)
            property_key
            (rum ∷ [])
            env.at.lookup
            key
        × (allows_origin key ctx.origin ≡ true)
  authorize-IsLive ctx g key h =
      let (answered, left, allowed) = authorize-found ctx g key h in
      let held =
        lookup_fresh-live env.library ctx.plain_key property_key (rum ∷ []) env.at.lookup
          env.keys_fetch g.cache key answered in
      let (stored, fit) =
        (lookup-live_iff env.library ctx.plain_key property_key (rum ∷ []) env.at.lookup
            (authorize env ctx g).1.cache key).0
          (rw left held) in
      (stored, fit, allowed)

  authenticate-authorize :
      (ctx : Context) (g : Gateway R.Store) (key : IngestKey)
      → (authenticate env ctx g).0 ≡ ok key
      → (authenticate env ctx g ≡ authorize env ctx (take_source env ctx.ip preauth_per_minute g).1)
  unfolding authenticate
  authenticate-authorize ctx g key h =
      elim (Result-cases (take_source env ctx.ip preauth_per_minute g).0) [
        | inl (x, failed) ↦ absurd (ground (arith, failed))
        | inr (verdict, took) ↦ elim (Bool-cases verdict.ok) [
          | inr over ↦ absurd (ground (arith, took, over))
          | inl within ↦ ground (arith, took, within)
        ]
      ]

  pub authenticate-allows :
      (ctx : Context) (g : Gateway R.Store) (key : IngestKey)
      → (authenticate env ctx g).0 ≡ ok key
      → (get (authenticate env ctx g).1.cache.keys (env.library.sha256 ctx.plain_key) ≡ some key)
        × IsLive env.library
            (env.library.sha256 ctx.plain_key)
            property_key
            (rum ∷ [])
            env.at.lookup
            key
        × (allows_origin key ctx.origin ≡ true)
  authenticate-allows ctx g key h =
      let same = authenticate-authorize ctx g key h in
      rw same
        (authorize-IsLive ctx (take_source env ctx.ip preauth_per_minute g).1 key (rw same at h))
