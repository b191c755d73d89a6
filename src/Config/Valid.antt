-- ===== src/Config/Valid.antt =====
-- What holds of a configuration that loads.
use upstat.Common.{
  ℕ, zero, suc, ◌≤◌, String, ◌≡◌, refl, ◌≢◌, inl, inr, Bool, true, false, not, ◌&&◌, List, [], ◌∷◌,
  ◌++◌, arith, if◌then◌else◌, nat_eq, string_eq, Bool-cases, Option-cases, is_some, Failure, ok,
  err,
}
use mathlib.Core.Path.{subst}
use upstat.Common.Int.{pos, negsuc}
use upstat.Common.Text.{is_empty}
use upstat.Config.{
  Number, integer, inexact, nan, both, s3, Config, Environment, complain, trimmed, required,
  positive, at_least_one, above_zero, is_both, is_s3, transport_of,
}
use upstat.Config.Load.{
  Settings, check_env, conclude, config_of, load_config, invalid, transport_text, driver, grpc_port,
  redis_host, redis_required,
}

append-not_nil : (ms : List String) (m : String) → ms ++ m ∷ [] ≢ []
append-not_nil [] m e = cc
append-not_nil (x ∷ ms) m e = cc

complain-nil :
    (wrong : Bool) (what : String) (ms : List String)
    → complain wrong what ms ≡ []
    → (wrong ≡ false) × (ms ≡ [])
unfolding complain
complain-nil true what ms e = absurd (append-not_nil ms what e)
complain-nil false what ms e = (refl, e)

at_least_one-nil :
    (name : String) (n : Number) (ms : List String)
    → (at_least_one name n ms).1 ≡ []
    → (1 ≤ (at_least_one name n ms).0) × (ms ≡ [])
at_least_one-nil name (integer (pos (suc n))) ms e = (omega arith, e)
at_least_one-nil name (integer (pos zero)) ms e = absurd (append-not_nil ms _ e)
at_least_one-nil name (integer (negsuc n)) ms e = absurd (append-not_nil ms _ e)
at_least_one-nil name (inexact above shown) ms e = absurd (append-not_nil ms _ e)
at_least_one-nil name nan ms e = absurd (append-not_nil ms _ e)

module _ (number : String → Number) (env : Environment) where
  positive-nil :
      (name : String) (fallback : ℕ) (ms : List String)
      → 1 ≤ fallback
      → (positive number env name fallback ms).1 ≡ []
      → (1 ≤ (positive number env name fallback ms).0) × (ms ≡ [])
  unfolding positive
  positive-nil name fallback ms low e = elim (Bool-cases (is_empty (trimmed env name))) [
    | inl unset ↦ rw (unset, positive) (low, rw (unset, positive) at e)
    | inr set ↦
        rw (set, positive)
          (at_least_one-nil name (number (trimmed env name)) ms (rw (set, positive) at e))
  ]

  -- The checks that passed, once nothing is missing.
  pub record IsRunnable (c : Config) : Type 0 where
    pub brokers : is_empty (trimmed env "KAFKA_BROKERS") ≡ false
    pub bucket : c.storage.bucket ≡ trimmed env "STORAGE_BUCKET"
    pub bucket_set : is_empty c.storage.bucket ≡ false
    pub collector : is_empty (trimmed env "OTLP_LOADER_ENDPOINT") ≡ false
    pub endpoint : c.storage.driver ≡ s3 → is_empty (trimmed env "STORAGE_ENDPOINT") ≡ false
    pub second_port : c.transport ≡ both → above_zero c.grpc_port ≡ true
    pub redis : c.redis.required ≡ true → is_empty c.redis.host ≡ false
    pub age : 1000 ≤ c.config_max_age_ms
    pub body : 1 ≤ c.max_body_bytes
    pub bodies : 1 ≤ c.max_concurrent_bodies
    pub hops : 1 ≤ c.trust_proxy_hops
    pub timeout : 1 ≤ c.collector_timeout_ms

  -- What the checks ensure of the variables that were read.
  record IsChecked (s : Settings) : Type 0 where
    brokers : is_empty (trimmed env "KAFKA_BROKERS") ≡ false
    bucket : s.bucket ≡ trimmed env "STORAGE_BUCKET"
    bucket_set : is_empty s.bucket ≡ false
    collector : is_empty (trimmed env "OTLP_LOADER_ENDPOINT") ≡ false
    known_driver : is_some s.driver ≡ true
    known_transport : is_some s.transport ≡ true
    endpoint : is_s3 s.driver ≡ true → is_empty (trimmed env "STORAGE_ENDPOINT") ≡ false
    second_port : is_both s.transport ≡ true → above_zero s.grpc_port ≡ true
    redis : s.redis_required ≡ true → is_empty s.redis_host ≡ false
    age : 1 ≤ s.config_max_age
    body : 1 ≤ s.max_body_bytes
    bodies : 1 ≤ s.max_concurrent_bodies
    hops : 1 ≤ s.trust_proxy_hops
    timeout : 1 ≤ s.collector_timeout_ms

  endpoint-nil :
      (ms : List String)
      → (if is_s3 (driver number env) then (required env "STORAGE_ENDPOINT" ms).1 else ms) ≡ []
      → (is_s3 (driver number env) ≡ true → is_empty (trimmed env "STORAGE_ENDPOINT") ≡ false)
        × (ms ≡ [])
  unfolding required
  endpoint-nil ms e = elim (Bool-cases (is_s3 (driver number env))) [
    | inl object_store ↦
        let (set, before) =
          complain-nil (is_empty (trimmed env "STORAGE_ENDPOINT")) "STORAGE_ENDPOINT" ms
            (rw object_store at e) in
        (λ _. set, before)
    | inr cloud ↦ (λ wrong. absurd cc, rw cloud at e)
  ]

  check_env-IsChecked : (check_env number env []).1 ≡ [] → IsChecked (check_env number env []).0
  unfolding check_env required
  check_env-IsChecked e =
      let (timeout, e₄) = positive-nil "COLLECTOR_TIMEOUT_MS" 15_000 _ (omega arith) e in
      let (hops, e₃) = positive-nil "TRUST_PROXY_HOPS" 1 _ (omega arith) e₄ in
      let (bodies, e₂) = positive-nil "INGEST_MAX_CONCURRENT_BODIES" 8 _ (omega arith) e₃ in
      let (body, e₁) = positive-nil "INGEST_MAX_BODY_BYTES" 16_777_216 _ (omega arith) e₂ in
      let (age, e₀) = positive-nil "CONFIG_MAX_AGE_SECONDS" 30 _ (omega arith) e₁ in
      let (redis, d₉) =
        complain-nil (redis_required number env && is_empty (redis_host number env)) "REDIS_HOST" _
          e₀ in
      let (port, d₈) =
        complain-nil
          (is_both (transport_of (transport_text env (grpc_port number env)))
            && not (above_zero (grpc_port number env)))
          "GRPC_PORT (transport both)" _ d₉ in
      let (transport, d₇) =
        complain-nil (not (is_some (transport_of (transport_text env (grpc_port number env)))))
          "INGEST_TRANSPORT (http|grpc|both)" _ d₈ in
      let (endpoint, d₆) = endpoint-nil _ d₇ in
      let (driver, d₅) =
        complain-nil (not (is_some (driver number env))) "STORAGE_DRIVER (gcs|s3)" _ d₆ in
      let (collector, d₄) =
        complain-nil (is_empty (trimmed env "OTLP_LOADER_ENDPOINT")) "OTLP_LOADER_ENDPOINT" _ d₅ in
      let (prefix, d₃) =
        complain-nil (is_empty (trimmed env "STORAGE_PREFIX")) "STORAGE_PREFIX" _ d₄ in
      let (bucket, d₂) =
        complain-nil (is_empty (trimmed env "STORAGE_BUCKET")) "STORAGE_BUCKET" _ d₃ in
      let (brokers, d₁) =
        complain-nil (is_empty (trimmed env "KAFKA_BROKERS")) "KAFKA_BROKERS" [] d₂ in
      record {
        brokers = brokers;
        bucket = refl;
        bucket_set = bucket;
        collector = collector;
        known_driver = ground (arith, driver);
        known_transport = ground (arith, transport);
        endpoint = endpoint;
        second_port = λ two. ground (arith, port, two);
        redis = λ needed. ground (arith, redis, needed);
        age = age;
        body = body;
        bodies = bodies;
        hops = hops;
        timeout = timeout;
      }

  conclude-IsRunnable :
      (s : Settings) (c : Config) → IsChecked s → conclude number env s [] ≡ ok c → IsRunnable c
  conclude-IsRunnable s c h e = elim (Option-cases s.driver) [
    | inl unknown ↦ absurd (ground (arith, unknown))
    | inr (d, known) ↦ elim (Option-cases s.transport) [
      | inl unknown ↦ absurd (ground (arith, known, unknown))
      | inr (t, chosen) ↦
          let same : config_of number env s d t ≡ c = ground (arith, known, chosen) in
          rw (← same) (record {
            brokers = h.brokers;
            bucket = h.bucket;
            bucket_set = h.bucket_set;
            collector = h.collector;
            endpoint = λ object_store. h.endpoint (ground (arith, known, object_store));
            second_port = λ two. h.second_port (ground (arith, chosen, two));
            redis = h.redis;
            age = omega (arith, h.age);
            body = h.body;
            bodies = h.bodies;
            hops = h.hops;
            timeout = h.timeout;
          })
    ]
  ]

  conclude-nil :
      (s : Settings) (ms : List String) (c : Config) → conclude number env s ms ≡ ok c → ms ≡ []
  conclude-nil s [] c e = refl
  conclude-nil s (m ∷ ms) c e = absurd cc

  -- When a configuration loads: KAFKA_BROKERS and OTLP_LOADER_ENDPOINT are not blank, and the bucket
  -- is STORAGE_BUCKET, trimmed, and not empty; with S3 STORAGE_ENDPOINT is not blank, with both
  -- transports the second port is above 0, and a required Redis has a host; the max age of a copy
  -- is at least a second, and the limits on a body's bytes, on large bodies and on proxy hops and
  -- the collector's timeout are at least 1.
  pub load_config-IsRunnable : (c : Config) → load_config number env ≡ ok c → IsRunnable c
  unfolding load_config
  load_config-IsRunnable c e =
      let clean : (check_env number env []).1 ≡ [] =
        conclude-nil (check_env number env []).0 (check_env number env []).1 c e in
      conclude-IsRunnable (check_env number env []).0 c (check_env-IsChecked clean)
        (subst (λ ms. conclude number env (check_env number env []).0 ms ≡ ok c) clean e)

  conclude-err :
      (s : Settings) (ms : List String) (e : Failure)
      → (ms ≡ [] → IsChecked s)
      → conclude number env s ms ≡ err e
      → (ms ≢ []) × (e ≡ invalid number env ms)
  conclude-err s (m ∷ ms) e h q = (λ p. cc, cc)
  conclude-err s [] e h q = absurd (ground (arith, (h refl).known_driver, (h refl).known_transport))

  -- A configuration that does not load fails with the list of what the checks found, and that list
  -- is not empty.
  pub load_config-complains :
      (e : Failure)
      → load_config number env ≡ err e
      → ((check_env number env []).1 ≢ []) × (e ≡ invalid number env (check_env number env []).1)
  unfolding load_config
  load_config-complains e q =
      conclude-err (check_env number env []).0 (check_env number env []).1 e check_env-IsChecked q
