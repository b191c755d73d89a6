-- ===== src/Otlp/Answers.antt =====
-- What an OTLP request is answered, and what it leaves behind.
use upstat.Common.{
  Bool-cases, ℕ, String, ◌≡◌, ap, ◌∙◌, inl, inr, true, false, Option, arith, if◌then◌else◌, nat_eq,
  string_eq, length, Failure, Result, return, caught, Result-cases, and_then_ok, caught_quiet, ok,
  err,
}
use Prim.Native.String
use upstat.Errors.{unavailable}
use upstat.Valkey.{Redis}
use upstat.Quota.{Verdict, take}
use upstat.ConfigCache.{IngestKey}
use upstat.Collector.{Signal, Buffer, Forwarded, raw, forward, signal_text}
use upstat.Usage.Due.{flush_due-quiet}
use upstat.Gateway.{Gateway, Env, on_quota, on_collector, count_usage, flush_usage}
use upstat.Otlp.{ingest, quota_exceeded, is_retryable, byte_limit, meter}

-- What the sender is told of the collector's answer: itself, or a retryable 503.
abbrev pub answer_of : Result Forwarded → Result Forwarded
answer_of (err e) = err (unavailable 5)
answer_of (ok answer) = if is_retryable answer.status then err (unavailable 5) else ok answer

module _ {R : Redis} (env : Env R) (default : ℕ) (signal : Signal) (body : Buffer) (key : IngestKey)
    (content_type : String) (encoding : Option String) where
  abbrev pub spent : Gateway R.Store → Result Verdict × Gateway R.Store
  spent = on_quota (
      take R env.valkey env.spend_link (String.◌++◌ "key:" key.id) (length body)
        (byte_limit default key.quotas) 1 env.at.spend)

  abbrev pub forwarded : Gateway R.Store → Result Forwarded × Gateway R.Store
  forwarded = on_collector (
      forward env.collector env.at.forward signal (raw body) key.org_id content_type encoding false)

  -- A body over the key's byte quota is refused with 429 and the time to wait; nothing is sent to
  -- the collector and nothing is metered.
  pub ingest-over_quota :
      (g : Gateway R.Store) (verdict : Verdict)
      → (spent g).0 ≡ ok verdict
      → verdict.ok ≡ false
      → ((ingest env default signal body key content_type encoding g).0
          ≡ err (quota_exceeded verdict.retry_after))
        × ((ingest env default signal body key content_type encoding g).1.collector ≡ g.collector)
        × ((ingest env default signal body key content_type encoding g).1.usage ≡ g.usage)
  unfolding ingest
  ingest-over_quota g verdict took over = ground (arith, took, over)

  meter-quiet :
      (org_id key_id pillar : String) (bytes items : ℕ) (g : Gateway R.Store)
      → (meter env org_id key_id pillar bytes items g).0 ≡ ok tt
  unfolding meter
  meter-quiet org_id key_id pillar bytes items g =
      let counted = count_usage env org_id key_id pillar bytes items g in
      ap (λ (r : Result (Unit {0}) × Gateway R.Store). r.0)
        (and_then_ok (caught counted (λ e. return tt)) (λ _. flush_usage env) tt
          (caught_quiet counted))
      ∙ flush_due-quiet env.hashes env.integer env.collector env.valkey env.usage_links
          env.at.forward env.at.flush _

  -- An answer of the collector reaches the sender only for a body within the key's quota.
  pub ingest-forwarded :
      (g : Gateway R.Store) (out : Forwarded)
      → (ingest env default signal body key content_type encoding g).0 ≡ ok out
      → (verdict : Verdict) × ((spent g).0 ≡ ok verdict)
        × (verdict.ok ≡ true)
        × ((forwarded (spent g).1).0 ≡ ok out)
  unfolding ingest
  ingest-forwarded g out done = elim (Result-cases (spent g).0) [
    | inl (e, lost) ↦ absurd (ground (arith, lost))
    | inr (verdict, took) ↦ elim (Bool-cases verdict.ok) [
      | inr over ↦ absurd (ground (arith, took, over))
      | inl within ↦ elim (Result-cases (forwarded (spent g).1).0) [
        | inl (e, unsent) ↦ absurd (ground (arith, took, within, unsent))
        | inr (answer, came) ↦ (
          verdict,
          took,
          within,
          ground (
            arith,
            took,
            within,
            came,
            meter-quiet key.org_id key.id (signal_text signal) (length body) 0
                (forwarded (spent g).1).1,
          ),
        )
      ]
    ]
  ]

  -- Only a delivery, an answer below 300, is metered: else the windows stay as they were.
  pub ingest-unmetered :
      (g : Gateway R.Store) (e : Failure)
      → (ingest env default signal body key content_type encoding g).0 ≡ err e
      → (ingest env default signal body key content_type encoding g).1.usage ≡ g.usage
  unfolding ingest
  ingest-unmetered g e failed = elim (Result-cases (spent g).0) [
    | inl (e', lost) ↦ ground (arith, lost)
    | inr (verdict, took) ↦ elim (Result-cases (forwarded (spent g).1).0) [
      | inl (e', unsent) ↦ ground (arith, took, unsent)
      | inr (answer, came) ↦ ground (
        arith,
        took,
        came,
        meter-quiet key.org_id key.id (signal_text signal) (length body) 0
            (forwarded (spent g).1).1,
      )
    ]
  ]
