-- ===== src/Events/Poisoned.antt =====
-- A batch with an event that is named like a property of every object.
use upstat.Common.{
  ℕ, ◌+◌, ◌≡◌, inl, inr, some, arith, nat_eq, string_eq, Bool-cases, Failure, Result-cases, err,
}
use upstat.Valkey.{Redis}
use upstat.Quota.{take}
use upstat.ConfigCache.{IngestKey}
use upstat.ConfigCache.Lookup
use upstat.Gateway.{Gateway, Env, on_quota}
use upstat.Usage.{◌&◌}
use upstat.Events.{not_iterable, Json, Items, no_items, item}
use upstat.Events.Valid.{IsPoisoned, poisoned-throws, Verdict-cases}
use upstat.Events.Batch.{
  Context, Draws, count_of, record_of, rows_from, accept_items, accept, events_of, in_batch,
  bad_batch, events_per_minute, fresh_registry, over_rate,
}
use upstat.Events.Accepts.{check}

pub data Holds (P : Json → Type 0) : Items → Type 0 where
  first : {raw : Json} {rest : Items} → P raw → Holds P (item raw rest)
  later : {raw : Json} {rest : Items} → Holds P rest → Holds P (item raw rest)

module _ {R : Redis} (env : Env R) (draws : Draws) (key : IngestKey) (now : ℕ) where
  rows_from-poisoned :
      (ctx : Context) (index : ℕ) (items : Items) (g : Gateway R.Store)
      → Holds IsPoisoned items
      → (e : Failure) × ((rows_from env draws key ctx now index items g).0 ≡ err e)
  unfolding rows_from
  rows_from-poisoned ctx index no_items g h = elim h [ ]
  rows_from-poisoned ctx index (item raw rest) g (first p) =
      let thrown =
        poisoned-throws env.library (λ name. Lookup.event key.org_id name g.cache) now raw p in
      (not_iterable, ground (arith, thrown))
  rows_from-poisoned ctx index (item raw rest) g (later h) =
      elim (Verdict-cases (check env draws key now g.cache raw)) [
        | inl (e, thrown) ↦ (e, ground (arith, thrown))
        | inr (inl (c, bad)) ↦
            let (e, failed) = rows_from-poisoned ctx (index + 1) rest g h in
            (e, ground (arith, bad, failed))
        | inr (inr (e, good)) ↦ elim (Result-cases (record_of env draws key ctx now index e g).0) [
          | inl (x, failed) ↦ (x, ground (arith, good, failed))
          | inr (r, made) ↦
              let (x, failed) =
                rows_from-poisoned ctx (index + 1) rest
                  (record_of env draws key ctx now index e g).1 h in
              (x, ground (arith, good, made, failed))
        ]
      ]

  accept_items-poisoned :
      (ctx : Context) (bytes : ℕ) (items : Items) (g : Gateway R.Store)
      → Holds IsPoisoned items
      → (e : Failure) × ((accept_items env draws key bytes ctx now items g).0 ≡ err e)
  unfolding accept_items
  accept_items-poisoned ctx bytes items g h =
      let taken =
        on_quota
          (take R env.valkey env.spend_link ("events:" & key.id) (count_of items) events_per_minute
            60 now)
          g in
      elim (Result-cases taken.0) [
        | inl (x, failed) ↦ (x, ground (arith, failed))
        | inr (verdict, took) ↦ elim (Bool-cases verdict.ok) [
          | inr over ↦ (over_rate verdict.retry_after, ground (arith, took, over))
          | inl within ↦
              let (x, failed) = rows_from-poisoned ctx 0 items taken.1 h in
              (x, ground (arith, took, within, failed))
        ]
      ]

  -- A batch that holds an event named like a property of every object, such as `constructor`, is
  -- refused as a whole: none of its events is accepted, whatever the others are.
  pub accept-poisoned :
      (ctx : Context) (body : Json) (bytes : ℕ) (items : Items) (g : Gateway R.Store)
      → events_of body ≡ some items
      → Holds IsPoisoned items
      → (e : Failure) × ((accept env draws key body bytes ctx now g).0 ≡ err e)
  unfolding accept
  accept-poisoned ctx body bytes items g listed h = elim (Bool-cases (in_batch (count_of items))) [
    | inr outside ↦ (bad_batch, ground (arith, listed, outside))
    | inl inside ↦
        let (x, failed) =
          accept_items-poisoned ctx bytes items
            (record g { cache = fresh_registry env draws now g.cache }) h in
        (x, ground (arith, listed, inside, failed))
  ]
