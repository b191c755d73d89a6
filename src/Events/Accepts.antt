-- ===== src/Events/Accepts.antt =====
-- What the answer to a batch says, and what it does not depend on.
use upstat.Common.{
  ℕ, ◌+◌, ◌≡◌, refl, inl, inr, true, some, List, [], ◌∷◌, arith, nat_eq, string_eq, Bool-cases,
  length, Result, Result-cases, ok, err,
}
use upstat.Valkey.{Redis}
use upstat.Quota.{Verdict, take}
use upstat.ConfigCache.{IngestKey, Cache}
use upstat.ConfigCache.Lookup
use upstat.Usage.{◌&◌}
use upstat.Gateway.{Gateway, Env, on_quota}
use upstat.Events.{Json, Items, no_items, item, Event, Checked, rejected, passed, validate}
use upstat.Events.Valid.{Verdict-cases}
use upstat.Events.Batch.{
  Rejection, Accepted, Context, Draws, Rows, count_of, record_of, rows_from, deliver, accept_items,
  accept, answer, events_of, in_batch, salt_of, events_per_minute, fresh_registry,
}

-- The rejections, independently of the loop: each rejected event with its index, in order.
abbrev pub verdicts : Result (Checked Event) → ℕ → List Rejection → List Rejection
verdicts (err e) index rest = rest
verdicts (ok (rejected c)) index rest = record { index = index; code = c } ∷ rest
verdicts (ok (passed e)) index rest = rest

pub rejections_at : (Json → Result (Checked Event)) → ℕ → Items → List Rejection
rejections_at check index no_items = []
rejections_at check index (item raw rest) =
    verdicts (check raw) index (rejections_at check (index + 1) rest)

module _ {R : Redis} (env : Env R) (draws : Draws) (key : IngestKey) (now : ℕ) where
  abbrev pub check : Cache → Json → Result (Checked Event)
  check s raw = validate env.library (λ name. Lookup.event key.org_id name s) now raw

  record_of-cache :
      (ctx : Context) (index : ℕ) (e : Event) (g : Gateway R.Store)
      → (record_of env draws key ctx now index e g).1.cache ≡ g.cache
  unfolding record_of
  record_of-cache ctx index e g = elim (Result-cases (salt_of env draws now index e.ts g).0) [
    | inl (x, failed) ↦ ground (arith, failed)
    | inr (salted, drawn) ↦ ground (arith, drawn)
  ]

  rows_from-answers :
      (ctx : Context) (index : ℕ) (items : Items) (g : Gateway R.Store) (rows : Rows)
      → (rows_from env draws key ctx now index items g).0 ≡ ok rows
      → (rows.0 ≡ rejections_at (check g.cache) index items)
        × (length rows.0 + length rows.1 ≡ count_of items)
  unfolding rows_from rejections_at count_of
  rows_from-answers ctx index no_items g rows h =
      let same : ([], []) ≡ rows = cc in rw (← same) (refl, refl)
  rows_from-answers ctx index (item raw rest) g rows h = elim (Verdict-cases (check g.cache raw)) [
    | inl (e, thrown) ↦ absurd (ground (arith, thrown))
    | inr (inl (c, bad)) ↦
        elim (Result-cases (rows_from env draws key ctx now (index + 1) rest g).0) [
          | inl (x, failed) ↦ absurd (ground (arith, bad, failed))
          | inr (more, done) ↦
              ground (arith, bad, done, rows_from-answers ctx (index + 1) rest g more done)
        ]
    | inr (inr (e, good)) ↦ elim (Result-cases (record_of env draws key ctx now index e g).0) [
      | inl (x, failed) ↦ absurd (ground (arith, good, failed))
      | inr (r, made) ↦
          let next = (record_of env draws key ctx now index e g).1 in
          elim (Result-cases (rows_from env draws key ctx now (index + 1) rest next).0) [
            | inl (x, failed) ↦ absurd (ground (arith, good, made, failed))
            | inr (more, done) ↦ ground (
              arith,
              good,
              made,
              done,
              record_of-cache ctx index e g,
              rows_from-answers ctx (index + 1) rest next more done,
            )
          ]
    ]
  ]

  abbrev taken : Items → Gateway R.Store → Result Verdict × Gateway R.Store
  taken items = on_quota (
      take R env.valkey env.spend_link ("events:" & key.id) (count_of items) events_per_minute 60
        now)

  accept_items-rows :
      (ctx : Context) (bytes : ℕ) (items : Items) (g : Gateway R.Store) (answered : Accepted)
      → (accept_items env draws key bytes ctx now items g).0 ≡ ok answered
      → (rows : Rows) × ((rows_from env draws key ctx now 0 items (taken items g).1).0 ≡ ok rows)
        × (answer env draws rows ≡ answered)
  unfolding accept_items
  accept_items-rows ctx bytes items g answered h = elim (Result-cases (taken items g).0) [
    | inl (x, failed) ↦ absurd (ground (arith, failed))
    | inr (verdict, took) ↦ elim (Bool-cases verdict.ok) [
      | inr over ↦ absurd (ground (arith, took, over))
      | inl within ↦
          let after = (taken items g).1 in
          elim (Result-cases (rows_from env draws key ctx now 0 items after).0) [
            | inl (x, failed) ↦ absurd (ground (arith, took, within, failed))
            | inr (rows, made) ↦
                let last = (rows_from env draws key ctx now 0 items after).1 in
                elim (Result-cases (deliver env draws key bytes now rows.1 last).0) [
                  | inl (x, failed) ↦ absurd (ground (arith, took, within, made, failed))
                  | inr (_, sent) ↦ (rows, made, ground (arith, took, within, made, sent))
                ]
          ]
    ]
  ]

  -- A batch that is accepted: the answer lists the rejections in the order of the events, each with
  -- the index and the code of what the validation says of that event under the registry that the
  -- request reread; it counts as rejected the events in that list, as accepted all the others, and
  -- the batch has an admitted number of events.
  pub accept-answers :
      (ctx : Context) (body : Json) (bytes : ℕ) (items : Items) (g : Gateway R.Store)
      (answered : Accepted)
      → events_of body ≡ some items
      → (accept env draws key body bytes ctx now g).0 ≡ ok answered
      → (answered.accepted + answered.rejected ≡ count_of items)
        × (answered.rejected ≡ length answered.rejections)
        × (answered.rejections
            ≡ rejections_at (check (fresh_registry env draws now g.cache)) 0 items)
        × (in_batch (count_of items) ≡ true)
  unfolding accept
  accept-answers ctx body bytes items g answered listed h =
      elim (Bool-cases (in_batch (count_of items))) [
        | inr outside ↦ absurd (ground (arith, listed, outside))
        | inl inside ↦
            let fresh = record g { cache = fresh_registry env draws now g.cache } in
            let (rows, made, same) =
              accept_items-rows ctx bytes items fresh answered (ground (arith, listed, inside)) in
            let (rejections, all) = rows_from-answers ctx 0 items (taken items fresh).1 rows made in
            rw (← same) (omega (arith, all), refl, rejections, inside)
      ]
