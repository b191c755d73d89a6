-- ===== src/Events/Private.antt =====
-- Events that a server emits carry nothing of the sender's address and user agent.
use upstat.Common.{
  ℕ, ◌+◌, String, ◌≡◌, refl, ap, ◌∙◌, inl, inr, false, arith, nat_eq, string_eq, Bool-cases,
  Option-cases, Result, Action, and_then, ok, err,
}
use upstat.Valkey.{Redis}
use upstat.Quota.{take}
use upstat.ConfigCache.{IngestKey}
use upstat.Gateway.{Gateway, Env, on_quota}
use upstat.Usage.{◌&◌}
use upstat.Events.{Json, Items, no_items, item, Event}
use upstat.Events.Valid.{Verdict-cases}
use upstat.Events.Batch.{
  Context, Draws, count_of, is_browser, record_of, rows_from, accept_items, accept, events_of,
  in_batch, within_rate, events_per_minute, fresh_registry,
}
use upstat.Events.Accepts.{check}

module _ {S A B : Type 0} where
  bind-step :
      (r : Result A × S) (f f' : A → Action S B)
      → ((a : A) (s : S) → f a s ≡ f' a s)
      → and_then r f ≡ and_then r f'
  bind-step (ok a, s) f f' same = same a s
  bind-step (err e, s) f f' same = refl

  bind-first : (r r' : Result A × S) (f : A → Action S B) → r ≡ r' → and_then r f ≡ and_then r' f
  bind-first r r' f same = ap (λ x. and_then x f) same

module _ {R : Redis} (env : Env R) (draws : Draws) (key : IngestKey) (now : ℕ) (ctx : Context)
    (ip user_agent : String) (server : is_browser ctx.origin ≡ false) where
  abbrev moved : Context
  moved = record ctx { ip = ip; user_agent = user_agent }

  record_of-moved :
      (index : ℕ) (e : Event) (g : Gateway R.Store)
      → record_of env draws key moved now index e g ≡ record_of env draws key ctx now index e g
  unfolding record_of
  record_of-moved index e g = ground (arith, server)

  rows_from-moved :
      (index : ℕ) (items : Items) (g : Gateway R.Store)
      → rows_from env draws key moved now index items g
        ≡ rows_from env draws key ctx now index items g
  unfolding rows_from
  rows_from-moved index no_items g = refl
  rows_from-moved index (item raw rest) g =
      elim (Verdict-cases (check env draws key now g.cache raw)) [
        | inl (e, thrown) ↦ rw (thrown, rows_from)
        | inr (inl (c, bad)) ↦
            rw (bad, rows_from) (bind-first _ _ _ (rows_from-moved (index + 1) rest g))
        | inr (inr (e, good)) ↦
            rw (good, rows_from)
              (bind-first _ _ _ (record_of-moved index e g)
                ∙ bind-step (record_of env draws key ctx now index e g) _ _
                    (λ r h. bind-first _ _ _ (rows_from-moved (index + 1) rest h)))
      ]

  accept_items-moved :
      (bytes : ℕ) (items : Items) (g : Gateway R.Store)
      → accept_items env draws key bytes moved now items g
        ≡ accept_items env draws key bytes ctx now items g
  unfolding accept_items
  accept_items-moved bytes items g =
      bind-step
        (on_quota
          (take R env.valkey env.spend_link ("events:" & key.id) (count_of items) events_per_minute
            60 now)
          g)
        _ _
        (λ verdict s.
          bind-step (within_rate env draws verdict s) _ _
            (λ _ u. bind-first _ _ _ (rows_from-moved 0 items u)))

-- A batch without an Origin gets the same answer and leaves the same state, what is sent to the
-- collector included, whatever the client's address and user agent.
pub accept-private :
    {R : Redis} (env : Env R) (draws : Draws) (key : IngestKey) (now : ℕ) (ctx : Context)
    (ip user_agent : String) (body : Json) (bytes : ℕ) (g : Gateway R.Store)
    → is_browser ctx.origin ≡ false
    → accept env draws key body bytes (record ctx { ip = ip; user_agent = user_agent }) now g
      ≡ accept env draws key body bytes ctx now g
unfolding accept
accept-private env draws key now ctx ip user_agent body bytes g server =
    elim (Option-cases (events_of body)) [
      | inl unlisted ↦ rw (unlisted, accept)
      | inr (items, listed) ↦ elim (Bool-cases (in_batch (count_of items))) [
        | inr outside ↦ rw (listed, accept, outside)
        | inl inside ↦
            rw (listed, accept, inside)
              (accept_items-moved env draws key now ctx ip user_agent server bytes items
                (record g { cache = fresh_registry env draws now g.cache }))
      ]
    ]
