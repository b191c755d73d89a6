-- ===== src/Quota/Salts.antt =====
-- The daily salts: one for all instances, and forgotten in time.
use upstat.Common.{
  get-filter_of_false, ℕ, ◌+◌, ◌*◌, ◌<◌, String, ◌≡◌, true, none, some, arith, eq_iff, nat_eq,
  string_eq, or_else, filter, ok, Dict, get,
}
use upstat.Valkey
use upstat.Valkey.{Redis, SetOnce, Valkey, Link, eval}
use upstat.Quota.{Quota, Platform, hour_ms, is_alive, salt, salt_ttl}
use upstat.Quota.Shared.{Answers}
use Prim.Native.String

module _ (R : Redis) (p : Platform) (v : Valkey) where
  abbrev pub salt_key : String → String
  salt_key day = Valkey.key v (String.◌++◌ "salt:" day)

  module _ (S : SetOnce R) where
    -- The first use of a day's salt by an instance: the stored one, created once.
    salt_first :
        (link : Link) (day : String) (start now : ℕ) (fresh : String) (q : Quota R.Store)
        → v.enabled ≡ true
        → p.day_start day ≡ some start
        → Answers link
        → get q.salts day ≡ none
        → ((salt p R v link day now fresh q).0
            ≡ ok (p.from_base64 (or_else (R.get (salt_key day) q.store) (p.to_base64 fresh))))
          × (R.get (salt_key day) (salt p R v link day now fresh q).1.store
              ≡ some (or_else (R.get (salt_key day) q.store) (p.to_base64 fresh)))
    unfolding salt
    salt_first link day start now fresh q on known (up, back) new = ground (
      arith,
      on,
      known,
      up,
      back,
      new,
      eq_iff (salt_key day) (salt_key day),
      S.get-set_nx_ex (salt_key day) (salt_key day) (p.to_base64 fresh) (salt_ttl start now)
          q.store,
    )

    -- Two instances that each need a day's salt for the first time, the second while the store
    -- still keeps what the first left: both get the same salt, whatever random bytes each drew.
    pub salt_shared :
        (l₁ l₂ : Link) (day : String) (start now₁ now₂ : ℕ) (fresh₁ fresh₂ : String)
        (q₁ q₂ : Quota R.Store)
        → v.enabled ≡ true
        → p.day_start day ≡ some start
        → Answers l₁
        → Answers l₂
        → get q₁.salts day ≡ none
        → get q₂.salts day ≡ none
        → R.get (salt_key day) q₂.store
          ≡ R.get (salt_key day) (salt p R v l₁ day now₁ fresh₁ q₁).1.store
        → (salt p R v l₂ day now₂ fresh₂ q₂).0 ≡ (salt p R v l₁ day now₁ fresh₁ q₁).0
    salt_shared l₁ l₂ day start now₁ now₂ fresh₁ fresh₂ q₁ q₂ on known a₁ a₂ new₁ new₂ kept =
        ground (
          arith,
          salt_first l₁ day start now₁ fresh₁ q₁ on known a₁ new₁,
          salt_first l₂ day start now₂ fresh₂ q₂ on known a₂ new₂,
        )

  -- Storing a salt drops the salts of days that began more than 72 hours ago.
  forgotten :
      (now start : ℕ) (m : Dict String) (old : String)
      → p.day_start old ≡ some start
      → start + 72 * hour_ms < now
      → get (filter (is_alive p now) m) old ≡ none
  forgotten now start m old known late =
      get-filter_of_false (is_alive p now) m old (λ s. ground (arith, known))

  -- A day that began more than 72 hours ago has no salt left in memory once another day's salt
  -- was fetched or created.
  pub salt_forgets :
      (link : Link) (day old : String) (now start : ℕ) (fresh : String) (q : Quota R.Store)
      {s : String}
      → get q.salts day ≡ none
      → p.day_start old ≡ some start
      → start + 72 * hour_ms < now
      → (salt p R v link day now fresh q).0 ≡ ok s
      → get (salt p R v link day now fresh q).1.salts old ≡ none
  unfolding salt
  salt_forgets link day old now start fresh q new known late done =
      grind (arith, new, forgotten now start _ old known late)
