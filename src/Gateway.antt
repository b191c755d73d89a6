-- ===== src/Gateway.antt =====
-- The services of one instance together, as the module wires them (app.module.ts), and what a
-- request takes from outside: the instants of its calls, its links and the replies.
pub mod Example
use upstat.Common.{ℕ, String, List, nat_eq, string_eq, Action, ok, Dict}
use upstat.Common.Text.{first}
use upstat.Valkey.{Redis, Hashes, Valkey, Link}
use upstat.Quota.{Quota, Slot, Verdict, Platform, take}
use upstat.ConfigCache.{Cache, Library, Fetch, KeyKind, Scope}
use upstat.ConfigCache.Lookup.{Lookup, lookup_fresh}
use upstat.Collector
use upstat.Collector.{Collector}
use upstat.Usage.{Usage, Meter}
use upstat.Usage.Flush.{ToInteger, Links, add, flush_due}
use Prim.Native.String

pub record Gateway (S : Type 0) : Type 0 where
  pub cache : Cache
  pub slots : Dict Slot
  pub salts : Dict String
  pub usage : Usage
  pub collector : Collector
  pub store : S

-- `Date.now()` at each step of a request.
pub record Instants : Type 0 where
  pub source : ℕ
  pub lookup : ℕ
  pub spend : ℕ
  pub forward : ℕ
  pub count : ℕ
  pub flush : ℕ

pub record Env (R : Redis) : Type 0 where
  pub library : Library
  pub platform : Platform
  pub hashes : Hashes R.Store
  pub integer : ToInteger
  pub valkey : Valkey
  pub source_link : Link
  pub spend_link : Link
  pub salt_link : Link
  pub usage_links : Links
  pub keys_fetch : Fetch
  pub collector : Collector.Config
  pub at : Instants

module _ {S : Type 0} where
  abbrev pub on_quota : {A : Type 0} → Action (Quota S) A → Action (Gateway S) A
  on_quota m g =
      let done = m (record { local = g.slots; salts = g.salts; store = g.store }) in
      (done.0, record g { slots = done.1.local; salts = done.1.salts; store = done.1.store })

  abbrev pub on_meter : {A : Type 0} → Action (Meter S) A → Action (Gateway S) A
  on_meter m g =
      let done = m (record { usage = g.usage; collector = g.collector; store = g.store }) in
      (
        done.0,
        record g { usage = done.1.usage; collector = done.1.collector; store = done.1.store },
      )

  abbrev pub on_collector : {A : Type 0} → Action Collector A → Action (Gateway S) A
  on_collector m g = ((m g.collector).0, record g { collector = (m g.collector).1 })

module _ {R : Redis} (env : Env R) where
  -- QuotaService.ipKey.
  unfoldable pub ip_key : String → String
  unfolding first
  ip_key ip = String.◌++◌ "ip:" (first 24 (env.library.sha256 ip))

  unfoldable pub take_source : String → ℕ → Action (Gateway R.Store) Verdict
  unfolding ip_key
  take_source ip limit =
      on_quota (take R env.valkey env.source_link (ip_key ip) 1 limit 60 env.at.source)

  abbrev pub find_key : String → KeyKind → List Scope → Action (Gateway R.Store) Lookup
  find_key plain kind scopes g =
      let (answer, cache) =
        lookup_fresh env.library plain kind scopes env.at.lookup env.keys_fetch g.cache in
      (ok answer, record g { cache = cache })

  abbrev pub count_usage : String → String → String → ℕ → ℕ → Action (Gateway R.Store) (Unit {0})
  count_usage org_id key_id pillar bytes items = on_meter (
      add env.hashes env.integer env.collector env.valkey env.usage_links env.at.forward org_id
        key_id pillar bytes items env.at.count)

  abbrev pub flush_usage : Action (Gateway R.Store) (Unit {0})
  flush_usage = on_meter (
      flush_due env.hashes env.integer env.collector env.valkey env.usage_links env.at.forward
        env.at.flush)
