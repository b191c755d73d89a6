-- ===== src/Valkey.antt =====
-- valkey/valkey.service.ts: the one connection to the shared store. The Redis server is not the
-- repository's: it is the parameter `Redis`, with its documented laws in `Counters` and `SetOnce`.
pub mod Memory
use upstat.Common.{
  List, ℕ, ◌+◌, ◌-◌, ◌≤◌, ◌≡◌, Option, some, String, Bool, ◌||◌, ok, err, Action, if◌then◌else◌,
  ◌==◌, string_eq, or_else,
}
use upstat.Errors.{unavailable}
use Prim.Native.String

-- The commands that the scripts call.
pub record Redis : Type 1 where
  pub Store : Type 0
  pub incrby : String → ℕ → Store → ℕ × Store
  pub decrby : String → ℕ → Store → Store
  pub expire : String → ℕ → Store → Store
  pub set_nx_ex : String → String → ℕ → Store → Store
  pub get : String → Store → Option String

-- Documented behaviour of the counter commands; `count` reads a counter, 0 where there is none.
pub record Counters (R : Redis) : Type 0 where
  pub count : String → R.Store → ℕ
  pub incrby_value : (k : String) (n : ℕ) (s : R.Store) → (R.incrby k n s).0 ≡ count k s + n
  pub count-incrby :
      (k j : String) (n : ℕ) (s : R.Store)
      → count j (R.incrby k n s).1 ≡ (if k == j then count k s + n else count j s)
  pub count-decrby :
      (k j : String) (n : ℕ) (s : R.Store)
      → n ≤ count k s
      → count j (R.decrby k n s) ≡ (if k == j then count k s - n else count j s)
  pub count-expire : (k j : String) (ttl : ℕ) (s : R.Store) → count j (R.expire k ttl s) ≡ count j s

-- Documented behaviour of SET with NX and EX, and of GET, before the expiry.
pub record SetOnce (R : Redis) : Type 0 where
  pub get-set_nx_ex :
      (k j v : String) (ttl : ℕ) (s : R.Store)
      → R.get j (R.set_nx_ex k v ttl s)
        ≡ (if k == j then some (or_else (R.get k s) v) else R.get j s)

-- The hash and set commands of the usage scripts. HGETALL replies with fields and values in turn.
pub record Hashes (S : Type 0) : Type 0 where
  pub hincrby : String → String → ℕ → S → S
  pub hgetall : String → S → List String
  pub hdel : String → String → S → S
  pub hlen : String → S → ℕ
  pub sadd : String → String → S → S
  pub srem : String → String → S → S
  pub smembers : String → S → List String
  pub set_nx : String → ℕ → S → Bool × S  -- SET key '1' NX EX ttl: whether it was set
  pub expire : String → ℕ → S → S
  pub del : String → S → S

pub record Valkey : Type 0 where
  pub prefix : String
  pub enabled : Bool

abbrev pub key : Valkey → String → String
key v name = String.◌++◌ v.prefix name

-- What one call meets: whether the client is ready, or becomes so within READY_WAIT_MS; and
-- whether the command's answer arrives. Without an answer the script may have run or not.
pub record Link : Type 0 where
  pub ready : Bool
  pub ready_after_wait : Bool
  pub replied : Bool
  pub applied : Bool

module _ {S A : Type 0} where
  -- `eval`: one script run atomically; any failure is a retryable 503.
  unfoldable pub eval : Valkey → Link → (S → A × S) → Action S A
  eval v link script s =
      if v.enabled
      then (if link.ready || link.ready_after_wait
          then (if link.replied
              then (ok (script s).0, (script s).1)
              else (err (unavailable 2), if link.applied then (script s).1 else s))
          else (err (unavailable 2), s))
      else (err (unavailable 2), s)
