-- ===== src/Usage.antt =====
-- usage/usage.service.ts: bytes and items per key and pillar, in one-minute windows that are sent
-- to the collector once they are closed.
pub mod Flush
pub mod Local
pub mod Groups
pub mod Safe
pub mod Due
mod Tests
use upstat.Common.{
  ℕ, zero, suc, ◌+◌, ◌-◌, ◌*◌, ◌/◌, ◌%◌, ◌≤◌, ◌<◌, min, max, String, ◌≡◌, refl, sym, ap, ◌∙◌, ◌≢◌,
  ◌↔◌, ◌⊎◌, inl, inr, Bool, true, false, not, ◌&&◌, ◌||◌, Option, none, some, List, [], ◌∷◌, ◌++◌,
  map, arith, eq_iff, eq_refl, ltb, leb, nat_beq, if◌then◌else◌, nat_beq_iff, Eq, nat_eq, ltb→lt,
  lt→ltb, leb→le, string_eq, ◌==◌, Bool-cases, Option-cases, or_else, is_some, length, get_elem?,
  filter, total, length-append, total-append, All, All-append, includes, ApiError, Failure, Result,
  Action, and_then, ◌>>=◌, ◌>>◌, return, throw, caught, try, Result-cases, and_then_ok,
  and_then_err, caught_quiet, caught_state, ok, err, api, other, Dict, get, put, delete, has,
  get-put, get-delete, length-put, get-filter_of_false, get-filter_of_true, get-put_self, Entries,
  Entries-put, Entries-get, IsMap, put-IsMap, get_of_mem,
}
use Prim.Native.String
use upstat.Common.Int.{pos}
use upstat.Common.Text.{split, to_string}
use upstat.Valkey
use upstat.Valkey.{Hashes, Valkey, Link, eval}
use upstat.Collector.{Collector, Config, LogRecord, send_logs}

pub record Tally : Type 0 where
  pub window : ℕ
  pub org_id : String
  pub key_id : String
  pub pillar : String
  pub bytes : ℕ
  pub items : ℕ

pub record Usage : Type 0 where
  pub local : Dict Tally
  pub next_check_at : ℕ

-- The service with the two that it calls: the collector and the shared store.
pub record Meter (S : Type 0) : Type 0 where
  pub usage : Usage
  pub collector : Collector
  pub store : S

abbrev pub window_ms : ℕ
window_ms = 60_000

abbrev pub check_every_ms : ℕ
check_every_ms = 15_000

abbrev pub lock_seconds : ℕ
lock_seconds = 60

abbrev pub keep_seconds : ℕ
keep_seconds = 3600

infixr 66 ◌&◌
abbrev pub ◌&◌ : String → String → String
a & b = String.◌++◌ a b

abbrev pub local_key : ℕ → String → String → String → String
local_key window org_id key_id pillar =
    to_string window & "|" & org_id & "|" & key_id & "|" & pillar

abbrev pub no_tally : ℕ → String → String → String → Tally
no_tally window org_id key_id pillar = record {
  window = window;
  org_id = org_id;
  key_id = key_id;
  pillar = pillar;
  bytes = 0;
  items = 0;
}

-- `add` without a shared store.
unfoldable pub add_local : String → String → String → ℕ → ℕ → ℕ → Dict Tally → Dict Tally
add_local org_id key_id pillar bytes items now m =
    let window = now / window_ms in
    let k = local_key window org_id key_id pillar in
    let t = or_else (get m k) (no_tally window org_id key_id pillar) in
    put m k (record t { bytes = t.bytes + bytes; items = t.items + items })

-- The log record of one tally.
abbrev pub usage_row : Tally → LogRecord
usage_row t = record {
  time = pos (t.window * window_ms);
  attributes =
      ("upstat.kind", "usage")
      ∷ ("key_id", t.key_id)
      ∷ ("pillar", t.pillar)
      ∷ ("bytes", to_string t.bytes)
      ∷ ("items", to_string t.items)
      ∷ [];
}

module _ {S : Type 0} where
  abbrev pub on_store : {A : Type 0} → Action S A → Action (Meter S) A
  on_store m s = ((m s.store).0, record s { store = (m s.store).1 })

  abbrev pub on_collector : {A : Type 0} → Action Collector A → Action (Meter S) A
  on_collector m s = ((m s.collector).0, record s { collector = (m s.collector).1 })

  unfoldable pub send : Config → ℕ → String → List Tally → Action (Meter S) (Unit {0})
  send cfg clock org_id tallies =
      on_collector (send_logs cfg clock org_id "upstat.usage" (map usage_row tallies))

-- `byOrg`: the rows of the closed windows, grouped in the order in which their organisations come.
abbrev pub Groups : Type 0
Groups = Dict (List (String × Tally))

unfoldable pub group_closed : ℕ → Groups → Dict Tally → Groups
group_closed current groups [] = groups
group_closed current groups ((k, t) ∷ m) =
    group_closed current
      (if leb current t.window
        then groups
        else put groups t.org_id (or_else (get groups t.org_id) [] ++ (k, t) ∷ []))
      m

abbrev pub delete_rows : List (String × Tally) → Dict Tally → Dict Tally
delete_rows [] m = m
delete_rows ((k, t) ∷ rows) m = delete_rows rows (delete m k)

module _ {S : Type 0} where
  abbrev pub forget : List (String × Tally) → Action (Meter S) (Unit {0})
  forget rows s =
      (ok tt, record s { usage = record s.usage { local = delete_rows rows s.usage.local } })

abbrev pub row_tally : String × Tally → Tally
row_tally (k, t) = t

module _ {S : Type 0} (cfg : Config) (clock : ℕ) where
  unfoldable pub flush_groups : Groups → Action (Meter S) (Unit {0})
  unfolding send
  flush_groups [] = return tt
  flush_groups ((org_id, rows) ∷ groups) = do
    send cfg clock org_id (map row_tally rows)
    forget rows
    flush_groups groups

  unfoldable pub flush_local : ℕ → Action (Meter S) (Unit {0})
  unfolding group_closed flush_groups
  flush_local current s = flush_groups (group_closed current [] s.usage.local) s
