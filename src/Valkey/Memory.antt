-- ===== src/Valkey/Memory.antt =====
-- A store in memory that behaves as documented: it shows that the laws can hold, and runs the tests.
use upstat.Common.{
  ℕ, zero, suc, ◌+◌, ◌-◌, ◌*◌, ◌/◌, ◌%◌, ◌≤◌, ◌<◌, min, max, String, ◌≡◌, refl, sym, ap, ◌∙◌, ◌≢◌,
  ◌↔◌, ◌⊎◌, inl, inr, Bool, true, false, not, ◌&&◌, ◌||◌, Option, none, some, List, [], ◌∷◌, ◌++◌,
  map, arith, eq_iff, eq_refl, ltb, leb, nat_beq, if◌then◌else◌, nat_beq_iff, Eq, ◌==◌, nat_eq,
  string_eq, ltb→lt, lt→ltb, leb→le, Bool-cases, Option-cases, or_else, is_some, length, get_elem?,
  filter, total, length-append, total-append, All, All-append, includes, ApiError, Failure, Result,
  Action, and_then, ◌>>=◌, ◌>>◌, return, throw, caught, try, ok, err, api, other, Dict, put, delete,
  has, get-put, get-delete, length-put, get-filter_of_false, get-filter_of_true,
}
use upstat.Common
use upstat.Valkey.{Redis, Counters, SetOnce, Valkey, Link}

pub record Store : Type 0 where
  pub counters : Dict ℕ
  pub texts : Dict String

abbrev count : String → Store → ℕ
count k s = or_else (Common.get s.counters k) 0

abbrev pub memory : Redis
memory = record {
  Store = Store;
  incrby = λ k n s. (count k s + n, record s { counters = put s.counters k (count k s + n) });
  decrby = λ k n s. record s { counters = put s.counters k (count k s - n) };
  expire = λ k ttl s. s;
  set_nx_ex = λ k v ttl s. record s { texts = put s.texts k (or_else (Common.get s.texts k) v) };
  get = λ k s. Common.get s.texts k;
}

pub put_count :
    (m : Dict ℕ) (k j : String) (n : ℕ)
    → or_else (Common.get (put m k n) j) 0 ≡ (if k == j then n else or_else (Common.get m j) 0)
put_count m k j n = ground (arith, get-put m k j n)

abbrev pub memory_counters : Counters memory
memory_counters = record {
  count = count;
  incrby_value = λ k n s. refl;
  count-incrby = λ k j n s. put_count s.counters k j (count k s + n);
  count-decrby = λ k j n s h. put_count s.counters k j (count k s - n);
  count-expire = λ k j ttl s. refl;
}

abbrev pub memory_set_once : SetOnce memory
memory_set_once = record {
  get-set_nx_ex = λ k j v ttl s. get-put s.texts k j (or_else (Common.get s.texts k) v);
}

abbrev pub empty_store : Store
empty_store = record { counters = []; texts = [] }

abbrev pub up : Link
up = record { ready = true; ready_after_wait = true; replied = true; applied = true }

-- The script ran, and its answer was lost.
abbrev pub lost : Link
lost = record { ready = true; ready_after_wait = true; replied = false; applied = true }

abbrev pub down : Link
down = record { ready = false; ready_after_wait = false; replied = false; applied = false }

abbrev pub shared_valkey : Valkey
shared_valkey = record { prefix = "upstat:"; enabled = true }

abbrev pub no_valkey : Valkey
no_valkey = record { prefix = "upstat:"; enabled = false }
