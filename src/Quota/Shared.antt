-- ===== src/Quota/Shared.antt =====
-- The counters of `take` on the shared store: TAKE_SCRIPT against the abstract counter, and what
-- a run of requests over failing links can be granted.
use upstat.Common.{
  ℕ, ◌+◌, ◌*◌, ◌≤◌, String, ◌≡◌, true, ◌||◌, List, [], ◌∷◌, arith, eq_iff, if◌then◌else◌, ◌==◌,
  nat_eq, string_eq, All, Result, ok, err,
}
use upstat.Valkey.{Redis, Counters, Valkey, Link, eval}
use upstat.Quota.{Verdict, Quota, window_of, take_script, window_key, take}
use upstat.Quota.Window.{fits, spend}

module _ (R : Redis) (C : Counters R) where
  open C use {count, incrby_value, count-incrby, count-decrby, count-expire}

  pub take_script-reply :
      (k : String) (cost limit ttl : ℕ) (s : R.Store)
      → (take_script R k cost limit ttl s).0 ≡ (if fits limit (count k s) cost then 1 else 0)
  unfolding take_script
  take_script-reply k cost limit ttl s = ground (arith, incrby_value k cost s)

  pub take_script-count :
      (k j : String) (cost limit ttl : ℕ) (s : R.Store)
      → count j (take_script R k cost limit ttl s).1
        ≡ (if k == j then spend limit (count k s) cost else count j s)
  unfolding take_script
  take_script-count k j cost limit ttl s =
      let counted = (R.incrby k cost s).1 in
      ground (
        arith,
        eq_iff k j,
        eq_iff k k,
        incrby_value k cost s,
        count-incrby k j cost s,
        count-incrby k k cost s,
        count-expire k j ttl counted,
        count-expire k k ttl counted,
        count-decrby k j cost counted,
        count-decrby k j cost (R.expire k ttl counted),
      )

-- A call whose answer arrives.
abbrev pub Answers : Link → Type 0
Answers link = ((link.ready || link.ready_after_wait) ≡ true) × (link.replied ≡ true)

-- One request of a run: its arguments, its instant, and what its call meets.
pub record Request : Type 0 where
  pub key : String
  pub cost : ℕ
  pub limit : ℕ
  pub window_seconds : ℕ
  pub now : ℕ
  pub link : Link

abbrev pub counter_of : Valkey → Request → String
counter_of v r = window_key v r.key (window_of r.window_seconds r.now)

abbrev pub granted_cost : Result Verdict → ℕ → ℕ
granted_cost (ok verdict) cost = if verdict.ok then cost else 0
granted_cost (err e) cost = 0

module _ (R : Redis) (v : Valkey) where
  pub take_request : Request → Quota R.Store → Result Verdict × Quota R.Store
  take_request r = take R v r.link r.key r.cost r.limit r.window_seconds r.now

  -- What the requests of a run that fall on the counter `name` were granted in all.
  pub granted_on : String → List Request → Quota R.Store → ℕ
  granted_on name [] q = 0
  granted_on name (r ∷ rs) q =
      (if counter_of v r == name then granted_cost (take_request r q).0 r.cost else 0)
      + granted_on name rs (take_request r q).1

module _ (R : Redis) (C : Counters R) (v : Valkey) (on : v.enabled ≡ true) where
  open C use {count}

  take_request-step :
      (name : String) (limit : ℕ) (r : Request) (q : Quota R.Store)
      → count name q.store ≤ limit
      → ((counter_of v r == name) ≡ true → r.limit ≡ limit)
      → (count name (take_request R v r q).1.store ≤ limit)
        × ((if counter_of v r == name then granted_cost (take_request R v r q).0 r.cost else 0)
              + count name q.store
            ≤ count name (take_request R v r q).1.store)
  unfolding take_request take eval
  take_request-step name limit r q low same = ground (
    arith,
    on,
    eq_iff (counter_of v r) name,
    take_script-reply R C (counter_of v r) r.cost r.limit (r.window_seconds * 2) q.store,
    take_script-count R C (counter_of v r) name r.cost r.limit (r.window_seconds * 2) q.store,
  )

  granted_on-le_count :
      (name : String) (limit : ℕ) (rs : List Request) (q : Quota R.Store)
      → count name q.store ≤ limit
      → All (λ r. (counter_of v r == name) ≡ true → r.limit ≡ limit) rs
      → granted_on R v name rs q + count name q.store ≤ limit
  unfolding granted_on
  granted_on-le_count name limit [] q low same = omega arith
  granted_on-le_count name limit (r ∷ rs) q low (one, same) =
      let (low', grown) = take_request-step name limit r q low one in
      omega (arith, granted_on-le_count name limit rs (take_request R v r q).1 low' same)

  -- Whatever the requests, their order and the failures of their links: the costs that one
  -- window's counter grants sum up to at most the limit, if the counter starts within it.
  pub granted_on-le-limit :
      (name : String) (limit : ℕ) (rs : List Request) (q : Quota R.Store)
      → count name q.store ≤ limit
      → All (λ r. (counter_of v r == name) ≡ true → r.limit ≡ limit) rs
      → granted_on R v name rs q ≤ limit
  granted_on-le-limit name limit rs q low same =
      omega (arith, granted_on-le_count name limit rs q low same)
