-- ===== src/ConfigCache/Misses.antt =====
-- What unknown keys cost: the throttle of the rereads and the bound on the memory of misses.
use upstat.Common.{
  ℕ, ◌+◌, ◌-◌, ◌*◌, ◌/◌, ◌≤◌, ◌≡◌, inl, inr, Bool, not, ◌&&◌, List, [], ◌∷◌, arith, if◌then◌else◌,
  nat_eq, string_eq, Bool-cases, length, All, has, get-put, length-put,
}
use upstat.ConfigCache.{Cache, Library, Fetch, settle, is_stale, miss_memory}
use upstat.ConfigCache.Lookup.{lookup_begin, miss}
use upstat.ConfigCache.Fresh.{Call, begin}

-- A turn of the event loop: a call begins, or the read of the keys is answered.
pub data Turn : Type 0 where
  call : Call → Turn
  answer : Fetch → Turn

abbrev pub reading : Cache → Bool
reading s = has s.inflight "ingest_keys"

-- A read that a call starts although the copy is not overdue: it is paid for an unknown key.
abbrev pub extra_read : Call → Cache → Cache → ℕ
extra_read c s t =
    if not (is_stale "ingest_keys" c.now s) && not (reading s) && reading t then 1 else 0

module _ (lib : Library) where
  pub turn : Turn → Cache → Cache
  turn (call c) s = (begin lib c s).1
  turn (answer fetch) s = settle lib "ingest_keys" fetch s

  pub turns : List Turn → Cache → Cache
  turns [] s = s
  turns (x ∷ xs) s = turns xs (turn x s)

  abbrev pub cost_of : Turn → Cache → Cache → ℕ
  cost_of (call c) s t = extra_read c s t
  cost_of (answer fetch) s t = 0

  pub extra_reads : List Turn → Cache → ℕ
  extra_reads [] s = 0
  extra_reads (x ∷ xs) s = cost_of x s (turn x s) + extra_reads xs (turn x s)

  abbrev pub Until : ℕ → Turn → Type 0
  Until end (call c) = c.now ≤ end
  Until end (answer fetch) = Unit {0}

  -- A call that starts an extra read moves the last one a second on.
  begin-throttled :
      (c : Call) (s : Cache)
      → s.last_miss_refresh_at + 1000 * extra_read c s (begin lib c s).1
        ≤ (begin lib c s).1.last_miss_refresh_at
  unfolding lookup_begin miss
  begin-throttled c s = elim (Bool-cases (is_stale "ingest_keys" c.now s)) [
    | inl stale ↦ ground (arith, stale)
    | inr fresh ↦ ground (arith, fresh, get-put s.inflight "ingest_keys" "ingest_keys" c.now)
  ]

  begin-last :
      (c : Call) (s : Cache) (end : ℕ)
      → c.now ≤ end
      → s.last_miss_refresh_at ≤ end
      → (begin lib c s).1.last_miss_refresh_at ≤ end
  unfolding lookup_begin miss
  begin-last c s end late last = elim (Bool-cases (is_stale "ingest_keys" c.now s)) [
    | inl stale ↦ ground (arith, stale)
    | inr fresh ↦ ground (arith, fresh)
  ]

  begin-memory :
      (c : Call) (s : Cache)
      → length s.missed_at ≤ miss_memory
      → length (begin lib c s).1.missed_at ≤ miss_memory
  unfolding lookup_begin miss
  begin-memory c s few = elim (Bool-cases (is_stale "ingest_keys" c.now s)) [
    | inl stale ↦ ground (arith, stale)
    | inr fresh ↦ ground (
      arith,
      fresh,
      length-put s.missed_at (lib.sha256 c.plain) c.now,
      length-put [] (lib.sha256 c.plain) c.now,
    )
  ]

  settle-misses :
      (fetch : Fetch) (s : Cache)
      → let t = settle lib "ingest_keys" fetch s in
        (t.last_miss_refresh_at ≡ s.last_miss_refresh_at) × (t.missed_at ≡ s.missed_at)
  unfolding settle
  settle-misses fetch s = ground arith

  extra_reads-le :
      (xs : List Turn) (s : Cache) (end : ℕ)
      → All (Until end) xs
      → s.last_miss_refresh_at ≤ end
      → s.last_miss_refresh_at + 1000 * extra_reads xs s ≤ end
  unfolding turn extra_reads
  extra_reads-le [] s end until last = omega arith
  extra_reads-le (call c ∷ xs) s end (now, until) last = omega (
    arith,
    begin-throttled c s,
    extra_reads-le xs (begin lib c s).1 end until (begin-last c s end now last),
  )
  extra_reads-le (answer fetch ∷ xs) s end (_, until) last =
      let (same, _) = settle-misses fetch s in
      omega (
        arith,
        same,
        extra_reads-le xs (settle lib "ingest_keys" fetch s) end until (omega (arith, same)),
      )

  -- In any run of calls and answers up to the instant `end`, unknown keys start at most one read
  -- of the snapshot for each second since the last such read, whatever the keys and their order.
  pub extra_reads-throttled :
      (xs : List Turn) (s : Cache) (end : ℕ)
      → All (Until end) xs
      → s.last_miss_refresh_at ≤ end
      → extra_reads xs s ≤ (end - s.last_miss_refresh_at) / 1000
  extra_reads-throttled xs s end until last = omega (arith, extra_reads-le xs s end until last)

  -- In any such run at most 10,000 unknown hashes are remembered.
  pub turns-memory :
      (xs : List Turn) (s : Cache)
      → length s.missed_at ≤ miss_memory
      → length (turns xs s).missed_at ≤ miss_memory
  unfolding turn turns
  turns-memory [] s few = few
  turns-memory (call c ∷ xs) s few = turns-memory xs (begin lib c s).1 (begin-memory c s few)
  turns-memory (answer fetch ∷ xs) s few =
      let (_, same) = settle-misses fetch s in
      turns-memory xs (settle lib "ingest_keys" fetch s) (rw same few)
