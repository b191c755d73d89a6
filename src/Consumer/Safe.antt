-- ===== src/Consumer/Safe.antt =====
-- What the messages of the lane can do to the copy, and how often a connection is tried.
use upstat.Common.{
  ℕ, zero, suc, ◌≤◌, max, String, ◌≡◌, inl, inr, Option, some, arith, nat_eq, string_eq, ◌==◌,
  Bool-cases, Option-cases, Result-cases, get, get-put,
}
use upstat.ConfigCache.{Cache, Library, Fetch, reload, parsed}
use upstat.Consumer.{Contract, kind_of, handle, delay_after, retry_first_ms, retry_max_ms}

reload-newer :
    (lib : Library) (kind : String) (now known : ℕ) (snapshot : Fetch) (s : Cache)
    → get s.versions "ingest_keys" ≡ some known
    → (v : ℕ) × (get (reload lib kind now snapshot s).1.versions "ingest_keys" ≡ some v)
      × (known ≤ v)
unfolding reload
reload-newer lib kind now known snapshot s had = elim (Bool-cases (kind == "ingest_keys")) [
  | inl keys ↦ elim (Result-cases (parsed lib.parse_keys snapshot)) [
    | inl (e, failed) ↦ (known, ground (arith, keys, failed, had), omega arith)
    | inr (doc, read) ↦ (
      max known doc.version,
      ground (arith, keys, read, had, get-put s.versions "ingest_keys" "ingest_keys" doc.version),
      omega arith,
    )
  ]
  | inr apart ↦ elim (Bool-cases (kind == "registry")) [
    | inr neither ↦ (known, ground (arith, apart, neither, had), omega arith)
    | inl events ↦ elim (Result-cases (parsed lib.parse_registry snapshot)) [
      | inl (e, failed) ↦ (known, ground (arith, apart, events, failed, had), omega arith)
      | inr (doc, read) ↦ (
        known,
        ground (
          arith,
          apart,
          events,
          read,
          had,
          get-put s.versions "registry" "ingest_keys" doc.version,
        ),
        omega arith,
      )
    ]
  ]
]

-- Whatever a message says and whatever storage answers, handling it never makes the copy of the
-- ingest keys older than it was.
pub handle-newer :
    (lib : Library) (c : Contract) (now known : ℕ) (stored snapshot : Fetch) (value : Option String)
    (s : Cache)
    → get s.versions "ingest_keys" ≡ some known
    → (v : ℕ) × (get (handle lib c now stored snapshot value s).versions "ingest_keys" ≡ some v)
      × (known ≤ v)
unfolding handle
handle-newer lib c now known stored snapshot value s had =
    elim (Option-cases (kind_of c stored value)) [
      | inl skipped ↦ (known, ground (arith, skipped, had), omega arith)
      | inr (kind, asked) ↦
          let (v, new, up) = reload-newer lib kind now known snapshot s had in
          (v, ground (arith, asked, new), up)
    ]

-- After any number of failed attempts the next one is between 2 and 60 seconds away.
pub delay_after-bounded :
    (n : ℕ) → (retry_first_ms ≤ delay_after n) × (delay_after n ≤ retry_max_ms)
unfolding delay_after
delay_after-bounded zero = (omega arith, omega arith)
delay_after-bounded (suc n) =
    let (low, high) = delay_after-bounded n in (omega (arith, low), omega (arith, high))
