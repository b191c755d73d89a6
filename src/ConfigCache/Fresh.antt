-- ===== src/ConfigCache/Fresh.antt =====
-- How old an answer can be, and which copy a read may leave.
use upstat.Common.{
  ℕ, ◌+◌, ◌≤◌, ◌<◌, min, max, String, ◌≡◌, sym, ◌⊎◌, inl, inr, Option, none, some, List, [], ◌∷◌,
  arith, nat_eq, string_eq, or_else, Result-cases, get, get-put, get-delete,
}
use mathlib.Core.Path.{subst}
use upstat.ConfigCache.{
  failure_retry_ms, KeyKind, Scope, kind_eq, scope_eq, IngestKey, Cache, Library, Fetch, found,
  Snapshot, reload, settle, parsed,
}
use upstat.ConfigCache.Lookup.{Lookup, lookup_begin}

-- The copy of `kind` is due for a check no later than `at`.
abbrev pub DueBy : ℕ → String → Cache → Type 0
DueBy at kind s = or_else (get s.next_check_at kind) 0 ≤ at

abbrev Settles : Library → ℕ → Fetch → Cache → String → Type 0
Settles lib started fetch s kind =
    get s.inflight kind ≡ some started
    → DueBy (started + s.max_age_ms) kind (settle lib kind fetch s)
      × (get (settle lib kind fetch s).inflight kind ≡ none)

settle_keys :
    (lib : Library) (started : ℕ) (fetch : Fetch) (s : Cache)
    → Settles lib started fetch s "ingest_keys"
unfolding settle
settle_keys lib started fetch s reading = elim (Result-cases (parsed lib.parse_keys fetch)) [
  | inl (e, failed) ↦ ground (
    arith,
    reading,
    failed,
    get-put s.next_check_at "ingest_keys" "ingest_keys"
        (started + min failure_retry_ms s.max_age_ms),
    get-delete s.inflight "ingest_keys" "ingest_keys",
  )
  | inr (doc, read) ↦ ground (
    arith,
    reading,
    read,
    get-put s.next_check_at "ingest_keys" "ingest_keys" (started + s.max_age_ms),
    get-delete s.inflight "ingest_keys" "ingest_keys",
  )
]

settle_registry :
    (lib : Library) (started : ℕ) (fetch : Fetch) (s : Cache)
    → Settles lib started fetch s "registry"
unfolding settle
settle_registry lib started fetch s reading =
    elim (Result-cases (parsed lib.parse_registry fetch)) [
      | inl (e, failed) ↦ ground (
        arith,
        reading,
        failed,
        get-put s.next_check_at "registry" "registry" (started + min failure_retry_ms s.max_age_ms),
        get-delete s.inflight "registry" "registry",
      )
      | inr (doc, read) ↦ ground (
        arith,
        reading,
        read,
        get-put s.next_check_at "registry" "registry" (started + s.max_age_ms),
        get-delete s.inflight "registry" "registry",
      )
    ]

-- However a read of a snapshot ends, its copy is due again within the max age of the read's start,
-- and the read is no longer under way.
pub settle-DueBy :
    (lib : Library) (kind : String) (started : ℕ) (fetch : Fetch) (s : Cache)
    → (kind ≡ "ingest_keys") ⊎ (kind ≡ "registry")
    → get s.inflight kind ≡ some started
    → DueBy (started + s.max_age_ms) kind (settle lib kind fetch s)
      × (get (settle lib kind fetch s).inflight kind ≡ none)
settle-DueBy lib kind started fetch s (inl e) =
    subst (Settles lib started fetch s) (sym e) (settle_keys lib started fetch s)
settle-DueBy lib kind started fetch s (inr e) =
    subst (Settles lib started fetch s) (sym e) (settle_registry lib started fetch s)

-- One lookup of a run, up to its await.
pub record Call : Type 0 where
  pub plain : String
  pub kind : KeyKind
  pub scopes : List Scope
  pub now : ℕ

module _ (lib : Library) where
  abbrev pub begin : Call → Cache → Option Lookup × Cache
  begin c s = lookup_begin lib c.plain c.kind c.scopes c.now s

  pub after_calls : List Call → Cache → Cache
  after_calls [] s = s
  after_calls (c ∷ cs) s = after_calls cs (begin c s).1

-- A read never leaves an older copy of the keys: the version does not fall, and a snapshot that is
-- older than the copy changes nothing of it.
pub reload-version :
    (lib : Library) (now known : ℕ) (text : String) (doc : Snapshot IngestKey) (s : Cache)
    → get s.versions "ingest_keys" ≡ some known
    → lib.parse_keys text ≡ some doc
    → let t = (reload lib "ingest_keys" now (found text) s).1 in
      (get t.versions "ingest_keys" ≡ some (max known doc.version))
      × (doc.version < known → t.keys ≡ s.keys)
unfolding reload
reload-version lib now known text doc s had read =
    ground (arith, had, read, get-put s.versions "ingest_keys" "ingest_keys" doc.version)
