-- ===== src/ConfigCache/Lookup.antt =====
-- The lookups of config-cache/config-cache.service.ts.
use upstat.Common.{
  ℕ, ◌+◌, ◌-◌, String, Bool, true, false, not, ◌&&◌, ◌||◌, Option, none, some, List, [], ltb, leb,
  if◌then◌else◌, ◌==◌, nat_eq, string_eq, length, includes, Dict, get, put,
}
use upstat.Common.Int.{before}
use upstat.ConfigCache.{
  KeyKind, Scope, all, kind_eq, scope_eq, IngestKey, RegistryEvent, Cache, Library, Fetch,
  miss_floor_ms, miss_global_floor_ms, miss_memory, keys_from, registry_from, refresh, settle,
  is_stale,
}

-- A live key, a key that lacks the scope, or `null`.
pub data Lookup : Type 0 where
  live : IngestKey → Lookup
  wrong_scope : Lookup
  unknown : Lookup

module _ (lib : Library) where
  -- `!expires || Date.parse(expires) < now`; NaN is not below `now`.
  abbrev pub is_past : ℕ → Option String → Bool
  is_past now none = true
  is_past now (some text) =
      if text == ""
      then true
      else elim (lib.date_parse text) [ none ↦ false | some at ↦ before at now ]

  abbrev pub same_hash : String → Option String → Bool
  same_hash hash none = false
  same_hash hash (some previous) = hash == previous

  abbrev pub judge : String → KeyKind → List Scope → ℕ → Option IngestKey → Lookup
  judge hash kind scopes now none = unknown
  judge hash kind scopes now (some key) =
      if not (key.kind == kind) || key.status == "revoked"
      then unknown
      else if same_hash hash key.previous_hash && is_past now key.previous_expires_at
      then unknown
      else if not (key.scope == all) && not (includes key.scope scopes)
      then wrong_scope
      else live key

  unfoldable pub lookup : String → KeyKind → List Scope → ℕ → Cache → Lookup
  lookup plain kind scopes now s =
      judge (lib.sha256 plain) kind scopes now (get s.keys (lib.sha256 plain))

  abbrev pub missed_recently : Option ℕ → ℕ → Bool
  missed_recently none now = false
  missed_recently (some at) now = ltb (now - at) miss_floor_ms

  -- A miss is remembered; at the bound the memory starts anew.
  abbrev pub remember_miss : String → ℕ → Dict ℕ → Dict ℕ
  remember_miss hash now m = put (if leb miss_memory (length m) then [] else m) hash now

  -- The rest of `lookupFresh` for a key that a fresh copy lacks; `none` waits for the read that is
  -- under way, if there is one.
  unfoldable pub miss : String → ℕ → Cache → Option Lookup × Cache
  unfolding refresh
  miss plain now s =
      let hash = lib.sha256 plain in
      let noted = record s { missed_at = remember_miss hash now s.missed_at } in
      if missed_recently (get s.missed_at hash) now
      then (some unknown, s)
      else if leb miss_global_floor_ms (now - s.last_miss_refresh_at)
      then (none, refresh "ingest_keys" now (record noted { last_miss_refresh_at = now }))
      else (none, noted)

  -- `lookupFresh` up to its await.
  unfoldable pub lookup_begin : String → KeyKind → List Scope → ℕ → Cache → Option Lookup × Cache
  unfolding lookup miss
  lookup_begin plain kind scopes now s =
      if is_stale "ingest_keys" now s
      then (none, refresh "ingest_keys" now s)
      else elim (lookup plain kind scopes now s) [
        | unknown ↦ miss plain now s
        | answer ↦ (some answer, s)
      ]

  -- After the await both paths look the key up in the copy that they find.
  unfoldable pub lookup_end : String → KeyKind → List Scope → ℕ → Cache → Lookup
  unfolding lookup
  lookup_end plain kind scopes now s = lookup plain kind scopes now s

  -- One call with no other between its two parts: `fetch` answers the read that it waits for.
  unfoldable pub lookup_fresh : String → KeyKind → List Scope → ℕ → Fetch → Cache → Lookup × Cache
  unfolding lookup_begin lookup_end settle
  lookup_fresh plain kind scopes now fetch s =
      let (answer, t) = lookup_begin plain kind scopes now s in
      let u = settle lib "ingest_keys" fetch t in
      elim answer [ some a ↦ (a, t) | none ↦ (lookup_end plain kind scopes now u, u) ]

-- `event`.
unfoldable pub event : String → String → Cache → Option RegistryEvent
event org_id name s = elim (get s.registry org_id) [ none ↦ none | some m ↦ get m name ]

-- `set`, the seam of the tests.
unfoldable pub set : List IngestKey → List RegistryEvent → ℕ → Cache → Cache
unfolding keys_from registry_from
set keys events now s = record s {
  next_check_at =
      put (put s.next_check_at "ingest_keys" (now + s.max_age_ms)) "registry" (now + s.max_age_ms);
  keys = keys_from [] keys;
  registry = registry_from [] events;
  loaded = true;
}
