-- ===== src/ConfigCache/Answers.antt =====
-- What a whole call of `lookupFresh` answers.
use upstat.Common.{
  ℕ, String, ◌≡◌, refl, ◌≢◌, ◌⊎◌, inl, inr, some, List, arith, nat_eq, string_eq, Bool-cases,
  Option-cases,
}
use upstat.ConfigCache.{
  KeyKind, Scope, IngestKey, Cache, Library, Fetch, is_stale, kind_eq, scope_eq,
}
use upstat.ConfigCache.Lookup.{
  Lookup, live, wrong_scope, unknown, lookup, lookup_begin, lookup_end, lookup_fresh, miss,
}

pub Lookup-cases :
    (l : Lookup) → ((k : IngestKey) × (l ≡ live k)) ⊎ (l ≡ wrong_scope) ⊎ (l ≡ unknown)
Lookup-cases (live k) = inl (k, refl)
Lookup-cases wrong_scope = inr (inl refl)
Lookup-cases unknown = inr (inr refl)

module _ (lib : Library) (plain : String) (kind : KeyKind) (scopes : List Scope) (now : ℕ) where
  miss-none : (s : Cache) (key : IngestKey) → (miss lib plain now s).0 ≢ some (live key)
  unfolding miss
  miss-none s key e = ground arith

  begin-answers :
      (s : Cache) (key : IngestKey)
      → (lookup_begin lib plain kind scopes now s).0 ≡ some (live key)
      → lookup lib plain kind scopes now (lookup_begin lib plain kind scopes now s).1 ≡ live key
  unfolding lookup_begin
  begin-answers s key e = elim (Bool-cases (is_stale "ingest_keys" now s)) [
    | inl stale ↦ ground (arith, stale)
    | inr fresh ↦ elim (Lookup-cases (lookup lib plain kind scopes now s)) [
      | inl (k, q) ↦ ground (arith, fresh, q)
      | inr (inl q) ↦ ground (arith, fresh, q)
      | inr (inr q) ↦ ground (arith, fresh, q, miss-none s key)
    ]
  ]

  -- A key that the whole call returns is the one that the copy left by the call holds as live.
  pub lookup_fresh-live :
      (fetch : Fetch) (s : Cache) (key : IngestKey)
      → (lookup_fresh lib plain kind scopes now fetch s).0 ≡ live key
      → lookup lib plain kind scopes now (lookup_fresh lib plain kind scopes now fetch s).1
        ≡ live key
  unfolding lookup_fresh lookup_end
  lookup_fresh-live fetch s key e =
      elim (Option-cases (lookup_begin lib plain kind scopes now s).0) [
        | inl q ↦ grind (arith, q)
        | inr q ↦ grind (arith, q.1, begin-answers s key)
      ]
