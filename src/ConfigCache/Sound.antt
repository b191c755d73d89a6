-- ===== src/ConfigCache/Sound.antt =====
-- What a lookup answers, and which keys a copy holds.
use upstat.Common.{
  ℕ, String, ◌≡◌, sym, ap, ◌≢◌, ◌↔◌, ◌⊎◌, inl, inr, true, false, Option, none, some, List, [], ◌∷◌,
  arith, eq_iff, nat_eq, string_eq, Option-cases, or_else, includes, Dict, get, put, get-put,
}
use mathlib.Core.List.{Memᴰ}
use mathlib.Core.Path.{subst}
use upstat.ConfigCache.{
  KeyKind, Scope, all, kind_eq, scope_eq, kind_beq_iff, scope_beq_iff, IngestKey, Cache, Library,
  found, Snapshot, keys_from, add_key, settle, is_newer,
}
use upstat.ConfigCache.Lookup.{live, lookup, judge, is_past}

-- A key is live for a kind and scopes at `now`, under the hash that it was found by.
pub record IsLive (lib : Library) (hash : String) (kind : KeyKind) (scopes : List Scope) (now : ℕ)
    (key : IngestKey) : Type 0 where
  pub of_kind : key.kind ≡ kind
  pub not_revoked : key.status ≢ "revoked"
  pub in_grace : key.previous_hash ≡ some hash → is_past lib now key.previous_expires_at ≡ false
  pub in_scope : (key.scope ≡ all) ⊎ (includes key.scope scopes ≡ true)

module _ (lib : Library) (hash : String) (kind : KeyKind) (scopes : List Scope) (now : ℕ) where
  judge-eq_live :
      (k key : IngestKey)
      → judge lib hash kind scopes now (some k) ≡ live key
      → (k ≡ key) × IsLive lib hash kind scopes now k
  judge-eq_live k key e = elim (Option-cases k.previous_hash) [
    | inl fresh ↦ ground (
      arith,
      fresh,
      eq_iff k.status "revoked",
      kind_beq_iff k.kind kind,
      scope_beq_iff k.scope all,
    )
    | inr (h, rotated) ↦ ground (
      arith,
      rotated,
      eq_iff hash h,
      eq_iff k.status "revoked",
      kind_beq_iff k.kind kind,
      scope_beq_iff k.scope all,
    )
  ]

  judge-live :
      (k : IngestKey)
      → IsLive lib hash kind scopes now k
      → judge lib hash kind scopes now (some k) ≡ live k
  judge-live k h = elim (Option-cases k.previous_hash) [
    | inl fresh ↦ ground (
      arith,
      fresh,
      eq_iff k.status "revoked",
      kind_beq_iff k.kind kind,
      scope_beq_iff k.scope all,
    )
    | inr (p, rotated) ↦ ground (
      arith,
      rotated,
      eq_iff hash p,
      eq_iff k.status "revoked",
      kind_beq_iff k.kind kind,
      scope_beq_iff k.scope all,
    )
  ]

module _ (lib : Library) (hash : String) (kind : KeyKind) (scopes : List Scope) (now : ℕ) where
  judge-live_iff :
      (held : Option IngestKey) (key : IngestKey)
      → (judge lib hash kind scopes now held ≡ live key)
        ↔ ((held ≡ some key) × IsLive lib hash kind scopes now key)
  judge-live_iff none key = (λ e. cc, λ (e, h). cc)
  judge-live_iff (some k) key = (
    λ e.
        let (same, h) = judge-eq_live lib hash kind scopes now k key e in
        (ap some same, rw (← same) h),
    λ (e, h).
        subst (λ o. judge lib hash kind scopes now o ≡ live key) (sym e)
          (judge-live lib hash kind scopes now key h),
  )

-- A lookup returns a key exactly when the copy holds it under the hash of the plaintext and it is
-- live: of the kind, not revoked, in a scope, and if the hash is the previous one, within its grace.
pub lookup-live_iff :
    (lib : Library) (plain : String) (kind : KeyKind) (scopes : List Scope) (now : ℕ) (s : Cache)
    (key : IngestKey)
    → (lookup lib plain kind scopes now s ≡ live key) ↔ (
        (get s.keys (lib.sha256 plain) ≡ some key)
        × IsLive lib (lib.sha256 plain) kind scopes now key)
unfolding lookup
lookup-live_iff lib plain kind scopes now s key =
    judge-live_iff lib (lib.sha256 plain) kind scopes now (get s.keys (lib.sha256 plain)) key

-- The hashes that name a key.
abbrev pub Names : String → IngestKey → Type 0
Names h k = (k.hash ≡ h) ⊎ (k.previous_hash ≡ some h)

get-add_key :
    (m : Dict IngestKey) (k key : IngestKey) (h : String)
    → get (add_key m k) h ≡ some key
    → (get m h ≡ some key) ⊎ ((k ≡ key) × Names h k)
get-add_key m k key h e = elim (Option-cases k.previous_hash) [
  | inl fresh ↦ ground (arith, fresh, eq_iff k.hash h, get-put m k.hash h k)
  | inr (p, rotated) ↦ ground (
    arith,
    rotated,
    eq_iff k.hash h,
    eq_iff p h,
    get-put m k.hash h k,
    get-put (put m k.hash k) p h k,
  )
]

get-keys_from :
    (m : Dict IngestKey) (ks : List IngestKey) (key : IngestKey) (h : String)
    → get (keys_from m ks) h ≡ some key
    → (get m h ≡ some key) ⊎ (Memᴰ key ks × Names h key)
unfolding keys_from
get-keys_from m [] key h e = inl e
get-keys_from m (k ∷ ks) key h e = elim (get-keys_from (add_key m k) ks key h e) [
  | inr (later, names) ↦ inr (Memᴰ.tail later, names)
  | inl here ↦ elim (get-add_key m k key h here) [
    | inl old ↦ inl old
    | inr (same, names) ↦ inr (Memᴰ.head (sym same), rw (← same) names)
  ]
]

settle-keys :
    (lib : Library) (text : String) (doc : Snapshot IngestKey) (started : ℕ) (s : Cache)
    → get s.inflight "ingest_keys" ≡ some started
    → lib.parse_keys text ≡ some doc
    → is_newer (get s.versions "ingest_keys") doc.version ≡ true
    → (settle lib "ingest_keys" (found text) s).keys ≡ keys_from [] (or_else doc.items [])
unfolding settle
settle-keys lib text doc started s reading read newer = ground (arith, reading, read, newer)

get-nil : (h : String) (key : IngestKey) → get [] h ≢ some key
unfolding get
get-nil h key e = cc

-- Once a copy was reread from a snapshot that is not older, whatever it held before: each key that
-- a lookup returns is one of that snapshot's, is named by the hash, and is not revoked there.
pub lookup-settled :
    (lib : Library) (text : String) (doc : Snapshot IngestKey) (started : ℕ) (s : Cache)
    (plain : String) (kind : KeyKind) (scopes : List Scope) (now : ℕ) (key : IngestKey)
    → get s.inflight "ingest_keys" ≡ some started
    → lib.parse_keys text ≡ some doc
    → is_newer (get s.versions "ingest_keys") doc.version ≡ true
    → lookup lib plain kind scopes now (settle lib "ingest_keys" (found text) s) ≡ live key
    → Memᴰ key (or_else doc.items []) × Names (lib.sha256 plain) key × (key.status ≢ "revoked")
lookup-settled lib text doc started s plain kind scopes now key reading read newer e =
    let (held, fit) =
      (lookup-live_iff lib plain kind scopes now (settle lib "ingest_keys" (found text) s) key).0
        e in
    let listed =
      subst (λ m. get m (lib.sha256 plain) ≡ some key)
        (settle-keys lib text doc started s reading read newer) held in
    elim (get-keys_from [] (or_else doc.items []) key (lib.sha256 plain) listed) [
      | inl nothing ↦ absurd (get-nil (lib.sha256 plain) key nothing)
      | inr (member, names) ↦ (member, names, fit.not_revoked)
    ]
