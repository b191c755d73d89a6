-- ===== src/Usage/Local.antt =====
-- Counting in the local windows.
use upstat.Common.{
  ℕ, ◌+◌, ◌/◌, String, ◌≡◌, refl, sym, ap, ◌∙◌, inl, inr, Bool, true, false, ◌&&◌, none, some, [],
  ◌∷◌, arith, if◌then◌else◌, nat_eq, string_eq, ◌==◌, Option-cases, or_else, total, Dict, get, put,
  Entries, Entries-put, Entries-get,
}
use upstat.Common.Text.{to_string}
use upstat.Common.Text.Digits.{NoBar, to_string-NoBar, to_string-injective, bar_joined}
use mathlib.Core.Path.{subst}
use upstat.Usage.{◌&◌, Tally, add_local, row_tally, local_key, no_tally, window_ms}

total-put :
    (f : Tally → ℕ) (m : Dict Tally) (k : String) (t : Tally)
    → total (λ e. f (row_tally e)) (put m k t) + (elim (get m k) [ none ↦ 0 | some old ↦ f old ])
      ≡ total (λ e. f (row_tally e)) m + f t
unfolding get put
total-put f [] k t = omega arith
total-put f ((j, u) ∷ m) k t = ground (arith, total-put f m k t)

-- What a tally is counted for.
pub record Counted : Type 0 where
  pub window : ℕ
  pub org_id : String
  pub key_id : String
  pub pillar : String

abbrev pub is_for : Counted → Tally → Bool
is_for c t =
    t.window == c.window && t.org_id == c.org_id && t.key_id == c.key_id && t.pillar == c.pillar

-- The sum of one number over the tallies of one window, organisation, key and pillar.
abbrev pub sum_for : Counted → (Tally → ℕ) → Dict Tally → ℕ
sum_for c f m = total (λ e. if is_for c (row_tally e) then f (row_tally e) else 0) m

gained :
    (b : Bool) (x y n : ℕ)
    → x ≡ y + n
    → (if b then x else 0) ≡ (if b then y else 0) + (if b then n else 0)
gained true x y n h = h
gained false x y n h = omega arith

sum_for_new :
    (c : Counted) (f : Tally → ℕ) (n : ℕ) (m : Dict Tally) (k : String) (u : Tally)
    → get m k ≡ none
    → f u ≡ n
    → sum_for c f (put m k u) ≡ sum_for c f m + (if is_for c u then n else 0)
sum_for_new c f n m k u new h =
    let put_total = total-put (λ t. if is_for c t then f t else 0) m k u in
    let all = rw new at put_total in
    let own : (if is_for c u then f u else 0) ≡ (if is_for c u then n else 0) =
      ap (λ (x : ℕ). if is_for c u then x else 0) h in
    omega (arith, all, own)

sum_for_old :
    (c : Counted) (f : Tally → ℕ) (n : ℕ) (m : Dict Tally) (k : String) (t u : Tally)
    → get m k ≡ some t
    → is_for c u ≡ is_for c t
    → f u ≡ f t + n
    → sum_for c f (put m k u) ≡ sum_for c f m + (if is_for c t then n else 0)
sum_for_old c f n m k t u found same h =
    let put_total = total-put (λ t. if is_for c t then f t else 0) m k u in
    let all = rw found at put_total in
    let more : (if is_for c u then f u else 0)
        ≡ (if is_for c t then f t else 0) + (if is_for c t then n else 0) =
      ap (λ (b : Bool). if b then f u else 0) same ∙ gained (is_for c t) (f u) (f t) n h in
    omega (arith, all, more)

-- A tally stands under the key of its own fields, whose ids have no bar.
abbrev pub IsKeyed : String → Tally → Type 0
IsKeyed k t = (k ≡ local_key t.window t.org_id t.key_id t.pillar) × NoBar t.org_id × NoBar t.key_id

-- The keys of two tallies are the same only for the same window, organisation, key and pillar.
local_key-injective :
    (w v : ℕ) (o q k l p r : String)
    → NoBar o
    → NoBar q
    → NoBar k
    → NoBar l
    → local_key w o k p ≡ local_key v q l r
    → (w ≡ v) × (o ≡ q) × (k ≡ l) × (p ≡ r)
local_key-injective w v o q k l p r ho hq hk hl e =
    let (window, after) =
      bar_joined (to_string w) (to_string v) (o & "|" & k & "|" & p) (q & "|" & l & "|" & r)
        (to_string-NoBar w) (to_string-NoBar v) e in
    let (org, more) = bar_joined o q (k & "|" & p) (l & "|" & r) ho hq after in
    let (key, pillar) = bar_joined k l p r hk hl more in
    (to_string-injective w v window, org, key, pillar)

module _ (org_id key_id pillar : String) (bytes items now : ℕ) (m : Dict Tally)
    (free_org : NoBar org_id) (free_key : NoBar key_id) (keyed : Entries IsKeyed m) where
  abbrev own_key : String
  own_key = local_key (now / window_ms) org_id key_id pillar

  abbrev own : Tally
  own = no_tally (now / window_ms) org_id key_id pillar

  -- The tally that a request adds to is the one of its window, organisation, key and pillar.
  own_fields :
      (t : Tally)
      → get m own_key ≡ some t
      → (t.window ≡ own.window)
        × (t.org_id ≡ own.org_id)
        × (t.key_id ≡ own.key_id)
        × (t.pillar ≡ own.pillar)
  own_fields t found =
      let (at, free_o, free_k) = Entries-get IsKeyed m own_key t keyed found in
      let (w, o, k, p) =
        local_key-injective (now / window_ms) t.window org_id t.org_id key_id t.key_id pillar
          t.pillar free_org free_o free_key free_k at in
      (sym w, sym o, sym k, sym p)

  -- The tally after the request, and what one number of it gained.
  abbrev grown : Tally → Tally
  grown t = record t { bytes = t.bytes + bytes; items = t.items + items }

  grown-IsKeyed :
      (t : Tally)
      → (t.window ≡ own.window)
        × (t.org_id ≡ own.org_id)
        × (t.key_id ≡ own.key_id)
        × (t.pillar ≡ own.pillar)
      → IsKeyed own_key (grown t)
  grown-IsKeyed t (w, o, k, p) =
      (rw (w, o, k, p) refl, subst NoBar (sym o) free_org, subst NoBar (sym k) free_key)

  own_tally-fields :
      (t : Tally)
      → or_else (get m own_key) own ≡ t
      → (t.window ≡ own.window)
        × (t.org_id ≡ own.org_id)
        × (t.key_id ≡ own.key_id)
        × (t.pillar ≡ own.pillar)
  own_tally-fields t e = elim (Option-cases (get m own_key)) [
    | inl new ↦
        let same : own ≡ t = (rw new at e) in
        (
          ap (λ (u : Tally). u.window) (sym same),
          ap (λ (u : Tally). u.org_id) (sym same),
          ap (λ (u : Tally). u.key_id) (sym same),
          ap (λ (u : Tally). u.pillar) (sym same),
        )
    | inr (u, found) ↦ let same : u ≡ t = (rw found at e) in own_fields t (found ∙ ap some same)
  ]

  sum_for-add_local :
      (c : Counted) (f : Tally → ℕ) (n : ℕ)
      → ((t : Tally) → f (grown t) ≡ f t + n)
      → f own ≡ 0
      → sum_for c f (put m own_key (grown (or_else (get m own_key) own)))
        ≡ sum_for c f m + (if is_for c own then n else 0)
  sum_for-add_local c f n grows starts = elim (Option-cases (get m own_key)) [
    | inl new ↦
        rw new (sum_for_new c f n m own_key (grown own) new (omega (arith, grows own, starts)))
    | inr (t, found) ↦
        let (w, o, k, p) = own_fields t found in
        let same : is_for c t ≡ is_for c own = rw (w, o, k, p) refl in
        rw found (
          sum_for_old c f n m own_key t (grown t) found refl (grows t)
          ∙ ap (λ (b : Bool). sum_for c f m + (if b then n else 0)) same)
  ]

-- `add` without a shared store: the sums of the window, organisation, key and pillar that it counts
-- for grow by the bytes and the items that it is given, and no other sum changes, whatever was
-- counted before; each tally still stands under the key of its own fields. The ids of organisations
-- and keys, also the counted ones, have no bar, which separates the parts of a key.
pub add_local-conserves :
    (org_id key_id pillar : String) (bytes items now : ℕ) (m : Dict Tally) (c : Counted)
    → NoBar org_id
    → NoBar key_id
    → Entries IsKeyed m
    → let counted = add_local org_id key_id pillar bytes items now m in
      let hit = is_for c (no_tally (now / window_ms) org_id key_id pillar) in
      (sum_for c (λ t. t.bytes) counted ≡ sum_for c (λ t. t.bytes) m + (if hit then bytes else 0))
      × (sum_for c (λ t. t.items) counted ≡ sum_for c (λ t. t.items) m + (if hit then items else 0))
      × Entries IsKeyed counted
unfolding add_local
add_local-conserves org_id key_id pillar bytes items now m c free_org free_key keyed =
    let k = local_key (now / window_ms) org_id key_id pillar in
    let t = or_else (get m k) (no_tally (now / window_ms) org_id key_id pillar) in
    let fields =
      own_tally-fields org_id key_id pillar bytes items now m free_org free_key keyed t refl in
    (
      sum_for-add_local org_id key_id pillar bytes items now m free_org free_key keyed c
          (λ (a : Tally). a.bytes) bytes (λ a. refl) refl,
      sum_for-add_local org_id key_id pillar bytes items now m free_org free_key keyed c
          (λ (a : Tally). a.items) items (λ a. refl) refl,
      Entries-put IsKeyed m k _ keyed
          (grown-IsKeyed org_id key_id pillar bytes items now m free_org free_key keyed t fields),
    )
