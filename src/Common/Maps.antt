-- ===== src/Common/Maps.antt =====
-- A JavaScript Map with text keys: its entries in the order of insertion. `set` on a known key
-- keeps the entry's place.
use Prim.Native.Nat.{suc}
use Prim.Native.String.{String}
use mathlib.Core.Path.{◌≡◌, refl, sym, subst, ap}
use mathlib.Core.Logic.{inl, inr}
use mathlib.Core.List.{Memᴰ}
use mathlib.Core.Bool.{Bool, true, false}
use mathlib.Core.Option.{Option, none, some}
use mathlib.Core.List.{List, [], ◌∷◌}
use native.Mathlib.Omega.{arith}
use text.Mathlib.TextEquality.{eq_iff}
use upstat.Common.Tests.{◌==◌, nat_eq, string_eq, if◌then◌else◌, is_some, Bool-cases}
use upstat.Common.Lists.{length, filter}

abbrev pub Dict : Type 0 → Type 0
Dict V = List (String × V)

module _ {V : Type 0} where
  unfoldable pub get : Dict V → String → Option V
  get [] k = none
  get ((j, v) ∷ m) k = if j == k then some v else get m k

  unfoldable pub put : Dict V → String → V → Dict V
  put [] k v = (k, v) ∷ []
  put ((j, w) ∷ m) k v = if j == k then (j, v) ∷ m else (j, w) ∷ put m k v

  unfoldable pub delete : Dict V → String → Dict V
  delete [] k = []
  delete ((j, w) ∷ m) k = let rest = delete m k in if j == k then rest else (j, w) ∷ rest

  abbrev pub has : Dict V → String → Bool
  has m k = is_some (get m k)

  pub get-put :
      (m : Dict V) (k j : String) (v : V) → get (put m k v) j ≡ (if k == j then some v else get m j)
  unfolding get put
  get-put [] k j v = refl
  get-put ((i, w) ∷ m) k j v = ground (arith, eq_iff k j, eq_iff i k, eq_iff i j, get-put m k j v)

  pub get-delete :
      (m : Dict V) (k j : String) → get (delete m k) j ≡ (if k == j then none else get m j)
  unfolding get delete
  get-delete [] k j = ground arith
  get-delete ((i, w) ∷ m) k j = ground (arith, eq_iff k j, eq_iff i k, eq_iff i j, get-delete m k j)

  -- `put` adds an entry exactly for a key that is not there.
  pub length-put :
      (m : Dict V) (k : String) (v : V)
      → length (put m k v) ≡ (if has m k then length m else suc (length m))
  unfolding get put
  length-put [] k v = refl
  length-put ((i, w) ∷ m) k v = ground (arith, length-put m k v)

  -- A key whose entries all fail the test is gone, and one whose entries all pass is kept.
  pub get-filter_of_false :
      (test : String × V → Bool) (m : Dict V) (k : String)
      → ((v : V) → test (k, v) ≡ false)
      → get (filter test m) k ≡ none
  unfolding get
  get-filter_of_false test [] k h = refl
  get-filter_of_false test ((i, w) ∷ m) k h =
      ground (arith, eq_iff i k, h w, get-filter_of_false test m k h)

  pub get-filter_of_true :
      (test : String × V → Bool) (m : Dict V) (k : String)
      → ((v : V) → test (k, v) ≡ true)
      → get (filter test m) k ≡ get m k
  unfolding get
  get-filter_of_true test [] k h = refl
  get-filter_of_true test ((i, w) ∷ m) k h =
      ground (arith, eq_iff i k, h w, get-filter_of_true test m k h)

  pub get-put_self : (m : Dict V) (k : String) (v : V) → get (put m k v) k ≡ some v
  get-put_self m k v = ground (arith, get-put m k k v, eq_iff k k)

-- What holds of every entry.
module _ {V : Type 0} (P : String → V → Type 0) where
  abbrev pub Entries : Dict V → Type 0
  Entries [] = Unit
  Entries ((k, v) ∷ m) = P k v × Entries m

  pub Entries-put : (m : Dict V) (k : String) (v : V) → Entries m → P k v → Entries (put m k v)
  unfolding put
  Entries-put [] k v h p = (p, tt)
  Entries-put ((j, w) ∷ m) k v (q, h) p = elim (Bool-cases (j == k)) [
    | inl same ↦ rw (same, put) (subst (λ i. P i v) (sym ((eq_iff j k).0 same)) p, h)
    | inr apart ↦ rw (apart, put) (q, Entries-put m k v h p)
  ]

  pub Entries-get : (m : Dict V) (k : String) (v : V) → Entries m → get m k ≡ some v → P k v
  unfolding get
  Entries-get [] k v h e = absurd (cc e)
  Entries-get ((j, w) ∷ m) k v (q, h) e = elim (Bool-cases (j == k)) [
    | inl same ↦
        let e' : w ≡ v = ground (arith, same) in
        subst (λ i. P i v) ((eq_iff j k).0 same) (subst (λ u. P j u) e' q)
    | inr apart ↦ Entries-get m k v h (ground (arith, apart))
  ]

-- A Map has at most one entry for a key.
abbrev pub IsMap : {V : Type 0} → Dict V → Type 0
IsMap [] = Unit {0}
IsMap ((k, v) ∷ m) = (get m k ≡ none) × IsMap m

module _ {V : Type 0} where
  pub put-IsMap : (m : Dict V) (k : String) (v : V) → IsMap m → IsMap (put m k v)
  unfolding get put
  put-IsMap [] k v h = (refl, tt)
  put-IsMap ((j, w) ∷ m) k v (new, h) = elim (Bool-cases (j == k)) [
    | inl same ↦ rw (same, put) (new, h)
    | inr apart ↦
        rw (apart, put) (ground (arith, get-put m k j v, eq_iff j k, eq_iff k j), put-IsMap m k v h)
  ]

  pub get_of_mem : (m : Dict V) (k : String) (v : V) → IsMap m → Memᴰ (k, v) m → get m k ≡ some v
  unfolding get
  get_of_mem [] k v h mem = elim mem [ ]
  get_of_mem ((j, w) ∷ m) k v (new, h) (Memᴰ.head e) =
      let same : k ≡ j = ap (λ (p : String × V). p.0) e in
      let value : v ≡ w = ap (λ (p : String × V). p.1) e in ground (arith, same, value, eq_iff j k)
  get_of_mem ((j, w) ∷ m) k v (new, h) (Memᴰ.tail later) =
      ground (arith, eq_iff j k, get_of_mem m k v h later)
