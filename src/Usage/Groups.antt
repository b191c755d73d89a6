-- ===== src/Usage/Groups.antt =====
-- The rows of the closed windows by organisation.
use upstat.Common.{
  ℕ, ◌<◌, String, ◌≡◌, sym, ap, ◌∙◌, ◌⊎◌, inl, inr, some, List, [], ◌∷◌, ◌++◌, arith, eq_iff, leb,
  nat_eq, string_eq, ◌==◌, Bool-cases, Option-cases, or_else, Dict, get, put, delete, get-delete,
  Entries, Entries-put, Entries-get,
}
use mathlib.Core.Path.{subst}
use mathlib.Core.List.Memᴰ
use mathlib.Core.List.{Memᴰ}
use upstat.Usage.{Tally, Groups, group_closed, delete_rows}

-- The entries of a map that a run of deletions leaves or takes.
pub get-delete_rows :
    (rows : List (String × Tally)) (m : Dict Tally) (k : String) (t : Tally)
    → get m k ≡ some t
    → (get (delete_rows rows m) k ≡ some t) ⊎ ((u : Tally) × Memᴰ (k, u) rows)
get-delete_rows [] m k t e = inl e
get-delete_rows ((j, u) ∷ rows) m k t e = elim (Bool-cases (j == k)) [
  | inl same ↦ inr (u, Memᴰ.head (ap (λ (i : String). (i, u)) (sym ((eq_iff j k).0 same))))
  | inr apart ↦
      elim (get-delete_rows rows (delete m j) k t (ground (arith, apart, get-delete m j k))) [
        | inl kept ↦ inl kept
        | inr (v, later) ↦ inr (v, Memᴰ.tail later)
      ]
]

-- Every row under `k` is `t`, stands under the organisation of `t`, and is of a closed window.
abbrev pub Agrees : ℕ → String → Tally → String → List (String × Tally) → Type 0
Agrees current k t org_id rows =
    (u : Tally) → Memᴰ (k, u) rows → (u ≡ t) × (org_id ≡ t.org_id) × (t.window < current)

module _ (current : ℕ) (k : String) (t : Tally) where
  pub Agrees-snoc :
      (j : String) (u : Tally) (rows : List (String × Tally))
      → Agrees current k t u.org_id rows
      → (k ≡ j → u ≡ t)
      → u.window < current
      → Agrees current k t u.org_id (rows ++ (j, u) ∷ [])
  Agrees-snoc j u rows old same closed v mem = elim (Memᴰ.append_cases rows mem) [
    | inl before ↦ old v before
    | inr (Memᴰ.head e) ↦
        let at : k ≡ j = ap (λ (p : String × Tally). p.0) e in
        let it : v ≡ u = ap (λ (p : String × Tally). p.1) e in
        (
          it ∙ same at,
          ap (λ (a : Tally). a.org_id) (same at),
          subst (λ (a : Tally). a.window < current) (same at) closed,
        )
    | inr (Memᴰ.tail none_left) ↦ elim none_left [ ]
  ]

  pub Agrees-nil : (org_id : String) → Agrees current k t org_id []
  Agrees-nil org_id u mem = elim mem [ ]

  pub held-Agrees :
      (groups : Groups) (org_id : String)
      → Entries (Agrees current k t) groups
      → Agrees current k t org_id (or_else (get groups org_id) [])
  held-Agrees groups org_id h = elim (Option-cases (get groups org_id)) [
    | inl missing ↦ rw missing (Agrees-nil org_id)
    | inr (rows, there) ↦ rw there (Entries-get (Agrees current k t) groups org_id rows h there)
  ]

  pub group_closed-Agrees :
      (m : Dict Tally) (groups : Groups)
      → ((u : Tally) → Memᴰ (k, u) m → u ≡ t)
      → Entries (Agrees current k t) groups
      → Entries (Agrees current k t) (group_closed current groups m)
  unfolding group_closed
  group_closed-Agrees [] groups only h = h
  group_closed-Agrees ((j, u) ∷ m) groups only h = elim (Bool-cases (leb current u.window)) [
    | inl opened ↦
        rw (opened, group_closed) (group_closed-Agrees m groups (λ v mem. only v (Memᴰ.tail mem)) h)
    | inr closed ↦
        rw (closed, group_closed)
          (group_closed-Agrees m
            (put groups u.org_id (or_else (get groups u.org_id) [] ++ (j, u) ∷ []))
            (λ v mem. only v (Memᴰ.tail mem))
            (Entries-put (Agrees current k t) groups u.org_id
              (or_else (get groups u.org_id) [] ++ (j, u) ∷ []) h
              (Agrees-snoc j u (or_else (get groups u.org_id) []) (held-Agrees groups u.org_id h)
                (λ e. only u (Memᴰ.head (ap (λ (i : String). (i, u)) e))) (ground arith))))
  ]
