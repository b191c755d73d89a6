-- ===== src/Web/Rows/Offsets.antt =====
-- Rows and offsets: web/src/controllers/virtual-window.ts, offsetOf and indexAt.
use upstat.Common.{
  ℕ, suc, ◌+◌, ◌-◌, ◌*◌, ◌/◌, ◌≤◌, ◌<◌, ◌≡◌, refl, ap, ◌∙◌, inl, inr, List, [], ◌∷◌, arith, leb,
  nat_eq, leb→le, string_eq, Bool-cases, total, All,
}
use native.Mathlib.Nat.{div-lt_iff_lt-mul, le-div_iff_mul-le}
use upstat.Web.Rows.{
  WindowExtra, extra_above, offset_of, index_from, index_at, row_at, insert, sort,
}

-- The extras' rows, from the row `lo` on, in strictly ascending order.
abbrev pub IsSorted : ℕ → List WindowExtra → Type 0
IsSorted lo [] = Unit {0}
IsSorted lo (e ∷ es) = (lo ≤ e.index) × IsSorted (suc e.index) es

pub IsSorted-mono : (lo hi : ℕ) (es : List WindowExtra) → lo ≤ hi → IsSorted hi es → IsSorted lo es
IsSorted-mono lo hi [] h s = tt
IsSorted-mono lo hi (e ∷ es) h (k, s) = (omega arith, s)

-- No extra lies above a row that comes before all of them.
extra_above_first :
    (index : ℕ) (es : List WindowExtra) (above : ℕ)
    → IsSorted index es
    → extra_above index es above ≡ above
unfolding extra_above
extra_above_first index [] above s = refl
extra_above_first index (e ∷ es) above (h, s) = ground arith

row_at_bounds :
    (y above h : ℕ)
    → 0 < h
    → above ≤ y
    → (row_at y above h * h + above ≤ y) × (y < suc (row_at y above h) * h + above)
row_at_bounds y above h p k =
    let q = (y - above) / h in
    let low : q * h ≤ y - above = (le-div_iff_mul-le {x = q} {y = y - above} p).0 (omega arith) in
    let high : y - above < (q + 1) * h =
      (div-lt_iff_lt-mul {k = h} {x = y - above} {y = q + 1} p).0 (omega arith) in
    let next : suc q * h ≡ (q + 1) * h = ap (λ (n : ℕ). n * h) (omega arith) in
    (omega (arith, low), omega (arith, high, next))

extra_above_none : (i above : ℕ) → extra_above i [] above ≡ above
unfolding extra_above
extra_above_none i above = refl

extra_above_past :
    (i : ℕ) (e : WindowExtra) (es : List WindowExtra) (above : ℕ)
    → e.index < i
    → extra_above i (e ∷ es) above ≡ extra_above i es (above + e.extra)
unfolding extra_above
extra_above_past i e es above h = ground arith

extra_above_before :
    (i : ℕ) (e : WindowExtra) (es : List WindowExtra) (above : ℕ)
    → i ≤ e.index
    → extra_above i (e ∷ es) above ≡ above
unfolding extra_above
extra_above_before i e es above h = ground arith

-- The offset `y` falls on the row `r`, which comes at `lo` or later.
abbrev Falls : ℕ → ℕ → List WindowExtra → ℕ → ℕ → ℕ → Type 0
Falls y h es above lo r =
    (lo ≤ r) × (r * h + extra_above r es above ≤ y) × (y < suc r * h + extra_above (suc r) es above)

index_from_bounds :
    (y h : ℕ) (es : List WindowExtra) (above lo : ℕ)
    → 0 < h
    → IsSorted lo es
    → lo * h + above ≤ y
    → Falls y h es above lo (index_from y h es above)
unfolding index_from
index_from_bounds y h [] above lo p s k =
    let (a, b) = row_at_bounds y above h p (omega arith) in
    (
      (le-div_iff_mul-le {x = lo} {y = y - above} p).1 (omega arith),
      rw (extra_above_none ((y - above) / h) above) a,
      rw (extra_above_none (suc ((y - above) / h)) above) b,
    )
index_from_bounds y h (e ∷ es) above lo p (l, s) k =
    elim (Bool-cases (leb (e.index * h + above + h + e.extra) y)) [
      | inl past ↦
          let below = leb→le _ _ past in
          let next : suc e.index * h ≡ e.index * h + h = grind arith in
          let r = index_from y h es (above + e.extra) in
          let (a, b, c) =
            index_from_bounds y h es (above + e.extra) (suc e.index) p s
              (omega (arith, below, next)) in
          rw past (
            omega (arith, a, l),
            rw (extra_above_past r e es above (omega (arith, a))) b,
            rw (extra_above_past (suc r) e es above (omega (arith, a))) c,
          )
      | inr on ↦ elim (Bool-cases (leb (e.index * h + above) y)) [
        | inl inside ↦
            let here = leb→le _ _ inside in
            let next : suc e.index * h ≡ e.index * h + h = grind arith in
            rw on (
              rw inside (
                l,
                rw (extra_above_before e.index e es above (omega arith)) here,
                rw (extra_above_past (suc e.index) e es above (omega arith)) (
                    rw (extra_above_first (suc e.index) es (above + e.extra) s)
                      (ground (arith, on, next))),
              ))
        | inr over ↦
            let q = (y - above) / h in
            let q_lt : q < e.index =
              (div-lt_iff_lt-mul {k = h} {x = y - above} {y = e.index} p).1
                (ground (arith, over)) in
            let (a, b) = row_at_bounds y above h p (omega arith) in
            rw on (
              rw over (
                (le-div_iff_mul-le {x = lo} {y = y - above} p).1 (omega arith),
                rw (extra_above_before q e es above (omega (arith, q_lt))) a,
                rw (extra_above_before (suc q) e es above (omega (arith, q_lt))) b,
              ))
      ]
    ]

-- `index_at` inverts `offset_of`: with the extras in ascending order and rows of some height, the
-- row that it finds for an offset starts at or above the offset and ends below it.
pub index_at-offset_of :
    (y row_height : ℕ) (extras : List WindowExtra)
    → 0 < row_height
    → IsSorted 0 extras
    → let r = index_at y row_height extras in
      (offset_of r row_height extras ≤ y) × (y < offset_of (suc r) row_height extras)
unfolding index_at offset_of
index_at-offset_of y h extras p s =
    let (a, b, c) = index_from_bounds y h extras 0 0 p s (omega arith) in (b, c)

pub extra_above_mono :
    (i j : ℕ) (es : List WindowExtra) (above : ℕ)
    → i ≤ j
    → (above ≤ extra_above i es above) × (extra_above i es above ≤ extra_above j es above)
unfolding extra_above
extra_above_mono i j [] above h = (omega arith, omega arith)
extra_above_mono i j (e ∷ es) above h =
    ground
      (arith, extra_above_mono i j es (above + e.extra), extra_above_mono j j es (above + e.extra))

pub offset_of_mono :
    (i j h : ℕ) (es : List WindowExtra) → i ≤ j → offset_of i h es ≤ offset_of j h es
unfolding offset_of
offset_of_mono i j h es k =
    let (a, b) = extra_above_mono i j es 0 k in
    let c : i * h ≤ j * h = grind arith in omega (arith, b, c)

-- Below the last row that has an extra, all of them count.
pub extra_above_of_below :
    (i : ℕ) (es : List WindowExtra) (above : ℕ)
    → All (λ e. e.index < i) es
    → extra_above i es above ≡ above + total (λ e. e.extra) es
unfolding extra_above
extra_above_of_below i [] above h = omega arith
extra_above_of_below i (e ∷ es) above (h, k) =
    ground (arith, extra_above_of_below i es (above + e.extra) k)

insert_first :
    (e : WindowExtra) (es : List WindowExtra) → IsSorted (suc e.index) es → insert e es ≡ e ∷ es
unfolding insert
insert_first e [] s = refl
insert_first e (x ∷ es) (h, s) = ground arith

-- A list that is in order stays as it is.
pub sort_sorted : (lo : ℕ) (es : List WindowExtra) → IsSorted lo es → sort es ≡ es
unfolding sort
sort_sorted lo [] s = refl
sort_sorted lo (e ∷ es) (h, s) =
    ap (insert e) (sort_sorted (suc e.index) es s) ∙ insert_first e es s
