-- ===== src/Web/Rows/Covers.antt =====
-- The rendered rows cover the viewport: web/src/controllers/virtual-window.ts,
-- computeVirtualWindow.
use upstat.Common.{
  ℕ, suc, ◌+◌, ◌-◌, ◌*◌, ◌≤◌, ◌<◌, min, ◌≡◌, refl, sym, ◌⊎◌, inl, inr, false, List, [], ◌∷◌, arith,
  ltb, leb, nat_eq, ltb→lt, leb→le, string_eq, ◌==◌, Bool-cases, filter, total, All,
}
use upstat.Web.Rows.{
  WindowExtra, Viewport, compute_virtual_window, shown_extras, in_range, offset_of, index_at,
}
use upstat.Web.Rows.Offsets.{
  IsSorted, IsSorted-mono, index_at-offset_of, offset_of_mono, extra_above_of_below, sort_sorted,
}

filter-IsSorted :
    (count lo : ℕ) (es : List WindowExtra)
    → IsSorted lo es
    → IsSorted lo (filter (in_range count) es)
filter-IsSorted count lo [] s = tt
filter-IsSorted count lo (e ∷ es) (h, s) =
    let rest = filter (in_range count) es in
    let ih : IsSorted (suc e.index) rest = filter-IsSorted count (suc e.index) es s in
    elim (Bool-cases (in_range count e)) [
      | inl kept ↦ rw kept (h, ih)
      | inr gone ↦ rw gone (IsSorted-mono lo (suc e.index) rest (omega arith) ih)
    ]

filter_below :
    (count : ℕ) (es : List WindowExtra) → All (λ e. e.index < count) (filter (in_range count) es)
filter_below count [] = tt
filter_below count (e ∷ es) = elim (Bool-cases (in_range count e)) [
  | inl kept ↦ rw kept (ltb→lt e.index count kept, filter_below count es)
  | inr gone ↦ rw gone (filter_below count es)
]

-- The content offset of a row among all of the list.
abbrev pub offset : Viewport → ℕ → ℕ
offset v i = offset_of i v.row_height (shown_extras v)

module _ (v : Viewport) (some_rows : 0 < v.count) (some_height : 0 < v.row_height)
    (in_order : IsSorted 0 v.extras) where
  shown_extras-IsSorted : IsSorted 0 (shown_extras v)
  shown_extras-IsSorted =
      let s = filter-IsSorted v.count 0 v.extras in_order in
      rw (sort_sorted 0 (filter (in_range v.count) v.extras) s) s

  offset-total : offset v v.count ≡ v.count * v.row_height + total (λ e. e.extra) (shown_extras v)
  unfolding offset_of
  offset-total =
      let s = filter-IsSorted v.count 0 v.extras in_order in
      let kept = filter (in_range v.count) v.extras in
      let below : All (λ e. e.index < v.count) (shown_extras v) =
        rw (sort_sorted 0 kept s) (filter_below v.count v.extras) in
      omega (arith, extra_above_of_below v.count (shown_extras v) 0 below)

  -- Whatever is in the viewport is rendered, and the spacers stand for the rest: with a row or
  -- more, rows of some height, and the extras in ascending order, in a list that is scrolled no
  -- further than its content is high, the rendered rows start at or above the scroll offset and
  -- end below the viewport or with the list; the upper spacer is as high as the rows above them,
  -- and the two spacers and the rendered rows add up to the height of the whole content.
  pub compute_virtual_window_covers :
      v.scroll_top < offset v v.count
      → let w = compute_virtual_window v in
        (offset v w.start ≤ v.scroll_top)
        × (w.start ≤ w.end)
        × ((w.end ≡ v.count) ⊎ (v.scroll_top + v.viewport_height < offset v w.end))
        × (w.pad_top ≡ offset v w.start)
        × (w.pad_top + (offset v w.end - offset v w.start) + w.pad_bottom ≡ w.total_height)
        × (w.total_height ≡ offset v v.count)
  unfolding compute_virtual_window
  compute_virtual_window_covers scrolled =
      let h = v.row_height in
      let es = shown_extras v in
      let i = index_at v.scroll_top h es in
      let j = index_at (v.scroll_top + v.viewport_height) h es in
      let (i1, i2) = index_at-offset_of v.scroll_top h es some_height shown_extras-IsSorted in
      let (j1, j2) =
        index_at-offset_of (v.scroll_top + v.viewport_height) h es some_height
          shown_extras-IsSorted in
      let i_lt : i < v.count = elim (Bool-cases (ltb i v.count)) [
        | inl less ↦ ltb→lt i v.count less
        | inr more ↦
            absurd
              (omega (arith, offset_of_mono v.count i h es (ground (arith, more)), scrolled, i1))
      ] in
      let i_le : i ≤ j = elim (Bool-cases (leb i j)) [
        | inl less ↦ leb→le i j less
        | inr more ↦
            absurd (omega (arith, offset_of_mono (suc j) i h es (ground (arith, more)), i1, j2))
      ] in
      let start = i - v.overscan in
      let end = min v.count (j + 1 + v.overscan) in
      let ordered : start ≤ end = ground (arith, i_lt, i_le) in
      let to_first = offset_of_mono start i h es (omega arith) in
      let to_end = offset_of_mono start end h es ordered in
      let to_count = offset_of_mono end v.count h es (ground arith) in
      let nonzero : (v.count == 0) ≡ false = ground (arith, some_rows) in
      let below : (end ≡ v.count) ⊎ (v.scroll_top + v.viewport_height < offset v end) =
        elim (Bool-cases (leb v.count (j + 1 + v.overscan))) [
          | inl all ↦ inl (ground (arith, all))
          | inr part ↦
              inr (omega (arith, j2, offset_of_mono (suc j) end h es (ground (arith, part))))
        ] in
      let whole = offset-total in
      rw nonzero (
        omega (arith, to_first, i1),
        ordered,
        below,
        refl,
        omega (arith, to_end, to_count, whole),
        sym whole,
      )
