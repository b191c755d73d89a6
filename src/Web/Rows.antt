-- ===== src/Web/Rows.antt =====
-- The window of rows that a long list renders: web/src/controllers/virtual-window.ts. Heights and
-- offsets are whole pixels, and row indices natural numbers.
pub mod Offsets
pub mod Covers
mod Tests
use upstat.Common.{
  ℕ, zero, suc, ◌+◌, ◌-◌, ◌*◌, ◌/◌, ◌%◌, ◌≤◌, ◌<◌, min, max, String, ◌≡◌, refl, sym, ap, ◌∙◌, ◌≢◌,
  ◌↔◌, ◌⊎◌, inl, inr, Bool, true, false, not, ◌&&◌, ◌||◌, Option, none, some, List, [], ◌∷◌, ◌++◌,
  map, arith, eq_iff, eq_refl, ltb, leb, nat_beq, if◌then◌else◌, nat_beq_iff, Eq, nat_eq, ltb→lt,
  lt→ltb, leb→le, string_eq, ◌==◌, Bool-cases, Option-cases, or_else, is_some, length, get_elem?,
  filter, total, take, length-take, take_all, take-take, take-append_take, length-append,
  total-append, All, All-append, All-take, includes, ApiError, Failure, Result, Action, and_then,
  ◌>>=◌, ◌>>◌, return, throw, caught, try, Result-cases, and_then_ok, and_then_err, caught_quiet,
  caught_state, ok, err, api, other, Dict, get, put, delete, has, get-put, get-delete, length-put,
  get-filter_of_false, get-filter_of_true, get-put_self, Entries, Entries-put, Entries-get, IsMap,
  put-IsMap, get_of_mem,
}

pub record WindowExtra : Type 0 where
  pub index : ℕ
  pub extra : ℕ

-- The extras above a row, which stand first in the list.
unfoldable pub extra_above : ℕ → List WindowExtra → ℕ → ℕ
extra_above index [] above = above
extra_above index (e ∷ es) above =
    let rest = extra_above index es (above + e.extra) in if ltb e.index index then rest else above

unfoldable pub offset_of : ℕ → ℕ → List WindowExtra → ℕ
unfolding extra_above
offset_of index row_height extras = index * row_height + extra_above index extras 0

-- `Math.max(0, Math.floor((y - extraAbove) / rowHeight))`.
abbrev pub row_at : ℕ → ℕ → ℕ → ℕ
row_at y above row_height = (y - above) / row_height

unfoldable pub index_from : ℕ → ℕ → List WindowExtra → ℕ → ℕ
index_from y row_height [] above = row_at y above row_height
index_from y row_height (e ∷ es) above =
    let top = e.index * row_height + above in
    let rest = index_from y row_height es (above + e.extra) in
    if leb (top + row_height + e.extra) y
    then rest
    else if leb top y
    then e.index
    else row_at y above row_height

unfoldable pub index_at : ℕ → ℕ → List WindowExtra → ℕ
unfolding index_from
index_at y row_height extras = index_from y row_height extras 0

-- `extras.sort((a, b) => a.index - b.index)`, which is stable.
unfoldable pub insert : WindowExtra → List WindowExtra → List WindowExtra
insert e [] = e ∷ []
insert e (x ∷ xs) = let rest = insert e xs in if ltb x.index e.index then x ∷ rest else e ∷ x ∷ xs

unfoldable pub sort : List WindowExtra → List WindowExtra
unfolding insert
sort [] = []
sort (x ∷ xs) = insert x (sort xs)

abbrev in_range : ℕ → WindowExtra → Bool
in_range count e = ltb e.index count

pub record VirtualWindow : Type 0 where
  pub start : ℕ
  pub end : ℕ
  pub pad_top : ℕ
  pub pad_bottom : ℕ
  pub total_height : ℕ

pub record Viewport : Type 0 where
  pub count : ℕ
  pub row_height : ℕ
  pub viewport_height : ℕ
  pub scroll_top : ℕ
  pub extras : List WindowExtra
  pub overscan : ℕ

abbrev pub shown_extras : Viewport → List WindowExtra
shown_extras v = sort (filter (in_range v.count) v.extras)

unfoldable pub compute_virtual_window : Viewport → VirtualWindow
unfolding offset_of index_at sort
compute_virtual_window v =
    let extras = shown_extras v in
    let total_height = v.count * v.row_height + total (λ e. e.extra) extras in
    let start = index_at v.scroll_top v.row_height extras - v.overscan in
    let end =
      min v.count
        (index_at (v.scroll_top + v.viewport_height) v.row_height extras + 1 + v.overscan) in
    if v.count == 0
    then record { start = 0; end = 0; pad_top = 0; pad_bottom = 0; total_height = 0 }
    else record {
      start = start;
      end = end;
      pad_top = offset_of start v.row_height extras;
      pad_bottom = total_height - offset_of end v.row_height extras;
      total_height = total_height;
    }
