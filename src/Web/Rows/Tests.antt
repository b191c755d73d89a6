-- ===== src/Web/Rows/Tests.antt =====
-- The window of a long list, and the theorems at it.
use upstat.Common.{ℕ, ◌+◌, ◌-◌, ◌≤◌, ◌<◌, ◌≡◌, refl, ◌⊎◌, List, [], ◌∷◌, arith, nat_eq, string_eq}
use upstat.Web.Rows.{WindowExtra, Viewport, compute_virtual_window, offset_of, sort}
use upstat.Web.Rows.Covers.{offset, compute_virtual_window_covers}

abbrev one_open : List WindowExtra
one_open = record { index = 10; extra = 200 } ∷ []

abbrev long_list : Viewport
long_list = record {
  count = 10000;
  row_height = 29;
  viewport_height = 580;
  scroll_top = 3100;
  extras = one_open;
  overscan = 20;
}

long_list_window : compute_virtual_window long_list ≡ record {
  start = 80;
  end = 141;
  pad_top = 2520;
  pad_bottom = 290200 - 4289;
  total_height = 290200;
}
unfolding compute_virtual_window
long_list_window = refl

scrolled : long_list.scroll_top < offset long_list long_list.count
unfolding offset_of sort
scrolled = omega arith

compute_virtual_window_covers_example :
    let offset = λ (i : ℕ). offset long_list i in
    let w = compute_virtual_window long_list in
    (offset w.start ≤ 3100)
    × (w.start ≤ w.end)
    × ((w.end ≡ 10000) ⊎ (3680 < offset w.end))
    × (w.pad_top ≡ offset w.start)
    × (w.pad_top + (offset w.end - offset w.start) + w.pad_bottom ≡ w.total_height)
    × (w.total_height ≡ offset 10000)
compute_virtual_window_covers_example =
    compute_virtual_window_covers long_list (omega arith) (omega arith) (omega arith) scrolled
