-- ===== src/Web/Dashboards/Grid.antt =====
-- The place of a widget: web/src/controllers/dashboards.ts, parsePortableDashboard.
use upstat.Common.{
  ℕ, ◌+◌, ◌≤◌, ◌≡◌, refl, inl, inr, true, Option, none, some, arith, nat_eq, string_eq, Bool-cases,
}
use mathlib.Core.Path.{subst}
use upstat.Common.Int.{ℤ, pos, negsuc}
use upstat.Web.Json.{Json, null, boolean, integer, fraction, text, array, object, Fields, field_of}
use upstat.Web.Dashboards.Parse.{good, is_placed, integer_of, in_grid, layout_of}

-- A layout on the grid of twelve columns.
abbrev pub IsPlaced : Fields → Type 0
IsPlaced l =
    (x : ℕ) × (y : ℕ) × (w : ℕ) × (h : ℕ) × (field_of "x" l ≡ some (integer (pos x)))
    × (field_of "y" l ≡ some (integer (pos y)))
    × (field_of "w" l ≡ some (integer (pos w)))
    × (field_of "h" l ≡ some (integer (pos h)))
    × (1 ≤ w)
    × (x + w ≤ 12)
    × (1 ≤ h)
    × (h ≤ 24)

integer_of_lem : (o : Option Json) (z : ℤ) → integer_of o ≡ some z → o ≡ some (integer z)
integer_of_lem (some (integer z')) z h = cc
integer_of_lem none z h = cc
integer_of_lem (some null) z h = cc
integer_of_lem (some (boolean b)) z h = cc
integer_of_lem (some (fraction t)) z h = cc
integer_of_lem (some (text t)) z h = cc
integer_of_lem (some (array js)) z h = cc
integer_of_lem (some (object fs)) z h = cc

in_grid_lem :
    (x y w h : Option ℤ)
    → in_grid x y w h ≡ true
    → (x' : ℕ) × (y' : ℕ) × (w' : ℕ) × (h' : ℕ) × (x ≡ some (pos x'))
      × (y ≡ some (pos y'))
      × (w ≡ some (pos w'))
      × (h ≡ some (pos h'))
      × (1 ≤ w')
      × (x' + w' ≤ 12)
      × (1 ≤ h')
      × (h' ≤ 24)
in_grid_lem (some (pos x)) (some (pos y)) (some (pos w)) (some (pos h)) k =
    (x, y, w, h, refl, refl, refl, refl, ground arith, ground arith, ground arith, ground arith)
in_grid_lem none y w h k = cc
in_grid_lem (some (negsuc x)) y w h k = cc
in_grid_lem (some (pos x)) none w h k = cc
in_grid_lem (some (pos x)) (some (negsuc y)) w h k = cc
in_grid_lem (some (pos x)) (some (pos y)) none h k = cc
in_grid_lem (some (pos x)) (some (pos y)) (some (negsuc w)) h k = cc
in_grid_lem (some (pos x)) (some (pos y)) (some (pos w)) none k = cc
in_grid_lem (some (pos x)) (some (pos y)) (some (pos w)) (some (negsuc h)) k = cc

is_placed-IsPlaced : (l : Fields) → is_placed l ≡ true → IsPlaced l
unfolding is_placed
is_placed-IsPlaced l k =
    let (x, y, w, h, ex, ey, ew, eh, w1, xw, h1, h24) =
      in_grid_lem (integer_of (field_of "x" l)) (integer_of (field_of "y" l))
        (integer_of (field_of "w" l)) (integer_of (field_of "h" l)) k in
    (
      x,
      y,
      w,
      h,
      integer_of_lem _ _ ex,
      integer_of_lem _ _ ey,
      integer_of_lem _ _ ew,
      integer_of_lem _ _ eh,
      w1,
      xw,
      h1,
      h24,
    )

pub layout_of_lem : (o : Option Json) (l : Fields) → layout_of o ≡ good l → IsPlaced l
layout_of_lem (some (object k)) l h = elim (Bool-cases (is_placed k)) [
  | inl placed ↦
      let same : k ≡ l = ground (arith, placed) in subst IsPlaced same (is_placed-IsPlaced k placed)
  | inr off ↦ absurd (ground (arith, off))
]
layout_of_lem none l h = cc
layout_of_lem (some null) l h = cc
layout_of_lem (some (boolean b)) l h = cc
layout_of_lem (some (integer z)) l h = cc
layout_of_lem (some (fraction t)) l h = cc
layout_of_lem (some (text t)) l h = cc
layout_of_lem (some (array js)) l h = cc
