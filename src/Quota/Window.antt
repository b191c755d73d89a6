-- ===== src/Quota/Window.antt =====
-- The fixed windows of `take`, and the abstract counter that both of its stores implement.
use upstat.Common.{ℕ, ◌+◌, ◌-◌, ◌*◌, ◌/◌, ◌≤◌, ◌<◌, arith, max, if◌then◌else◌, Bool, leb}
use native.Mathlib.Nat.{div-mul-le_self, lt-div-mul-add, le-div_iff_mul-le}
use upstat.Quota.{window_of, retry_after}

-- A counter spent against a limit: a cost that does not fit leaves it alone.
abbrev pub fits : ℕ → ℕ → ℕ → Bool
fits limit used cost = leb (used + cost) limit

abbrev pub spend : ℕ → ℕ → ℕ → ℕ
spend limit used cost = if fits limit used cost then used + cost else used

-- The waiting time, from the bounds of the window `q` that `now` stands in.
wait_bounds :
    (q w now : ℕ)
    → q * (1000 * w) ≤ now
    → now < (q + 1) * (1000 * w)
    → let r = max 1 (((q + 1) * w * 1000 - now + 999) / 1000) in
      (1 ≤ r) × (r ≤ w) × ((q + 1) * (1000 * w) ≤ now + r * 1000)
wait_bounds q w now lo hi = omega arith

-- A refused caller is told to wait between one second and the window's length, and after that
-- wait the clock stands in a later window.
pub retry_after_next :
    (w now : ℕ)
    → 0 < w
    → (1 ≤ retry_after w now)
      × (retry_after w now ≤ w)
      × (window_of w now < window_of w (now + retry_after w now * 1000))
unfolding retry_after window_of
retry_after_next w now h =
    let (one, most, past) =
      wait_bounds (now / (1000 * w)) w now (div-mul-le_self now (1000 * w))
        (omega (arith, lt-div-mul-add {a = now} {b = 1000 * w} (omega arith))) in
    (one, most, omega (arith, (le-div_iff_mul-le {k = 1000 * w} (omega arith)).1 past))
