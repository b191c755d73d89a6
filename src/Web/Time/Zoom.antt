-- ===== src/Web/Time/Zoom.antt =====
-- What the time range shows: web/src/controllers/time-range.tsx, zoomBy and the current window.
use upstat.Common.{
  ℕ, ◌+◌, ◌-◌, ◌*◌, ◌/◌, ◌≤◌, ◌<◌, String, ◌≡◌, refl, sym, ap, ◌∙◌, ◌⊎◌, inl, inr, true, false,
  none, some, List, [], ◌∷◌, ◌++◌, arith, eq_iff, ltb, if◌then◌else◌, nat_eq, ltb→lt, string_eq,
  ◌==◌, Bool-cases, Option-cases, or_else, All, includes, ok, err, other, get,
}
use mathlib.Core.Path.{subst}
use native.Mathlib.Nat.{div-lt_iff_lt-mul}
use upstat.Events.{inherited}
use upstat.Web.Url.{Params, filled}
use upstat.Web.Time.{preset_of, Window, Dates, in_presets, preset_ms, hour, parse_url}
use upstat.Web.Time.Provider.{
  Page, Frac, span_of, from_span, current, opened, zoom_by, zoomed, zoom_from, place,
}

-- A fraction up to 1 is placed inside the window.
place_bounds :
    (w : Window) (f : Frac)
    → w.from_ms ≤ w.to_ms
    → f.num ≤ f.den
    → 0 < f.den
    → (w.from_ms ≤ place w f) × (place w f ≤ w.to_ms)
unfolding place
place_bounds w f h k p =
    let span = w.to_ms - w.from_ms in
    let below : 2 * f.num * span + f.den < (span + 1) * (2 * f.den) = grind arith in
    let small : (2 * f.num * span + f.den) / (2 * f.den) < span + 1 =
      (div-lt_iff_lt-mul {k = 2 * f.den} (omega arith)).1 below in
    omega (arith, small)

-- A name that every object inherits is no preset, and is not empty.
abbrev IsOdd : String → Type 0
IsOdd name = (preset_ms name ≡ none) × (((name == "") ≡ false) × ((name == "custom") ≡ false))

inherited-IsOdd : All IsOdd inherited
unfolding preset_ms
inherited-IsOdd = (
  (refl, (refl, refl)),
  (
    (refl, (refl, refl)),
    (
      (refl, (refl, refl)),
      (
        (refl, (refl, refl)),
        (
          (refl, (refl, refl)),
          (
            (refl, (refl, refl)),
            (
              (refl, (refl, refl)),
              (
                (refl, (refl, refl)),
                (
                  (refl, (refl, refl)),
                  ((refl, (refl, refl)), ((refl, (refl, refl)), ((refl, (refl, refl)), tt))),
                ),
              ),
            ),
          ),
        ),
      ),
    ),
  ),
)

includes_lem :
    (name : String) (names : List String)
    → All IsOdd names
    → includes name names ≡ true
    → IsOdd name
includes_lem name [] h k = absurd (ground (arith, k))
includes_lem name (x ∷ names) (h, r) k = elim (Bool-cases (name == x)) [
  | inl same ↦ subst IsOdd (sym ((eq_iff name x).0 same)) h
  | inr apart ↦ includes_lem name names r (ground (arith, apart))
]

hour_span : span_of "1h" ≡ some hour
unfolding span_of preset_ms
hour_span = refl

unnamed : preset_ms "" ≡ none
unfolding preset_ms
unnamed = refl

uncustomary : preset_ms "custom" ≡ none
unfolding preset_ms
uncustomary = refl

-- The render's window for a range that is no window.
range_shown :
    (now : ℕ) (name : String)
    → from_span now (span_of (preset_of (filled (some name)))) ≡ (
        if includes name inherited
        then err (other "Invalid time value")
        else ok (record { from_ms = now - or_else (preset_ms name) hour; to_ms = now }))
unfolding span_of in_presets
range_shown now name = elim (Bool-cases (includes name inherited)) [
  | inl odd ↦
      let (none_set, (full, uncustom)) = includes_lem name inherited inherited-IsOdd odd in
      rw odd (rw full (rw none_set (rw odd (rw uncustom (rw none_set refl)))))
  | inr fine ↦ elim (Bool-cases (name == "")) [
    | inl blank ↦
        let none_set = ap preset_ms ((eq_iff name "").0 blank) ∙ unnamed in
        rw fine (rw blank (rw hour_span (rw none_set refl)))
    | inr full ↦ elim (Option-cases (preset_ms name)) [
      | inl none_set ↦ rw fine (rw full (rw none_set (rw fine refl)))
      | inr (ms, set) ↦ elim (Bool-cases (name == "custom")) [
        | inl custom ↦
            absurd (cc (sym set ∙ ap preset_ms ((eq_iff name "custom").0 custom) ∙ uncustomary))
        | inr uncustom ↦ rw fine (rw full (rw set (rw uncustom (rw set refl))))
      ]
    ]
  ]
]

module _ (dates : Dates) where
  -- A drag zooms into the range: of a page that shows a window, fractions up to 1 either leave the
  -- page as it was, when less than 10 s would be left, or show a window inside the old one, at
  -- least 10 s long, with the old one on top of the stack.
  pub zoom_by_bounds :
      (a b : Frac) (s : Page) (w : Window)
      → current s ≡ ok w
      → w.from_ms ≤ w.to_ms
      → (a.num ≤ a.den) × (0 < a.den)
      → (b.num ≤ b.den) × (0 < b.den)
      → let t = zoom_by dates a b s in
        ((t ≡ s) × (place w b < place w a + 10000))
        ⊎ ((n : Window) × (t.zoom ≡ some n)
            × (t.stack ≡ s.stack ++ w ∷ [])
            × (w.from_ms ≤ n.from_ms)
            × (n.from_ms + 10000 ≤ n.to_ms)
            × (n.to_ms ≤ w.to_ms))
  unfolding zoom_by
  zoom_by_bounds a b s w e h ha hb =
      let (a1, a2) = place_bounds w a h ha.0 ha.1 in
      let (b1, b2) = place_bounds w b h hb.0 hb.1 in
      let t : zoom_by dates a b s ≡ zoomed dates w a b s = ap (λ r. zoom_from dates r a b s) e in
      elim (Bool-cases (ltb (place w b) (place w a + 10000))) [
        | inl small ↦ inl (t ∙ rw small refl, ltb→lt _ _ small)
        | inr wide ↦ inr (
          record { from_ms = place w a; to_ms = place w b },
          ap (λ p. p.zoom) t ∙ rw wide refl,
          ap (λ p. p.stack) t ∙ rw wide refl,
          a1,
          ground (arith, wide),
          b2,
        )
      ]

  -- The first render at an address that only names a range: it throws a RangeError exactly for the
  -- names that every object inherits, such as `toString`; a preset's name shows the preset's span
  -- up to now, and any other name an hour.
  pub opened-current :
      (now : ℕ) (m : Params) (name : String)
      → get m "range" ≡ some name
      → get m "from" ≡ none
      → current (opened dates now m) ≡ (
          if includes name inherited
          then err (other "Invalid time value")
          else ok (record { from_ms = now - or_else (preset_ms name) hour; to_ms = now }))
  unfolding current opened parse_url
  opened-current now m name r f = rw (r, f) (range_shown now name)
