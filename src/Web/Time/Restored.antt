-- ===== src/Web/Time/Restored.antt =====
-- Reading back the address that was written: web/src/controllers/time-range.tsx, writeUrl and parseUrl.
use upstat.Common.{
  ℕ, ◌<◌, String, ◌≡◌, refl, inl, inr, Bool, true, false, ◌||◌, Option, none, some, arith, eq_iff,
  ltb, if◌then◌else◌, nat_eq, ltb→lt, lt→ltb, string_eq, ◌==◌, Bool-cases, get-delete,
}
use mathlib.Core.Path.{subst}
use upstat.Web.Url.{Params, filled, get-set}
use upstat.Web.Time.{
  Window, Dates, in_presets, preset_ms, parse_url, write_url, ordered, window_of, chosen,
}

in_presets_filled : (p : String) → in_presets p ≡ true → (p == "") ≡ false
unfolding in_presets
in_presets_filled p h = elim (Bool-cases (p == "")) [
  | inl blank ↦ absurd (cc (subst (λ q. in_presets q ≡ true) ((eq_iff p "").0 blank) h))
  | inr filled ↦ filled
]

-- A window that can be written: its end lies after its start.
abbrev pub IsOrdered : Option Window → Type 0
IsOrdered none = Unit {0}
IsOrdered (some w) = w.from_ms < w.to_ms

abbrev pub IsKnown : String → Type 0
IsKnown p = (p == "custom" || in_presets p) ≡ true

module _ (dates : Dates) where
  pub written_window :
      (w : Window) (p : String) (live : Bool) (m : Params)
      → w.from_ms < w.to_ms
      → parse_url dates (write_url dates (record { preset = p; window = some w; live = live }) m)
        ≡ record { preset = "custom"; window = some w; live = live }
  unfolding parse_url write_url
  written_window w p true m h =
      simp (get-set, get-delete, dates.iso_filled, dates.parse-iso, lt→ltb w.from_ms w.to_ms h)
  written_window w p false m h =
      simp (get-set, get-delete, dates.iso_filled, dates.parse-iso, lt→ltb w.from_ms w.to_ms h)

  pub written_preset :
      (p : String) (live : Bool) (m : Params)
      → (p == "custom" || in_presets p) ≡ true
      → parse_url dates (write_url dates (record { preset = p; window = none; live = live }) m)
        ≡ record { preset = if p == "custom" then "1h" else p; window = none; live = live }
  unfolding parse_url write_url
  written_preset p true m h = elim (Bool-cases (p == "custom")) [
    | inl custom ↦ rw custom (simp (get-set, get-delete))
    | inr named ↦
        let known : in_presets p ≡ true = ground (arith, named) in
        rw named (simp (get-set, get-delete, in_presets_filled p known, known))
  ]
  written_preset p false m h = elim (Bool-cases (p == "custom")) [
    | inl custom ↦ rw custom (simp get-delete)
    | inr named ↦
        let known : in_presets p ≡ true = ground (arith, named) in
        rw named (simp (get-set, get-delete, in_presets_filled p known, known))
  ]

  ordered_lem : (f t : Option ℕ) → IsOrdered (ordered dates f t)
  ordered_lem none t = tt
  ordered_lem (some f) none = tt
  ordered_lem (some f) (some t) = elim (Bool-cases (ltb f t)) [
    | inl less ↦ rw less (ltb→lt f t less)
    | inr more ↦ rw more tt
  ]

  window_of_lem : (f t : Option String) → IsOrdered (window_of dates f t)
  window_of_lem none t = tt
  window_of_lem (some f) none = tt
  window_of_lem (some f) (some t) = ordered_lem (dates.parse f) (dates.parse t)

  chosen_lem :
      (live : Bool) (w : Option Window) (range : Option String)
      → IsOrdered w
      → IsOrdered (chosen dates live w range).window × IsKnown (chosen dates live w range).preset
  unfolding in_presets preset_ms
  chosen_lem live (some w) range h = (h, refl)
  chosen_lem live none none h = (tt, refl)
  chosen_lem live none (some r) h = elim (Bool-cases (in_presets r)) [
    | inl known ↦ (tt, rw known (ground arith))
    | inr not_known ↦ (tt, rw not_known refl)
  ]

  pub parse_url_lem :
      (m : Params) → IsOrdered (parse_url dates m).window × IsKnown (parse_url dates m).preset
  unfolding parse_url
  parse_url_lem m = chosen_lem _ _ _ (window_of_lem _ _)
