-- ===== src/Web/Time/Tests.antt =====
-- Pages with a time range, and the theorems at them.
use upstat.Common.{
  ℕ, zero, suc, String, ◌≡◌, refl, inl, inr, false, Option, none, some, List, [], ◌∷◌, eq_iff,
  nat_eq, string_eq, ◌==◌, Bool-cases, ok, err, other, get, delete,
}
use upstat.Web.Url.{Params, set, filled}
use upstat.Web.Time.{Window, Dates, preset_ms, in_presets}
use upstat.Web.Time.Provider.{
  Page, Act, choose_preset, step, run, opened, current, go_back, go_ahead,
}
use upstat.Web.Time.History.{SameRange, go_back-restores}
use upstat.Web.Time.Zoom.{opened-current}

-- Dates written in unary.
abbrev ticks : ℕ → String
ticks zero = "T"
ticks (suc n) = String.◌∷◌ "+" (ticks n)

abbrev count_ticks : String → Option ℕ
count_ticks String.[] = none
count_ticks (String.◌∷◌ c String.[]) = some 0
count_ticks (String.◌∷◌ c (String.◌∷◌ d s)) = elim (count_ticks (String.◌∷◌ d s)) [
  | none ↦ none
  | some n ↦ some (suc n)
]

count_ticks-ticks : (n : ℕ) → count_ticks (ticks n) ≡ some n
count_ticks-ticks zero = refl
count_ticks-ticks (suc zero) = refl
count_ticks-ticks (suc (suc n)) = rw (count_ticks-ticks (suc n)) refl

ticks_filled : (n : ℕ) → (ticks n == "") ≡ false
ticks_filled zero = refl
ticks_filled (suc n) = elim (Bool-cases (ticks (suc n) == "")) [
  | inl blank ↦ absurd (cc ((eq_iff (ticks (suc n)) "").0 blank))
  | inr filled ↦ filled
]

abbrev dates : Dates
dates = record {
  parse = count_ticks;
  iso = ticks;
  parse-iso = count_ticks-ticks;
  iso_filled = ticks_filled;
}

-- A page at `?q=x&range=4h`.
abbrev address : Params
address = ("q", "x") ∷ ("range", "4h") ∷ []

abbrev chosen_day : List Act
chosen_day = choose_preset 900000000 "1d" ∷ []

written :
    (step dates
      (choose_preset 900000005 "1w")
      (run dates chosen_day (opened dates 900000000 address))).params
    ≡ ("q", "x") ∷ ("range", "1w") ∷ []
unfolding run opened step delete set get
written = refl

go_back-restores_example :
    let s = run dates chosen_day (opened dates 900000000 address) in
    let s1 = step dates (choose_preset 900000005 "1w") s in
    let t = go_back dates s1 in SameRange t s × SameRange (go_ahead dates t) s1
unfolding step in_presets preset_ms
go_back-restores_example =
    go_back-restores dates 900000000 address chosen_day (choose_preset 900000005 "1w") (refl, tt)
      refl refl

abbrev four_hours : Window
four_hours = record { from_ms = 885600000; to_ms = 900000000 }

abbrev start : Page
start = opened dates 900000000 address

shows_four_hours : current start ≡ ok four_hours
unfolding current opened get in_presets
shows_four_hours = refl

-- An address that names an inherited property of objects cannot be rendered.
opened-current_example :
    current (opened dates 900000000 (("range", "toString") ∷ [])) ≡ err (other "Invalid time value")
unfolding get
opened-current_example =
    opened-current dates 900000000 (("range", "toString") ∷ []) "toString" refl refl
