-- ===== src/Web/Keyboard/Tests.antt =====
-- Key presses, and the theorems at them.
use upstat.Common.{String, ◌≡◌, refl, true, false, none, some, nat_eq, string_eq}
use upstat.Web.Keyboard.{Key, Keyboard, target_of, press}
use upstat.Web.Keyboard.Chords.{press-press}

abbrev plain : String → Key
plain k = record { key = k; lower = k; meta = false; ctrl = false; alt = false; typing = false }

abbrev closed : Keyboard
closed = record { palette_open = false; cheatsheet_open = false; pending_g = none }

-- `g`, then `d` half a second later.
press-press_example :
    let (s1, e1) = press 1000 (plain "g") closed in
    let (s2, e2) = press 1500 (plain "d") s1 in
    (e1.pushed ≡ none)
    × (e2.pushed ≡ some "/dashboard/dashboards")
    × (s2.pending_g ≡ none)
    × (s2.palette_open ≡ false)
    × (s2.cheatsheet_open ≡ false)
unfolding target_of
press-press_example =
    press-press 1000 1500 (plain "g") (plain "d") closed (refl, refl, refl, refl)
      (refl, refl, refl, refl) refl refl

abbrev waiting : Keyboard
waiting = record { palette_open = false; cheatsheet_open = true; pending_g = some 1800 }

goes_to_logs : (press 1799 (plain "l") waiting).1.pushed ≡ some "/dashboard/logs"
unfolding press target_of
goes_to_logs = refl
