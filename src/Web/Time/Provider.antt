-- ===== src/Web/Time/Provider.antt =====
-- The provider's state and what changes it: web/src/controllers/time-range.tsx,
-- TimeRangeProvider.
use upstat.Common.{
  ℕ, ◌+◌, ◌-◌, ◌*◌, ◌/◌, String, Bool, Option, none, some, List, [], ◌∷◌, ◌++◌, ltb, if◌then◌else◌,
  nat_eq, string_eq, ◌==◌, is_some, Result, ok, err, other,
}
use upstat.Web.Url.{Params}
use upstat.Web.Time.{Window, Choice, Dates, preset_ms, hour, parse_url, write_url}

-- The provider's state, the address of the page, and the tab's history before and after it.
pub record Page : Type 0 where
  pub preset : String
  pub live : Bool
  pub zoom : Option Window
  pub stack : List Window
  pub anchor : ℕ
  pub params : Params
  pub back : List Params
  pub ahead : List Params

-- `PRESET_MS[preset]`, or an hour for "custom"; `none` where the subtraction gives NaN.
unfoldable pub span_of : String → Option ℕ
unfolding preset_ms
span_of p = if p == "custom" then some hour else preset_ms p

abbrev pub from_span : ℕ → Option ℕ → Result Window
from_span now none = err (other "Invalid time value")
from_span now (some span) = ok (record { from_ms = now - span; to_ms = now })

-- The window that a render shows; `toISOString` of NaN throws a RangeError.
abbrev shown : ℕ → String → Option Window → Result Window
shown anchor p (some w) = ok w
shown anchor p none = from_span anchor (span_of p)

unfoldable pub current : Page → Result Window
unfolding span_of
current s = shown s.anchor s.preset s.zoom

-- The span that a page shows, which does not depend on when its preset was chosen.
abbrev pub span_shown : String → Option Window → Option ℕ
span_shown p (some w) = some (w.to_ms - w.from_ms)
span_shown p none = span_of p

-- A place in the drag region, as a fraction.
pub record Frac : Type 0 where
  pub num : ℕ
  pub den : ℕ

-- `Math.round(fromMs + frac * span)`.
unfoldable pub place : Window → Frac → ℕ
place w f = w.from_ms + (2 * f.num * (w.to_ms - w.from_ms) + f.den) / (2 * f.den)

-- What the user does.
pub data Act : Type 0 where
  choose_preset : ℕ → String → Act
  switch_live : ℕ → Bool → Act
  drag : Frac → Frac → Act
  double_click press_back press_ahead : Act

module _ (dates : Dates) where
  -- `history.pushState` and `history.replaceState`.
  abbrev pub pushed : Choice → Page → Page
  pushed next s = record s {
    params = write_url dates next s.params;
    back = s.params ∷ s.back;
    ahead = [];
  }

  abbrev pub replaced : Choice → Page → Page
  replaced next s = record s { params = write_url dates next s.params }

  -- The provider's first render at an address.
  unfoldable pub opened : ℕ → Params → Page
  unfolding parse_url
  opened now m =
      let init = parse_url dates m in
      record {
        preset = init.preset;
        live = init.live;
        zoom = init.window;
        stack = [];
        anchor = now;
        params = m;
        back = [];
        ahead = [];
      }

  unfoldable pub set_preset : ℕ → String → Page → Page
  unfolding write_url
  set_preset now p s =
      pushed (record { preset = p; window = none; live = s.live })
        (record s { stack = []; zoom = none; preset = p; anchor = now })

  unfoldable pub set_live : ℕ → Bool → Page → Page
  unfolding write_url
  set_live now l s =
      replaced (record { preset = s.preset; window = s.zoom; live = l })
        (record s { live = l; anchor = if l then now else s.anchor })

  unfoldable pub reset_zoom : Page → Page
  unfolding write_url
  reset_zoom s =
      pushed (record { preset = s.preset; window = none; live = s.live })
        (record s { stack = []; zoom = none })

  unfoldable pub on_pop : Page → Page
  unfolding parse_url
  on_pop s =
      let parsed = parse_url dates s.params in
      record s {
        preset = parsed.preset;
        zoom = parsed.window;
        live = parsed.live;
        stack = if is_some parsed.window then s.stack else [];
      }

  -- The browser's back button, and the event that it causes.
  abbrev pub step_back : List Params → Page → Page
  step_back [] s = s
  step_back (m ∷ ms) s = on_pop (record s { params = m; back = ms; ahead = s.params ∷ s.ahead })

  unfoldable pub go_back : Page → Page
  unfolding on_pop
  go_back s = step_back s.back s

  abbrev pub step_ahead : List Params → Page → Page
  step_ahead [] s = s
  step_ahead (m ∷ ms) s = on_pop (record s { params = m; back = s.params ∷ s.back; ahead = ms })

  unfoldable pub go_ahead : Page → Page
  unfolding on_pop
  go_ahead s = step_ahead s.ahead s

  -- The 10 s floor, and the push of the zoomed window.
  abbrev pub zoomed : Window → Frac → Frac → Page → Page
  zoomed w a b s =
      let next : Window = record { from_ms = place w a; to_ms = place w b } in
      if ltb next.to_ms (next.from_ms + 10000)
      then s
      else pushed (record { preset = s.preset; window = some next; live = s.live })
          (record s { stack = s.stack ++ w ∷ []; zoom = some next })

  abbrev pub zoom_from : Result Window → Frac → Frac → Page → Page
  zoom_from (ok w) a b s = zoomed w a b s
  zoom_from (err e) a b s = s

  -- A page whose render threw has no drag region.
  unfoldable pub zoom_by : Frac → Frac → Page → Page
  unfolding write_url current place
  zoom_by a b s = zoom_from (current s) a b s

  unfoldable pub step : Act → Page → Page
  unfolding set_preset set_live zoom_by reset_zoom go_back go_ahead
  step (choose_preset now p) s = set_preset now p s
  step (switch_live now l) s = set_live now l s
  step (drag a b) s = zoom_by a b s
  step double_click s = reset_zoom s
  step press_back s = go_back s
  step press_ahead s = go_ahead s

  unfoldable pub run : List Act → Page → Page
  unfolding step
  run [] s = s
  run (a ∷ acts) s = run acts (step a s)
