-- ===== src/Web/Time/History.antt =====
-- Back and forward restore the time range: web/src/controllers/time-range.tsx.
use upstat.Common.{
  ℕ, ◌+◌, String, ◌≡◌, refl, sym, ap, ◌∙◌, inl, inr, Bool, Option, none, some, List, [], ◌∷◌, arith,
  ltb, if◌then◌else◌, nat_eq, string_eq, ◌==◌, Bool-cases, All, Result, ok, err,
}
use upstat.Web.Url.{Params}
use upstat.Web.Time.{Window, Dates, preset_ms, parse_url, write_url}
use upstat.Web.Time.Provider.{
  Page, Frac, Act, choose_preset, switch_live, drag, double_click, press_back, press_ahead, step,
  run, span_of, span_shown, current, opened, set_preset, set_live, zoom_by, reset_zoom, on_pop,
  go_back, go_ahead, place, zoom_from, step_back, step_ahead,
}
use upstat.Web.Time.Restored.{IsOrdered, IsKnown, written_window, written_preset, parse_url_lem}

-- The time picker offers names of presets only.
abbrev pub Offered : Act → Type 0
Offered (choose_preset now p) = IsKnown p
Offered a = Unit {0}

-- Two pages show the same range: the same zoom and span, both live or neither.
abbrev pub SameRange : Page → Page → Type 0
SameRange t s =
    (t.zoom ≡ s.zoom)
    × (t.live ≡ s.live)
    × (span_shown t.preset t.zoom ≡ span_shown s.preset s.zoom)

module _ (dates : Dates) where
  -- The address of a page carries its zoom, whether it is live, and the span that it shows.
  record InSync (s : Page) : Type 0 where
    zoom : (parse_url dates s.params).window ≡ s.zoom
    live : (parse_url dates s.params).live ≡ s.live
    span :
        span_shown (parse_url dates s.params).preset (parse_url dates s.params).window
        ≡ span_shown s.preset s.zoom
    known : IsKnown s.preset
    ordered : IsOrdered s.zoom

  read-InSync :
      (s : Page)
      → s.preset ≡ (parse_url dates s.params).preset
      → s.zoom ≡ (parse_url dates s.params).window
      → s.live ≡ (parse_url dates s.params).live
      → InSync s
  read-InSync s p z l =
      let (o, k) = parse_url_lem dates s.params in
      record { zoom = sym z; live = sym l; span = rw (p, z) refl; known = rw p k; ordered = rw z o }

  span_of_written : (p : String) → span_of (if p == "custom" then "1h" else p) ≡ span_of p
  unfolding span_of preset_ms
  span_of_written p = elim (Bool-cases (p == "custom")) [
    | inl custom ↦ rw custom refl
    | inr named ↦ ap (λ (b : Bool). span_of (if b then "1h" else p)) named
  ]

  -- What an operation that writes the address leaves.
  written-InSync :
      (p : String) (w : Option Window) (l : Bool) (m : Params) (s : Page)
      → IsKnown p
      → IsOrdered w
      → s.preset ≡ p
      → s.zoom ≡ w
      → s.live ≡ l
      → s.params ≡ write_url dates (record { preset = p; window = w; live = l }) m
      → InSync s
  written-InSync p (some w) l m s k o ep ez el em =
      let e = ap (parse_url dates) em ∙ written_window dates w p l m o in
      record {
        zoom = ap (λ c. c.window) e ∙ sym ez;
        live = ap (λ c. c.live) e ∙ sym el;
        span = rw (e, ep, ez) refl;
        known = rw ep k;
        ordered = rw ez o;
      }
  written-InSync p none l m s k o ep ez el em =
      let e = ap (parse_url dates) em ∙ written_preset dates p l m k in
      record {
        zoom = ap (λ c. c.window) e ∙ sym ez;
        live = ap (λ c. c.live) e ∙ sym el;
        span = rw (e, ep, ez) (span_of_written p);
        known = rw ep k;
        ordered = rw ez tt;
      }

  on_pop-InSync : (s : Page) → InSync (on_pop dates s)
  unfolding on_pop
  on_pop-InSync s = read-InSync _ refl refl refl

  zoom_from-InSync :
      (r : Result Window) (a b : Frac) (s : Page) → InSync s → InSync (zoom_from dates r a b s)
  zoom_from-InSync (err e) a b s h = h
  zoom_from-InSync (ok w) a b s h = elim (Bool-cases (ltb (place w b) (place w a + 10000))) [
    | inl small ↦ rw small h
    | inr wide ↦ rw wide (
        written-InSync s.preset (some (record { from_ms = place w a; to_ms = place w b })) s.live
          s.params _ h.known (ground (arith, wide)) refl refl refl refl)
  ]

  step_back-InSync : (ms : List Params) (s : Page) → InSync s → InSync (step_back dates ms s)
  step_back-InSync [] s h = h
  step_back-InSync (m ∷ ms) s h = on_pop-InSync _

  step_ahead-InSync : (ms : List Params) (s : Page) → InSync s → InSync (step_ahead dates ms s)
  step_ahead-InSync [] s h = h
  step_ahead-InSync (m ∷ ms) s h = on_pop-InSync _

  step-InSync : (a : Act) (s : Page) → InSync s → Offered a → InSync (step dates a s)
  unfolding step set_preset set_live zoom_by reset_zoom go_back go_ahead
  step-InSync (choose_preset now p) s h k =
      written-InSync p none s.live s.params _ k tt refl refl refl refl
  step-InSync (switch_live now l) s h k =
      written-InSync s.preset s.zoom l s.params _ h.known h.ordered refl refl refl refl
  step-InSync (drag a b) s h k = zoom_from-InSync (current s) a b s h
  step-InSync double_click s h k =
      written-InSync s.preset none s.live s.params _ h.known tt refl refl refl refl
  step-InSync press_back s h k = step_back-InSync s.back s h
  step-InSync press_ahead s h k = step_ahead-InSync s.ahead s h

  run-InSync :
      (acts : List Act) (s : Page) → InSync s → All Offered acts → InSync (run dates acts s)
  unfolding run
  run-InSync [] s h k = h
  run-InSync (a ∷ acts) s h (k, r) = run-InSync acts (step dates a s) (step-InSync a s h k) r

  opened-InSync : (now : ℕ) (m : Params) → InSync (opened dates now m)
  unfolding opened
  opened-InSync now m = read-InSync _ refl refl refl

  -- A page read at the address of another, which is in step with it.
  on_pop-SameRange : (s t : Page) → InSync s → t.params ≡ s.params → SameRange (on_pop dates t) s
  unfolding on_pop
  on_pop-SameRange s t h e = (
    ap (λ m. (parse_url dates m).window) e ∙ h.zoom,
    ap (λ m. (parse_url dates m).live) e ∙ h.live,
    ap (λ m. span_shown (parse_url dates m).preset (parse_url dates m).window) e ∙ h.span,
  )

  -- The back button undoes what was pushed, and the forward button does it again: after any
  -- actions from a page load, where presets are chosen among those that are known, an action that
  -- adds a history entry is followed by going back, and the page shows the zoom, the span and the
  -- live switch from before the action; going forward then shows those from after it.
  pub go_back-restores :
      (now : ℕ) (m : Params) (acts : List Act) (a : Act)
      → All Offered acts
      → Offered a
      → let s = run dates acts (opened dates now m) in
        let s1 = step dates a s in
        s1.back ≡ s.params ∷ s.back
        → let t = go_back dates s1 in SameRange t s × SameRange (go_ahead dates t) s1
  unfolding go_back go_ahead
  go_back-restores now m acts a offered k pushed =
      let s = run dates acts (opened dates now m) in
      let s1 = step dates a s in
      let h = run-InSync acts (opened dates now m) (opened-InSync now m) offered in
      let h1 = step-InSync a s h k in
      let there : Page = record s1 {
        params = s.params;
        back = s.back;
        ahead = s1.params ∷ s1.ahead;
      } in
      let t = on_pop dates there in
      let here : Page = record t {
        params = s1.params;
        back = t.params ∷ t.back;
        ahead = s1.ahead;
      } in
      let back : go_back dates s1 ≡ t = ap (λ b. step_back dates b s1) pushed in
      rw back (on_pop-SameRange s there h refl, on_pop-SameRange s1 here h1 refl)
