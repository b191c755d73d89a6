-- ===== src/Web/Keyboard/Chords.antt =====
-- Two-key sequences: web/src/controllers/keyboard.ts.
use upstat.Common.{
  ℕ, ◌+◌, ◌<◌, String, ◌≡◌, refl, ◌∙◌, inl, inr, true, false, not, ◌&&◌, ◌||◌, Option, none, some,
  arith, eq_iff, ltb, leb, if◌then◌else◌, nat_eq, string_eq, ◌==◌, Bool-cases, Option-cases,
}
use upstat.Web.Keyboard.{
  Key, Keyboard, nothing, sequence_timeout_ms, target_of, tick, on_key_down, press, first_key,
  plain_key, chord,
}

-- A key without a modifier, outside of a text field.
abbrev pub IsPlain : Key → Type 0
IsPlain k = (k.meta ≡ false) × (k.ctrl ≡ false) × (k.alt ≡ false) × (k.typing ≡ false)

-- A plain key reaches the sequence.
press_plain :
    (now : ℕ) (k : Key) (s : Keyboard)
    → IsPlain k
    → press now k s ≡ plain_key now k (tick now s) (tick now s).pending_g
unfolding press on_key_down
press_plain now k s (m, c, a, t) =
    let no_palette : (k.lower == "k" && (k.meta || k.ctrl)) ≡ false = ground arith in
    rw no_palette (rw m (rw c (rw a (rw t refl))))

press_g :
    (now : ℕ) (g : Key) (s : Keyboard)
    → IsPlain g
    → g.key ≡ "g"
    → s.pending_g ≡ none
    → press now g s ≡ (record s { pending_g = some (now + sequence_timeout_ms) }, nothing)
unfolding tick
press_g now g s h e p =
    let is_g : (g.key == "g") ≡ true = (eq_iff g.key "g").1 e in
    press_plain now g s h ∙ ground (arith, p, is_g)

-- Two tests of one key for different texts do not both hold.
one_key : (k a b : String) → (a == b) ≡ false → (k == a) ≡ true → (k == b) ≡ false
one_key k a b apart h = ground (arith, eq_iff k a, eq_iff k b, eq_iff a b, apart)

chord_pushed : (t : Option String) → (chord t).pushed ≡ t
chord_pushed none = refl
chord_pushed (some href) = refl

first_key_lem :
    (now : ℕ) (k : Key) (s : Keyboard)
    → s.pending_g ≡ none
    → let (s2, e2) = first_key now k s in
      (e2.pushed ≡ none)
      × (s2.pending_g ≡ (if k.key == "g" then some (now + sequence_timeout_ms) else none))
      × (s2.palette_open ≡ (if k.key == "/" then true else s.palette_open))
      × (s2.cheatsheet_open ≡ (if k.key == "?" then not s.cheatsheet_open else s.cheatsheet_open))
first_key_lem now k s p = elim (Bool-cases (k.key == "g")) [
  | inl g ↦ rw g (
      rw (one_key k.key "g" "/" refl g)
        (rw (one_key k.key "g" "?" refl g) (refl, refl, refl, refl)))
  | inr not_g ↦ elim (Bool-cases (k.key == "/")) [
    | inl slash ↦ rw not_g (rw slash (rw (one_key k.key "/" "?" refl slash) (refl, p, refl, refl)))
    | inr not_slash ↦ elim (Bool-cases (k.key == "?")) [
      | inl ask ↦ rw not_g (rw not_slash (rw ask (refl, p, refl, refl)))
      | inr not_ask ↦ rw not_g (rw not_slash (rw not_ask (refl, p, refl, refl)))
    ]
  ]
]

-- A plain key while a timer runs that fires at `t`.
second :
    (later t : ℕ) (k : Key) (s : Keyboard)
    → let s1 : Keyboard = record s { pending_g = some t } in
      let (s2, e2) = plain_key later k (tick later s1) (tick later s1).pending_g in
      let in_time = ltb later t in
      (nothing.pushed ≡ none)
      × (e2.pushed ≡ (if in_time then target_of k.lower else none))
      × (s2.pending_g ≡ (
          if in_time
          then none
          else if k.key == "g"
          then some (later + sequence_timeout_ms)
          else none))
      × (s2.palette_open ≡ (if not in_time && k.key == "/" then true else s.palette_open))
      × (s2.cheatsheet_open
          ≡ (if not in_time && k.key == "?" then not s.cheatsheet_open else s.cheatsheet_open))
unfolding tick
second later t k s = elim (Bool-cases (leb t later)) [
  | inl late ↦
      let over : ltb later t ≡ false = ground (arith, late) in
      let (a, b, c, d) = first_key_lem later k (record s { pending_g = none }) refl in
      rw late (rw over (refl, a, b, c, d))
  | inr early ↦
      let ahead : ltb later t ≡ true = ground (arith, early) in
      rw early (rw ahead (refl, chord_pushed (target_of k.lower), refl, refl, refl))
]

-- A sequence navigates only in time: after `g`, pressed while no sequence is open, the next plain
-- key goes to its target, if it has one, when it comes within 800 ms; from then on it is a first
-- key itself, and goes nowhere. In time it closes the sequence, whichever key it is, and opens
-- neither the palette nor the cheatsheet.
pub press-press :
    (now later : ℕ) (g k : Key) (s : Keyboard)
    → IsPlain g
    → IsPlain k
    → g.key ≡ "g"
    → s.pending_g ≡ none
    → let (s1, e1) = press now g s in
      let (s2, e2) = press later k s1 in
      let in_time = ltb later (now + sequence_timeout_ms) in
      (e1.pushed ≡ none)
      × (e2.pushed ≡ (if in_time then target_of k.lower else none))
      × (s2.pending_g ≡ (
          if in_time
          then none
          else if k.key == "g"
          then some (later + sequence_timeout_ms)
          else none))
      × (s2.palette_open ≡ (if not in_time && k.key == "/" then true else s.palette_open))
      × (s2.cheatsheet_open
          ≡ (if not in_time && k.key == "?" then not s.cheatsheet_open else s.cheatsheet_open))
press-press now later g k s hg hk e p =
    let s1 : Keyboard = record s { pending_g = some (now + sequence_timeout_ms) } in
    let one : press now g s ≡ (s1, nothing) = press_g now g s hg e p in
    let two = press_plain later k s1 hk in
    rw one (rw two (second later (now + sequence_timeout_ms) k s))

-- Only a sequence navigates: a key press that sends the router anywhere is a plain one, a `g` was
-- pending that had not timed out, and the path is the key's target.
pub press-pushed :
    (now : ℕ) (k : Key) (s : Keyboard) (href : String)
    → (press now k s).1.pushed ≡ some href
    → (t : ℕ) × IsPlain k
      × (s.pending_g ≡ some t)
      × (now < t)
      × (target_of k.lower ≡ some href)
      × ((press now k s).0.pending_g ≡ none)
unfolding press tick on_key_down
press-pushed now k s href h = elim (Option-cases s.pending_g) [
  | inl e ↦ absurd (ground (arith, e))
  | inr (t, e) ↦ (t, ground (arith, e), e, ground (arith, e), ground (arith, e), ground (arith, e))
]
