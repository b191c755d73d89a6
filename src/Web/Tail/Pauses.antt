-- ===== src/Web/Tail/Pauses.antt =====
-- Pausing the live tail of web/src/controllers/logs.ts against never pausing it.
use upstat.Common.{
  String, ◌≡◌, refl, sym, ap, ◌∙◌, inl, inr, Bool, true, false, none, some, List, [], ◌∷◌, ◌++◌,
  arith, nat_eq, string_eq, ◌==◌, Bool-cases, filter, take, length-take, take_all, take-take,
  take-append_take,
}
use mathlib.Core.List.{append_assoc}
use upstat.Web.Tail.{
  LogEvent, Tail, initial, tail_max, fresh_of, received, set_live, pause, resume, submit_query,
  answered, Event, live, answer, scroll_away, click_buffered, submit, step, run,
}

none_shown : {T : Type 0} → take {A = LogEvent T} tail_max [] ≡ []
none_shown = take_all tail_max [] (omega arith)

module _ {T : Type 0} where
  -- Every event but pausing and resuming.
  abbrev pub steady : Event T → Bool
  steady scroll_away = false
  steady click_buffered = false
  steady _ = true

  -- A tail and its twin that is never paused: the twin shows what is buffered above what is shown.
  record Twins (s u : Tail T) : Type 0 where
    live : s.live ≡ u.live
    active_query : s.active_query ≡ u.active_query
    seen : s.seen ≡ u.seen
    entry : s.entry ≡ u.entry
    unpaused : u.paused ≡ false
    nothing_buffered : u.buffered ≡ []
    shown : u.tail ≡ take tail_max (s.buffered ++ s.tail)
    flowing : s.paused ≡ false → s.buffered ≡ []

  received-Twins :
      (first : Bool) (page : List (LogEvent T)) (s u : Tail T)
      → Twins s u
      → Twins (received first page s) (received first page u)
  unfolding received
  received-Twins true page s u h = ground (
    arith,
    take_all tail_max (take tail_max (fresh_of s.seen page))
        (length-take tail_max (fresh_of s.seen page)),
  )
  received-Twins false page s u h = ground (
    arith,
    take-append_take tail_max (fresh_of s.seen page) (s.buffered ++ s.tail) tail_max,
    append_assoc (fresh_of s.seen page) s.buffered s.tail,
    take-take tail_max tail_max (fresh_of s.seen page ++ s.tail),
  )

  step-Twins :
      (e : Event T) (s u : Tail T) → Twins s u → steady e ≡ true → Twins (step e s) (step e u)
  unfolding step set_live submit_query answered
  step-Twins (live true) s u h k = ground arith
  step-Twins (live false) s u h k = ground arith
  step-Twins (answer n first none) s u h k = h
  step-Twins (answer n first (some page)) s u h k = ground (arith, received-Twins first page s u)
  step-Twins scroll_away s u h k = cc
  step-Twins click_buffered s u h k = cc
  step-Twins (submit q) s u h k =
      let same : (q == s.active_query) ≡ (q == u.active_query) =
        ap (λ (x : String). q == x) h.active_query in
      elim (Bool-cases (q == s.active_query)) [
        | inl old ↦ ground (arith, sym same ∙ old, none_shown {T = T})
        | inr new ↦ ground (arith, sym same ∙ new, none_shown {T = T})
      ]

  scroll-Twins : (e : Event T) (s u : Tail T) → Twins s u → steady e ≡ false → Twins (step e s) u
  unfolding step pause resume
  scroll-Twins scroll_away s u h k = ground arith
  scroll-Twins click_buffered s u h k = ground (
    arith,
    take_all tail_max (take tail_max (s.buffered ++ s.tail))
        (length-take tail_max (s.buffered ++ s.tail)),
  )
  scroll-Twins (live x) s u h k = cc
  scroll-Twins (answer n first page) s u h k = cc
  scroll-Twins (submit q) s u h k = cc

  run-Twins :
      (es : List (Event T)) (s u : Tail T) → Twins s u → Twins (run es s) (run (filter steady es) u)
  unfolding run
  run-Twins [] s u h = h
  run-Twins (e ∷ es) s u h = elim (Bool-cases (steady e)) [
    | inl k ↦ rw (k, run) (run-Twins es (step e s) (step e u) (step-Twins e s u h k))
    | inr k ↦ rw k (run-Twins es (step e s) u (scroll-Twins e s u h k))
  ]

  -- Pausing loses nothing: after any sequence of events from the start, a click on the chip of
  -- buffered events shows exactly what a tail that was never paused would show after the same
  -- events, and leaves it unpaused with nothing buffered and the same ids known.
  pub run-resume :
      (q : String) (es : List (Event T))
      → let s = resume (run es (initial q)) in
        let never = run (filter steady es) (initial q) in
        (s.tail ≡ never.tail)
        × (s.paused ≡ false)
        × (s.buffered ≡ [])
        × (s.seen ≡ never.seen)
        × (never.paused ≡ false)
  unfolding resume
  run-resume q es =
      let start : Twins (initial q) (initial q) = ground (arith, none_shown {T = T}) in
      let h = run-Twins es (initial q) (initial q) start in
      (sym h.shown, refl, refl, h.seen, h.unpaused)
