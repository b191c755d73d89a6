-- ===== src/Web/Tail/Tidy.antt =====
-- What the live tail of web/src/controllers/logs.ts shows never repeats, and is bounded.
use upstat.Common.{
  ℕ, ◌≤◌, String, ◌≡◌, refl, sym, ap, inl, inr, Bool, true, false, not, ◌&&◌, none, some, List, [],
  ◌∷◌, ◌++◌, arith, if◌then◌else◌, nat_eq, string_eq, ◌==◌, Bool-cases, length, length-take,
  All-append, All-take,
}
use mathlib.Core.Path.{subst}
use mathlib.Core.List.{append_assoc}
use upstat.Web.Tail.{
  LogEvent, Tail, initial, tail_max, fresh_of, ids, received, set_live, pause, resume, submit_query,
  answered, Event, live, answer, scroll_away, click_buffered, submit, step, run,
}
use upstat.Web.Tail.Distinct.{
  Distinct, Known, fresh_of-Unknown, fresh_of-Distinct, Known-weaken, Known-self, Distinct-append,
  Distinct-take,
}

module _ {T : Type 0} where
  abbrev in_force : ℕ → Tail T → Bool
  in_force n s = s.live && s.entry == n

  -- Whether the run of the effect still waits for its first answer.
  abbrev awaits : Bool → Tail T → Event T → Bool
  awaits waiting s (live on) = if on && not s.live then true else waiting
  awaits waiting s (answer n first none) = waiting
  awaits waiting s (answer n first (some page)) = if in_force n s then false else waiting
  awaits waiting s scroll_away = waiting
  awaits waiting s click_buffered = waiting
  awaits waiting s (submit q) = if s.live && not (q == s.active_query) then true else waiting

  -- A page that is applied has no id twice, and is the answer of the run's first poll exactly
  -- when that is the one the run waits for.
  abbrev Allowed : Bool → Tail T → Event T → Type 0
  Allowed waiting s (answer n first (some page)) =
      in_force n s ≡ true → (first ≡ waiting) × Distinct (ids page)
  Allowed waiting s e = Unit {0}

  abbrev pub Orderly : Bool → Tail T → List (Event T) → Type 0
  Orderly waiting s [] = Unit {0}
  Orderly waiting s (e ∷ es) = Allowed waiting s e × Orderly (awaits waiting s e) (step e s) es

  record IsTidy (waiting : Bool) (s : Tail T) : Type 0 where
    distinct : Distinct (ids (s.buffered ++ s.tail))
    known : waiting ≡ false → Known s.seen (s.buffered ++ s.tail)
    bounded : length s.tail ≤ tail_max
    flowing : s.paused ≡ false → s.buffered ≡ []

  first_page :
      (page : List (LogEvent T)) (s : Tail T)
      → Distinct (ids page)
      → IsTidy false (received true page s)
  unfolding received
  first_page page s d =
      let fresh = fresh_of s.seen page in
      record {
        distinct = Distinct-take tail_max fresh (fresh_of-Distinct s.seen page d);
        known = λ h. All-take _ tail_max fresh (Known-self s.seen fresh);
        bounded = length-take tail_max fresh;
        flowing = λ h. refl;
      }

  later_page :
      (page : List (LogEvent T)) (s : Tail T)
      → Distinct (ids page)
      → IsTidy false s
      → IsTidy false (received false page s)
  unfolding received
  later_page page s d h =
      let fresh = fresh_of s.seen page in
      let all : List (LogEvent T) = fresh ++ (s.buffered ++ s.tail) in
      let apart : Distinct (ids all) =
        Distinct-append s.seen fresh (s.buffered ++ s.tail) (fresh_of-Distinct s.seen page d)
          (fresh_of-Unknown s.seen page) h.distinct (h.known refl) in
      let met : Known (ids fresh ++ s.seen) all =
        All-append _ fresh (s.buffered ++ s.tail) (Known-self s.seen fresh)
          (Known-weaken (ids fresh) s.seen (s.buffered ++ s.tail) (h.known refl)) in
      elim (Bool-cases s.paused) [
        | inl stopped ↦ rw stopped (record {
          distinct =
              subst (λ es. Distinct (ids es)) (sym (append_assoc fresh s.buffered s.tail)) apart;
          known = λ _.
              subst (Known (ids fresh ++ s.seen)) (sym (append_assoc fresh s.buffered s.tail)) met;
          bounded = h.bounded;
          flowing = λ e. absurd (ground (arith, e));
        })
        | inr flows ↦
            let empty = h.flowing flows in
            let shown : fresh ++ (s.buffered ++ s.tail) ≡ fresh ++ s.tail =
              ap (λ b. fresh ++ (b ++ s.tail)) empty in
            rw (flows, empty)
              (record {
                distinct =
                    Distinct-take tail_max (fresh ++ s.tail)
                      (subst (λ es. Distinct (ids es)) shown apart);
                known = λ _.
                    All-take _ tail_max (fresh ++ s.tail)
                      (subst (Known (ids fresh ++ s.seen)) shown met);
                bounded = length-take tail_max (fresh ++ s.tail);
                flowing = λ _. refl;
              })
      ]

  applied :
      (waiting : Bool) (page : List (LogEvent T)) (s : Tail T)
      → Distinct (ids page)
      → IsTidy waiting s
      → IsTidy false (received waiting page s)
  applied true page s d h = first_page page s d
  applied false page s d h = later_page page s d h

  emptied : (waiting : Bool) (s : Tail T) → s.tail ≡ [] → s.buffered ≡ [] → IsTidy waiting s
  emptied waiting s t b = record {
    distinct = rw (t, b) tt;
    known = λ _. rw (t, b) tt;
    bounded = rw t (omega arith);
    flowing = λ _. b;
  }

  resume-IsTidy : (waiting : Bool) (s : Tail T) → IsTidy waiting s → IsTidy waiting (resume s)
  unfolding resume
  resume-IsTidy waiting s h = record {
    distinct = Distinct-take tail_max (s.buffered ++ s.tail) h.distinct;
    known = λ e. All-take _ tail_max (s.buffered ++ s.tail) (h.known e);
    bounded = length-take tail_max (s.buffered ++ s.tail);
    flowing = λ _. refl;
  }

  answered-IsTidy :
      (waiting : Bool) (s : Tail T) (n : ℕ) (first : Bool) (page : List (LogEvent T))
      → IsTidy waiting s
      → Allowed waiting s (answer n first (some page))
      → IsTidy (if in_force n s then false else waiting) (answered n first (some page) s)
  unfolding answered
  answered-IsTidy waiting s n first page h k = elim (Bool-cases (in_force n s)) [
    | inl now ↦ let (turn, d) = k now in rw (now, turn) (applied waiting page s d h)
    | inr past ↦ rw past h
  ]

  step-IsTidy :
      (waiting : Bool) (s : Tail T) (e : Event T)
      → IsTidy waiting s
      → Allowed waiting s e
      → IsTidy (awaits waiting s e) (step e s)
  unfolding step set_live pause submit_query answered
  step-IsTidy waiting s (live true) h k = elim (Bool-cases s.live) [
    | inl on ↦ simp on h
    | inr off ↦ rw off (record {
      distinct = h.distinct;
      known = λ e. absurd (ground (arith, e));
      bounded = h.bounded;
      flowing = h.flowing;
    })
  ]
  step-IsTidy waiting s (live false) h k = record {
    distinct = h.distinct;
    known = h.known;
    bounded = h.bounded;
    flowing = h.flowing;
  }
  step-IsTidy waiting s (answer n first none) h k = h
  step-IsTidy waiting s (answer n first (some page)) h k =
      answered-IsTidy waiting s n first page h k
  step-IsTidy waiting s scroll_away h k = record {
    distinct = h.distinct;
    known = h.known;
    bounded = h.bounded;
    flowing = λ e. absurd (ground (arith, e));
  }
  step-IsTidy waiting s click_buffered h k = resume-IsTidy waiting s h
  step-IsTidy waiting s (submit q) h k = elim (Bool-cases (s.live && not (q == s.active_query))) [
    | inl anew ↦ rw anew (emptied _ _ refl refl)
    | inr same ↦ rw same (emptied _ _ refl refl)
  ]

  run-IsTidy :
      (waiting : Bool) (es : List (Event T)) (s : Tail T)
      → IsTidy waiting s
      → Orderly waiting s es
      → (w : Bool) × IsTidy w (run es s)
  unfolding run
  run-IsTidy waiting [] s h o = (waiting, h)
  run-IsTidy waiting (e ∷ es) s h (k, o) =
      run-IsTidy (awaits waiting s e) es (step e s) (step-IsTidy waiting s e h k) o

  -- A tail shows no event twice: after any orderly sequence of events from the start, in which
  -- each page that is applied has no id twice and each run of the effect first applies the answer
  -- of its first poll, the ids of the buffered and the shown events are distinct, and at most 400
  -- events are shown.
  pub run-Distinct :
      (q : String) (es : List (Event T))
      → Orderly false (initial q) es
      → let s = run es (initial q) in
        Distinct (ids (s.buffered ++ s.tail)) × (length s.tail ≤ tail_max)
  run-Distinct q es o =
      let (w, h) = run-IsTidy false es (initial q) (emptied false (initial q) refl refl) o in
      (h.distinct, h.bounded)
