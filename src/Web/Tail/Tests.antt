-- ===== src/Web/Tail/Tests.antt =====
-- Runs of the live tail, and the theorems at them.
use upstat.Common.{
  ℕ, ◌≤◌, String, ◌≡◌, refl, true, false, none, some, List, [], ◌∷◌, ◌++◌, nat_eq, string_eq,
  length, filter, take,
}
use upstat.Web.Tail.{
  LogEvent, initial, tail_max, fresh_of, ids, resume, Event, live, answer, scroll_away,
  click_buffered, step, run,
}
use upstat.Web.Tail.Distinct.{Distinct}
use upstat.Web.Tail.Pauses.{steady, run-resume}
use upstat.Web.Tail.Tidy.{run-Distinct}

abbrev line : String → LogEvent ℕ
line i = record { id = i; rest = 0 }

-- Live, two polls, a pause, a poll into the buffer.
abbrev paused_tail : List (Event ℕ)
paused_tail =
    live true
    ∷ answer 1 true (some (line "a" ∷ []))
    ∷ answer 1 false (some (line "b" ∷ line "a" ∷ []))
    ∷ scroll_away
    ∷ answer 1 false none
    ∷ answer 1 false (some (line "c" ∷ line "b" ∷ []))
    ∷ []

paused_shows : ids (run paused_tail (initial "")).tail ≡ "b" ∷ "a" ∷ []
unfolding run step take fresh_of
paused_shows = refl

paused_buffers : ids (run paused_tail (initial "")).buffered ≡ "c" ∷ []
unfolding run step take fresh_of
paused_buffers = refl

-- A new run of the effect whose first poll fails: the next poll shows an event a second time.
failed_first_poll :
    ids
      (run
        (paused_tail
          ++ click_buffered
            ∷ live false
            ∷ live true
            ∷ answer 3 true none
            ∷ answer 3 false (some (line "c" ∷ []))
            ∷ [])
        (initial "")).tail
    ≡ "c" ∷ "c" ∷ "b" ∷ "a" ∷ []
unfolding run step take fresh_of
failed_first_poll = refl

run-resume_example :
    let s = resume (run paused_tail (initial "")) in
    let never = run (filter steady paused_tail) (initial "") in
    (s.tail ≡ never.tail)
    × (s.paused ≡ false)
    × (s.buffered ≡ [])
    × (s.seen ≡ never.seen)
    × (never.paused ≡ false)
run-resume_example = run-resume "" paused_tail

run-Distinct_example :
    let s = run paused_tail (initial "") in
    Distinct (ids (s.buffered ++ s.tail)) × (length s.tail ≤ tail_max)
unfolding run step take fresh_of
run-Distinct_example = run-Distinct "" paused_tail (
  tt,
  (
    λ _. (refl, (refl, tt)),
    (λ _. (refl, (refl, (refl, tt))), (tt, (tt, (λ _. (refl, (refl, (refl, tt))), tt)))),
  ),
)
