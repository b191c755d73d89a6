-- ===== src/Usage/Due.antt =====
-- The flush before a response: it never fails the request, and it rests between two checks.
use upstat.Common.{
  ℕ, ◌+◌, ◌/◌, ◌≤◌, ◌<◌, String, ◌≡◌, refl, ap, ◌∙◌, inl, inr, Bool, true, false, Option, none,
  some, List, [], ◌∷◌, map, arith, ltb, if◌then◌else◌, nat_eq, string_eq, Bool-cases, Result,
  Action, and_then, Result-cases, caught_quiet, caught_state, ok, err,
}
use upstat.Valkey.{Hashes, Valkey}
use upstat.Collector.{Config}
use upstat.Valkey.{eval}
use upstat.Usage.{
  window_ms, on_store, group_closed, Meter, Usage, Groups, send, forget, row_tally, flush_groups,
  flush_local, check_every_ms,
}
use upstat.Usage.Flush.{
  due_windows, windows_key, hash_key, lock_key, claim_script, rows_of, ToInteger, Links, Rows,
  flush_due, flush_valkey, flush_windows, flush_claimed, send_rows, tallies_of,
}

-- What a chain of steps leaves alone.
bind_keeps :
    {S A B : Type 0} (r : Result A × Meter S) (f : A → Action (Meter S) B) (u : Usage)
    → r.1.usage ≡ u
    → ((a : A) (s : Meter S) → s.usage ≡ u → (f a s).1.usage ≡ u)
    → (and_then r f).1.usage ≡ u
bind_keeps (ok a, s) f u same next = next a s same
bind_keeps (err e, s) f u same next = same

module _ {S : Type 0} (H : Hashes S) (integer : ToInteger) (cfg : Config) (v : Valkey)
    (links : Links) (clock : ℕ) where
  -- Whatever the store and the collector do, the flush gives the caller no error.
  pub flush_due-quiet :
      (now : ℕ) (s : Meter S) → (flush_due H integer cfg v links clock now s).0 ≡ ok tt
  unfolding flush_due
  flush_due-quiet now s = elim (Bool-cases (ltb now s.usage.next_check_at)) [
    | inl early ↦ rw (early, flush_due)
    | inr due ↦ rw (due, flush_due) (caught_quiet _)
  ]

  flush_groups-next :
      (groups : Groups) (s : Meter S)
      → (flush_groups cfg clock groups s).1.usage.next_check_at ≡ s.usage.next_check_at
  unfolding flush_groups
  flush_groups-next [] s = refl
  flush_groups-next ((org_id, rows) ∷ groups) s =
      elim (Result-cases (send cfg clock org_id (map row_tally rows) s).0) [
        | inl (e, failed) ↦ rw (failed, flush_groups)
        | inr (_, done) ↦
            rw (done, flush_groups)
              (flush_groups-next groups
                (forget rows (send cfg clock org_id (map row_tally rows) s).1).1)
      ]

  send_rows-usage :
      (rows : Rows) (s : Meter S) → (send_rows H integer cfg v links clock rows s).2.usage ≡ s.usage
  unfolding send_rows
  send_rows-usage [] s = refl
  send_rows-usage ((org_id, rows) ∷ rest) s =
      elim (Result-cases (send cfg clock org_id (tallies_of rows) s).0) [
        | inl (e, failed) ↦ rw (failed, send_rows)
        | inr (_, done) ↦
            rw (done, send_rows)
              (send_rows-usage rest (send cfg clock org_id (tallies_of rows) s).1)
      ]

  flush_claimed-usage :
      (w : ℕ) (reply : Option (List String)) (s : Meter S)
      → (flush_claimed H integer cfg v links clock w reply s).1.usage ≡ s.usage
  flush_claimed-usage w none s = refl
  flush_claimed-usage w (some reply) s = send_rows-usage (rows_of integer w [] reply) s

  flush_windows-usage :
      (windows : List ℕ) (s : Meter S)
      → (flush_windows H integer cfg v links clock windows s).1.usage ≡ s.usage
  unfolding flush_windows
  flush_windows-usage [] s = refl
  flush_windows-usage (w ∷ windows) s =
      bind_keeps
        (on_store (eval v (links.claim w) (claim_script H (hash_key v w) (lock_key v w))) s) _
        s.usage refl
        (λ reply t same.
          bind_keeps (flush_claimed H integer cfg v links clock w reply t) _ s.usage
            (flush_claimed-usage w reply t ∙ same)
            (λ _ u same'. flush_windows-usage windows u ∙ same'))

  flush_valkey-usage :
      (current : ℕ) (s : Meter S)
      → (flush_valkey H integer cfg v links clock current s).1.usage ≡ s.usage
  unfolding flush_valkey
  flush_valkey-usage current s =
      bind_keeps
        (on_store (eval v links.list_windows (λ st. (H.smembers (windows_key v) st, st))) s) _
        s.usage refl
        (λ members m same. flush_windows-usage (due_windows integer current members) m ∙ same)

  flush_either-next :
      (shared : Bool) (current : ℕ) (s : Meter S)
      → ((if shared
            then flush_valkey H integer cfg v links clock current
            else flush_local cfg clock current)
          s).1.usage.next_check_at
        ≡ s.usage.next_check_at
  unfolding flush_local
  flush_either-next true current s =
      ap (λ (u : Usage). u.next_check_at) (flush_valkey-usage current s)
  flush_either-next false current s = flush_groups-next (group_closed current [] s.usage.local) s

  -- A check sets the time of the next one, whichever store the windows are in and however it ends.
  flush_due-next :
      (now : ℕ) (s : Meter S)
      → s.usage.next_check_at ≤ now
      → (flush_due H integer cfg v links clock now s).1.usage.next_check_at ≡ now + check_every_ms
  unfolding flush_due
  flush_due-next now s due =
      let t = record s { usage = record s.usage { next_check_at = now + check_every_ms } } in
      let is_due : ltb now s.usage.next_check_at ≡ false = ground arith in
      rw (is_due, flush_due)
        (ap (λ (m : Meter S). m.usage.next_check_at)
            (caught_state (
              (if v.enabled
                  then flush_valkey H integer cfg v links clock (now / window_ms)
                  else flush_local cfg clock (now / window_ms))
                t))
          ∙ flush_either-next v.enabled (now / window_ms) t)

  flush_due_early :
      (later : ℕ) (s : Meter S)
      → later < s.usage.next_check_at
      → flush_due H integer cfg v links clock later s ≡ (ok tt, s)
  unfolding flush_due
  flush_due_early later s early =
      let soon : ltb later s.usage.next_check_at ≡ true = ground arith in rw (soon, flush_due)

  -- After a check, the calls of the next 15 seconds change nothing and send nothing.
  pub flush_due-rests :
      (now later : ℕ) (s : Meter S)
      → s.usage.next_check_at ≤ now
      → later < now + check_every_ms
      → let t = (flush_due H integer cfg v links clock now s).1 in
        flush_due H integer cfg v links clock later t ≡ (ok tt, t)
  flush_due-rests now later s due soon =
      flush_due_early later (flush_due H integer cfg v links clock now s).1
        (omega (arith, flush_due-next now s due))
