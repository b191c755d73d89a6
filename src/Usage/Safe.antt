-- ===== src/Usage/Safe.antt =====
-- A flush of the local windows: no tally is lost, and none of an open window is sent.
use upstat.Common.{
  ℕ, ◌<◌, String, ◌≡◌, refl, ◌⊎◌, inl, inr, true, some, List, [], ◌∷◌, ◌++◌, map, nat_eq, string_eq,
  Result-cases, ok, get, Entries, IsMap, get_of_mem,
}
use mathlib.Core.Path.{subst}
use mathlib.Core.List.Memᴰ
use mathlib.Core.List.{Memᴰ}
use upstat.Collector.{Config, Outgoing, log_rows, logs, otlp_record}
use upstat.Collector.Headers.{IsSentBy, send_logs-delivers, send_logs-grows}
use upstat.Usage.{
  Tally, Meter, Groups, usage_row, send, group_closed, forget, row_tally, flush_groups, flush_local,
}
use upstat.Usage.Groups.{get-delete_rows, Agrees, group_closed-Agrees}

-- A tally's record is in a request that was sent for its organisation as the gateway's own.
pub record Delivered (cfg : Config) (t : Tally) (sent : List Outgoing) : Type 0 where
  pub out : Outgoing
  pub rows : List Tally
  pub member : Memᴰ out sent
  pub holds : Memᴰ t rows
  pub as_sent :
      IsSentBy cfg logs
        (log_rows "upstat.usage" (map (otlp_record cfg "upstat.usage") (map usage_row rows)))
        t.org_id
        "application/json"
        true
        out

-- The tally is still counted, or it was sent.
abbrev Safe : Config → ℕ → String → Tally → {S : Type 0} → Meter S → Type 0
Safe cfg current k t s =
    (get s.usage.local k ≡ some t) ⊎ (Delivered cfg t s.collector.sent × (t.window < current))

Delivered-more :
    (cfg : Config) (t : Tally) (sent more : List Outgoing)
    → Delivered cfg t sent
    → Delivered cfg t (sent ++ more)
Delivered-more cfg t sent more d = record {
  out = d.out;
  rows = d.rows;
  member = Memᴰ.append_left more d.member;
  holds = d.holds;
  as_sent = d.as_sent;
}

module _ {S : Type 0} (cfg : Config) (clock current : ℕ) (k : String) (t : Tally) where
  send-Safe :
      (org_id : String) (tallies : List Tally) (s : Meter S)
      → Safe cfg current k t s
      → Safe cfg current k t (send cfg clock org_id tallies s).1
  unfolding send
  send-Safe org_id tallies s (inl kept) = inl kept
  send-Safe org_id tallies s (inr (d, closed)) =
      let (more, grown) =
        send_logs-grows cfg clock org_id "upstat.usage" (map usage_row tallies) s.collector in
      inr (rw grown (Delivered-more cfg t s.collector.sent more d), closed)

  send-Delivered :
      (org_id : String) (tallies : List Tally) (s : Meter S)
      → Memᴰ t tallies
      → org_id ≡ t.org_id
      → (send cfg clock org_id tallies s).0 ≡ ok tt
      → Delivered cfg t (send cfg clock org_id tallies s).1.collector.sent
  unfolding send
  send-Delivered org_id [] s mem org done = elim mem [ ]
  send-Delivered org_id (r ∷ rs) s mem org done =
      let (out, one, how, answered) =
        send_logs-delivers cfg clock org_id "upstat.usage" (usage_row r) (map usage_row rs)
          s.collector done in
      record {
        out = out;
        rows = r ∷ rs;
        member = rw one (Memᴰ.append_right s.collector.sent (Memᴰ.head refl));
        holds = mem;
        as_sent =
            subst
              (λ o.
                IsSentBy cfg logs
                  (log_rows "upstat.usage"
                    (map (otlp_record cfg "upstat.usage") (map usage_row (r ∷ rs))))
                  o "application/json" true out)
              org how;
      }

  forget-Safe :
      (org_id : String) (rows : List (String × Tally)) (s : Meter S)
      → Agrees current k t org_id rows
      → (send cfg clock org_id (map row_tally rows) s).0 ≡ ok tt
      → Safe cfg current k t s
      → Safe cfg current k t (forget rows (send cfg clock org_id (map row_tally rows) s).1).1
  unfolding send
  forget-Safe org_id rows s agrees done (inr (d, closed)) =
      let (more, grown) =
        send_logs-grows cfg clock org_id "upstat.usage" (map usage_row (map row_tally rows))
          s.collector in
      inr (rw grown (Delivered-more cfg t s.collector.sent more d), closed)
  forget-Safe org_id rows s agrees done (inl kept) =
      elim (get-delete_rows rows s.usage.local k t kept) [
        | inl still ↦ inl still
        | inr (u, mem) ↦
            let (same, org, closed) = agrees u mem in
            inr (
              send-Delivered org_id (map row_tally rows) s
                  (subst (λ a. Memᴰ a (map row_tally rows)) same (Memᴰ.map row_tally mem)) org done,
              closed,
            )
      ]

  flush_groups-Safe :
      (groups : Groups) (s : Meter S)
      → Entries (Agrees current k t) groups
      → Safe cfg current k t s
      → Safe cfg current k t (flush_groups cfg clock groups s).1
  unfolding flush_groups
  flush_groups-Safe [] s h safe = safe
  flush_groups-Safe ((org_id, rows) ∷ groups) s (agrees, h) safe =
      let u = (send cfg clock org_id (map row_tally rows) s).1 in
      elim (Result-cases (send cfg clock org_id (map row_tally rows) s).0) [
        | inl (e, failed) ↦ rw (failed, flush_groups) (send-Safe org_id (map row_tally rows) s safe)
        | inr (_, done) ↦
            rw (done, flush_groups)
              (flush_groups-Safe groups (forget rows u).1 h
                (forget-Safe org_id rows s agrees done safe))
      ]

  -- However the collector answers: after a flush each tally is still counted, or its window was
  -- closed and its record is in a request that was sent as the gateway's own, for its organisation.
  pub flush_local-Safe :
      (s : Meter S)
      → IsMap s.usage.local
      → get s.usage.local k ≡ some t
      → (get (flush_local cfg clock current s).1.usage.local k ≡ some t)
        ⊎ (Delivered cfg t (flush_local cfg clock current s).1.collector.sent
            × (t.window < current))
  unfolding flush_local
  flush_local-Safe s one held =
      flush_groups-Safe (group_closed current [] s.usage.local) s
        (group_closed-Agrees current k t s.usage.local []
          (λ u mem. only u (get_of_mem s.usage.local k u one mem)) tt)
        (inl held)
    where
      only : (u : Tally) → get s.usage.local k ≡ some u → u ≡ t
      only u e = cc
