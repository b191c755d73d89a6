-- ===== src/Quota/Local.antt =====
-- The in-memory counters of `take` against the abstract counter.
use upstat.Common.{
  ℕ, ◌+◌, ◌≤◌, ◌<◌, String, ◌≡◌, arith, eq_iff, if◌then◌else◌, ◌==◌, nat_eq, string_eq, length,
  Dict, get, get-put, length-put,
}
use upstat.Quota.{Slot, max_slots, window_of, used_in, take_local}
use upstat.Quota.Window.{fits, spend}

-- A request never grows the map of limit slots over 50,000 entries: at one more it starts anew.
pub take_local-size :
    (k : String) (cost limit w now : ℕ) (local : Dict Slot)
    → length local ≤ max_slots
    → length (take_local k cost limit w now local).1 ≤ max_slots
unfolding take_local
take_local-size k cost limit w now local h = ground arith

pub take_local-verdict :
    (k : String) (cost limit w now : ℕ) (local : Dict Slot)
    → (take_local k cost limit w now local).0.ok
      ≡ fits limit (used_in (get local k) (window_of w now)) cost
unfolding take_local
take_local-verdict k cost limit w now local = ground arith

pub take_local-used :
    (k j : String) (cost limit w now : ℕ) (local : Dict Slot)
    → length local < max_slots
    → used_in (get (take_local k cost limit w now local).1 j) (window_of w now) ≡ (
        if k == j
        then spend limit (used_in (get local k) (window_of w now)) cost
        else used_in (get local j) (window_of w now))
unfolding take_local
take_local-used k j cost limit w now local h = ground (
  arith,
  eq_iff k j,
  get-put local k j
      (record { window = window_of w now; used = used_in (get local k) (window_of w now) + cost }),
  length-put local k
      (record { window = window_of w now; used = used_in (get local k) (window_of w now) + cost }),
)
