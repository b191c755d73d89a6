-- ===== src/Quota/Refines.antt =====
-- `take` in both of its modes against one abstract counter.
use upstat.Common.{
  ℕ, ◌*◌, ◌<◌, String, ◌≡◌, inl, inr, false, arith, eq_iff, if◌then◌else◌, nat_eq, string_eq,
  Bool-cases, length, ok, get,
}
use upstat.Valkey.{Redis, Counters, Valkey, Link, eval}
use upstat.Quota.{
  Quota, max_slots, window_of, used_in, window_key, granted, refused, take_local, take,
}
use upstat.Quota.Window.{fits, spend}
use upstat.Quota.Local.{take_local-verdict, take_local-used}
use upstat.Quota.Shared.{Answers, take_script-reply, take_script-count}

module _ (R : Redis) (C : Counters R) (v : Valkey) where
  open C use {count}

  -- What is used of a window: on the shared store if there is one, else in the local slot.
  abbrev pub used : String → ℕ → Quota R.Store → ℕ
  used k window q =
      if v.enabled then count (window_key v k window) q.store else used_in (get q.local k) window

  -- In either mode, when the store answers, and without a shared store while the local map is below
  -- its cap of slots: `take` grants exactly the costs that fit beside what the window has used, it
  -- debits those and no others, and a refusal says how long to wait.
  pub take-spends :
      (link : Link) (k : String) (cost limit w now : ℕ) (q : Quota R.Store)
      → Answers link
      → (v.enabled ≡ false → length q.local < max_slots)
      → ((take R v link k cost limit w now q).0
          ≡ ok (if fits limit (used k (window_of w now) q) cost then granted else refused w now))
        × (used k (window_of w now) (take R v link k cost limit w now q).1
            ≡ spend limit (used k (window_of w now) q) cost)
  unfolding take eval take_local
  take-spends link k cost limit w now q (up, back) room = elim (Bool-cases v.enabled) [
    | inl on ↦ ground (
      arith,
      on,
      eq_iff (window_key v k (window_of w now)) (window_key v k (window_of w now)),
      take_script-reply R C (window_key v k (window_of w now)) cost limit (w * 2) q.store,
      take_script-count R C (window_key v k (window_of w now)) (window_key v k (window_of w now))
          cost limit (w * 2) q.store,
    )
    | inr off ↦ ground (
      arith,
      off,
      eq_iff k k,
      take_local-used k k cost limit w now q.local (room off),
      take_local-verdict k cost limit w now q.local,
    )
  ]
