-- ===== src/Quota/Tests.antt =====
-- Runs of the quota service on concrete inputs.
use upstat.Common.{
  ℕ, ◌≤◌, ◌≡◌, refl, none, some, List, [], ◌∷◌, arith, if◌then◌else◌, nat_eq, string_eq, ◌==◌, ok,
  get, put,
}
use upstat.Common.Text.{to_string}
use upstat.Valkey.Memory.{memory, memory_counters, empty_store, up, lost, shared_valkey, no_valkey}
use upstat.Quota.{Quota, Platform, granted, refused, take, window_of}
use upstat.Quota.Window.{fits, spend}
use upstat.Quota.Shared.{Request, granted_on, granted_on-le-limit}
use upstat.Quota.Refines.{used, take-spends}

abbrev new_quota : Quota memory.Store
new_quota = record { local = []; salts = []; store = empty_store }

abbrev platform : Platform
platform = record {
  to_base64 = λ b. b;
  from_base64 = λ t. t;
  day_start = λ day.
      if day == "2026-01-01"
      then some 1_767_225_600_000
      else if day == "2025-12-01"
      then some 1_764_547_200_000
      else none;
}

local_run : (take memory no_valkey up "k" 7 10 60 120_500 new_quota).0 ≡ ok granted
unfolding take get put
local_run = refl

second_refused :
    let q = (take memory shared_valkey up "k" 7 10 60 120_500 new_quota).1 in
    (take memory shared_valkey up "k" 7 10 60 121_500 q).0 ≡ ok (refused 60 121_500)
unfolding take get put to_string
second_refused = refl

take-spends_example :
    ((take memory shared_valkey up "k" 7 10 60 120_500 new_quota).0
      ≡ ok (
          if fits 10
            (used memory memory_counters shared_valkey "k" (window_of 60 120_500) new_quota)
            7
          then granted
          else refused 60 120_500))
    × (used memory memory_counters shared_valkey "k"
          (window_of 60 120_500)
          (take memory shared_valkey up "k" 7 10 60 120_500 new_quota).1
        ≡ spend 10
            (used memory memory_counters shared_valkey "k" (window_of 60 120_500) new_quota)
            7)
take-spends_example =
    take-spends memory memory_counters shared_valkey up "k" 7 10 60 120_500 new_quota (refl, refl)
      (λ off. cc)

abbrev ask : ℕ → Request
ask cost = record {
  key = "k";
  cost = cost;
  limit = 10;
  window_seconds = 60;
  now = 120_500;
  link = up;
}

abbrev busy : List Request
busy =
    ask 7
    ∷ record { key = "k"; cost = 2; limit = 10; window_seconds = 60; now = 120_600; link = lost }
    ∷ ask 5
    ∷ ask 1
    ∷ []

granted_on-le-limit_example : granted_on memory shared_valkey "upstat:q:k:2" busy new_quota ≤ 10
unfolding get
granted_on-le-limit_example =
    granted_on-le-limit memory memory_counters shared_valkey refl "upstat:q:k:2" 10 busy new_quota
      (omega arith) ((λ _. refl), ((λ _. refl), ((λ _. refl), ((λ _. refl), tt))))

abbrev with_salts : Quota memory.Store
with_salts = record new_quota { salts = put [] "2025-12-01" "cccc" }
