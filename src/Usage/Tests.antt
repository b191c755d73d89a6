-- ===== src/Usage/Tests.antt =====
-- Windows in memory and in a shared store.
use upstat.Common.{
  ◌+◌, ◌<◌, ◌≡◌, refl, ◌⊎◌, true, false, none, some, [], ◌∷◌, nat_eq, string_eq, get, put, delete,
  Entries,
}
use upstat.Valkey.{Hashes}
use upstat.Valkey.Memory.{up}
use upstat.Collector.{Config, response, send_logs, forward, signer_headers}
use upstat.Usage.{Tally, Meter, add_local, flush_local, send}
use upstat.Usage.Flush.{Links, ToInteger}
use upstat.Common.Text.{to_string}
use upstat.Usage.Local.{Counted, sum_for, IsKeyed, add_local-conserves}
use upstat.Usage.Safe.{Delivered, flush_local-Safe}

-- A store that keeps nothing.
abbrev pub no_hashes : Hashes (Unit {0})
no_hashes = record {
  hincrby = λ k f n s. s;
  hgetall = λ k s. [];
  hdel = λ k f s. s;
  hlen = λ k s. 0;
  sadd = λ k m s. s;
  srem = λ k m s. s;
  smembers = λ k s. [];
  set_nx = λ k ttl s. (true, s);
  expire = λ k ttl s. s;
  del = λ k s. s;
}

abbrev cfg : Config
cfg = record { collector_url = "http://collector"; on_cloud_run = false }

abbrev counted : Tally
counted = record {
  window = 2;
  org_id = "org";
  key_id = "k";
  pillar = "logs";
  bytes = 10;
  items = 1;
}

abbrev links : Links
links = record { add = up; list_windows = up; claim = λ w. up; ack = λ w. up }

abbrev integer : ToInteger
integer s = none

abbrev meter : Meter (Unit {0})
meter = record {
  usage = record { local = put [] "2|org|k|logs" counted; next_check_at = 0 };
  collector = record {
    tokens = [];
    sent = [];
    replies = response 200 [] none ∷ [];
    metadata = [];
    asked = [];
  };
  store = tt;
}

abbrev logs_of_k : Counted
logs_of_k = record { window = 2; org_id = "org"; key_id = "k"; pillar = "logs" }

add_local-conserves_example :
    let m = add_local "org" "k" "logs" 5 1 125_000 meter.usage.local in
    (sum_for logs_of_k (λ t. t.bytes) m ≡ sum_for logs_of_k (λ t. t.bytes) meter.usage.local + 5)
    × (sum_for logs_of_k (λ t. t.items) m ≡ sum_for logs_of_k (λ t. t.items) meter.usage.local + 1)
    × Entries IsKeyed m
unfolding to_string put
add_local-conserves_example =
    add_local-conserves "org" "k" "logs" 5 1 125_000 meter.usage.local logs_of_k
      (refl, (refl, (refl, tt))) (refl, tt) ((refl, (refl, (refl, (refl, tt))), (refl, tt)), tt)

flush_local-Safe_example :
    (get (flush_local cfg 200_000 3 meter).1.usage.local "2|org|k|logs" ≡ some counted)
    ⊎ (Delivered cfg counted (flush_local cfg 200_000 3 meter).1.collector.sent
        × (counted.window < 3))
unfolding get put
flush_local-Safe_example =
    flush_local-Safe cfg 200_000 3 "2|org|k|logs" counted meter (refl, tt) refl

flushed : (flush_local cfg 200_000 3 meter).1.usage.local ≡ []
unfolding flush_local send send_logs forward signer_headers get put delete
flushed = refl
