-- ===== src/Collector/Tests.antt =====
-- A collector that accepts, on Cloud Run and elsewhere.
use upstat.Common.{
  ◌<◌, ◌≡◌, refl, ◌⊎◌, true, false, none, some, [], ◌∷◌, ◌++◌, map, nat_eq, string_eq, ok, get, put,
}
use upstat.Common.Text.{trim}
use upstat.Common.Int.{pos}
use upstat.Collector.{
  Collector, Config, LogRecord, Outgoing, Forwarded, response, identity, raw, logs, traces,
  log_rows, otlp_record, forward, signer_headers, send_logs, token, received, next_reply,
}
use upstat.Collector.Headers.{IsSentBy, forward-IsSentBy, send_logs-delivers}

abbrev cfg : Config
cfg = record { collector_url = "https://collector"; on_cloud_run = true }

abbrev fresh : Collector
fresh = record {
  tokens = [];
  sent = [];
  replies = response 200 [] none ∷ [];
  metadata = identity 200 "jwt" ∷ [];
  asked = [];
}

forward-IsSentBy_example :
    ((forward cfg 1000 traces
        (raw (1 ∷ []))
        "org"
        "application/json"
        (some "gzip")
        false
        fresh).1.sent
      ≡ fresh.sent)
    ⊎ ((out : Outgoing) × ((forward cfg 1000 traces
            (raw (1 ∷ []))
            "org"
            "application/json"
            (some "gzip")
            false
            fresh).1.sent
          ≡ fresh.sent ++ out ∷ [])
        × IsSentBy cfg traces (raw (1 ∷ [])) "org" "application/json" false out)
forward-IsSentBy_example =
    forward-IsSentBy cfg 1000 traces (raw (1 ∷ [])) "org" "application/json" (some "gzip") false
      fresh

abbrev row : LogRecord
row = record { time = pos 5; attributes = [] }

send_logs-delivers_example :
    (out : Outgoing) × ((send_logs cfg 1000 "org" "upstat.usage" (row ∷ []) fresh).1.sent
      ≡ fresh.sent ++ out ∷ [])
    × IsSentBy cfg logs
        (log_rows "upstat.usage" (map (otlp_record cfg "upstat.usage") (row ∷ [])))
        "org"
        "application/json"
        true
        out
    × ((answer : Forwarded) × (received "application/json" (next_reply fresh.replies).0 ≡ ok answer)
        × (answer.status < 300))
unfolding send_logs forward signer_headers token get put trim
send_logs-delivers_example = send_logs-delivers cfg 1000 "org" "upstat.usage" row [] fresh refl
