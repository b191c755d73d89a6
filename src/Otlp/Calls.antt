-- ===== src/Otlp/Calls.antt =====
-- otlp/grpc.server.ts: what a call that is answered as a success has passed.
use upstat.Common.{ℕ, String, Bool, false, Option, none, nat_eq, string_eq, Result}
use upstat.Valkey.{Redis}
use upstat.Quota.{Verdict}
use upstat.Net.ClientIp.{Proxy}
use upstat.ConfigCache.{IngestKey}
use upstat.Collector.{Signal, Buffer, Forwarded}
use upstat.Gateway.{Gateway, Env}
use upstat.Otlp.{authenticate}
use upstat.Otlp.Answers.{spent, forwarded}
use upstat.Otlp.Grpc.{Metadata, StatusObject, key_of, ip_of, gate}

module _ {R : Redis} (env : Env R) (is_ip : String → Bool) (proxy : Proxy) (bytes_per_second : ℕ)
    (signal : Signal) (md : Metadata) (peer : String) (body : Buffer) where
  abbrev address : String
  address = ip_of env is_ip proxy bytes_per_second md peer

  abbrev gated : Gateway R.Store → Option StatusObject × Gateway R.Store
  gated = gate env is_ip proxy bytes_per_second md peer

  -- The state in which the key of the call is known.
  abbrev pub identified : Gateway R.Store → Gateway R.Store
  identified g = (authenticate env (key_of md) address false (gated g).1).1

  abbrev pub debited : IngestKey → Gateway R.Store → Result Verdict × Gateway R.Store
  debited key g =
      spent env bytes_per_second signal body key "application/x-protobuf" none (identified g)

  abbrev pub posted : IngestKey → Gateway R.Store → Result Forwarded × Gateway R.Store
  posted key g =
      forwarded env bytes_per_second signal body key "application/x-protobuf" none (debited key g).1
