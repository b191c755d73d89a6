-- ===== src/Otlp/Tests.antt =====
-- Requests for traces within the quota of a token, and over it.
use upstat.Common.{
  ◌≤◌, ◌≡◌, refl, true, false, none, some, [], ◌∷◌, nat_eq, string_eq, length, ok, get, put,
}
use upstat.Net.Ingress.{receive, read_body, concat, bytes, finished, declared_length}
use upstat.Net.Ingress.Body.{body_of}
use upstat.Net.ClientIp.{resolve_client_ip, peer_address}
use upstat.Otlp.Http
use upstat.Otlp.Http.{
  HttpRequest, HttpEnv, Http, answered, is_otlp, type_of, plain_key_of, pre_body, export_sound,
}
use upstat.Otlp.Grpc
use upstat.Otlp.Grpc.{Metadata}
use upstat.Otlp.Calls.{identified}
use upstat.Collector.{Forwarded, forward, signer_headers}
use upstat.Usage.Flush.{add, flush_due}
use upstat.Valkey.Memory.{memory}
use upstat.ConfigCache.{IngestKey, ingestion_token, otlp}
use upstat.Collector.{response, traces, Buffer}
use upstat.Quota.{take, retry_after}
use upstat.Gateway.Example.{env, start, key}
use upstat.Gateway.{Gateway, take_source}
use upstat.Otlp.Allowed.{authenticate-IsLive}
use upstat.ConfigCache.Sound.{IsLive}
use upstat.ConfigCache.Lookup.{lookup_fresh, lookup_begin, lookup}
use upstat.Otlp.{meter, authenticate, ingest}

abbrev small : Buffer
small = 1 ∷ 2 ∷ []

abbrev large : Buffer
large = 1 ∷ 2 ∷ 3 ∷ 4 ∷ []

authenticate-IsLive_example :
    (get (authenticate env "new" "1.2.3.4" true start).1.cache.keys (env.library.sha256 "new")
      ≡ some key)
    × IsLive env.library (env.library.sha256 "new") ingestion_token (otlp ∷ []) env.at.lookup key
unfolding authenticate lookup_fresh lookup_begin lookup take get put take_source
authenticate-IsLive_example = authenticate-IsLive env "new" "1.2.3.4" true start key refl

abbrev accepting : Gateway memory.Store
accepting = record start {
  collector = record start.collector { replies = response 200 [] none ∷ [] };
}

abbrev limits : HttpEnv
limits = record {
  is_ip = λ s. true;
  number = λ s. none;
  proxy = record { trusted = false; hops = 1 };
  max_body_bytes = 8;
  max_concurrent = 1;
  bytes_per_second = 1000;
}

abbrev request : HttpRequest
request = record {
  content_type = some "application/json";
  ingest_key = some "new";
  authorization = none;
  content_encoding = none;
  forwarded_for = none;
  content_length = none;
  peer = "1.2.3.4";
  stream = bytes small ∷ finished ∷ [];
}

abbrev idle : Http memory.Store
idle = record { ingress = record { inflight = 0 }; gateway = accepting }

abbrev taken : Forwarded
taken = record { status = 200; body = []; content_type = "application/json" }

export_sound_example :
    (k : IngestKey) × (body : Buffer) × (is_otlp (type_of request) ≡ true)
    × (get
          (pre_body env limits request accepting).1.cache.keys
          (env.library.sha256 (plain_key_of request))
        ≡ some k)
    × IsLive env.library
        (env.library.sha256 (plain_key_of request))
        ingestion_token
        (otlp ∷ [])
        env.at.lookup
        k
    × (body_of request.stream ≡ some body)
    × (length body ≤ limits.max_body_bytes)
    × ((ingest env limits.bytes_per_second traces body k
          (type_of request)
          none
          (pre_body env limits request accepting).1).0
        ≡ ok taken)
unfolding Http.export authenticate lookup_fresh lookup_begin lookup take get put take_source receive
    read_body concat ingest forward signer_headers add flush_due retry_after meter declared_length
    resolve_client_ip peer_address
export_sound_example = export_sound env limits traces request idle taken refl

abbrev metadata : Metadata
metadata = record { authorization = none; ingest_key = some "new"; forwarded_for = none }

abbrev known : Gateway memory.Store
known = identified env (λ s. true) limits.proxy 1000 traces metadata "1.2.3.4" small accepting
