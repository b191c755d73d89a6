-- ===== src/Events/Tests.antt =====
-- Batches of a browser and of a server.
use upstat.Common.{
  ◌+◌, ◌≤◌, String, ◌≡◌, refl, true, false, Option, none, some, [], ◌∷◌, nat_eq, string_eq, length,
  Failure, ok, err, get, put,
}
use upstat.Net.Ingress.{declared_length}
use upstat.Net.Ingress.Body.{body_of}
use upstat.Net.ClientIp.{resolve_client_ip, peer_address}
use upstat.Common.Text.{trim, split}
use upstat.Net.Ingress.{receive, read_body, concat, bytes, finished}
use upstat.Otlp.Http.{HttpEnv, Http, bearer}
use upstat.Collector.{Buffer}
use upstat.Gateway.{take_source}
use upstat.Events.Http.{
  EventsRequest, Decoders, Encoding, accept_request, is_json, encoding_of, json_of, origin_of,
  context_of, pre_body, events_max_bytes, accept_request_sound,
}
use upstat.Events.Batch.{authenticate}
use upstat.Common.Int.{ℤ}
use upstat.Valkey.Memory.{memory, up}
use upstat.Quota.{take}
use upstat.Collector.{response, send_logs}
use upstat.ConfigCache.{IngestKey, RegistryEvent, missing, property_key, rum, ensure_fresh, settle}
use upstat.ConfigCache.Lookup.{lookup_fresh, lookup_begin, lookup, event}
use upstat.ConfigCache.Sound.{IsLive}
use upstat.Gateway.{Gateway}
use upstat.Gateway.Example.{env, start}
use upstat.Usage.Flush.{flush_due, add}
use upstat.Events.{
  Json, Items, no_items, item, no_fields, field, text, object, array, Event, validate, bad_shape,
  field_of, dims_from,
}
use upstat.Events.Valid.{IsAdmitted, IsPoisoned, validate-IsAdmitted}
use upstat.Events.Batch.{
  Context, Draws, Accepted, accept, count_of, in_batch, allows_origin, fresh_registry,
}
use upstat.Events.Accepts.{accept-answers, rejections_at, check}
use upstat.Events.Private.{accept-private}
use upstat.Events.Poisoned.{first, later, accept-poisoned}

abbrev nothing : String → Option RegistryEvent
nothing name = none

abbrev view : Json
view = object (
    field "name" (text "page_view") (
      field "dims" (object (field "path" (text "/") (field "country" (text "DE") no_fields)))
        no_fields))

abbrev viewed : Event
viewed = record {
  name = "page_view";
  ts = ℤ.pos 100_000;
  dims = ("path", "/") ∷ ("country", "DE") ∷ [];
  value = none;
  ineligible = false;
}

validate-IsAdmitted_example : IsAdmitted nothing 100_000 viewed
unfolding validate dims_from put
validate-IsAdmitted_example = validate-IsAdmitted env.library nothing 100_000 view viewed refl

abbrev poison : Json
poison = object (field "name" (text "constructor") no_fields)

poisoned : IsPoisoned poison
unfolding field_of
poisoned = record {
  fields = field "name" (text "constructor") no_fields;
  name = "constructor";
  as_object = refl;
  named = refl;
  from_prototype = refl;
}

abbrev property : IngestKey
property = record {
  id = "p1";
  org_id = "org";
  kind = property_key;
  scope = rum;
  hash = "prop";
  previous_hash = none;
  previous_expires_at = none;
  status = "active";
  allowed_origins = some ("https://site" ∷ []);
  quotas = none;
}

abbrev with_property : Gateway memory.Store
with_property = record start {
  cache = record start.cache { keys = put [] "prop" property };
  collector = record start.collector { replies = response 200 [] none ∷ [] };
}

abbrev from_site : Context
from_site = record {
  plain_key = "prop";
  origin = some "https://site";
  ip = "1.2.3.4";
  user_agent = "browser";
}

abbrev from_server : Context
from_server = record from_site { origin = none }

abbrev draws : Draws
draws = record {
  registry_fetch = missing;
  iso_day = λ ts. "2026-01-01";
  random = λ index. "salt";
  salt_link = λ index. up;
}

abbrev batch : Items
batch = item view (item (text "no event") (item view no_items))

abbrev body : Json
body = object (field "events" (array batch) no_fields)

accept-private_example :
    accept env draws property body 99
      (record from_server { ip = "9.9.9.9"; user_agent = "bot" })
      100_000
      with_property
    ≡ accept env draws property body 99 from_server 100_000 with_property
accept-private_example =
    accept-private env draws property 100_000 from_server "9.9.9.9" "bot" body 99 with_property refl

accept-poisoned_example :
    (e : Failure) × ((accept env draws property
        (object (field "events" (array (item view (item poison no_items))) no_fields))
        99
        from_site
        100_000
        with_property).0
      ≡ err e)
unfolding field_of
accept-poisoned_example =
    accept-poisoned env draws property 100_000 from_site
      (object (field "events" (array (item view (item poison no_items))) no_fields)) 99
      (item view (item poison no_items)) with_property refl (later (first poisoned))

abbrev mixed : Accepted
mixed = record {
  accepted = 2;
  rejected = 1;
  rejections = record { index = 1; code = bad_shape } ∷ [];
}

accept-answers_example :
    (2 + 1 ≡ count_of batch)
    × (1 ≡ length mixed.rejections)
    × ((record { index = 1; code = bad_shape } ∷ [])
        ≡ rejections_at
            (check env draws property 100_000
              (fresh_registry env draws 100_000 with_property.cache))
            0
            batch)
    × (in_batch (count_of batch) ≡ true)
unfolding accept get put take event settle ensure_fresh send_logs add flush_due
accept-answers_example =
    accept-answers env draws property 100_000 from_server body 99 batch with_property
      (record {
        accepted = 2;
        rejected = 1;
        rejections = record { index = 1; code = bad_shape } ∷ [];
      })
      refl refl

abbrev limits : HttpEnv
limits = record {
  is_ip = λ s. true;
  number = λ s. none;
  proxy = record { trusted = false; hops = 1 };
  max_body_bytes = 8;
  max_concurrent = 1;
  bytes_per_second = 1000;
}

abbrev decoders : Decoders
decoders = record { gunzip = λ limit b. none; inflate = λ limit b. none; parse = λ b. some body }

abbrev request : EventsRequest
request = record {
  content_type = some "application/json";
  authorization = some "Bearer prop";
  content_encoding = none;
  origin = none;
  user_agent = none;
  forwarded_for = none;
  content_length = none;
  peer = "1.2.3.4";
  stream = bytes (1 ∷ []) ∷ finished ∷ [];
}

abbrev idle : Http memory.Store
idle = record { ingress = record { inflight = 0 }; gateway = with_property }

accept_request_sound_example :
    (k : IngestKey) × (b : Buffer) × (json : Json) × (encoding : Encoding) × (is_json
        (some "application/json")
      ≡ true)
    × (encoding_of none ≡ some encoding)
    × (get
          (pre_body env draws limits decoders 100_000 request with_property).1.cache.keys
          (env.library.sha256 (context_of env draws limits decoders 100_000 request).plain_key)
        ≡ some k)
    × IsLive env.library
        (env.library.sha256 (context_of env draws limits decoders 100_000 request).plain_key)
        property_key
        (rum ∷ [])
        env.at.lookup
        k
    × (allows_origin k (origin_of none) ≡ true)
    × (body_of request.stream ≡ some b)
    × (length b ≤ events_max_bytes)
    × (json_of decoders encoding b ≡ ok json)
    × ((accept env draws k json
          (length b)
          (context_of env draws limits decoders 100_000 request)
          100_000
          (pre_body env draws limits decoders 100_000 request with_property).1).0
        ≡ ok mixed)
unfolding accept_request accept get put take event settle ensure_fresh send_logs add flush_due
    authenticate lookup_fresh lookup_begin lookup take_source receive read_body concat bearer split
    trim encoding_of declared_length resolve_client_ip peer_address
accept_request_sound_example =
    accept_request_sound env draws limits decoders 100_000 request idle mixed refl
