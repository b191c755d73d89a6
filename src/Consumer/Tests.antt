-- ===== src/Consumer/Tests.antt =====
-- A message that names a kind, and one of another product.
use upstat.Common.{◌≡◌, refl, true, none, some, [], nat_eq, string_eq, put}
use upstat.ConfigCache.{Cache, Library, missing}
use upstat.Events.{text, object, field, no_fields}
use upstat.Consumer.{Contract, kind_of}

abbrev contract : Contract
contract = record {
  parse = λ raw. some (
      object (
        field "type" (text raw)
          (field "data" (object (field "kind" (text "ingest_keys") no_fields)) no_fields)));
  valid_envelope = λ j. true;
  valid_data = λ j. true;
}

ours : kind_of contract missing (some "upstat.config.changed") ≡ some "ingest_keys"
unfolding kind_of
ours = refl

foreign : kind_of contract missing (some "other.product") ≡ none
unfolding kind_of
foreign = refl

abbrev lib : Library
lib = record {
  sha256 = λ s. s;
  date_parse = λ s. none;
  parse_keys = λ s. some (record { version = 3; items = none });
  parse_registry = λ s. none;
}

abbrev second : Cache
second = record {
  keys = [];
  registry = [];
  versions = put [] "ingest_keys" 2;
  next_check_at = [];
  inflight = [];
  missed_at = [];
  last_miss_refresh_at = 0;
  max_age_ms = 60_000;
  loaded = true;
}
