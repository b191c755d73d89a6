-- ===== src/Collector/Headers.antt =====
-- The headers of a forwarded request are fixed by the gateway.
use upstat.Common.{
  ℕ, ◌<◌, String, ◌≡◌, refl, sym, ◌∙◌, ◌⊎◌, inl, inr, Bool, true, Option, none, some, List, [], ◌∷◌,
  ◌++◌, map, arith, if◌then◌else◌, nat_eq, string_eq, Result-cases, ok, get,
}
use mathlib.Core.List.{append-nil}
use Prim.Native.String
use upstat.Collector.{
  Collector, Outgoing, Payload, Signal, signal_text, Config, Forwarded, LogRecord, forward,
  forward_headers, send_logs, log_rows, otlp_record, logs, received, next_reply,
}
use upstat.Collector.Signer.{
  forward_headers-type, forward_headers-org, forward_headers-source, signer_headers-sent,
  signer_headers-source,
}

-- How a request stands to the call that sent it.
pub record IsSentBy (cfg : Config) (signal : Signal) (body : Payload) (org_id content_type : String)
    (internal : Bool) (out : Outgoing) : Type 0 where
  pub to : out.url ≡ String.◌++◌ (String.◌++◌ cfg.collector_url "/v1/") (signal_text signal)
  pub same_body : out.body ≡ body
  pub of_type : get out.headers "Content-Type" ≡ some content_type
  pub of_org : get out.headers "X-Upstat-Org-Id" ≡ some org_id
  pub source : get out.headers "X-Upstat-Source" ≡ (if internal then some "internal" else none)

-- A call sends at most one request: to the signal's path, with the body as it was given, the
-- organisation and content type of the caller, and the source header exactly for the gateway's
-- own rows, so that no content type, encoding or organisation of a customer can supply it.
pub forward-IsSentBy :
    (cfg : Config) (now : ℕ) (signal : Signal) (body : Payload) (org_id content_type : String)
    (encoding : Option String) (internal : Bool) (s : Collector)
    → ((forward cfg now signal body org_id content_type encoding internal s).1.sent ≡ s.sent)
      ⊎ ((out : Outgoing) × ((forward cfg now signal body org_id content_type encoding internal
              s).1.sent
            ≡ s.sent ++ out ∷ [])
          × IsSentBy cfg signal body org_id content_type internal out)
unfolding forward
forward-IsSentBy cfg now signal body org_id content_type encoding internal s =
    elim (signer_headers-source cfg now s) [
      | inl (e, failed) ↦ inl (ground (arith, failed, signer_headers-sent cfg now s))
      | inr (signed, done, unset) ↦ inr (
        record {
          url = String.◌++◌ (String.◌++◌ cfg.collector_url "/v1/") (signal_text signal);
          headers = forward_headers signed org_id content_type encoding internal;
          body = body;
        },
        ground (arith, done, signer_headers-sent cfg now s),
        record {
          to = refl;
          same_body = refl;
          of_type = forward_headers-type signed org_id content_type encoding internal;
          of_org = forward_headers-org signed org_id content_type encoding internal;
          source = forward_headers-source signed org_id content_type encoding internal unset;
        },
      )
    ]

-- A call that returns an answer sent its request, and the answer is the collector's reply to it.
pub forward-delivers :
    (cfg : Config) (now : ℕ) (signal : Signal) (body : Payload) (org_id content_type : String)
    (encoding : Option String) (internal : Bool) (s : Collector) (answer : Forwarded)
    → (forward cfg now signal body org_id content_type encoding internal s).0 ≡ ok answer
    → (out : Outgoing) × ((forward cfg now signal body org_id content_type encoding internal
          s).1.sent
        ≡ s.sent ++ out ∷ [])
      × IsSentBy cfg signal body org_id content_type internal out
      × (received content_type (next_reply s.replies).0 ≡ ok answer)
unfolding forward
forward-delivers cfg now signal body org_id content_type encoding internal s answer sent =
    elim (signer_headers-source cfg now s) [
      | inl (e, failed) ↦ absurd (ground (arith, failed))
      | inr (signed, done, unset) ↦
          elim (Result-cases (received content_type (next_reply s.replies).0)) [
            | inl (e, lost) ↦ absurd (ground (arith, done, lost, signer_headers-sent cfg now s))
            | inr (reply, came) ↦ (
              record {
                url = String.◌++◌ (String.◌++◌ cfg.collector_url "/v1/") (signal_text signal);
                headers = forward_headers signed org_id content_type encoding internal;
                body = body;
              },
              ground (arith, done, came, signer_headers-sent cfg now s),
              record {
                to = refl;
                same_body = refl;
                of_type = forward_headers-type signed org_id content_type encoding internal;
                of_org = forward_headers-org signed org_id content_type encoding internal;
                source = forward_headers-source signed org_id content_type encoding internal unset;
              },
              ground (arith, done, came, signer_headers-sent cfg now s),
            )
          ]
    ]

-- Rows that `logs` reports as sent were sent in one request, all of them in order, as the gateway's
-- own, and the collector answered it with a status below 300.
pub send_logs-delivers :
    (cfg : Config) (now : ℕ) (org_id service : String) (r : LogRecord) (rs : List LogRecord)
    (s : Collector)
    → (send_logs cfg now org_id service (r ∷ rs) s).0 ≡ ok tt
    → (out : Outgoing) × ((send_logs cfg now org_id service (r ∷ rs) s).1.sent ≡ s.sent ++ out ∷ [])
      × IsSentBy cfg logs
          (log_rows service (map (otlp_record cfg service) (r ∷ rs)))
          org_id
          "application/json"
          true
          out
      × ((answer : Forwarded) × (received "application/json" (next_reply s.replies).0 ≡ ok answer)
          × (answer.status < 300))
unfolding send_logs forward
send_logs-delivers cfg now org_id service r rs s sent = elim (signer_headers-source cfg now s) [
  | inl (e, failed) ↦ absurd (ground (arith, failed))
  | inr (signed, done, unset) ↦
      let rows = log_rows service (map (otlp_record cfg service) (r ∷ rs)) in
      elim (Result-cases (received "application/json" (next_reply s.replies).0)) [
        | inl (e, lost) ↦ absurd (ground (arith, done, lost, signer_headers-sent cfg now s))
        | inr (answer, came) ↦ (
          record {
            url = String.◌++◌ (String.◌++◌ cfg.collector_url "/v1/") "logs";
            headers = forward_headers signed org_id "application/json" none true;
            body = rows;
          },
          ground (arith, done, came, signer_headers-sent cfg now s),
          record {
            to = refl;
            same_body = refl;
            of_type = forward_headers-type signed org_id "application/json" none true;
            of_org = forward_headers-org signed org_id "application/json" none true;
            source = forward_headers-source signed org_id "application/json" none true unset;
          },
          (answer, came, ground (arith, done, came, signer_headers-sent cfg now s)),
        )
      ]
]

send_logs-sent :
    (cfg : Config) (now : ℕ) (org_id service : String) (r : LogRecord) (rs : List LogRecord)
    (s : Collector)
    → (send_logs cfg now org_id service (r ∷ rs) s).1.sent
      ≡ (forward cfg now logs
          (log_rows service (map (otlp_record cfg service) (r ∷ rs)))
          org_id
          "application/json"
          none
          true
          s).1.sent
unfolding send_logs
send_logs-sent cfg now org_id service r rs s =
    elim (Result-cases
      (forward cfg now logs (log_rows service (map (otlp_record cfg service) (r ∷ rs))) org_id
        "application/json" none true s).0) [
          | inl (e, failed) ↦ ground (arith, failed)
          | inr (answer, done) ↦ ground (arith, done)
        ]

-- The log of what was sent only grows.
pub send_logs-grows :
    (cfg : Config) (now : ℕ) (org_id service : String) (rows : List LogRecord) (s : Collector)
    → (more : List Outgoing) × ((send_logs cfg now org_id service rows s).1.sent ≡ s.sent ++ more)
unfolding send_logs
send_logs-grows cfg now org_id service [] s = ([], sym (append-nil s.sent))
send_logs-grows cfg now org_id service (r ∷ rs) s =
    let rows = log_rows service (map (otlp_record cfg service) (r ∷ rs)) in
    elim (forward-IsSentBy cfg now logs rows org_id "application/json" none true s) [
      | inl same ↦
          ([], send_logs-sent cfg now org_id service r rs s ∙ same ∙ sym (append-nil s.sent))
      | inr (out, one, how) ↦ (out ∷ [], send_logs-sent cfg now org_id service r rs s ∙ one)
    ]
