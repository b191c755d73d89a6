-- ===== src/Web/Proxy/Tests.antt =====
-- Requests through the proxy, and the theorem at one of them.
use upstat.Common.{
  ℕ, String, ◌≡◌, refl, false, none, some, [], ◌∷◌, if◌then◌else◌, nat_eq, string_eq, ◌==◌,
  includes, get, put,
}
use Prim.Native.String.{◌++◌ as append}
use upstat.Web.Url.{filled}
use upstat.Web.Proxy.{
  Request, Sent, Response, ServerEnv, query, common, target_for, forward, forward_request,
  forward_response, joined, origin_of, proxy,
}
use upstat.Web.Proxy.Headers.{proxy_lem}

metrics_go_to_query : target_for ("metrics" ∷ "names" ∷ []) ≡ query
unfolding target_for
metrics_go_to_query = refl

monitors_go_to_common : target_for ("monitors" ∷ []) ≡ common
unfolding target_for
monitors_go_to_common = refl

abbrev origins : ServerEnv
origins = record { api_origin = "http://api"; query_origin = "http://query" }

abbrev search_logs : Request ℕ
search_logs = record {
  method = "GET";
  path = "logs" ∷ "tail" ∷ [];
  search = "?q=x";
  headers = ("authorization", "Bearer t") ∷ ("accept-language", "en") ∷ ("cookie", "") ∷ [];
  body = some 3;
}

abbrev sent_logs : Sent ℕ
sent_logs = record {
  target = "http://query/v1/logs/tail?q=x";
  method = "GET";
  headers = ("authorization", "Bearer t") ∷ [];
  body = none;
}

abbrev no_content : Response ℕ
no_content = record {
  status = 204;
  headers = ("x-request-id", "r1") ∷ ("server", "nginx") ∷ [];
  cookies = "a=1" ∷ "b=2" ∷ [];
  body = some 7;
}

abbrev encode : String → String
encode s = s

sends_logs : (proxy encode 0 origins search_logs (λ s. some no_content)).0 ≡ some sent_logs
unfolding proxy joined forward get put
sends_logs = refl

proxy_lem_example :
    let a = (proxy encode 0 origins search_logs (λ s. some no_content)).1 in
    let origin = origin_of origins (target_for search_logs.path) in
    ((origin == "") ≡ false)
    × (sent_logs.target
        ≡ append origin (append "/v1/" (append (joined encode search_logs.path) "?q=x")))
    × (sent_logs.method ≡ "GET")
    × ((k : String)
        → get sent_logs.headers k
          ≡ (if includes k forward_request then filled (get search_logs.headers k) else none))
    × (sent_logs.body ≡ none)
    × (a.status ≡ 204)
    × ((k : String)
        → get a.headers k
          ≡ (if includes k forward_response then filled (get no_content.headers k) else none))
    × (a.cookies ≡ "a=1" ∷ "b=2" ∷ [])
    × (a.body ≡ none)
proxy_lem_example =
    proxy_lem encode 0 origins search_logs (λ s. some no_content) sent_logs no_content sends_logs
      refl
