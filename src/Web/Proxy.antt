-- ===== src/Web/Proxy.antt =====
-- The API proxy of the web server: web/src/app/api/v1/[...path]/route.ts. Header names are in lower
-- case, as Headers keeps them.
pub mod Headers
mod Tests
use upstat.Common.{
  ℕ, zero, suc, ◌+◌, ◌-◌, ◌*◌, ◌/◌, ◌%◌, ◌≤◌, ◌<◌, min, max, String, ◌≡◌, refl, sym, ap, ◌∙◌, ◌≢◌,
  ◌↔◌, ◌⊎◌, inl, inr, Bool, true, false, not, ◌&&◌, ◌||◌, Option, none, some, List, [], ◌∷◌, ◌++◌,
  map, arith, eq_iff, eq_refl, ltb, leb, nat_beq, if◌then◌else◌, nat_beq_iff, Eq, nat_eq, ltb→lt,
  lt→ltb, leb→le, string_eq, ◌==◌, Bool-cases, Option-cases, or_else, is_some, length, get_elem?,
  filter, total, take, length-take, take_all, take-take, take-append_take, length-append,
  total-append, All, All-append, All-take, includes, ApiError, Failure, Result, Action, and_then,
  ◌>>=◌, ◌>>◌, return, throw, caught, try, Result-cases, and_then_ok, and_then_err, caught_quiet,
  caught_state, ok, err, api, other, Dict, get, put, delete, has, get-put, get-delete, length-put,
  get-filter_of_false, get-filter_of_true, get-put_self, Entries, Entries-put, Entries-get, IsMap,
  put-IsMap, get_of_mem,
}
use Prim.Native.String.{◌++◌ as append}
use upstat.Web.Url.{filled}

abbrev pub query_roots : List String
query_roots = "query" ∷ "logs" ∷ "traces" ∷ "services" ∷ "metrics" ∷ "rum" ∷ "usage" ∷ "stats" ∷ []

abbrev pub forward_request : List String
forward_request =
    "authorization" ∷ "content-type" ∷ "idempotency-key" ∷ "x-org-id" ∷ "x-request-id" ∷ "cookie"
    ∷ "origin" ∷ "accept" ∷ "sec-fetch-site" ∷ "sec-fetch-mode" ∷ "sec-fetch-dest"
    ∷ "x-forwarded-for" ∷ []

abbrev pub forward_response : List String
forward_response =
    "content-type" ∷ "retry-after" ∷ "x-request-id" ∷ "location" ∷ "cache-control" ∷ []

pub data Service : Type 0 where
  query common : Service

-- targetFor.
unfoldable pub target_for : List String → Service
target_for [] = common
target_for (root ∷ rest) = if includes root query_roots then query else common

-- A request as the route handler gets it; the body is not looked into.
pub record Request (B : Type 0) : Type 0 where
  pub method : String
  pub path : List String
  pub search : String
  pub headers : Dict String
  pub body : Option B

-- What the proxy sends on, and what it answers. Set-Cookie headers are kept apart, in order.
pub record Sent (B : Type 0) : Type 0 where
  pub target : String
  pub method : String
  pub headers : Dict String
  pub body : Option B

pub record Response (B : Type 0) : Type 0 where
  pub status : ℕ
  pub headers : Dict String
  pub cookies : List String
  pub body : Option B

-- The configured origins, which may be empty.
pub record ServerEnv : Type 0 where
  pub api_origin : String
  pub query_origin : String

-- `for (const name of NAMES) { const value = from.get(name); if (value) to.set(name, value); }`.
abbrev pub kept : Option String → String → Dict String → Dict String
kept none name to = to
kept (some value) name to = put to name value

unfoldable pub forward : List String → Dict String → Dict String → Dict String
forward [] from to = to
forward (name ∷ names) from to = forward names from (kept (filled (get from name)) name to)

-- `path.map(encodeURIComponent).join("/")`.
unfoldable pub joined : (String → String) → List String → String
joined encode [] = ""
joined encode (p ∷ []) = encode p
joined encode (p ∷ q ∷ ps) = append (encode p) (append "/" (joined encode (q ∷ ps)))

abbrev pub origin_of : ServerEnv → Service → String
origin_of env query = env.query_origin
origin_of env common = env.api_origin

abbrev pub has_body : String → Bool
has_body method = not (method == "GET") && not (method == "HEAD")

module _ {B : Type 0} (encode : String → String) (unavailable_body : B) where
  unfoldable pub backend_unavailable : Response B
  backend_unavailable = record {
    status = 502;
    headers = ("content-type", "application/json") ∷ [];
    cookies = [];
    body = some unavailable_body;
  }

  unfoldable pub sent_for : String → Request B → Sent B
  unfolding forward joined
  sent_for origin r = record {
    target = append origin (append "/v1/" (append (joined encode r.path) r.search));
    method = r.method;
    headers = forward forward_request r.headers [];
    body = if has_body r.method then r.body else none;
  }

  unfoldable pub answer_for : Response B → Response B
  unfolding forward
  answer_for upstream = record {
    status = upstream.status;
    headers = forward forward_response upstream.headers [];
    cookies = upstream.cookies;
    body = if upstream.status == 204 then none else upstream.body;
  }

  abbrev pub answered : Option (Response B) → Response B
  answered none = backend_unavailable
  answered (some upstream) = answer_for upstream

  -- The handler, for what `fetch` comes to: `none` is a throw.
  unfoldable pub proxy :
      ServerEnv → Request B → (Sent B → Option (Response B)) → Option (Sent B) × Response B
  unfolding target_for backend_unavailable sent_for answer_for
  proxy env r fetch =
      let origin = origin_of env (target_for r.path) in
      let sent = sent_for origin r in
      if origin == "" then (none, backend_unavailable) else (some sent, answered (fetch sent))
