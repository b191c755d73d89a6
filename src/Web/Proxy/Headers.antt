-- ===== src/Web/Proxy/Headers.antt =====
-- Which headers the proxy lets through: web/src/app/api/v1/[...path]/route.ts.
use upstat.Common.{
  String, ◌≡◌, refl, sym, ap, ◌∙◌, ◌⊎◌, inl, inr, Bool, true, false, Option, none, some, List, [],
  ◌∷◌, arith, eq_iff, if◌then◌else◌, nat_eq, string_eq, ◌==◌, Bool-cases, includes, Dict, get,
  get-put, get-put_self,
}
use mathlib.Core.Path.{subst}
use Prim.Native.String.{◌++◌ as append}
use upstat.Web.Url.{filled}
use upstat.Web.Proxy.{
  joined, Request, Sent, Response, ServerEnv, target_for, forward, forward_request,
  forward_response, kept, origin_of, has_body, backend_unavailable, sent_for, answer_for, answered,
  proxy,
}

-- The first of two values that is there.
abbrev first_of : Option String → Option String → Option String
first_of none d = d
first_of (some v) d = some v

get-kept_self :
    (o : Option String) (to : Dict String) (k : String)
    → get (kept o k to) k ≡ first_of o (get to k)
get-kept_self none to k = refl
get-kept_self (some v) to k = get-put_self to k v

get-kept :
    (o : Option String) (to : Dict String) (name k : String)
    → (k == name) ≡ false
    → get (kept o name to) k ≡ get to k
get-kept none to name k h = refl
get-kept (some v) to name k h = ground (arith, get-put to name k v, eq_iff k name, eq_iff name k, h)

first_of_twice : (o d : Option String) → first_of o (first_of o d) ≡ first_of o d
first_of_twice none d = refl
first_of_twice (some v) d = refl

merged :
    (b : Bool) (o x d : Option String)
    → x ≡ first_of o d
    → (if b then first_of o x else x) ≡ first_of o d
merged true o x d h = ap (first_of o) h ∙ first_of_twice o d
merged false o x d h = h

get-forward :
    (names : List String) (from to : Dict String) (k : String)
    → get (forward names from to) k
      ≡ (if includes k names then first_of (filled (get from k)) (get to k) else get to k)
unfolding forward
get-forward [] from to k = refl
get-forward (name ∷ names) from to k =
    let next = kept (filled (get from name)) name to in
    let ih = get-forward names from next k in
    elim (Bool-cases (k == name)) [
      | inl same ↦
          let e : name ≡ k = sym ((eq_iff k name).0 same) in
          let now : get next k ≡ first_of (filled (get from k)) (get to k) =
            subst
              (λ n.
                get (kept (filled (get from n)) n to) k ≡ first_of (filled (get from k)) (get to k))
              (sym e) (get-kept_self (filled (get from k)) to k) in
          ih ∙ rw same (merged (includes k names) (filled (get from k)) (get next k) (get to k) now)
      | inr apart ↦ ih ∙ rw apart (rw (get-kept (filled (get from name)) to name k apart) refl)
    ]

first_of-none : (o : Option String) → first_of o none ≡ o
first_of-none none = refl
first_of-none (some v) = refl

get-forward_new :
    (names : List String) (from : Dict String) (k : String)
    → get (forward names from []) k ≡ (if includes k names then filled (get from k) else none)
unfolding get
get-forward_new names from k =
    get-forward names from [] k
    ∙ ap (λ o. if includes k names then o else none) (first_of-none (filled (get from k)))

module _ {B : Type 0} (encode : String → String) (unavailable_body : B) where
  -- Only what is listed passes, both ways: when the proxy sends a request and gets an answer, the
  -- request goes to the configured origin of the path's service, with the method, the path and the
  -- query, a header under a name exactly when the name is listed and has a value that is not empty,
  -- and the body unless the method is GET or HEAD; the answer has the upstream's status, its
  -- headers under listed names, all of its cookies in order, and its body unless the status is 204.
  pub proxy_lem :
      (env : ServerEnv) (r : Request B) (fetch : Sent B → Option (Response B)) (s : Sent B)
      (u : Response B)
      → (proxy encode unavailable_body env r fetch).0 ≡ some s
      → fetch s ≡ some u
      → let a = (proxy encode unavailable_body env r fetch).1 in
        let origin = origin_of env (target_for r.path) in
        ((origin == "") ≡ false)
        × (s.target ≡ append origin (append "/v1/" (append (joined encode r.path) r.search)))
        × (s.method ≡ r.method)
        × ((k : String)
            → get s.headers k
              ≡ (if includes k forward_request then filled (get r.headers k) else none))
        × (s.body ≡ (if has_body r.method then r.body else none))
        × (a.status ≡ u.status)
        × ((k : String)
            → get a.headers k
              ≡ (if includes k forward_response then filled (get u.headers k) else none))
        × (a.cookies ≡ u.cookies)
        × (a.body ≡ (if u.status == 204 then none else u.body))
  unfolding proxy sent_for answer_for
  proxy_lem env r fetch s u h f =
      let origin = origin_of env (target_for r.path) in
      elim (Bool-cases (origin == "")) [
        | inl unset ↦ absurd (ground (arith, unset))
        | inr set ↦
            let e : sent_for encode unavailable_body origin r ≡ s = ground (arith, set) in
            let got : fetch (sent_for encode unavailable_body origin r) ≡ some u = ap fetch e ∙ f in
            let answer : (proxy encode unavailable_body env r fetch).1
                ≡ answer_for encode unavailable_body u =
              rw set (ap (answered encode unavailable_body) got) in
            (
              set,
              sym (ap (λ t. t.target) e),
              sym (ap (λ t. t.method) e),
              λ k. sym (ap (λ t. get t.headers k) e) ∙ get-forward_new forward_request r.headers k,
              sym (ap (λ t. t.body) e),
              ap (λ t. t.status) answer,
              λ k. ap (λ t. get t.headers k) answer ∙ get-forward_new forward_response u.headers k,
              ap (λ t. t.cookies) answer,
              ap (λ t. t.body) answer,
            )
      ]

  -- Where there is no origin, or `fetch` throws, the answer is 502 backend_unavailable.
  pub proxy-backend_unavailable :
      (env : ServerEnv) (r : Request B) (fetch : Sent B → Option (Response B))
      → ((origin_of env (target_for r.path) == "") ≡ true)
        ⊎ (fetch (sent_for encode unavailable_body (origin_of env (target_for r.path)) r) ≡ none)
      → ((proxy encode unavailable_body env r fetch).1.status ≡ 502)
        × ((proxy encode unavailable_body env r fetch).1
            ≡ backend_unavailable encode unavailable_body)
  unfolding proxy backend_unavailable
  proxy-backend_unavailable env r fetch (inl unset) = rw unset (refl, refl)
  proxy-backend_unavailable env r fetch (inr thrown) =
      elim (Bool-cases (origin_of env (target_for r.path) == "")) [
        | inl unset ↦ rw unset (refl, refl)
        | inr set ↦ rw set (
          ap (λ o. (answered encode unavailable_body o).status) thrown,
          ap (answered encode unavailable_body) thrown,
        )
      ]
