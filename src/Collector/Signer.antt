-- ===== src/Collector/Signer.antt =====
-- The headers of a request, and what signing it leaves alone.
use upstat.Common.{
  ℕ, String, ◌≡◌, refl, ◌⊎◌, inl, inr, Bool, false, Option, none, some, [], ◌∷◌, ◌++◌, arith,
  if◌then◌else◌, nat_eq, string_eq, ◌==◌, Bool-cases, Option-cases, Failure, Result-cases, ok, err,
  Dict, get, put, get-put,
}
use Prim.Native.String
use upstat.Collector.{
  keep_token, valid_token, next_metadata, identity, no_metadata, Metadata, add_encoding, Collector,
  Config, forward_headers, signer_headers, token,
}

get-add_encoding :
    (encoding : Option String) (h : Dict String) (name : String)
    → ("Content-Encoding" == name) ≡ false
    → get (add_encoding encoding h) name ≡ get h name
get-add_encoding none h name apart = refl
get-add_encoding (some e) h name apart = ground (arith, apart, get-put h "Content-Encoding" name e)

module _ (signed : Dict String) (org_id content_type : String) (encoding : Option String)
    (internal : Bool) where
  abbrev fixed : Dict String
  fixed = put (put signed "Content-Type" content_type) "X-Upstat-Org-Id" org_id

  -- A header that the encoding and the source do not set.
  get-forward_headers :
      (name : String)
      → ("Content-Encoding" == name) ≡ false
      → ("X-Upstat-Source" == name) ≡ false
      → get (forward_headers signed org_id content_type encoding internal) name ≡ get fixed name
  unfolding forward_headers
  get-forward_headers name e₁ e₂ = ground (
    arith,
    e₂,
    get-add_encoding encoding fixed name e₁,
    get-put (add_encoding encoding fixed) "X-Upstat-Source" name "internal",
  )

  pub forward_headers-type :
      get (forward_headers signed org_id content_type encoding internal) "Content-Type"
      ≡ some content_type
  forward_headers-type = rw (get-forward_headers "Content-Type" refl refl, get-put, get-put)

  pub forward_headers-org :
      get (forward_headers signed org_id content_type encoding internal) "X-Upstat-Org-Id"
      ≡ some org_id
  forward_headers-org = rw (get-forward_headers "X-Upstat-Org-Id" refl refl, get-put)

  pub forward_headers-source :
      get signed "X-Upstat-Source" ≡ none
      → get (forward_headers signed org_id content_type encoding internal) "X-Upstat-Source"
        ≡ (if internal then some "internal" else none)
  unfolding forward_headers
  forward_headers-source unset = ground (
    arith,
    unset,
    get-add_encoding encoding fixed "X-Upstat-Source" refl,
    get-put (add_encoding encoding fixed) "X-Upstat-Source" "X-Upstat-Source" "internal",
    get-put (put signed "Content-Type" content_type) "X-Upstat-Org-Id" "X-Upstat-Source" org_id,
    get-put signed "Content-Type" "X-Upstat-Source" content_type,
  )

keep_token-sent :
    (audience : String) (now : ℕ) (m : Metadata) (s : Collector)
    → ((keep_token audience now m s).1.sent ≡ s.sent)
      × ((keep_token audience now m s).1.replies ≡ s.replies)
keep_token-sent audience now (no_metadata message) s = (refl, refl)
keep_token-sent audience now (identity status text) s = ground arith

token-sent :
    (audience : String) (now : ℕ) (s : Collector)
    → ((token audience now s).1.sent ≡ s.sent) × ((token audience now s).1.replies ≡ s.replies)
unfolding token
token-sent audience now s = elim (Option-cases (valid_token (get s.tokens audience) now)) [
  | inl expired ↦
      rw (expired, token)
        (keep_token-sent audience now (next_metadata s.metadata).0
          (record s { metadata = (next_metadata s.metadata).1; asked = s.asked ++ audience ∷ [] }))
  | inr (hit, valid) ↦ ground (arith, valid)
]

pub signer_headers-sent :
    (cfg : Config) (now : ℕ) (s : Collector)
    → ((signer_headers cfg now s).1.sent ≡ s.sent)
      × ((signer_headers cfg now s).1.replies ≡ s.replies)
unfolding signer_headers
signer_headers-sent cfg now s = elim (Result-cases (token cfg.collector_url now s).0) [
  | inl (e, failed) ↦ ground (arith, failed, token-sent cfg.collector_url now s)
  | inr (t, signed) ↦ ground (arith, signed, token-sent cfg.collector_url now s)
]

-- The signer adds no header of the gateway's own.
pub signer_headers-source :
    (cfg : Config) (now : ℕ) (s : Collector)
    → ((e : Failure) × ((signer_headers cfg now s).0 ≡ err e))
      ⊎ ((signed : Dict String) × ((signer_headers cfg now s).0 ≡ ok signed)
          × (get signed "X-Upstat-Source" ≡ none))
unfolding signer_headers get
signer_headers-source cfg now s = elim (Bool-cases cfg.on_cloud_run) [
  | inr off ↦ inr ([], ground (arith, off), refl)
  | inl on ↦ elim (Result-cases (token cfg.collector_url now s).0) [
    | inl (e, failed) ↦ inl (e, ground (arith, on, failed))
    | inr (t, signed) ↦
        inr (("Authorization", String.◌++◌ "Bearer " t) ∷ [], ground (arith, on, signed), refl)
  ]
]
