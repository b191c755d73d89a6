-- ===== src/Web/Sso/Verifiers.antt =====
-- The verifier that sign-in commits: web/src/auth/sso-client.ts, storeVerifier and takeVerifier.
use upstat.Common.{
  ℕ, ◌+◌, String, ◌≡◌, false, ◌&&◌, none, some, arith, eq_iff, leb, if◌then◌else◌, nat_eq,
  string_eq, ◌==◌, ok,
}
use upstat.Web.Sso.{Storage, verifier_ttl_ms, store_verifier, take_verifier}

-- A verifier is taken once, in time, by the page that stored it: with storage open, what
-- `take_verifier` returns after `store_verifier` is the verifier exactly when the origin is the
-- same and at most ten minutes have passed, and otherwise nothing; it takes the text away, so a
-- second call returns nothing, and neither call touches the session token.
pub take_verifier-store_verifier :
    (stored now later : ℕ) (origin here verifier : String) (s : Storage)
    → s.blocked ≡ false
    → let (kept, s1) = store_verifier stored origin verifier s in
      let (found, s2) = take_verifier now here s1 in
      let (again, s3) = take_verifier later here s2 in
      (kept ≡ ok tt)
      × (found
          ≡ ok (
              if here == origin && leb now (stored + verifier_ttl_ms) then some verifier else none))
      × (again ≡ ok none)
      × (s2.token ≡ s.token)
      × (s3.token ≡ s.token)
unfolding store_verifier take_verifier
take_verifier-store_verifier stored now later origin here verifier s h =
    ground (arith, eq_iff origin here, eq_iff here origin)
