-- ===== src/Collector/Tokens.antt =====
-- ID tokens: which one a call carries, and when the metadata server is asked.
use upstat.Common.{
  ℕ, ◌+◌, ◌*◌, String, ◌≡◌, refl, ◌⊎◌, inl, inr, none, some, [], ◌∷◌, ◌++◌, arith, nat_eq,
  string_eq, Option-cases, ok, get, get-put_self,
}
use upstat.Common.Text.{trim}
use upstat.Collector.{
  next_metadata, Collector, token, valid_token, minute_ms, identity, no_metadata, Metadata,
  keep_token,
}

keep_token-lasts :
    (audience t : String) (now : ℕ) (m : Metadata) (s : Collector)
    → (keep_token audience now m s).0 ≡ ok t
    → valid_token (get (keep_token audience now m s).1.tokens audience) now ≡ some t
keep_token-lasts audience t now (no_metadata message) s e = cc
keep_token-lasts audience t now (identity status text) s e = ground (
  arith,
  get-put_self s.tokens audience (record { token = trim text; expires = now + 55 * minute_ms }),
)

-- A token that is handed out is valid for more than five minutes: the cached one, with no question
-- to the metadata server, or else a new one that the server answered and that is cached for 55.
pub token-lasts :
    (audience t : String) (now : ℕ) (s : Collector)
    → (token audience now s).0 ≡ ok t
    → (valid_token (get (token audience now s).1.tokens audience) now ≡ some t)
      × ((valid_token (get s.tokens audience) now ≡ none) ⊎ ((token audience now s).1 ≡ s))
unfolding token
token-lasts audience t now s e = elim (Option-cases (valid_token (get s.tokens audience) now)) [
  | inl expired ↦
      let asked =
        keep_token-lasts audience t now (next_metadata s.metadata).0 (record s {
          metadata = (next_metadata s.metadata).1;
          asked = s.asked ++ audience ∷ [];
        }) in
      rw (expired, token) (asked (rw (expired, token) at e), inl refl)
  | inr (hit, valid) ↦ ground (arith, valid)
]
