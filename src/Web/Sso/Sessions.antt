-- ===== src/Web/Sso/Sessions.antt =====
-- Whom the page takes for signed in: web/src/auth/sso-provider.ts and the guards of
-- web/src/controllers/auth.ts.
use upstat.Common.{
  ℕ, ◌*◌, String, ◌≡◌, refl, inl, inr, Bool, false, not, Option, none, some, arith, leb,
  if◌then◌else◌, nat_eq, string_eq, ◌==◌, Option-cases, or_else, is_some,
}
use mathlib.Core.Path.{subst}
use upstat.Web.Sso.{Storage, read_stored_token, clear_token}

-- What is read of a token's payload: `none` for a field that is missing or falsy; `exp` where it is
-- a number.
pub record Payload : Type 0 where
  pub user_id : Option String
  pub email : Option String
  pub name : Option String
  pub exp : Option ℕ

pub record AuthUser : Type 0 where
  pub id : String
  pub email : String
  pub name : String

abbrev pub lapsed : ℕ → Option ℕ → Bool
lapsed now none = false
lapsed now (some exp) = leb (exp * 1000) now

abbrev user_of : ℕ → Payload → Option String → Option String → Option AuthUser
user_of now p (some id) (some email) =
    if lapsed now p.exp
    then none
    else some (record { id = id; email = email; name = or_else p.name email })
user_of now p none email = none
user_of now p (some id) none = none

user_of_lem :
    (now : ℕ) (p : Payload) (i e : Option String) (u : AuthUser)
    → user_of now p i e ≡ some u
    → (i ≡ some u.id) × (e ≡ some u.email) × (lapsed now p.exp ≡ false)
user_of_lem now p none e u h = cc
user_of_lem now p (some i) none u h = cc
user_of_lem now p (some i) (some e) u h = ground arith

-- The browser's decoding of a token's second part: atob, TextDecoder and JSON.parse, with `none`
-- for a throw, a missing part and `null`.
module _ (decode_payload : String → Option Payload) where
  abbrev decoded : ℕ → Option Payload → Option AuthUser
  decoded now none = none
  decoded now (some p) = user_of now p p.user_id p.email

  abbrev user_of_token : ℕ → Option String → Option AuthUser
  user_of_token now none = none
  user_of_token now (some t) = if t == "" then none else decoded now (decode_payload t)

  -- SsoAuthProvider.currentUser, in a browser.
  unfoldable pub current_user : ℕ → Storage → Option AuthUser
  unfolding read_stored_token
  current_user now s = user_of_token now (read_stored_token s)

  unfoldable pub id_token : ℕ → Storage → Option String
  unfolding current_user
  id_token now s = if is_some (current_user now s) then read_stored_token s else none

  -- SsoAuthProvider.signOut: the token that `requestLogout` gets, and the storage.
  unfoldable pub sign_out : Storage → Option String × Storage
  unfolding read_stored_token clear_token
  sign_out s = (read_stored_token s, clear_token s)

  -- What useRequireAuth and useRedirectAuthed do once the session is read: where the router goes.
  unfoldable pub require_auth : ℕ → Storage → Option AuthUser × Option String
  unfolding current_user
  require_auth now s =
      let user = current_user now s in (user, if is_some user then none else some "/signin")

  unfoldable pub redirect_authed : ℕ → Storage → Option AuthUser × Option String
  unfolding current_user
  redirect_authed now s =
      let user = current_user now s in (user, if is_some user then some "/dashboard" else none)

  -- The two guards never send a visitor to and fro: at the same time and storage exactly one of
  -- them stays where it is.
  pub require_auth-redirect_authed :
      (now : ℕ) (s : Storage)
      → is_some (require_auth now s).1 ≡ not (is_some (redirect_authed now s).1)
  unfolding require_auth redirect_authed
  require_auth-redirect_authed now s = ground arith

  -- Signing out ends the session, whatever the storage allows: afterwards nobody is signed in, no
  -- bearer token is given, the dashboard sends the visitor to sign in, and the server is told of
  -- the token that was stored. Where storage is blocked this is so because nobody was signed in.
  pub sign_out-current_user :
      (now : ℕ) (s : Storage)
      → let (told, t) = sign_out s in
        (told ≡ read_stored_token s)
        × (current_user now t ≡ none)
        × (id_token now t ≡ none)
        × ((require_auth now t).1 ≡ some "/signin")
  unfolding sign_out id_token require_auth current_user
  sign_out-current_user now s = ground arith

  -- Which token and payload make a user.
  user_of_token_lem :
      (now : ℕ) (o : Option String) (u : AuthUser)
      → user_of_token now o ≡ some u
      → (t : String) × (p : Payload) × (o ≡ some t)
        × (decode_payload t ≡ some p)
        × (p.user_id ≡ some u.id)
        × (p.email ≡ some u.email)
        × (lapsed now p.exp ≡ false)
  user_of_token_lem now none u h = cc
  user_of_token_lem now (some t) u h = elim (Option-cases (decode_payload t)) [
    | inl e ↦ absurd (ground (arith, e))
    | inr (p, e) ↦
        let valid : user_of now p p.user_id p.email ≡ some u = ground (arith, e) in
        let (i, m, l) = user_of_lem now p p.user_id p.email u valid in (t, p, refl, e, i, m, l)
  ]

  -- A bearer token is only given while somebody is signed in: when `id_token` returns a token,
  -- storage is open and holds it, and its payload decodes to one with the id and the email of the
  -- current user, whose `exp`, where it has one, lies ahead.
  pub id_token_lem :
      (now : ℕ) (s : Storage) (t : String)
      → id_token now s ≡ some t
      → (p : Payload) × (u : AuthUser) × (s.blocked ≡ false)
        × (s.token ≡ some t)
        × (decode_payload t ≡ some p)
        × (current_user now s ≡ some u)
        × (p.user_id ≡ some u.id)
        × (p.email ≡ some u.email)
        × (lapsed now p.exp ≡ false)
  unfolding id_token current_user read_stored_token
  id_token_lem now s t h = elim (Option-cases (current_user now s)) [
    | inl e ↦ absurd (ground (arith, e))
    | inr (u, e) ↦
        let kept : read_stored_token s ≡ some t = ground (arith, e) in
        let (t', p, o, d, i, m, l) = user_of_token_lem now (read_stored_token s) u e in
        let same : t' ≡ t = cc in
        (
          p,
          u,
          ground (arith, kept),
          ground (arith, kept),
          subst (λ x. decode_payload x ≡ some p) same d,
          e,
          i,
          m,
          l,
        )
  ]
