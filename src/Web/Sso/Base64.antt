-- ===== src/Web/Sso/Base64.antt =====
-- The verifier's text: web/src/auth/sso-client.ts, base64Url, newVerifier and isValidHandoff. A
-- text is here the list of its characters' codes.
use upstat.Common.{
  ℕ, zero, suc, ◌+◌, ◌-◌, ◌*◌, ◌/◌, ◌%◌, ◌<◌, ◌≡◌, refl, Bool, true, false, ◌&&◌, ◌||◌, Option,
  none, some, List, [], ◌∷◌, map, arith, ltb, leb, if◌then◌else◌, nat_eq, string_eq, ◌==◌, length,
  All,
}

-- The sextet's character in `btoa`.
unfoldable pub base64_char : ℕ → ℕ
base64_char n =
    if ltb n 26
    then n + b'A'
    else if ltb n 52
    then n - 26 + b'a'
    else if ltb n 62
    then n - 52 + b'0'
    else if n == 62
    then b'+'
    else b'/'

-- `btoa` of a string of bytes.
unfoldable pub btoa : List ℕ → List ℕ
btoa [] = []
btoa (a ∷ []) = base64_char (a / 4) ∷ base64_char (a % 4 * 16) ∷ b'=' ∷ b'=' ∷ []
btoa (a ∷ b ∷ []) =
    base64_char (a / 4) ∷ base64_char (a % 4 * 16 + b / 16) ∷ base64_char (b % 16 * 4) ∷ b'=' ∷ []
btoa (a ∷ b ∷ c ∷ rest) =
    base64_char (a / 4)
    ∷ base64_char (a % 4 * 16 + b / 16)
    ∷ base64_char (b % 16 * 4 + c / 64)
    ∷ base64_char (c % 64)
    ∷ btoa rest

-- `.replace(/\+/g, "-").replace(/\//g, "_")`.
unfoldable pub url_char : ℕ → ℕ
url_char c = if c == b'+' then b'-' else if c == b'/' then b'_' else c

-- `.replace(/=+$/, "")`.
unfoldable pub unpadded : List ℕ → List ℕ
unpadded [] = []
unpadded (c ∷ cs) = let rest = unpadded cs in if length rest == 0 && c == b'=' then [] else c ∷ rest

unfoldable pub base64_url : List ℕ → List ℕ
unfolding btoa unpadded url_char base64_char
base64_url bytes = unpadded (map url_char (btoa bytes))

-- `/^[A-Za-z0-9_-]{43}$/`.
abbrev pub is_url_char : ℕ → Bool
is_url_char c =
    (leb b'A' c && leb c b'Z')
    || (leb b'a' c && leb c b'z')
    || (leb b'0' c && leb c b'9')
    || c == b'_'
    || c == b'-'

abbrev every : (ℕ → Bool) → List ℕ → Bool
every test [] = true
every test (c ∷ cs) = test c && every test cs

unfoldable pub is_valid_handoff : Option (List ℕ) → Bool
is_valid_handoff none = false
is_valid_handoff (some cs) = every is_url_char cs && length cs == 43

is_url_char-base64_char :
    (n : ℕ)
    → n < 64
    → (is_url_char (url_char (base64_char n)) ≡ true) × ((url_char (base64_char n) == b'=') ≡ false)
unfolding url_char base64_char
is_url_char-base64_char n h = ground arith

-- A text whose padding stripped is `m` characters of the alphabet.
abbrev IsSound : List ℕ → ℕ → Type 0
IsSound cs m = (every is_url_char (unpadded cs) ≡ true) × (length (unpadded cs) ≡ m)

letter-IsSound :
    (n : ℕ) (cs : List ℕ) (m : ℕ)
    → n < 64
    → IsSound cs m
    → IsSound (url_char (base64_char n) ∷ cs) (suc m)
unfolding unpadded
letter-IsSound n cs m h (e, l) =
    let (a, b) = is_url_char-base64_char n h in
    let whole : unpadded (url_char (base64_char n) ∷ cs) ≡ url_char (base64_char n) ∷ unpadded cs =
      ground (arith, b) in
    rw whole (rw (a, e) refl, rw l refl)

padding : IsSound (url_char b'=' ∷ []) 0
unfolding unpadded url_char
padding = (refl, refl)

bytes-IsSound :
    (k : ℕ) (bytes : List ℕ)
    → length bytes ≡ 3 * k + 2
    → All (λ b. b < 256) bytes
    → IsSound (map url_char (btoa bytes)) (4 * k + 3)
unfolding btoa
bytes-IsSound k [] h r = absurd (omega arith)
bytes-IsSound k (a ∷ []) h r = absurd (omega arith)
bytes-IsSound zero (a ∷ b ∷ []) h (ra, (rb, r)) = letter-IsSound (a / 4) _ 2 (omega arith) (
    letter-IsSound (a % 4 * 16 + b / 16) _ 1 (omega arith)
      (letter-IsSound (b % 16 * 4) (url_char b'=' ∷ []) 0 (omega arith) padding))
bytes-IsSound (suc k) (a ∷ b ∷ []) h r = absurd (omega arith)
bytes-IsSound zero (a ∷ b ∷ c ∷ rest) h r = absurd (omega arith)
bytes-IsSound (suc k) (a ∷ b ∷ c ∷ rest) h (ra, (rb, (rc, r))) =
    let ih = bytes-IsSound k rest (omega arith) r in
    let four : 4 * suc k + 3 ≡ suc (suc (suc (suc (4 * k + 3)))) = omega arith in
    rw four (
      letter-IsSound (a / 4) _ _ (omega arith) (
        letter-IsSound (a % 4 * 16 + b / 16) _ _ (omega arith) (
          letter-IsSound (b % 16 * 4 + c / 64) _ _ (omega arith)
            (letter-IsSound (c % 64) _ (4 * k + 3) (omega arith) ih))))

-- A verifier is a valid handoff: the text of any 32 bytes has 43 characters, each of them one that
-- the pattern for handoffs allows.
pub is_valid_handoff-base64_url :
    (bytes : List ℕ)
    → length bytes ≡ 32
    → All (λ b. b < 256) bytes
    → is_valid_handoff (some (base64_url bytes)) ≡ true
unfolding is_valid_handoff base64_url
is_valid_handoff-base64_url bytes h r = let (e, l) = bytes-IsSound 10 bytes h r in rw (e, l) refl
