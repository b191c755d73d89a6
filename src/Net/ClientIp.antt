-- ===== src/Net/ClientIp.antt =====
-- net/client-ip.ts: the client's address, from X-Forwarded-For or from the socket. `isIP` is the
-- platform's: a parameter.
pub mod Chain
pub mod Trust
mod Tests
use upstat.Common.{
  ℕ, zero, suc, ◌+◌, ◌-◌, ◌*◌, ◌/◌, ◌%◌, ◌≤◌, ◌<◌, min, max, String, ◌≡◌, refl, sym, ap, ◌∙◌, ◌≢◌,
  ◌↔◌, ◌⊎◌, inl, inr, Bool, true, false, not, ◌&&◌, ◌||◌, Option, none, some, List, [], ◌∷◌, ◌++◌,
  map, arith, eq_iff, eq_refl, ltb, leb, nat_beq, if◌then◌else◌, nat_beq_iff, Eq, ◌==◌, nat_eq,
  string_eq, ltb→lt, lt→ltb, leb→le, Bool-cases, Option-cases, or_else, is_some, length, get_elem?,
  filter, total, length-append, total-append, All, All-append, includes, ApiError, Failure, Result,
  Action, and_then, ◌>>=◌, ◌>>◌, return, throw, caught, try, ok, err, api, other, Dict, get, put,
  delete, has, get-put, get-delete, length-put, get-filter_of_false, get-filter_of_true,
}
use Prim.Native.Char.{Char, code}
use Prim.Native.String
use upstat.Common.Text.{split, trim, span, is_digit, strip_prefix, is_empty}
use mathlib.Core.Option

-- The module's two variables, set once at startup.
pub record Proxy : Type 0 where
  pub trusted : Bool
  pub hops : ℕ

-- `setTrustProxy`.
unfoldable pub set_trust_proxy : Bool → ℕ → Proxy
set_trust_proxy on proxies = record { trusted = on; hops = max 1 proxies }

-- `.replace(/^\[([^\]]+)\](:\d+)?$/, "$1")`.
abbrev is_port : String → Bool
is_port String.[] = true
is_port (String.◌∷◌ c s) =
    let (digits, rest) = span is_digit s in code c == b':' && not (is_empty digits) && is_empty rest

abbrev after_bracket : String → String → String → String
after_bracket whole inner rest = elim (strip_prefix "]" rest) [
  | none ↦ whole
  | some port ↦ if not (is_empty inner) && is_port port then inner else whole
]

unbracket : String → String
unfolding strip_prefix span
unbracket s = elim (strip_prefix "[" s) [
  | none ↦ s
  | some t ↦ let (inner, rest) = span (λ c. not (c == b']')) t in after_bracket s inner rest
]

-- `\d+` and `\d+\.`, read off the front of a text.
abbrev digits_of : String → Option (String × String)
digits_of s =
    let (front, rest) = span is_digit s in if is_empty front then none else some (front, rest)

abbrev octet : String → Option (String × String)
octet s = elim (digits_of s) [
  | none ↦ none
  | some (front, rest) ↦ Option.map (λ t. (String.◌++◌ front ".", t)) (strip_prefix "." rest)
]

infixl 5 ◌>>>◌
abbrev ◌>>>◌ : {A B : Type 0} → Option A → (A → Option B) → Option B
none >>> f = none
some a >>> f = f a

-- `.replace(/^(\d+\.\d+\.\d+\.\d+):\d+$/, "$1")`.
without_port : String → String
unfolding strip_prefix span
without_port s =
    or_else
      (octet s >>> λ (a : String × String). octet a.1 >>> λ (b : String × String).
        octet b.1 >>> λ (c : String × String). digits_of c.1 >>> λ (d : String × String).
        strip_prefix ":" d.1 >>> λ (port : String). digits_of port >>> λ (e : String × String).
        if is_empty e.1
        then some (String.◌++◌ (String.◌++◌ (String.◌++◌ a.0 b.0) c.0) d.0)
        else none)
      s

-- `.replace(/^prefix/, "")`.
abbrev without_prefix : String → String → String
without_prefix prefix s = or_else (strip_prefix prefix s) s

unfoldable pub peer_address : String → String
unfolding strip_prefix unbracket without_port
peer_address peer =
    let bare = or_else (strip_prefix "ipv4:" peer) (without_prefix "ipv6:" peer) in
    without_prefix "::ffff:" (without_port (unbracket bare))

-- `forwardedFor.split(",").map(trim).filter(Boolean)`.
unfoldable pub chain_of : String → List String
unfolding split trim
chain_of header = filter (λ s. not (is_empty s)) (map trim (split b',' header))

-- `chain[chain.length - hops]`: no element where the index is negative.
unfoldable pub from_right : List String → ℕ → Option String
from_right chain hops =
    if leb hops (length chain) then get_elem? chain (length chain - hops) else none

module _ (is_ip : String → Bool) where
  unfoldable pub resolve_client_ip : Proxy → Option String → String → String
  unfolding chain_of from_right
  resolve_client_ip p none peer = peer_address peer
  resolve_client_ip p (some header) peer =
      if p.trusted && not (is_empty header)
      then elim (from_right (chain_of header) p.hops) [
        | none ↦ peer_address peer
        | some candidate ↦
            if not (is_empty candidate) && is_ip candidate then candidate else peer_address peer
      ]
      else peer_address peer
