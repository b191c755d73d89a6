-- ===== src/Net/ClientIp/Chain.antt =====
-- The entries of X-Forwarded-For, and what stands left of the trusted ones.
use upstat.Common.{
  ℕ, ◌+◌, ◌-◌, ◌≤◌, ◌<◌, String, ◌≡◌, refl, Bool, false, List, [], ◌∷◌, ◌++◌, arith, nat_eq,
  string_eq, length, get_elem?, filter, length-append,
}
use Prim.Native.Char.{Char, code}
use Prim.Native.String
use text.Mathlib.TextLemmas.{nil-append, cons-append}
use Prim.Native.Nat.add
use mathlib.Core.List.{map-append}
use upstat.Common.Text.{split, split_from, push, is_empty}
use upstat.Net.ClientIp.{chain_of, from_right}

split_from-append :
    (sep : Char) (cur s t : String)
    → split_from (code sep) cur (String.◌++◌ s (String.◌∷◌ sep t))
      ≡ split_from (code sep) cur s ++ split (code sep) t
unfolding split split_from
split_from-append sep cur String.[] t = rw nil-append (ground (arith))
split_from-append sep cur (String.◌∷◌ c s) t =
    rw cons-append
      (ground (arith, split_from-append sep "" s t, split_from-append sep (push cur c) s t))

filter-append {ℓ} :
    {A : Type ℓ} (test : A → Bool) (xs ys : List A)
    → filter test (xs ++ ys) ≡ filter test xs ++ filter test ys
filter-append test [] ys = refl
filter-append test (x ∷ xs) ys = ground (arith, filter-append test xs ys)

abbrev pub comma : Char
comma = Char.char b',' tt

-- The chain of a header that ends in `, right` ends in the chain of `right`.
pub chain_of-append :
    (left right : String)
    → chain_of (String.◌++◌ left (String.◌∷◌ comma right)) ≡ chain_of left ++ chain_of right
unfolding chain_of
chain_of-append left right = rw (split_from-append comma "" left right, map-append, filter-append)

get_elem?-append {ℓ} :
    {A : Type ℓ} (xs ys : List A) (i : ℕ) → get_elem? (xs ++ ys) (length xs + i) ≡ get_elem? ys i
get_elem?-append [] ys i = rw add.zero
get_elem?-append (x ∷ xs) ys i = rw add.suc (get_elem?-append xs ys i)

-- Entries added on the left change no entry that is counted from the right.
pub from_right-append :
    (xs ys : List String) (hops : ℕ)
    → 0 < hops
    → hops ≤ length ys
    → from_right (xs ++ ys) hops ≡ from_right ys hops
unfolding from_right
from_right-append xs ys hops pos h =
    let at : length xs + length ys - hops ≡ length xs + (length ys - hops) = omega arith in
    rw (length-append xs ys) (ground (arith, at, get_elem?-append xs ys (length ys - hops)))

pub is_empty-append_comma :
    (left right : String) → is_empty (String.◌++◌ left (String.◌∷◌ comma right)) ≡ false
is_empty-append_comma String.[] right = rw nil-append
is_empty-append_comma (String.◌∷◌ c left) right = rw cons-append

pub is_empty_of_chain : (right : String) → 0 < length (chain_of right) → is_empty right ≡ false
unfolding chain_of
is_empty_of_chain String.[] h = absurd (omega arith)
is_empty_of_chain (String.◌∷◌ c right) h = refl
