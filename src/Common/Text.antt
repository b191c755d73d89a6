-- ===== src/Common/Text.antt =====
-- The string operations that the code uses, on the native text.
pub mod Digits
use Prim.Native.Nat.{ℕ, zero, suc, ◌+◌, ◌/◌, ◌%◌, ◌<◌}
use mathlib.Core.Logic.{dite}
use mathlib.Core.WellFounded.{Acc, WellFounded}
use native.Mathlib.Decide.{dec_lt}
use native.Mathlib.Omega.{arith}
use Prim.Native.Char.{Char, code}
use Prim.Native.String.{String, [], ◌∷◌, ◌++◌}
use mathlib.Core.List.{List}
use mathlib.Core.Bool.{Bool, true, false, ◌&&◌, ◌||◌}
use mathlib.Core.Option.{Option, none, some}
use upstat.Common.Tests.{leb, ◌==◌, nat_eq, string_eq, if◌then◌else◌}

abbrev pub push : String → Char → String
push s c = s ++ (c ∷ [])

-- `s.split(sep)` for a separator of one character.
unfoldable pub split_from : ℕ → String → String → List String
split_from sep cur [] = List.◌∷◌ cur List.[]
split_from sep cur (c ∷ s) =
    let closed = List.◌∷◌ cur (split_from sep "" s) in
    let longer = split_from sep (push cur c) s in if code c == sep then closed else longer

unfoldable pub split : ℕ → String → List String
unfolding split_from
split sep s = split_from sep "" s

Acc-below : (k n : ℕ) → n < k → Acc ◌<◌ n
Acc-below zero n h = elim h [ ]
Acc-below (suc k) n h = Acc.intro n (λ m hm. Acc-below k m (omega arith))

lt_wf : WellFounded ◌<◌
unfolding Acc-below
lt_wf = record { apply = λ n. Acc-below (suc n) n (omega arith) }

abbrev pub digit : ℕ → String
digit zero = "0"
digit (suc zero) = "1"
digit (suc (suc zero)) = "2"
digit (suc (suc (suc zero))) = "3"
digit (suc (suc (suc (suc zero)))) = "4"
digit (suc (suc (suc (suc (suc zero))))) = "5"
digit (suc (suc (suc (suc (suc (suc zero)))))) = "6"
digit (suc (suc (suc (suc (suc (suc (suc zero))))))) = "7"
digit (suc (suc (suc (suc (suc (suc (suc (suc zero)))))))) = "8"
digit _ = "9"

pub tenth-lt : {n : ℕ} → 9 < n → n / 10 < n
tenth-lt h = omega arith

show_from : (n : ℕ) → Acc ◌<◌ n → String → String
show_from n (Acc.intro _ smaller) out =
    let longer = digit (n % 10) ++ out in
    dite (dec_lt 9 n) (λ h. show_from (n / 10) (smaller (n / 10) (tenth-lt h)) longer) (λ _. longer)

-- `String(n)`: the decimal digits of a number.
unfoldable pub to_string : ℕ → String
unfolding show_from lt_wf dec_lt
to_string n = show_from n (lt_wf.apply n) ""

-- JavaScript's white space and line ends, which `trim` removes.
abbrev pub is_space : ℕ → Bool
is_space c =
    (leb 9 c && leb c 13)
    || c == 32
    || c == 160
    || c == 0x1680
    || (leb 0x2000 c && leb c 0x200a)
    || c == 0x2028
    || c == 0x2029
    || c == 0x202f
    || c == 0x205f
    || c == 0x3000
    || c == 0xfeff

abbrev pub is_empty : String → Bool
is_empty [] = true
is_empty (c ∷ s) = false

unfoldable pub trim_start : String → String
trim_start [] = []
trim_start (c ∷ s) = let rest = trim_start s in if is_space (code c) then rest else c ∷ s

unfoldable pub trim_end : String → String
trim_end [] = []
trim_end (c ∷ s) =
    let rest = trim_end s in if is_empty rest && is_space (code c) then [] else c ∷ rest

unfoldable pub trim : String → String
unfolding trim_start trim_end
trim s = trim_end (trim_start s)

abbrev lower_code : ℕ → ℕ
lower_code c = if leb b'A' c && leb c b'Z' then c + 32 else c

-- `s.toLowerCase() === t` for a `t` of lower-case ASCII letters without `k`.
unfoldable pub eq_lower : String → String → Bool
eq_lower [] [] = true
eq_lower [] (d ∷ t) = false
eq_lower (c ∷ s) [] = false
eq_lower (c ∷ s) (d ∷ t) = lower_code (code c) == code d && eq_lower s t

-- What follows a prefix of a text.
unfoldable pub strip_prefix : String → String → Option String
strip_prefix [] s = some s
strip_prefix (c ∷ p) [] = none
strip_prefix (c ∷ p) (d ∷ s) = if code c == code d then strip_prefix p s else none

-- The longest prefix of characters that pass the test, and the rest.
unfoldable pub span : (ℕ → Bool) → String → String × String
span test [] = ([], [])
span test (c ∷ s) =
    let (front, rest) = span test s in if test (code c) then (c ∷ front, rest) else ([], c ∷ s)

abbrev pub is_digit : ℕ → Bool
is_digit c = leb b'0' c && leb c b'9'

-- `s.slice(0, n)`, for characters of one UTF-16 unit.
unfoldable pub first : ℕ → String → String
first zero s = []
first (suc n) [] = []
first (suc n) (c ∷ s) = c ∷ first n s

-- `s.replace(/\/+$/, "")`.
unfoldable pub trim_slashes : String → String
trim_slashes [] = []
trim_slashes (c ∷ s) =
    let rest = trim_slashes s in if is_empty rest && code c == b'/' then [] else c ∷ rest
