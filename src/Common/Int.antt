-- ===== src/Common/Int.antt =====
-- Signed instants in milliseconds: what Date.parse returns may lie before 1970.
use Prim.Native.Nat.{ℕ, suc, ◌+◌, ◌-◌, ◌*◌}
use mathlib.Core.Bool.{Bool, true, false}
use Prim.Native.String
use Prim.Native.String.{String}
use upstat.Common.Text.{to_string}
use upstat.Common.Tests.{ltb, ◌==◌, nat_eq, if◌then◌else◌}

-- `negsuc n` is -(n + 1).
pub data ℤ : Type 0 where
  pos : ℕ → ℤ
  negsuc : ℕ → ℤ

-- `z < n` and `n < z` for an instant n since 1970.
abbrev pub before : ℤ → ℕ → Bool
before (pos m) n = ltb m n
before (negsuc m) n = true

abbrev pub after : ℤ → ℕ → Bool
after (pos m) n = ltb n m
after (negsuc m) n = false

-- `z + a < n`.
abbrev pub before_by : ℤ → ℕ → ℕ → Bool
before_by (pos m) a n = ltb (m + a) n
before_by (negsuc m) a n = ltb a (n + suc m)

-- `z * a`, for a positive a.
abbrev pub times : ℤ → ℕ → ℤ
times (pos m) a = pos (m * a)
times (negsuc m) a = if a == 0 then pos 0 else negsuc (suc m * a - 1)

abbrev pub show_int : ℤ → String
show_int (pos n) = to_string n
show_int (negsuc n) = String.◌++◌ "-" (to_string (suc n))
