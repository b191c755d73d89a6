-- ===== src/Web/Url.antt =====
-- The query string of a page's address: what the controllers (web/src/controllers) do to it
-- through URLSearchParams, as the list of its parameters in order.
use upstat.Common.{
  String, ◌≡◌, refl, Option, none, some, [], ◌∷◌, arith, eq_iff, if◌then◌else◌, nat_eq, string_eq,
  ◌==◌, Dict, get, delete, get-delete,
}

abbrev pub Params : Type 0
Params = Dict String

-- `params.set(name, value)`: the first one gets the value, any later one goes.
unfoldable pub set : Params → String → String → Params
set [] k v = (k, v) ∷ []
set ((j, w) ∷ m) k v = if j == k then (j, v) ∷ delete m k else (j, w) ∷ set m k v

pub get-set :
    (m : Params) (k j v : String) → get (set m k v) j ≡ (if k == j then some v else get m j)
unfolding get set
get-set [] k j v = refl
get-set ((i, w) ∷ m) k j v =
    ground (arith, eq_iff k j, eq_iff i k, eq_iff i j, get-set m k j v, get-delete m k j)

-- A parameter with a text that is not empty; JavaScript's `if (value)`.
abbrev pub filled : Option String → Option String
filled none = none
filled (some v) = if v == "" then none else some v
