-- ===== src/Web/Tail/Distinct.antt =====
-- Lists of log events without a repeated id, for the live tail of
-- web/src/controllers/logs.ts.
use upstat.Common.{
  ℕ, zero, suc, String, ◌≡◌, refl, ap, ◌∙◌, true, false, ◌||◌, List, [], ◌∷◌, ◌++◌, arith, eq_iff,
  eq_refl, nat_eq, string_eq, take, All, includes,
}
use upstat.Web.Tail.{LogEvent, fresh_of, ids}

abbrev pub Distinct : List String → Type 0
Distinct [] = Unit {0}
Distinct (x ∷ xs) = (includes x xs ≡ false) × Distinct xs

includes-append :
    (x : String) (xs ys : List String) → includes x (xs ++ ys) ≡ (includes x xs || includes x ys)
includes-append x [] ys = refl
includes-append x (y ∷ xs) ys = ground (arith, includes-append x xs ys)

module _ {T : Type 0} where
  -- Every event is known.
  abbrev pub Known : List String → List (LogEvent T) → Type 0
  Known seen es = All (λ e. includes e.id seen ≡ true) es

  abbrev pub Unknown : List String → List (LogEvent T) → Type 0
  Unknown seen es = All (λ e. includes e.id seen ≡ false) es

  ids-append : (xs ys : List (LogEvent T)) → ids (xs ++ ys) ≡ ids xs ++ ids ys
  ids-append [] ys = refl
  ids-append (x ∷ xs) ys = ap (λ r. x.id ∷ r) (ids-append xs ys)

  pub fresh_of-Unknown :
      (seen : List String) (page : List (LogEvent T)) → Unknown seen (fresh_of seen page)
  unfolding fresh_of
  fresh_of-Unknown seen [] = tt
  fresh_of-Unknown seen (e ∷ page) = ground (arith, fresh_of-Unknown seen page)

  includes-fresh_of :
      (x : String) (seen : List String) (page : List (LogEvent T))
      → includes x (ids page) ≡ false
      → includes x (ids (fresh_of seen page)) ≡ false
  unfolding fresh_of
  includes-fresh_of x seen [] h = refl
  includes-fresh_of x seen (e ∷ page) h = ground (arith, includes-fresh_of x seen page)

  pub fresh_of-Distinct :
      (seen : List String) (page : List (LogEvent T))
      → Distinct (ids page)
      → Distinct (ids (fresh_of seen page))
  unfolding fresh_of
  fresh_of-Distinct seen [] h = tt
  fresh_of-Distinct seen (e ∷ page) (h, k) =
      ground (arith, includes-fresh_of e.id seen page, fresh_of-Distinct seen page k)

  pub Known-weaken :
      (new seen : List String) (es : List (LogEvent T)) → Known seen es → Known (new ++ seen) es
  Known-weaken new seen [] h = tt
  Known-weaken new seen (e ∷ es) (h, k) =
      (includes-append e.id new seen ∙ ground arith, Known-weaken new seen es k)

  pub Known-self : (seen : List String) (es : List (LogEvent T)) → Known (ids es ++ seen) es
  Known-self seen [] = tt
  Known-self seen (e ∷ es) = (
    ground (arith, eq_refl e.id),
    Known-weaken (e.id ∷ []) (ids es ++ seen) es (Known-self seen es),
  )

  -- New events above known ones.
  apart :
      (seen : List String) (x : String) (es : List (LogEvent T))
      → includes x seen ≡ false
      → Known seen es
      → includes x (ids es) ≡ false
  apart seen x [] h k = refl
  apart seen x (e ∷ es) h (k, r) = ground (arith, apart seen x es h r, eq_iff x e.id)

  pub Distinct-append :
      (seen : List String) (xs ys : List (LogEvent T))
      → Distinct (ids xs)
      → Unknown seen xs
      → Distinct (ids ys)
      → Known seen ys
      → Distinct (ids (xs ++ ys))
  Distinct-append seen [] ys d n e k = e
  Distinct-append seen (x ∷ xs) ys (a, d) (b, n) e k = (
    ap (includes x.id) (ids-append xs ys)
        ∙ includes-append x.id (ids xs) (ids ys)
        ∙ ground (arith, apart seen x.id ys b k),
    Distinct-append seen xs ys d n e k,
  )

  includes-take :
      (x : String) (n : ℕ) (es : List (LogEvent T))
      → includes x (ids es) ≡ false
      → includes x (ids (take n es)) ≡ false
  unfolding take
  includes-take x zero es h = refl
  includes-take x (suc n) [] h = refl
  includes-take x (suc n) (e ∷ es) h = ground (arith, includes-take x n es)

  pub Distinct-take :
      (n : ℕ) (es : List (LogEvent T)) → Distinct (ids es) → Distinct (ids (take n es))
  unfolding take
  Distinct-take zero es h = tt
  Distinct-take (suc n) [] h = tt
  Distinct-take (suc n) (e ∷ es) (h, k) = (includes-take e.id n es h, Distinct-take n es k)
