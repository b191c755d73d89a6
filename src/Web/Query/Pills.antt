-- ===== src/Web/Query/Pills.antt =====
-- Pills and the words they are made from: web/src/controllers/explorer.ts, splitQuery, joinQuery.
use upstat.Common.{
  String, ◌≡◌, refl, sym, ap, ◌∙◌, inl, inr, Bool, true, false, Option, none, some, List, [], ◌∷◌,
  ◌++◌, map, arith, if◌then◌else◌, nat_beq_iff, nat_eq, string_eq, ◌==◌, Bool-cases, Option-cases,
  is_some, filter,
}
use Prim.Native.Char.{Char, code}
use text.Mathlib.TextEquality.{Char-path}
use upstat.Common.Text.{is_empty}
use upstat.Web.Query.{
  append, Pill, at_colon, put_facet, pill_at, pill_of, pills_of, add_pill_of, is_free, render,
}

-- A pill is shown as the word that it was made from.
put_facet_lem :
    (c : Char) (s : String) (o : Option (String × String))
    → ((f v : String) → o ≡ some (f, v) → append f (String.◌∷◌ ":" v) ≡ s)
    → (f v : String) → put_facet c o ≡ some (f, v)
    → append f (String.◌∷◌ ":" v) ≡ String.◌∷◌ c s
put_facet_lem c s none ih f v h = cc
put_facet_lem c s (some (f0, v0)) ih f v h =
    let ef : String.◌∷◌ c f0 ≡ f = cc h in
    let ev : v0 ≡ v = cc h in
    sym (ap (λ (x : String). append x (String.◌∷◌ ":" v)) ef)
    ∙ ap (λ (x : String). String.◌∷◌ c (append f0 (String.◌∷◌ ":" x))) (sym ev)
    ∙ ap (String.◌∷◌ c) (ih f0 v0 refl)

at_colon_lem : (s f v : String) → at_colon s ≡ some (f, v) → append f (String.◌∷◌ ":" v) ≡ s
unfolding at_colon
at_colon_lem String.[] f v h = cc
at_colon_lem (String.◌∷◌ c s) f v h = elim (Bool-cases (code c == b':')) [
  | inl colon ↦
      let here = rw colon at h in
      let ef : "" ≡ f = cc here in
      let ev : s ≡ v = cc here in
      let mark : Char = ":" in
      let ec : mark ≡ c = Char-path mark c (sym ((nat_beq_iff (code c) b':').0 colon)) in
      sym (ap (λ (x : String). append x (String.◌∷◌ ":" v)) ef)
      ∙ ap (String.◌∷◌ ":") (sym ev)
      ∙ ap (λ (x : Char). String.◌∷◌ x s) ec
  | inr plain ↦
      let later = rw plain at h in
      put_facet_lem c s (at_colon s) (λ f0 v0 e. at_colon_lem s f0 v0 e) f v later
]

pill_at_lem :
    (n : Bool) (s : String) (o : Option (String × String)) (p : Pill)
    → ((f v : String) → o ≡ some (f, v) → append f (String.◌∷◌ ":" v) ≡ s)
    → pill_at n o ≡ some p
    → (p.negated ≡ n) × (append p.facet (String.◌∷◌ ":" p.value) ≡ s)
pill_at_lem n s none p ih h = cc
pill_at_lem n s (some (f, v)) p ih h = elim (Bool-cases (is_empty f)) [
  | inl blank ↦ absurd (ground (arith, rw blank at h))
  | inr named ↦
      let made = rw named at h in
      let e : (record { facet = f; value = v; negated = n }) ≡ p = cc made in
      (
        sym (ap (λ q. q.negated) e),
        sym (ap (λ (q : Pill). append q.facet (String.◌∷◌ ":" q.value)) e) ∙ ih f v refl,
      )
]

render_as :
    (n : Bool) (p : Pill)
    → p.negated ≡ n
    → render p ≡ append (if n then "-" else "") (append p.facet (String.◌∷◌ ":" p.value))
render_as n p h =
    ap (λ (m : Bool). append (if m then "-" else "") (append p.facet (String.◌∷◌ ":" p.value))) h

render-pill_of : (w : String) (p : Pill) → pill_of w ≡ some p → render p ≡ w
unfolding pill_of
render-pill_of String.[] p h = cc
render-pill_of (String.◌∷◌ c s) p h = elim (Bool-cases (code c == b'-')) [
  | inl minus ↦
      let made = rw minus at h in
      let (n, e) = pill_at_lem true s (at_colon s) p (at_colon_lem s) made in
      let mark : Char = "-" in
      let ec : mark ≡ c = Char-path mark c (sym ((nat_beq_iff (code c) b'-').0 minus)) in
      render_as true p n ∙ ap (String.◌∷◌ "-") e ∙ ap (λ (x : Char). String.◌∷◌ x s) ec
  | inr plain ↦
      let made = rw plain at h in
      let (n, e) =
        pill_at_lem false (String.◌∷◌ c s) (at_colon (String.◌∷◌ c s)) p
          (at_colon_lem (String.◌∷◌ c s)) made in
      render_as false p n ∙ e
]

abbrev pub is_pill : String → Bool
is_pill w = is_some (pill_of w)

-- The words that are pills, shown from their pills, are those words.
pub pills_lem : (ws : List String) → map render (pills_of ws) ≡ filter is_pill ws
unfolding pills_of
pills_lem [] = refl
pills_lem (w ∷ ws) = elim (Option-cases (pill_of w)) [
  | inl free ↦ rw free (pills_lem ws)
  | inr (p, made) ↦ rw made (
      ap (λ (v : String). v ∷ map render (pills_of ws)) (render-pill_of w p made)
      ∙ ap (λ (vs : List String). w ∷ vs) (pills_lem ws))
]

pills_of_free : (ws : List String) → pills_of (filter is_free ws) ≡ []
unfolding pills_of
pills_of_free [] = refl
pills_of_free (w ∷ ws) = elim (Option-cases (pill_of w)) [
  | inl free ↦ rw free (rw free (pills_of_free ws))
  | inr (p, made) ↦ rw made (pills_of_free ws)
]

pub pills_of_split :
    (ws rs : List String) → pills_of (filter is_pill ws ++ filter is_free rs) ≡ pills_of ws
unfolding pills_of
pills_of_split [] rs = pills_of_free rs
pills_of_split (w ∷ ws) rs = elim (Option-cases (pill_of w)) [
  | inl free ↦ rw free (pills_of_split ws rs)
  | inr (p, made) ↦ rw made (rw made (ap (add_pill_of (some p)) (pills_of_split ws rs)))
]

free_twice : (rs : List String) → filter is_free (filter is_free rs) ≡ filter is_free rs
free_twice [] = refl
free_twice (w ∷ rs) = elim (Option-cases (pill_of w)) [
  | inl free ↦ rw free (rw free (ap (λ (vs : List String). w ∷ vs) (free_twice rs)))
  | inr (p, made) ↦ rw made (free_twice rs)
]

pub free_split :
    (ws rs : List String)
    → filter is_free (filter is_pill ws ++ filter is_free rs) ≡ filter is_free rs
free_split [] rs = free_twice rs
free_split (w ∷ ws) rs = elim (Option-cases (pill_of w)) [
  | inl free ↦ rw free (free_split ws rs)
  | inr (p, made) ↦ rw made (rw made (free_split ws rs))
]
