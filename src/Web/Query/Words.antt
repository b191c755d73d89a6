-- ===== src/Web/Query/Words.antt =====
-- Reading texts that are made of words: web/src/controllers/explorer.ts, splitQuery.
use upstat.Common.{
  String, ◌≡◌, refl, sym, ap, ◌∙◌, inl, inr, Bool, true, false, Option, none, some, List, [], ◌∷◌,
  ◌++◌, arith, nat_eq, string_eq, ◌==◌, Bool-cases, All,
}
use Prim.Native.Char.{Char, code}
use mathlib.Core.Path.{subst}
use upstat.Common.Text.{is_space, is_empty}
use upstat.Web.Query.{append, attach, words, cut, unwords}
use upstat.Web.Query.Reading.{read, read3, step3, read3_plain, cut_bar, without_start}

abbrev pub Solid : String → Type 0
Solid String.[] = Unit {0}
Solid (String.◌∷◌ c s) = (is_space (code c) ≡ false) × ((code c == b'|') ≡ false) × Solid s

-- What `words` makes of a front: no space, no bar, at least one character.
abbrev pub IsWord : String → Type 0
IsWord w = (is_empty w ≡ false) × Solid w

attach-IsWord :
    (c : Char) (st : Bool) (ws : List String)
    → is_space (code c) ≡ false
    → (code c == b'|') ≡ false
    → All IsWord ws
    → All IsWord (attach c st ws)
attach-IsWord c true [] h k a = ((refl, (h, k, tt)), tt)
attach-IsWord c true (w ∷ ws) h k ((e, s), a) = ((refl, (h, k, s)), a)
attach-IsWord c false ws h k a = ((refl, (h, k, tt)), a)

step3-IsWord :
    (c : Char) (r : List String × Bool × Option String)
    → (code c == b'|') ≡ false
    → All IsWord r.0
    → All IsWord (step3 c r).0
step3-IsWord c (ws, st, b) k a = elim (Bool-cases (is_space (code c))) [
  | inl space ↦ rw space a
  | inr word ↦ rw word (attach-IsWord c st ws word k a)
]

nothing_read : All IsWord (read3 (cut "")).0
unfolding cut words
nothing_read = tt

no_words : (b : Option String) → All IsWord (read3 ("", b)).0
unfolding words
no_words b = tt

pub words-IsWord : (s : String) → All IsWord (read3 (cut s)).0
words-IsWord String.[] = nothing_read
words-IsWord (String.◌∷◌ c s) = elim (Bool-cases (code c == b'|')) [
  | inl bar ↦ subst (λ r. All IsWord (read3 r).0) (sym (cut_bar c s bar)) (no_words (some s))
  | inr plain ↦
      subst (λ r. All IsWord r.0) (sym (read3_plain c s plain))
        (step3-IsWord c (read3 (cut s)) plain (words-IsWord s))
]

-- A word before what was read.
abbrev before_read :
    String → List String × Bool × Option String → List String × Bool × Option String
before_read w (ws, st, b) = (w ∷ ws, true, b)

step3_word :
    (c : Char) (w : String) (r : List String × Bool × Option String)
    → is_space (code c) ≡ false
    → step3 c (before_read w r) ≡ before_read (String.◌∷◌ c w) r
step3_word c w (ws, st, b) h = rw h refl

step3_space :
    (c : Char) (d : Char) (r : List String × Bool × Option String)
    → is_space (code c) ≡ false
    → is_space (code d) ≡ true
    → step3 c (step3 d r) ≡ before_read (String.◌∷◌ c "") r
step3_space c d (ws, st, b) h k = rw (h, k) refl

abbrev space : Char
space = " "

read3_word :
    (w z : String)
    → IsWord w
    → read3 (cut (append w (String.◌∷◌ " " z))) ≡ before_read w (read3 (cut z))
read3_word String.[] z (e, s) = absurd (ground (arith, e))
read3_word (String.◌∷◌ c String.[]) z (e, (h, k, s)) =
    read3_plain c (String.◌∷◌ " " z) k
    ∙ ap (step3 c) (read3_plain " " z refl)
    ∙ step3_space c " " (read3 (cut z)) h refl
read3_word (String.◌∷◌ c (String.◌∷◌ d w)) z (e, (h, k, s)) =
    read3_plain c (append (String.◌∷◌ d w) (String.◌∷◌ " " z)) k
    ∙ ap (step3 c) (read3_word (String.◌∷◌ d w) z (refl, s))
    ∙ step3_word c (String.◌∷◌ d w) (read3 (cut z)) h

read3_nothing :
    (c : Char)
    → is_space (code c) ≡ false
    → step3 c (read3 (cut "")) ≡ (String.◌∷◌ c "" ∷ [], true, none)
unfolding cut words
read3_nothing c h = rw h refl

read3_last : (w : String) → IsWord w → read3 (cut w) ≡ (w ∷ [], true, none)
read3_last String.[] (e, s) = absurd (ground (arith, e))
read3_last (String.◌∷◌ c String.[]) (e, (h, k, s)) = read3_plain c "" k ∙ read3_nothing c h
read3_last (String.◌∷◌ c (String.◌∷◌ d w)) (e, (h, k, s)) =
    read3_plain c (String.◌∷◌ d w) k
    ∙ ap (step3 c) (read3_last (String.◌∷◌ d w) (refl, s))
    ∙ step3_word c (String.◌∷◌ d w) ([], true, none) h

append-append : (x y z : String) → append (append x y) z ≡ append x (append y z)
append-append String.[] y z = refl
append-append (String.◌∷◌ c x) y z = ap (String.◌∷◌ c) (append-append x y z)

-- Words joined with what follows them.
abbrev pub after_words : List String → List String × Option String → List String × Option String
after_words ws (vs, b) = (ws ++ vs, b)

pub read-unwords-append :
    (w : String) (ws : List String) (y : String)
    → All IsWord (w ∷ ws)
    → read (append (unwords (w ∷ ws)) (String.◌∷◌ " " y)) ≡ after_words (w ∷ ws) (read y)
unfolding read unwords
read-unwords-append w [] y (h, a) = ap without_start (read3_word w y h)
read-unwords-append w (v ∷ ws) y (h, a) =
    let rest = append (unwords (v ∷ ws)) (String.◌∷◌ " " y) in
    ap read (append-append w (String.◌∷◌ " " (unwords (v ∷ ws))) (String.◌∷◌ " " y))
    ∙ ap without_start (read3_word w rest h)
    ∙ ap (λ (r : List String × Option String). (w ∷ r.0, r.1)) (read-unwords-append v ws y a)

pub read-unwords :
    (w : String) (ws : List String) → All IsWord (w ∷ ws) → read (unwords (w ∷ ws)) ≡ (w ∷ ws, none)
unfolding read unwords
read-unwords w [] (h, a) = ap without_start (read3_last w h)
read-unwords w (v ∷ ws) (h, a) =
    ap without_start (read3_word w (unwords (v ∷ ws)) h)
    ∙ ap (λ (r : List String × Option String). (w ∷ r.0, r.1)) (read-unwords v ws a)
