-- ===== src/Web/Query/Reading.antt =====
-- What splitQuery (web/src/controllers/explorer.ts) reads of a text, which trimming leaves as it is.
use upstat.Common.{
  String, ◌≡◌, refl, sym, ap, ◌∙◌, inl, inr, Bool, true, false, not, ◌&&◌, Option, none, some, List,
  arith, if◌then◌else◌, nat_beq_iff, nat_eq, string_eq, ◌==◌, Bool-cases,
}
use Prim.Native.Char.{Char, code}
use upstat.Common.Text.{is_space, is_empty, trim, trim_start, trim_end}
use upstat.Web.Query.{starts_word, attach, words, put_first, cut}

-- `read`: the words before the first bar, whether they start at once, and the trimmed rest.
abbrev pub trimmed : Option String → Option String
trimmed none = none
trimmed (some b) = some (trim b)

abbrev pub read3 : String × Option String → List String × Bool × Option String
read3 (front, back) = (words front, starts_word front, trimmed back)

trim_end-trim_end : (s : String) → trim_end (trim_end s) ≡ trim_end s
unfolding trim_end
trim_end-trim_end String.[] = refl
trim_end-trim_end (String.◌∷◌ c s) =
    elim (Bool-cases (is_empty (trim_end s) && is_space (code c))) [
      | inl gone ↦ rw gone refl
      | inr kept ↦ let ih = trim_end-trim_end s in rw kept (rw ih (rw kept refl))
    ]

trim_start-trim_start : (s : String) → trim_start (trim_start s) ≡ trim_start s
unfolding trim_start
trim_start-trim_start String.[] = refl
trim_start-trim_start (String.◌∷◌ c s) = elim (Bool-cases (is_space (code c))) [
  | inl space ↦ rw space (trim_start-trim_start s)
  | inr word ↦ rw word (rw word refl)
]

is_empty_lem : (s : String) → is_empty s ≡ true → s ≡ ""
is_empty_lem String.[] h = refl
is_empty_lem (String.◌∷◌ c s) h = cc

trim_end_word :
    (c : Char) (s : String)
    → is_space (code c) ≡ false
    → trim_end (String.◌∷◌ c s) ≡ String.◌∷◌ c (trim_end s)
unfolding trim_end
trim_end_word c s h = elim (Bool-cases (is_empty (trim_end s))) [
  | inl blank ↦ rw (blank, h) refl
  | inr more ↦ rw more refl
]

trim_start_word :
    (c : Char) (s : String)
    → is_space (code c) ≡ false
    → trim_start (String.◌∷◌ c s) ≡ String.◌∷◌ c s
unfolding trim_start
trim_start_word c s h = rw h refl

pub trim_space : (c : Char) (s : String) → is_space (code c) ≡ true → trim (String.◌∷◌ c s) ≡ trim s
unfolding trim trim_start
trim_space c s h = rw h refl

trim_of_word :
    (c : Char) (s : String)
    → is_space (code c) ≡ false
    → trim (String.◌∷◌ c s) ≡ String.◌∷◌ c (trim_end s)
unfolding trim
trim_of_word c s h = ap trim_end (trim_start_word c s h) ∙ trim_end_word c s h

trim_end_nil : trim_end "" ≡ ""
unfolding trim_end
trim_end_nil = refl

trim_nil : trim (trim_end "") ≡ trim ""
unfolding trim_end
trim_nil = refl

spaced :
    (c : Char) (s : String)
    → is_space (code c) ≡ true
    → trim (trim_end s) ≡ trim s
    → trim (trim_end (String.◌∷◌ c s)) ≡ trim (String.◌∷◌ c s)
unfolding trim_end
spaced c s h ih = elim (Bool-cases (is_empty (trim_end s))) [
  | inl blank ↦
      rw (blank, h) (ap trim (sym (is_empty_lem (trim_end s) blank)) ∙ ih ∙ sym (trim_space c s h))
  | inr more ↦ rw more (trim_space c (trim_end s) h ∙ ih ∙ sym (trim_space c s h))
]

-- Trimming the end first changes nothing.
trim-trim_end : (s : String) → trim (trim_end s) ≡ trim s
trim-trim_end String.[] = trim_nil
trim-trim_end (String.◌∷◌ c s) = elim (Bool-cases (is_space (code c))) [
  | inl space ↦ spaced c s space (trim-trim_end s)
  | inr word ↦
      ap trim (trim_end_word c s word)
      ∙ trim_of_word c (trim_end s) word
      ∙ ap (String.◌∷◌ c) (trim_end-trim_end s)
      ∙ sym (trim_of_word c s word)
]

pub trim-trim : (s : String) → trim (trim s) ≡ trim s
unfolding trim
trim-trim s = trim-trim_end (trim_start s) ∙ ap trim_end (trim_start-trim_start s)

pub cut_bar :
    (c : Char) (s : String) → (code c == b'|') ≡ true → cut (String.◌∷◌ c s) ≡ ("", some s)
unfolding cut
cut_bar c s h = rw h refl

pub cut_plain :
    (c : Char) (s : String) → (code c == b'|') ≡ false → cut (String.◌∷◌ c s) ≡ put_first c (cut s)
unfolding cut
cut_plain c s h = rw h refl

-- A character before what was read.
abbrev pub step3 : Char → List String × Bool × Option String → List String × Bool × Option String
step3 c (ws, st, b) = (if is_space (code c) then ws else attach c st ws, not (is_space (code c)), b)

read3-put_first :
    (c : Char) (r : String × Option String) → read3 (put_first c r) ≡ step3 c (read3 r)
unfolding words
read3-put_first c (front, back) = refl

pub read3_plain :
    (c : Char) (s : String)
    → (code c == b'|') ≡ false
    → read3 (cut (String.◌∷◌ c s)) ≡ step3 c (read3 (cut s))
read3_plain c s h = ap read3 (cut_plain c s h) ∙ read3-put_first c (cut s)

bar_not_space : (c : Char) → (code c == b'|') ≡ true → is_space (code c) ≡ false
bar_not_space c h = rw ((nat_beq_iff (code c) b'|').0 h) refl

pub space_not_bar : (c : Char) → is_space (code c) ≡ true → (code c == b'|') ≡ false
space_not_bar c h = elim (Bool-cases (code c == b'|')) [
  | inl bar ↦ absurd (ground (arith, sym h ∙ bar_not_space c bar))
  | inr plain ↦ plain
]

read3_nil : (c : Char) → is_space (code c) ≡ true → step3 c (read3 (cut "")) ≡ read3 (cut "")
unfolding cut words
read3_nil c h = rw h refl

both : (a b : Bool) → (a && b) ≡ true → (a ≡ true) × (b ≡ true)
both true true h = (refl, refl)
both true false h = cc
both false b h = cc

trim_end_gone :
    (c : Char) (s : String)
    → (is_empty (trim_end s) && is_space (code c)) ≡ true
    → trim_end (String.◌∷◌ c s) ≡ ""
unfolding trim_end
trim_end_gone c s h = rw h refl

trim_end_kept :
    (c : Char) (s : String)
    → (is_empty (trim_end s) && is_space (code c)) ≡ false
    → trim_end (String.◌∷◌ c s) ≡ String.◌∷◌ c (trim_end s)
unfolding trim_end
trim_end_kept c s h = rw h refl

-- Trimming the end keeps what is read.
read3-trim_end : (s : String) → read3 (cut (trim_end s)) ≡ read3 (cut s)
read3-trim_end String.[] = ap (λ (t : String). read3 (cut t)) trim_end_nil
read3-trim_end (String.◌∷◌ c s) = elim (Bool-cases (code c == b'|')) [
  | inl bar ↦
      ap (λ (t : String). read3 (cut t)) (trim_end_word c s (bar_not_space c bar))
      ∙ ap read3 (cut_bar c (trim_end s) bar)
      ∙ ap (λ (b : String). (words "", false, some b)) (trim-trim_end s)
      ∙ sym (ap read3 (cut_bar c s bar))
  | inr plain ↦
      let ih = read3-trim_end s in
      elim (Bool-cases (is_empty (trim_end s) && is_space (code c))) [
        | inl gone ↦
            let (blank, space) = both (is_empty (trim_end s)) (is_space (code c)) gone in
            ap (λ (t : String). read3 (cut t)) (trim_end_gone c s gone)
            ∙ sym (read3_nil c space)
            ∙ ap (λ (t : String). step3 c (read3 (cut t))) (sym (is_empty_lem (trim_end s) blank))
            ∙ ap (step3 c) ih
            ∙ sym (read3_plain c s plain)
        | inr kept ↦
            ap (λ (t : String). read3 (cut t)) (trim_end_kept c s kept)
            ∙ read3_plain c (trim_end s) plain
            ∙ ap (step3 c) ih
            ∙ sym (read3_plain c s plain)
      ]
]

-- The words before the first bar, and what follows it, trimmed.
unfoldable pub read : String → List String × Option String
unfolding cut words trim
read s = let (ws, st, b) = read3 (cut s) in (ws, b)

abbrev pub without_start : List String × Bool × Option String → List String × Option String
without_start (ws, st, b) = (ws, b)

pub read_space : (c : Char) (s : String) → is_space (code c) ≡ true → read (String.◌∷◌ c s) ≡ read s
unfolding read
read_space c s h = ap without_start (read3_plain c s (space_not_bar c h)) ∙ rw h refl

read-trim_end : (s : String) → read (trim_end s) ≡ read s
unfolding read
read-trim_end s = ap without_start (read3-trim_end s)

read-trim_start : (s : String) → read (trim_start s) ≡ read s
unfolding trim_start
read-trim_start String.[] = refl
read-trim_start (String.◌∷◌ c s) = elim (Bool-cases (is_space (code c))) [
  | inl space ↦ rw space (read-trim_start s ∙ sym (read_space c s space))
  | inr word ↦ rw word refl
]

-- Trimming keeps what is read.
pub read-trim : (s : String) → read (trim s) ≡ read s
unfolding trim
read-trim s = read-trim_end (trim_start s) ∙ read-trim_start s
