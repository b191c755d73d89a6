-- ===== src/Common/Text/Digits.antt =====
-- The decimal digits of a number, `String(n)`: those of two numbers differ, and none is a bar.
use Prim.Native.Nat.{ℕ, zero, suc, ◌+◌, ◌-◌, ◌*◌, ◌/◌, ◌%◌, ◌<◌}
use mathlib.Core.Path.{◌≡◌, refl, sym, ap, ◌∙◌}
use mathlib.Core.Logic.{dite}
use mathlib.Core.WellFounded.{Acc}
use native.Mathlib.Decide.{dec_lt}
use native.Mathlib.Omega.{arith}
use mathlib.Core.Path.{subst}
use text.Mathlib.TextLemmas.{cons-append, nil-append}
use Prim.Native.Char.{Char, code}
use Prim.Native.String.{String, [], ◌∷◌, ◌++◌}
use mathlib.Core.Bool.{false}
use upstat.Common.Tests.{◌==◌, nat_eq}
use upstat.Common.Text.{digit, show_from, tenth-lt, lt_wf, to_string}

-- What digits say, read on from a value.
value : ℕ → String → ℕ
value a [] = a
value a (c ∷ s) = value (10 * a + (code c - b'0')) s

-- A text without the bar.
abbrev pub NoBar : String → Type 0
NoBar [] = Unit {0}
NoBar (c ∷ s) = ((code c == b'|') ≡ false) × NoBar s

digit_lem : (d : ℕ) → d < 10 → (c : Char) × (digit d ≡ c ∷ []) × (code c ≡ d + b'0')
digit_lem zero h = ("0", refl, refl)
digit_lem (suc zero) h = ("1", refl, refl)
digit_lem (suc (suc zero)) h = ("2", refl, refl)
digit_lem (suc (suc (suc zero))) h = ("3", refl, refl)
digit_lem (suc (suc (suc (suc zero)))) h = ("4", refl, refl)
digit_lem (suc (suc (suc (suc (suc zero))))) h = ("5", refl, refl)
digit_lem (suc (suc (suc (suc (suc (suc zero)))))) h = ("6", refl, refl)
digit_lem (suc (suc (suc (suc (suc (suc (suc zero))))))) h = ("7", refl, refl)
digit_lem (suc (suc (suc (suc (suc (suc (suc (suc zero)))))))) h = ("8", refl, refl)
digit_lem (suc (suc (suc (suc (suc (suc (suc (suc (suc zero))))))))) h = ("9", refl, refl)
digit_lem (suc (suc (suc (suc (suc (suc (suc (suc (suc (suc n)))))))))) h = absurd (omega arith)

digit-append :
    (d : ℕ) (s : String) → d < 10 → (c : Char) × (digit d ++ s ≡ c ∷ s) × (code c ≡ d + b'0')
digit-append d s h =
    let (c, one, as_code) = digit_lem d h in
    (
      c,
      ap (λ (t : String). t ++ s) one
          ∙ cons-append c [] s
          ∙ ap (λ (t : String). c ∷ t) (nil-append s),
      as_code,
    )

-- A digit is read as its value.
value-digit : (a d : ℕ) (s : String) → d < 10 → value a (digit d ++ s) ≡ value (10 * a + d) s
unfolding value
value-digit a d s h =
    let (c, one, as_code) = digit-append d s h in
    ap (value a) one ∙ ap (λ (n : ℕ). value n s) (omega (arith, as_code))

digit-NoBar : (d : ℕ) (s : String) → d < 10 → NoBar s → NoBar (digit d ++ s)
digit-NoBar d s h free =
    let (c, one, as_code) = digit-append d s h in
    subst NoBar (sym one) (ground (arith, as_code, h), free)

show_from-value : (n : ℕ) (acc : Acc ◌<◌ n) (s : String) → value 0 (show_from n acc s) ≡ value n s
unfolding show_from
show_from-value n (Acc.intro _ smaller) s =
    elim (dec_lt 9 n)
      as (λ d.
        value 0 (
          dite d (λ h. show_from (n / 10) (smaller (n / 10) (tenth-lt h)) (digit (n % 10) ++ s))
            (λ _. digit (n % 10) ++ s))
        ≡ value n s) [
          | yes h ↦
              show_from-value (n / 10) (smaller (n / 10) (tenth-lt h)) (digit (n % 10) ++ s)
              ∙ value-digit (n / 10) (n % 10) s (omega arith)
              ∙ ap (λ (m : ℕ). value m s) (omega arith)
          | no h ↦
              value-digit 0 (n % 10) s (omega arith) ∙ ap (λ (m : ℕ). value m s) (omega (arith, h))
        ]

show_from-NoBar : (n : ℕ) (acc : Acc ◌<◌ n) (s : String) → NoBar s → NoBar (show_from n acc s)
unfolding show_from
show_from-NoBar n (Acc.intro _ smaller) s free =
    elim (dec_lt 9 n)
      as (λ d. NoBar (
        dite d (λ h. show_from (n / 10) (smaller (n / 10) (tenth-lt h)) (digit (n % 10) ++ s))
          (λ _. digit (n % 10) ++ s))) [
            | yes h ↦
                show_from-NoBar (n / 10) (smaller (n / 10) (tenth-lt h)) (digit (n % 10) ++ s)
                  (digit-NoBar (n % 10) s (omega arith) free)
            | no h ↦ digit-NoBar (n % 10) s (omega arith) free
          ]

pub to_string-NoBar : (n : ℕ) → NoBar (to_string n)
unfolding to_string
to_string-NoBar n = show_from-NoBar n (lt_wf.apply n) "" tt

value-to_string : (n : ℕ) → value 0 (to_string n) ≡ n
unfolding to_string value
value-to_string n = show_from-value n (lt_wf.apply n) ""

pub to_string-injective : (n m : ℕ) → to_string n ≡ to_string m → n ≡ m
to_string-injective n m e = sym (value-to_string n) ∙ ap (value 0) e ∙ value-to_string m

cons_head : {c d : Char} {s t : String} → (c ∷ s) ≡ (d ∷ t) → c ≡ d
cons_head e = cc

cons_tail : {c d : Char} {s t : String} → (c ∷ s) ≡ (d ∷ t) → s ≡ t
cons_tail e = cc

bar_first : (x : String) → "|" ++ x ≡ "|" ∷ x
bar_first x = cons-append "|" [] x ∙ ap (λ (t : String). "|" ∷ t) (nil-append x)

joined_at_bar :
    (a b x y : String) → NoBar a → NoBar b → a ++ ("|" ∷ x) ≡ b ++ ("|" ∷ y) → (a ≡ b) × (x ≡ y)
joined_at_bar [] [] x y h k e =
    (refl, cons_tail (sym (nil-append ("|" ∷ x)) ∙ e ∙ nil-append ("|" ∷ y)))
joined_at_bar [] (d ∷ b) x y h (k, ks) e =
    let same : code "|" ≡ code d =
      ap code (cons_head (sym (nil-append ("|" ∷ x)) ∙ e ∙ cons-append d b ("|" ∷ y))) in
    absurd (ground (arith, same, k))
joined_at_bar (c ∷ a) [] x y (h, hs) k e =
    let same : code "|" ≡ code c =
      ap code (cons_head (sym (nil-append ("|" ∷ y)) ∙ sym e ∙ cons-append c a ("|" ∷ x))) in
    absurd (ground (arith, same, h))
joined_at_bar (c ∷ a) (d ∷ b) x y (h, hs) (k, ks) e =
    let whole : c ∷ (a ++ ("|" ∷ x)) ≡ d ∷ (b ++ ("|" ∷ y)) =
      sym (cons-append c a ("|" ∷ x)) ∙ e ∙ cons-append d b ("|" ∷ y) in
    let (same, rest) = joined_at_bar a b x y hs ks (cons_tail whole) in
    (ap (λ (e : Char). e ∷ a) (cons_head whole) ∙ ap (λ (t : String). d ∷ t) same, rest)

-- Two texts that are joined with what follows a bar are the same ones, if they have none themselves.
pub bar_joined :
    (a b x y : String) → NoBar a → NoBar b → a ++ ("|" ++ x) ≡ b ++ ("|" ++ y) → (a ≡ b) × (x ≡ y)
bar_joined a b x y h k e = joined_at_bar a b x y h k (
    ap (λ (t : String). a ++ t) (sym (bar_first x)) ∙ e ∙ ap (λ (t : String). b ++ t) (bar_first y))
