-- ===== src/Web/Query/RoundTrip.antt =====
-- Pills and text put back together: web/src/controllers/explorer.ts, splitQuery and joinQuery.
use upstat.Common.{
  String, ◌≡◌, refl, sym, ap, ◌∙◌, inl, inr, Bool, true, false, Option, none, some, List, [], ◌∷◌,
  ◌++◌, map, arith, nat_eq, string_eq, Bool-cases, Option-cases, filter, All,
}
use Prim.Native.Char.{Char}
use mathlib.Core.List.{append-nil}
use upstat.Common.Text.{is_empty, trim}
use upstat.Web.Query.{
  append, words, cut, pills_of, is_free, unwords, join_filled, tail_of, Split, split_query, render,
  join_query,
}
use upstat.Web.Query.Reading.{read, read3, cut_bar, read-trim, trim-trim, without_start, trim_space}
use upstat.Web.Query.Words.{IsWord, words-IsWord, after_words, read-unwords-append, read-unwords}
use upstat.Web.Query.Pills.{is_pill, pills_lem, pills_of_split, free_split}

read_nothing : read "" ≡ ([], none)
unfolding read
read_nothing = refl

is_empty_nil : (s : String) → is_empty s ≡ true → s ≡ ""
is_empty_nil String.[] h = refl
is_empty_nil (String.◌∷◌ c s) h = cc

unwords_filled :
    (w : String) (ws : List String) → All IsWord (w ∷ ws) → is_empty (unwords (w ∷ ws)) ≡ false
unfolding unwords
unwords_filled w [] ((e, s), a) = e
unwords_filled String.[] (v ∷ ws) ((e, s), a) = absurd (ground (arith, e))
unwords_filled (String.◌∷◌ c w) (v ∷ ws) h = refl

-- Words and a text joined are read as the words and what is read of the text.
read-join_filled :
    (ws : List String) (y : String)
    → All IsWord ws
    → read (join_filled (unwords ws) y) ≡ after_words ws (read y)
unfolding unwords
read-join_filled [] y a = refl
read-join_filled (w ∷ ws) y a = elim (Bool-cases (is_empty y)) [
  | inl blank ↦
      let none_read : read y ≡ ([], none) = ap read (is_empty_nil y blank) ∙ read_nothing in
      rw (unwords_filled w ws a, blank)
        (read-unwords w ws a
          ∙ ap (λ (vs : List String). (vs, none)) (sym (append-nil (w ∷ ws)))
          ∙ ap (after_words (w ∷ ws)) (sym none_read))
  | inr more ↦ rw (unwords_filled w ws a, more) (read-unwords-append w ws y a)
]

-- The tail that was written is read as it is.
IsTrimmed : Option String → Type 0
IsTrimmed none = Unit {0}
IsTrimmed (some b) = trim b ≡ b

abbrev tail_text : Option String → String
tail_text none = ""
tail_text (some b) = append "| " b

read-tail_text : (b : Option String) → IsTrimmed b → read (tail_text b) ≡ ([], b)
unfolding read IsTrimmed
read-tail_text none h = read_nothing
read-tail_text (some b) h =
    let bar : Char = "|" in
    let space : Char = " " in
    ap (λ r. without_start (read3 r)) (cut_bar bar (String.◌∷◌ " " b) refl)
    ∙ ap (λ (t : String). ([], some t)) (trim_space space b refl ∙ h)

filter-IsWord :
    (test : String → Bool) (ws : List String) → All IsWord ws → All IsWord (filter test ws)
filter-IsWord test [] a = tt
filter-IsWord test (w ∷ ws) (h, a) = elim (Bool-cases (test w)) [
  | inl kept ↦ rw kept (h, filter-IsWord test ws a)
  | inr dropped ↦ rw dropped (filter-IsWord test ws a)
]

-- What splitQuery makes of what it read.
abbrev build : List String × Option String → Split
build (ws, b) = record {
  pills = pills_of ws;
  text = trim (join_filled (unwords (filter is_free ws)) (tail_text b));
}

split_cut :
    (r : String × Option String)
    → (record {
      pills = pills_of (words r.0);
      text = trim (join_filled (unwords (filter is_free (words r.0))) (tail_of r.1));
    })
      ≡ build (without_start (read3 r))
split_cut (front, none) = refl
split_cut (front, some b) = refl

split_query-build : (q : String) → split_query q ≡ build (read q)
unfolding split_query read
split_query-build q = split_cut (cut q)

read-IsTrimmed : (q : String) → IsTrimmed (read q).1
unfolding read IsTrimmed
read-IsTrimmed q = elim (Option-cases (cut q).1) [
  | inl n ↦ rw n tt
  | inr (b, e) ↦ rw e (trim-trim b)
]

-- The words of the pills before the free words, with the same tail.
joined :
    (ws : List String) (b : Option String)
    → All IsWord ws
    → IsTrimmed b
    → read (join_query (build (ws, b)).pills (build (ws, b)).text)
      ≡ (filter is_pill ws ++ filter is_free ws, b)
unfolding join_query
joined ws b a h =
    let free = join_filled (unwords (filter is_free ws)) (tail_text b) in
    read-trim (join_filled (unwords (map render (pills_of ws))) (trim (trim free)))
    ∙ ap (λ (vs : List String). read (join_filled (unwords vs) (trim (trim free)))) (pills_lem ws)
    ∙ read-join_filled (filter is_pill ws) (trim (trim free)) (filter-IsWord is_pill ws a)
    ∙ ap (after_words (filter is_pill ws)) (
        read-trim (trim free)
        ∙ read-trim free
        ∙ read-join_filled (filter is_free ws) (tail_text b) (filter-IsWord is_free ws a)
        ∙ ap (after_words (filter is_free ws)) (read-tail_text b h)
        ∙ ap (λ (vs : List String). (vs, b)) (append-nil (filter is_free ws)))

rebuilt :
    (ws : List String) (b : Option String)
    → build (filter is_pill ws ++ filter is_free ws, b) ≡ build (ws, b)
rebuilt ws b = rw (pills_of_split ws ws, free_split ws ws) refl

read-IsWord : (q : String) → All IsWord (read q).0
unfolding read
read-IsWord q = words-IsWord q

-- For every query q, the pills and the text that splitQuery makes of q, put back together by
-- joinQuery, are split into the same pills and the same text.
pub split_query-join_query :
    (q : String)
    → split_query (join_query (split_query q).pills (split_query q).text) ≡ split_query q
split_query-join_query q =
    let s = split_query-build q in
    let (ws, b) = read q in
    ap (λ (t : Split). split_query (join_query t.pills t.text)) s
    ∙ split_query-build (join_query (build (ws, b)).pills (build (ws, b)).text)
    ∙ ap build (joined ws b (read-IsWord q) (read-IsTrimmed q))
    ∙ rebuilt ws b
    ∙ sym s
