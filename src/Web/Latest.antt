-- ===== src/Web/Latest.antt =====
-- The guard that the controllers share: each call takes the next number, and an answer is applied
-- only while its call is the latest one.
use upstat.Common.{
  ℕ, suc, ◌≡◌, refl, sym, ap, ◌∙◌, ◌≢◌, true, false, List, [], ◌∷◌, ◌++◌, arith, if◌then◌else◌,
  nat_beq_iff, nat_eq, string_eq, ◌==◌, All, Result,
}
use mathlib.Core.Path.{subst}

-- What happens to a hook: a call begins, or the promise of an earlier one settles.
pub data Turn (T : Type 0) : Type 0 where
  call : Turn T
  answer : ℕ → Result T → Turn T

-- The state with its counter, what a call sets at once, and what an answer sets.
pub record Hook (T : Type 0) : Type 1 where
  pub State : Type 0
  pub seq : State → ℕ
  pub begin : State → State
  pub settle : Result T → State → State
  pub seq-begin : (s : State) → seq (begin s) ≡ suc (seq s)
  pub seq-settle : (r : Result T) (s : State) → seq (settle r s) ≡ seq s

module _ {T : Type 0} (H : Hook T) where
  -- `if (seq.current === id) ...`.
  abbrev pub answered : ℕ → Result T → H.State → H.State
  answered id r s = if H.seq s == id then H.settle r s else s

  abbrev pub turn : Turn T → H.State → H.State
  turn call s = H.begin s
  turn (answer id r) s = answered id r s

  unfoldable pub run : List (Turn T) → H.State → H.State
  run [] s = s
  run (x ∷ xs) s = run xs (turn x s)

  -- A turn that answers a call other than the one with the number `n`.
  abbrev pub Other : ℕ → Turn T → Type 0
  Other n call = true ≡ false
  Other n (answer id r) = id ≢ n

  run-append : (xs ys : List (Turn T)) (s : H.State) → run (xs ++ ys) s ≡ run ys (run xs s)
  unfolding run
  run-append [] ys s = refl
  run-append (x ∷ xs) ys s = run-append xs ys (turn x s)

  -- Answers of other calls change nothing.
  pub run-Other : (xs : List (Turn T)) (s : H.State) → All (Other (H.seq s)) xs → run xs s ≡ s
  unfolding run
  run-Other [] s h = refl
  run-Other (call ∷ xs) s (wrong, h) = absurd (ground (arith, wrong))
  run-Other (answer id r ∷ xs) s (apart, h) =
      let same : turn (answer id r) s ≡ s = ground (arith, apart) in
      ap (run xs) same ∙ run-Other xs s h

  -- The latest call decides: whatever was called and answered before it, and in whatever order the
  -- older answers come in, its own answer is what the state shows from then on.
  pub run-latest :
      (xs before after : List (Turn T)) (r : Result T) (s : H.State)
      → let t = H.begin (run xs s) in
        All (Other (H.seq t)) before
        → All (Other (H.seq t)) after
        → (run (xs ++ call ∷ before) s ≡ t)
          × (run (xs ++ call ∷ (before ++ answer (H.seq t) r ∷ after)) s ≡ H.settle r t)
  unfolding run
  run-latest xs before after r s hb ha =
      let t = H.begin (run xs s) in
      let waiting : run before t ≡ t = run-Other before t hb in
      let settled : run (answer (H.seq t) r ∷ after) t ≡ H.settle r t =
        let own : turn (answer (H.seq t) r) t ≡ H.settle r t =
          rw ((nat_beq_iff (H.seq t) (H.seq t)).1 refl) refl in
        ap (run after) own
        ∙ run-Other after (H.settle r t)
            (subst (λ n. All (Other n) after) (sym (H.seq-settle r t)) ha) in
      (
        run-append xs (call ∷ before) s ∙ waiting,
        run-append xs (call ∷ (before ++ answer (H.seq t) r ∷ after)) s
            ∙ run-append before (answer (H.seq t) r ∷ after) t
            ∙ ap (run (answer (H.seq t) r ∷ after)) waiting
            ∙ settled,
      )
