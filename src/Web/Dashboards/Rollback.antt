-- ===== src/Web/Dashboards/Rollback.antt =====
-- The calls that an import makes: web/src/controllers/dashboards.ts, importJson.
use upstat.Common.{
  ℕ, zero, suc, String, ◌≡◌, refl, sym, ap, ◌∙◌, ◌⊎◌, inl, inr, Bool, true, false, ◌&&◌, List, [],
  ◌∷◌, ◌++◌, map, nat_eq, string_eq, length, Failure, Result, Action, and_then, ◌>>◌, return,
  caught, Result-cases, ok, err,
}
use mathlib.Core.List.{append_assoc, append-nil}
use upstat.Web.Json.{Fields, no_fields, field, Codec}
use upstat.Web.Dashboards.{PortableWidget, Portable}
use upstat.Web.Dashboards.Parse.{Parsed, Refusal, good, refused, parse_portable_dashboard}
use upstat.Web.Dashboards.Import.{
  ApiCall, create, update, remove, add_widget, Client, next, send, ask, add_widgets, update_vars,
  fill, roll_back, place, import_json,
}

abbrev accepted : Result String → Bool
accepted (ok id) = true
accepted (err e) = false

-- The first n replies are no failures.
unfoldable pub answered : ℕ → List (Result String) → Bool
answered zero rs = true
answered (suc n) rs = accepted (next rs).0 && answered n (next rs).1

unfoldable pub reply_at : ℕ → List (Result String) → Result String
reply_at zero rs = (next rs).0
reply_at (suc n) rs = reply_at n (next rs).1

-- The calls that fill a new dashboard: its variables, if it has any, then each widget in order.
abbrev vars_calls : String → Fields → List ApiCall
vars_calls id no_fields = []
vars_calls id (field k v vars) = update id (field k v vars) ∷ []

abbrev pub filling : String → Portable → List ApiCall
filling id p = vars_calls id p.template_vars ++ map (add_widget id) p.widgets

unfoldable run_calls : List ApiCall → Action Client (Unit {0})
unfolding send
run_calls [] = return tt
run_calls (c ∷ cs) = ask c >> run_calls cs

-- What a run of calls comes to: all were made and answered; or the one that failed was the last.
abbrev Ran : List ApiCall → Client → Result (Unit {0}) × Client → Type 0
Ran cs s (ok u, t) = (t.calls ≡ s.calls ++ cs) × (answered (length cs) s.replies ≡ true)
Ran cs s (err e, t) =
    (made : List ApiCall) × (last : ApiCall) × (rest : List ApiCall) × (cs ≡ made ++ last ∷ rest)
    × (t.calls ≡ s.calls ++ (made ++ last ∷ []))
    × (answered (length made) s.replies ≡ true)
    × (reply_at (length made) s.replies ≡ err e)

and_then_same :
    {A B : Type 0} (r : Result A × Client) (f g : A → Action Client B)
    → ((a : A) (t : Client) → f a t ≡ g a t)
    → and_then r f ≡ and_then r g
and_then_same (ok a, t) f g h = h a t
and_then_same (err e, t) f g h = refl

add_widgets_lem :
    (id : String) (ws : List PortableWidget) (s : Client)
    → add_widgets id ws s ≡ run_calls (map (add_widget id) ws) s
unfolding add_widgets run_calls
add_widgets_lem id [] s = refl
add_widgets_lem id (w ∷ ws) s =
    and_then_same (ask (add_widget id w) s) (λ u. add_widgets id ws)
      (λ u. run_calls (map (add_widget id) ws)) (λ a t. add_widgets_lem id ws t)

fill_lem : (id : String) (p : Portable) (s : Client) → fill id p s ≡ run_calls (filling id p) s
unfolding fill run_calls
fill_lem id p s = filled p.template_vars
  where
    filled :
        (vars : Fields)
        → (update_vars id vars >> add_widgets id p.widgets) s
          ≡ run_calls (vars_calls id vars ++ map (add_widget id) p.widgets) s
    filled no_fields = add_widgets_lem id p.widgets s
    filled (field k v vars) =
        and_then_same (ask (update id (field k v vars)) s) (λ u. add_widgets id p.widgets)
          (λ u. run_calls (map (add_widget id) p.widgets)) (λ a t. add_widgets_lem id p.widgets t)

run_step :
    (c : ApiCall) (cs : List ApiCall) (s t : Client) (r : Result (Unit {0}) × Client)
    → t.calls ≡ s.calls ++ c ∷ []
    → t.replies ≡ (next s.replies).1
    → accepted (next s.replies).0 ≡ true
    → Ran cs t r
    → Ran (c ∷ cs) s r
unfolding answered reply_at
run_step c cs s t (ok u, v) ec er ok_reply (calls, all_ok) = (
  calls ∙ ap (λ (xs : List ApiCall). xs ++ cs) ec ∙ append_assoc s.calls (c ∷ []) cs,
  rw ok_reply (rw er at all_ok),
)
run_step c cs s t (err e, v) ec er ok_reply (made, last, rest, split, calls, all_ok, failed) = (
  c ∷ made,
  last,
  rest,
  ap (λ (xs : List ApiCall). c ∷ xs) split,
  calls
      ∙ ap (λ (xs : List ApiCall). xs ++ (made ++ last ∷ [])) ec
      ∙ append_assoc s.calls (c ∷ []) (made ++ last ∷ []),
  rw ok_reply (rw er at all_ok),
  rw er at failed,
)

run_calls-Ran : (cs : List ApiCall) (s : Client) → Ran cs s (run_calls cs s)
unfolding run_calls send answered reply_at
run_calls-Ran [] s = (sym (append-nil s.calls), refl)
run_calls-Ran (c ∷ cs) s = elim (Result-cases (next s.replies).0) [
  | inl (e, failed) ↦ rw failed ([], c, cs, refl, refl, refl, failed)
  | inr (a, replied) ↦
      let t : Client = record { calls = s.calls ++ c ∷ []; replies = (next s.replies).1 } in
      rw replied
        (run_step c cs s t (run_calls cs t) refl refl (ap accepted replied) (run_calls-Ran cs t))
]

-- What an import comes to.
abbrev pub Imported : (c : Codec) → c.Text → Client → Result String × Client → Type 0
Imported c text s (ok id, t) =
    (p : Portable) × (parse_portable_dashboard c text ≡ good p)
    × ((next s.replies).0 ≡ ok id)
    × (t.calls ≡ s.calls ++ create p.name ∷ filling id p)
    × (answered (suc (length (filling id p))) s.replies ≡ true)
Imported c text s (err e, t) =
    ((r : Refusal) × (parse_portable_dashboard c text ≡ refused r) × (t ≡ s))
    ⊎ ((p : Portable) × (parse_portable_dashboard c text ≡ good p)
        × ((next s.replies).0 ≡ err e)
        × (t.calls ≡ s.calls ++ create p.name ∷ []))
    ⊎ ((p : Portable) × (id : String) × (made : List ApiCall) × (last : ApiCall) × (rest : List
          ApiCall)
        × (parse_portable_dashboard c text ≡ good p)
        × ((next s.replies).0 ≡ ok id)
        × (filling id p ≡ made ++ last ∷ rest)
        × (t.calls ≡ s.calls ++ create p.name ∷ (made ++ last ∷ remove id ∷ []))
        × (answered (suc (length made)) s.replies ≡ true)
        × (reply_at (suc (length made)) s.replies ≡ err e))

answered_one_more :
    (n : ℕ) (id : String) (rs qs : List (Result String))
    → (next rs).0 ≡ ok id
    → qs ≡ (next rs).1
    → answered n qs ≡ true
    → answered (suc n) rs ≡ true
unfolding answered
answered_one_more n id rs qs replied er h = rw replied (rw er at h)

reply_at_one_more :
    (n : ℕ) (rs qs : List (Result String)) (r : Result String)
    → qs ≡ (next rs).1
    → reply_at n qs ≡ r
    → reply_at (suc n) rs ≡ r
unfolding reply_at
reply_at_one_more n rs qs r er h = rw er at h

-- The catch makes one call, whatever becomes of it, and throws what it caught.
roll_back_lem :
    (id : String) (e : Failure) (s : Client) → roll_back id e s ≡ (err e, (send (remove id) s).1)
unfolding send
roll_back_lem id e s = elim (Result-cases (next s.replies).0) [
  | inl (f, failed) ↦ rw failed refl
  | inr (a, replied) ↦ rw replied refl
]

module _ (c : Codec) (text : c.Text) (p : Portable) (id : String) (s t : Client) where
  tried :
      (r : Result (Unit {0}) × Client)
      → parse_portable_dashboard c text ≡ good p
      → (next s.replies).0 ≡ ok id
      → t.calls ≡ s.calls ++ create p.name ∷ []
      → t.replies ≡ (next s.replies).1
      → Ran (filling id p) t r
      → Imported c text s (and_then (caught r (roll_back id)) (λ u. return id))
  unfolding send
  tried (ok u, v) parsed replied ec er (calls, all_ok) = (
    p,
    parsed,
    replied,
    calls
        ∙ ap (λ (xs : List ApiCall). xs ++ filling id p) ec
        ∙ append_assoc s.calls (create p.name ∷ []) (filling id p),
    answered_one_more (length (filling id p)) id s.replies t.replies replied er all_ok,
  )
  tried (err e, v) parsed replied ec er (made, last, rest, split, calls, all_ok, failed) =
      rw (roll_back_lem id e v) (
        inr (
          inr (
            p,
            id,
            made,
            last,
            rest,
            parsed,
            replied,
            split,
            ap (λ (xs : List ApiCall). xs ++ remove id ∷ []) calls
                ∙ append_assoc t.calls (made ++ last ∷ []) (remove id ∷ [])
                ∙ ap (λ (xs : List ApiCall). xs ++ ((made ++ last ∷ []) ++ remove id ∷ [])) ec
                ∙ append_assoc s.calls (create p.name ∷ []) ((made ++ last ∷ []) ++ remove id ∷ [])
                ∙ ap (λ (xs : List ApiCall). s.calls ++ create p.name ∷ xs)
                    (append_assoc made (last ∷ []) (remove id ∷ [])),
            answered_one_more (length made) id s.replies t.replies replied er all_ok,
            reply_at_one_more (length made) s.replies t.replies (err e) er failed,
          )))

placed :
    (c : Codec) (text : c.Text) (s : Client) (r : Parsed Portable)
    → parse_portable_dashboard c text ≡ r
    → Imported c text s (place r s)
unfolding send
placed c text s (refused r) e = inl (r, e, refl)
placed c text s (good p) e =
    let t : Client = (send (create p.name) s).1 in
    elim (Result-cases (next s.replies).0) [
      | inl (f, failed) ↦ rw failed (inr (inl (p, e, failed, refl)))
      | inr (id, replied) ↦
          rw (replied, fill_lem id p t)
            (tried c text p id s t (run_calls (filling id p) t) e replied refl refl
              (run_calls-Ran (filling id p) t))
    ]

-- Whatever the API replies, an import asks for the whole definition, or ends by asking for the
-- removal of what it created. When `import_json` returns an id, it
-- is the one in the reply to the creation, and it has asked for the whole definition, in order: the
-- creation under the definition's name, the variables if there are any, and each widget; each of
-- these calls got a reply. When it throws, either the text was refused and no call was made; or the
-- creation threw, and was the only call; or the calls went in this order up to the first one that
-- threw, the last call is the removal of the dashboard that was created, and what is thrown is what
-- that first one threw, whatever the removal came to.
pub import_json-Imported :
    (c : Codec) (text : c.Text) (s : Client) → Imported c text s (import_json c text s)
unfolding import_json
import_json-Imported c text s = placed c text s (parse_portable_dashboard c text) refl
