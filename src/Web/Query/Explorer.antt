-- ===== src/Web/Query/Explorer.antt =====
-- The query bar of the metrics explorer with the address of the page:
-- web/src/controllers/explorer.ts, useQueryPills, initialQueryFromUrl, writeQueryParam and
-- useMetricsExplorerController, in a browser.
use upstat.Common.{
  inl, inr, true, Bool-cases, ℕ, zero, suc, String, ◌≡◌, ap, ◌∙◌, Bool, false, not, ◌&&◌, ◌||◌,
  List, [], ◌∷◌, ◌++◌, arith, eq_iff, if◌then◌else◌, nat_eq, string_eq, ◌==◌, or_else, get, delete,
  get-delete,
}
use upstat.Web.Url.{Params, set, get-set}
use upstat.Web.Query.{Pill, Split, split_query, join_query}
use upstat.Web.Query.RoundTrip.{split_query-join_query}

-- `s.pills.some((p) => p.facet === facet && p.value === value)`.
unfoldable pub has_pill : String → String → List Pill → Bool
has_pill facet value [] = false
has_pill facet value (p ∷ ps) = (p.facet == facet && p.value == value) || has_pill facet value ps

abbrev pub new_pill : String → String → Pill
new_pill facet value = record { facet = facet; value = value; negated = false }

unfoldable pub add_pill : String → String → Split → Split
add_pill facet value s =
    if has_pill facet value s.pills
    then s
    else record { pills = s.pills ++ (new_pill facet value ∷ []); text = s.text }

abbrev without_index : ℕ → List Pill → List Pill
without_index i [] = []
without_index zero (p ∷ ps) = ps
without_index (suc i) (p ∷ ps) = p ∷ without_index i ps

unfoldable pub remove_pill : ℕ → Split → Split
remove_pill index s = record { pills = without_index index s.pills; text = s.text }

abbrev pub set_text : String → Split → Split
set_text text s = record { pills = s.pills; text = text }

abbrev pub query : Split → String
query s = join_query s.pills s.text

unfoldable pub initial_query_from_url : String → Params → String
initial_query_from_url fallback m = or_else (get m "q") fallback

unfoldable pub write_query_param : String → String → Params → Params
write_query_param q default_query m =
    if not (q == "") && not (q == default_query) then set m "q" q else delete m "q"

abbrev pub default_metrics_query : String
default_metrics_query = "metric:http.request.duration_ms | p95() by service"

-- The bar, the query that runs, and the parameters of the address.
pub record Explorer : Type 0 where
  pub bar : Split
  pub active : String
  pub params : Params

-- The page opened at an address.
unfoldable pub opened : Params → Explorer
unfolding initial_query_from_url
opened m =
    let q = initial_query_from_url default_metrics_query m in
    record { bar = split_query q; active = q; params = m }

abbrev run_now : String → Split → Params → Explorer
run_now q bar m = record {
  bar = bar;
  active = q;
  params = write_query_param q default_metrics_query m;
}

unfoldable pub submit : Explorer → Explorer
submit e = run_now (query e.bar) e.bar e.params

unfoldable pub pivot : String → String → Explorer → Explorer
unfolding add_pill
pivot facet value e =
    run_now (join_query (e.bar.pills ++ (new_pill facet value ∷ [])) e.bar.text)
      (add_pill facet value e.bar) e.params

-- The query of a saved view.
unfoldable pub apply_view : String → Explorer → Explorer
apply_view q e = run_now q (split_query q) e.params

-- The query that was written is read back; an empty one as the default.
initial-write :
    (q d : String) (m : Params)
    → (q == "") ≡ false
    → initial_query_from_url d (write_query_param q d m) ≡ q
unfolding initial_query_from_url write_query_param
initial-write q d m h = ground (arith, h, eq_iff q d, get-set m "q" "q" q, get-delete m "q" "q")

initial-write_blank :
    (q d : String) (m : Params)
    → (q == "") ≡ true
    → initial_query_from_url d (write_query_param q d m) ≡ d
unfolding initial_query_from_url write_query_param
initial-write_blank q d m h = ground (arith, h, get-delete m "q" "q")

-- A saved view with the query q, where q is not empty, leaves an address that opens the explorer as
-- it is: the same bar, the same running query, the same parameters. When the bar is then submitted,
-- the address opens the same bar and the submitted query again; where the query that the bar shows
-- is empty, it opens the default query instead.
pub apply_view-opened :
    (q : String) (e : Explorer)
    → (q == "") ≡ false
    → (opened (apply_view q e).params ≡ apply_view q e)
      × ((opened (submit (apply_view q e)).params).bar ≡ (
          if query (split_query q) == ""
          then split_query default_metrics_query
          else (apply_view q e).bar))
      × ((opened (submit (apply_view q e)).params).active ≡ (
          if query (split_query q) == ""
          then default_metrics_query
          else (submit (apply_view q e)).active))
unfolding opened apply_view submit
apply_view-opened q e h =
    let viewed = write_query_param q default_metrics_query e.params in
    let shown = query (split_query q) in
    let first =
      ap (λ (t : String). record { bar = split_query t; active = t; params = viewed })
        (initial-write q default_metrics_query e.params h) in
    elim (Bool-cases (shown == "")) [
      | inl blank ↦
          let again = initial-write_blank shown default_metrics_query viewed blank in
          rw blank (first, ap split_query again, again)
      | inr filled ↦
          let again = initial-write shown default_metrics_query viewed filled in
          rw filled (first, ap split_query again ∙ split_query-join_query q, again)
    ]
