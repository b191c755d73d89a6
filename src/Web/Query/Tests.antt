-- ===== src/Web/Query/Tests.antt =====
-- Tests of the query bar: web/src/controllers/explorer.ts.
use upstat.Common.{
  if◌then◌else◌, String, ◌≡◌, refl, true, false, List, [], ◌∷◌, nat_eq, string_eq, ◌==◌, get,
  delete,
}
use upstat.Web.Query.{Pill, split_query, join_query}
use upstat.Web.Query.RoundTrip.{split_query-join_query}
use upstat.Web.Query.Explorer.{
  Explorer, query, opened, submit, pivot, apply_view, remove_pill, add_pill, has_pill,
  initial_query_from_url, write_query_param, apply_view-opened, default_metrics_query,
}

abbrev typed : String
typed = " slow service:api  -status:500 checkout | count by x|sum "

abbrev typed_pills : List Pill
typed_pills =
    record { facet = "service"; value = "api"; negated = false }
    ∷ record { facet = "status"; value = "500"; negated = true }
    ∷ []

split_typed :
    split_query typed ≡ record { pills = typed_pills; text = "slow checkout | count by x|sum" }
unfolding split_query
split_typed = refl

join_typed :
    join_query typed_pills "slow checkout | count by x|sum"
    ≡ "service:api -status:500 slow checkout | count by x|sum"
unfolding join_query
join_typed = refl

split_query-join_query_example :
    split_query (join_query (split_query typed).pills (split_query typed).text) ≡ split_query typed
split_query-join_query_example = split_query-join_query typed

abbrev start : Explorer
start = opened (("tab", "metrics") ∷ [])

start_active : start.active ≡ default_metrics_query
unfolding opened initial_query_from_url get
start_active = refl

remove_second :
    query (remove_pill 1 (split_query typed)) ≡ "service:api slow checkout | count by x|sum"
unfolding remove_pill split_query join_query
remove_second = refl

-- A pivot to a pill that the bar has already, and to one that it has negated: the query that runs
-- is not the one that the bar shows.
abbrev pivoted : String → Explorer
pivoted q = pivot "service" "api" (apply_view q start)

pivoted_again : (pivoted "service:api").active ≡ "service:api service:api"
unfolding pivot apply_view split_query join_query
pivoted_again = refl

pivoted_again_shown : query (pivoted "service:api").bar ≡ "service:api"
unfolding pivot apply_view add_pill has_pill split_query join_query
pivoted_again_shown = refl

pivoted_negated : (pivoted "-service:api").active ≡ "-service:api service:api"
unfolding pivot apply_view split_query join_query
pivoted_negated = refl

pivoted_negated_shown : query (pivoted "-service:api").bar ≡ "-service:api"
unfolding pivot apply_view add_pill has_pill split_query join_query
pivoted_negated_shown = refl

-- An empty query is not kept in the address: the default one is opened again.
submitted_empty : opened (submit (apply_view "" start)).params ≡ start
unfolding opened submit apply_view initial_query_from_url write_query_param split_query join_query
    delete get
submitted_empty = refl

apply_view-opened_example :
    (opened (apply_view typed start).params ≡ apply_view typed start)
    × ((opened (submit (apply_view typed start)).params).bar ≡ (
        if query (split_query typed) == ""
        then split_query default_metrics_query
        else (apply_view typed start).bar))
    × ((opened (submit (apply_view typed start)).params).active ≡ (
        if query (split_query typed) == ""
        then default_metrics_query
        else (submit (apply_view typed start)).active))
apply_view-opened_example = apply_view-opened typed start refl
