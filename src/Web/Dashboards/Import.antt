-- ===== src/Web/Dashboards/Import.antt =====
-- Importing a dashboard and rolling it back: web/src/controllers/dashboards.ts, importJson, over
-- the calls of dashboardsRepo (web/src/models/repositories/index.ts). The API's replies are a queue
-- that the calls consume: the id that a reply carries, or what the call throws, which says nothing
-- of whether the API did what was asked. The reloads of the list at the end are left out.
use upstat.Common.{
  String, List, [], ◌∷◌, ◌++◌, nat_eq, string_eq, Failure, Result, Action, ◌>>=◌, ◌>>◌, return,
  throw, try, ok, err, other,
}
use upstat.Web.Json.{Fields, no_fields, field, Codec}
use upstat.Web.Dashboards.{PortableWidget, Portable}
use upstat.Web.Dashboards.Parse.{Parsed, good, refused, parse_portable_dashboard}

pub data ApiCall : Type 0 where
  create : String → ApiCall
  update : String → Fields → ApiCall
  remove : String → ApiCall
  add_widget : String → PortableWidget → ApiCall

-- The calls that were made, in order, and the replies to come.
pub record Client : Type 0 where
  pub calls : List ApiCall
  pub replies : List (Result String)

abbrev pub next : List (Result String) → Result String × List (Result String)
next [] = (err (other "fetch failed"), [])
next (r ∷ rs) = (r, rs)

unfoldable pub send : ApiCall → Action Client String
send call s =
    ((next s.replies).0, record { calls = s.calls ++ call ∷ []; replies = (next s.replies).1 })

abbrev without_reply : Result String × Client → Result (Unit {0}) × Client
without_reply (ok a, s) = (ok tt, s)
without_reply (err e, s) = (err e, s)

-- A call whose reply is not used.
abbrev pub ask : ApiCall → Action Client (Unit {0})
ask call s = without_reply (send call s)

unfoldable pub add_widgets : String → List PortableWidget → Action Client (Unit {0})
unfolding send
add_widgets id [] = return tt
add_widgets id (w ∷ ws) = ask (add_widget id w) >> add_widgets id ws

abbrev pub update_vars : String → Fields → Action Client (Unit {0})
update_vars id no_fields = return tt
update_vars id (field k v vars) = ask (update id (field k v vars))

-- The body of the `try`, and its `catch`.
unfoldable pub fill : String → Portable → Action Client (Unit {0})
unfolding add_widgets
fill id p = update_vars id p.template_vars >> add_widgets id p.widgets

abbrev pub roll_back : String → Failure → Action Client (Unit {0})
roll_back id e = try (ask (remove id)) (λ f. return tt) >> throw e

abbrev pub place : Parsed Portable → Action Client String
place (refused r) = throw (other "invalid definition")
place (good p) = do id ← send (create p.name); try (fill id p) (roll_back id); return id

module _ (c : Codec) where
  unfoldable pub import_json : c.Text → Action Client String
  unfolding fill
  import_json t = place (parse_portable_dashboard c t)
