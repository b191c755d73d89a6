-- ===== src/Net/Ingress/Tests.antt =====
-- Request bodies in chunks, and the slots of the large ones.
use upstat.Common.{
  ◌≤◌, String, ◌≡◌, refl, true, false, none, some, List, [], ◌∷◌, ◌++◌, map, arith, leb,
  if◌then◌else◌, nat_eq, string_eq, or_else, length, Result, ok, err,
}
use upstat.Net.Ingress.{
  Ingress, BodyEvent, Buffer, settled, read_body, receive, admit, concat, too_large, flat, bytes,
  finished, closed,
}
use upstat.Net.Ingress.Body.{read_body-chunks, receive-bounded}
use upstat.Net.Ingress.Slots.{Server, Reach, IsCounted, Reach-IsCounted, here, next, arrive, leave}

abbrev chunks : List Buffer
chunks = (1 ∷ 2 ∷ []) ∷ (3 ∷ []) ∷ []

read_body-chunks_example :
    read_body 4 (map bytes chunks ++ finished ∷ closed true ∷ [])
    ≡ settled (if leb (length (flat chunks)) 4 then ok (flat chunks) else err (too_large 4))
read_body-chunks_example = read_body-chunks 4 chunks (closed true ∷ [])

too_long : read_body 2 (map bytes chunks ++ finished ∷ []) ≡ settled (err (too_large 2))
unfolding read_body
too_long = refl

abbrev idle : Ingress
idle = record { inflight = 0 }

abbrev checked : Result String
checked = ok "caller"

abbrev sent : Buffer
sent = 1 ∷ 2 ∷ []

abbrev stream : List BodyEvent
stream = bytes (1 ∷ 2 ∷ []) ∷ finished ∷ []

receive-bounded_example : (checked ≡ ok "caller") × (length sent ≤ 4) × (or_else (some 2) 0 ≤ 4)
unfolding receive concat
receive-bounded_example = receive-bounded 1 4 checked (some 2) stream idle "caller" sent refl

abbrev at_start : Server
at_start = record { ingress = idle; open_requests = [] }

abbrev only_small : Server
only_small = record { ingress = idle; open_requests = false ∷ [] }

run : Reach 1 100_000 at_start only_small
unfolding admit
run =
    next (next (next here (arrive none true refl)) (arrive (some 10) false refl))
      (leave (false ∷ []) [] true refl)

Reach-IsCounted_example : IsCounted 1 only_small
Reach-IsCounted_example = Reach-IsCounted (record { exact = refl; capped = omega arith }) run
