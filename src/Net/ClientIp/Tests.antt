-- ===== src/Net/ClientIp/Tests.antt =====
-- Addresses as the socket and the proxies write them.
use upstat.Common.{String, ◌≡◌, refl, Bool, true, not, some, [], ◌∷◌, map, arith, nat_eq, string_eq}
use upstat.Net.ClientIp.{Proxy, peer_address, resolve_client_ip, chain_of}
use upstat.Net.ClientIp.Chain.{comma}
use upstat.Net.ClientIp.Trust.{resolve_client_ip-spoof}
use upstat.Common.Text.{is_empty}
use Prim.Native.String

addresses :
    map peer_address (
      "ipv4:10.0.0.1:5000" ∷ "ipv6:[::1]:443" ∷ "::ffff:10.0.0.2" ∷ "10.0.0.3:80"
      ∷ "[::ffff:1.2.3.4]" ∷ "10.0.0:80" ∷ [])
    ≡ "10.0.0.1" ∷ "::1" ∷ "10.0.0.2" ∷ "10.0.0.3" ∷ "1.2.3.4" ∷ "10.0.0:80" ∷ []
unfolding peer_address
addresses = refl

chain : chain_of "1.1.1.1, 2.2.2.2 ,,3.3.3.3" ≡ "1.1.1.1" ∷ "2.2.2.2" ∷ "3.3.3.3" ∷ []
unfolding chain_of
chain = refl

abbrev no_slash : String → Bool
no_slash s = not (is_empty s)

abbrev proxy : Proxy
proxy = record { trusted = true; hops = 1 }

resolve_client_ip-spoof_example :
    resolve_client_ip no_slash proxy
      (some (String.◌++◌ "6.6.6.6" (String.◌∷◌ comma "1.2.3.4")))
      "10.0.0.1:80"
    ≡ resolve_client_ip no_slash proxy (some "1.2.3.4") "10.0.0.1:80"
unfolding chain_of
resolve_client_ip-spoof_example =
    resolve_client_ip-spoof no_slash proxy "6.6.6.6" "1.2.3.4" "10.0.0.1:80" (omega arith)
      (omega arith)
