-- ===== src/Net/ClientIp/Trust.antt =====
-- What a caller can and cannot do to the address that is used for it.
use upstat.Common.{
  ◌≤◌, ◌<◌, String, ◌≡◌, refl, ◌⊎◌, inl, Bool, true, Option, none, some, arith, nat_eq, string_eq,
  or_else, length,
}
use Prim.Native.String
use upstat.Net.ClientIp.{Proxy, chain_of, from_right, peer_address, resolve_client_ip}
use upstat.Net.ClientIp.Chain.{
  comma, chain_of-append, from_right-append, is_empty-append_comma, is_empty_of_chain,
}

module _ (is_ip : String → Bool) where
  -- Whatever the headers: the address is the socket's peer, or an entry that is an IP address and
  -- stands `hops` from the right while the proxy is trusted.
  pub resolve_client_ip-source :
      (p : Proxy) (header : Option String) (peer : String)
      → (resolve_client_ip is_ip p header peer ≡ peer_address peer)
        ⊎ ((is_ip (resolve_client_ip is_ip p header peer) ≡ true)
            × (p.trusted ≡ true)
            × (from_right (chain_of (or_else header "")) p.hops
                ≡ some (resolve_client_ip is_ip p header peer)))
  unfolding resolve_client_ip
  resolve_client_ip-source p none peer = inl refl
  resolve_client_ip-source p (some header) peer = ground arith

  -- What a client writes left of the entries that the trusted proxies append is never read: the
  -- address is the one of the appended entries alone.
  pub resolve_client_ip-spoof :
      (p : Proxy) (left right : String) (peer : String)
      → 0 < p.hops
      → p.hops ≤ length (chain_of right)
      → resolve_client_ip is_ip p (some (String.◌++◌ left (String.◌∷◌ comma right))) peer
        ≡ resolve_client_ip is_ip p (some right) peer
  unfolding resolve_client_ip
  resolve_client_ip-spoof p left right peer pos h = ground (
    arith,
    is_empty-append_comma left right,
    is_empty_of_chain right (omega arith),
    chain_of-append left right,
    from_right-append (chain_of left) (chain_of right) p.hops pos h,
  )
