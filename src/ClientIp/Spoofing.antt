-- ===== src/ClientIp/Spoofing.antt =====
-- clientip.go: header lines that a client sends itself.
use traefik_plugin_ipgeoloca.Base.{
  ℕ, ◌+◌, ◌-◌, ◌≤◌, ◌<◌, ◌≡◌, refl, sym, ap, ◌∙◌, List, [], ◌∷◌, ◌++◌, Option, none, some, true,
  false, not, ◌⊎◌, ◌&&◌, ltb, ◌==◌, if◌then◌else◌, length, get_or, arith, length-append,
}
use mathlib.Core.List.{reverse, reverse-append}
use traefik_plugin_ipgeoloca.Base.Text.{Str}
use traefik_plugin_ipgeoloca.Base.Int.{pos, is_positive, pos_part}
use traefik_plugin_ipgeoloca.Reader.Tree.{Ip}
use traefik_plugin_ipgeoloca.Net.{NetOps, Request, header_values}
use traefik_plugin_ipgeoloca.ClientIp.{
  split_values, peer_ip, ip_in_nets, forwarded_values, first_untrusted, at_depth, IpResolver,
  choose, client_ip,
}
use traefik_plugin_ipgeoloca.ClientIp.Values.{split_values-append, get_or-append}

module _ (net : NetOps) where
  open net use {Network}

  at_depth-append :
      (sent honest : List Str) (depth : ℕ) (peer : Option Ip)
      → 0 < depth
      → depth ≤ length honest
      → at_depth net (sent ++ honest) depth peer ≡ at_depth net honest depth peer
  unfolding at_depth
  at_depth-append sent honest depth peer some_depth h =
      let e : length (sent ++ honest) - depth ≡ length sent + (length honest - depth) =
        rw (length-append sent honest) (omega arith) in
      let value : get_or (sent ++ honest) (length (sent ++ honest) - depth) []
          ≡ get_or honest (length honest - depth) [] =
        ap (λ n. get_or (sent ++ honest) n []) e
        ∙ get_or-append sent honest (length honest - depth) in
      ground (arith, value, length-append sent honest)

  first_untrusted-append :
      (proxies : List Network) (xs ys : List Str) (peer : Option Ip)
      → first_untrusted net proxies (xs ++ ys) peer
        ≡ first_untrusted net proxies xs (first_untrusted net proxies ys peer)
  unfolding first_untrusted
  first_untrusted-append proxies [] ys peer = refl
  first_untrusted-append proxies (x ∷ xs) ys peer =
      ground (arith, first_untrusted-append proxies xs ys peer)

  first_untrusted-some :
      (proxies : List Network) (values : List Str) (peer : Option Ip) (ip : Ip)
      → first_untrusted net proxies values none ≡ some ip
      → first_untrusted net proxies values peer ≡ some ip
  unfolding first_untrusted
  first_untrusted-some proxies [] peer ip h = ground arith
  first_untrusted-some proxies (x ∷ xs) peer ip h =
      ground (arith, first_untrusted-some proxies xs peer ip)

  -- What `client_ip` does with the values.
  abbrev by_values : IpResolver net → Option Ip → List Str → Option Ip
  by_values r peer values =
      if not r.trust_forwarded
      then peer
      else if ltb 0 (length r.trusted_proxies) && not (ip_in_nets net peer r.trusted_proxies)
      then peer
      else if length values == 0
      then peer
      else choose net r values peer

  by_values-depth :
      (r : IpResolver net) (peer : Option Ip) (sent honest : List Str)
      → is_positive r.depth ≡ true
      → 0 < pos_part r.depth
      → pos_part r.depth ≤ length honest
      → by_values r peer (sent ++ honest) ≡ by_values r peer honest
  unfolding choose
  by_values-depth r peer sent honest d some_depth h = ground (
    arith,
    length-append sent honest,
    at_depth-append sent honest (pos_part r.depth) peer some_depth h,
  )

  by_values-proxies :
      (r : IpResolver net) (peer : Option Ip) (sent honest : List Str) (ip : Ip)
      → is_positive r.depth ≡ false
      → 0 < length r.trusted_proxies
      → 0 < length honest
      → first_untrusted net r.trusted_proxies (reverse honest) none ≡ some ip
      → by_values r peer (sent ++ honest) ≡ by_values r peer honest
  unfolding choose
  by_values-proxies r peer sent honest ip d listed filled h =
      let apart : first_untrusted net r.trusted_proxies (reverse (sent ++ honest)) peer
          ≡ first_untrusted net r.trusted_proxies (reverse honest) peer =
        rw
          (
            reverse-append sent honest,
            first_untrusted-append r.trusted_proxies (reverse honest) (reverse sent) peer,
            first_untrusted-some r.trusted_proxies (reverse honest)
                (first_untrusted net r.trusted_proxies (reverse sent) peer) ip h,
            first_untrusted-some r.trusted_proxies (reverse honest) peer ip h,
          )
          refl in
      ground (arith, length-append sent honest, apart)

  length-first_untrusted :
      (proxies : List Network) (honest : List Str) (ip : Ip)
      → first_untrusted net proxies (reverse honest) none ≡ some ip
      → 0 < length honest
  unfolding first_untrusted
  length-first_untrusted proxies [] ip h = ground arith
  length-first_untrusted proxies (x ∷ xs) ip h = ground arith

  peer_ip-same :
      (req req' : Request) → req.remote_addr ≡ req'.remote_addr → peer_ip net req ≡ peer_ip net req'
  unfolding peer_ip
  peer_ip-same req req' same = rw same refl

  forwarded_values-append :
      (req : Request) (name : Str) (sent honest : List Str)
      → header_values net req name ≡ sent ++ honest
      → forwarded_values net req name ≡ split_values sent ++ split_values honest
  unfolding forwarded_values
  forwarded_values-append req name sent honest lines =
      ap split_values lines ∙ split_values-append sent honest

  -- The client's part of the values does not matter to `client_ip` where it does not to `by_values`.
  client_ip-by_values :
      (r : IpResolver net) (req req' : Request) (sent honest : List Str)
      → req.remote_addr ≡ req'.remote_addr
      → header_values net req r.header_name ≡ sent ++ honest
      → header_values net req' r.header_name ≡ honest
      → by_values r (peer_ip net req) (split_values sent ++ split_values honest)
        ≡ by_values r (peer_ip net req) (split_values honest)
      → client_ip net r req ≡ client_ip net r req'
  unfolding client_ip forwarded_values
  client_ip-by_values r req req' sent honest same lines lines' h =
      ap (by_values r (peer_ip net req))
        (forwarded_values-append req r.header_name sent honest lines)
      ∙ h
      ∙ ap (λ p. by_values r p (split_values honest)) (peer_ip-same req req' same)
      ∙ ap (λ v. by_values r (peer_ip net req') (split_values v)) (sym lines')

  -- Two requests of the same peer are located by the same address, whatever their headers say,
  -- where forwarded headers are not trusted or where proxies are listed and the peer is none of
  -- them; and that address is the peer's.
  pub client_ip-direct :
      (r : IpResolver net) (req req' : Request)
      → req.remote_addr ≡ req'.remote_addr
      → (r.trust_forwarded ≡ false)
        ⊎ ((0 < length r.trusted_proxies)
            × (ip_in_nets net (peer_ip net req) r.trusted_proxies ≡ false))
      → (client_ip net r req ≡ client_ip net r req') × (client_ip net r req ≡ peer_ip net req)
  unfolding client_ip
  client_ip-direct r req req' same h = ground (arith, peer_ip-same req req' same, h)

  -- With a depth set, header lines that stand before the ones the proxies wrote change nothing: a
  -- request whose header lines are `sent` and then `honest` is located like a request of the same
  -- peer with the lines `honest` alone, where the depth is positive and `honest` has that many
  -- values.
  pub client_ip-depth :
      (r : IpResolver net) (req req' : Request) (sent honest : List Str) (depth : ℕ)
      → req.remote_addr ≡ req'.remote_addr
      → header_values net req r.header_name ≡ sent ++ honest
      → header_values net req' r.header_name ≡ honest
      → r.depth ≡ pos depth
      → 0 < depth
      → depth ≤ length (split_values honest)
      → client_ip net r req ≡ client_ip net r req'
  client_ip-depth r req req' sent honest depth same lines lines' d some_depth h =
      client_ip-by_values r req req' sent honest same lines lines' (
        by_values-depth r (peer_ip net req) (split_values sent) (split_values honest)
          (ground (arith, d, some_depth)) (rw d some_depth) (rw d h))

  -- With proxies listed and no depth, header lines that stand before the ones the proxies wrote
  -- change nothing, where the proxies' own lines name an address that is no trusted proxy: a
  -- request whose header lines are `sent` and then `honest` is located like a request of the same
  -- peer with the lines `honest` alone.
  pub client_ip-proxies :
      (r : IpResolver net) (req req' : Request) (sent honest : List Str) (ip : Ip)
      → req.remote_addr ≡ req'.remote_addr
      → header_values net req r.header_name ≡ sent ++ honest
      → header_values net req' r.header_name ≡ honest
      → is_positive r.depth ≡ false
      → 0 < length r.trusted_proxies
      → first_untrusted net r.trusted_proxies (reverse (split_values honest)) none ≡ some ip
      → client_ip net r req ≡ client_ip net r req'
  client_ip-proxies r req req' sent honest ip same lines lines' d listed h =
      client_ip-by_values r req req' sent honest same lines lines' (
        by_values-proxies r (peer_ip net req) (split_values sent) (split_values honest) ip d listed
          (length-first_untrusted r.trusted_proxies (split_values honest) ip h) h)
