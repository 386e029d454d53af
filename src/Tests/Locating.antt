-- ===== src/Tests/Locating.antt =====
-- Requests behind a proxy, and the theorems on client addresses applied to them.
use traefik_plugin_ipgeoloca.Base.{
  ◌≡◌, refl, List, [], ◌∷◌, none, some, true, false, ◌==◌, if◌then◌else◌, length, take, arith,
}
use traefik_plugin_ipgeoloca.Base.Text.{Str, codes, str_eq, index_byte}
use traefik_plugin_ipgeoloca.Base.Int.{pos}
use traefik_plugin_ipgeoloca.Reader.Tree.{Ip}
use traefik_plugin_ipgeoloca.Net.{NetOps, Request}
use traefik_plugin_ipgeoloca.ClientIp.{IpResolver, client_ip}
use traefik_plugin_ipgeoloca.ClientIp.Spoofing.{client_ip-depth, client_ip-proxies}
use traefik_plugin_ipgeoloca.Tests.Program.{locating}

-- An address is written as its four bytes.
abbrev pub net : NetOps
net = record {
  Network = Ip;
  parse_address = λ s. if length s == 4 then some s else none;
  address_text = λ ip. ip;
  split_host = λ s. elim (index_byte b':' s) [ none ↦ none | some i ↦ some (take i s) ];
  parse_network = λ s. if length s == 4 then some s else none;
  network_contains = λ n ip. str_eq n ip;
  is_loopback = λ ip. false;
  is_link_local_unicast = λ ip. false;
  is_link_local_multicast = λ ip. false;
  is_unspecified = λ ip. false;
  is_private = λ ip. false;
  canonical_key = λ s. s;
}

abbrev pub direct : IpResolver net
direct = record {
  trust_forwarded = true;
  header_name = codes "X-Forwarded-For";
  depth = pos 0;
  trusted_proxies = codes "prxy" ∷ [];
}

abbrev by_depth : IpResolver net
by_depth = record direct { depth = pos 2 }

abbrev pub request : Str → List Str → Request
request remote_addr values = record {
  remote_addr = remote_addr;
  headers = (codes "X-Forwarded-For", values) ∷ [];
}

-- The client sends a line of its own; the proxies write the client and one proxy.
abbrev spoofed : Request
spoofed = request (codes "prxy:80") (codes "evil" ∷ codes "abcd, prxy" ∷ [])

abbrev pub plain : Request
plain = request (codes "prxy:80") (codes "abcd, prxy" ∷ [])

spoofed_is_located : client_ip net direct spoofed ≡ some (codes "abcd")
unfolding locating
spoofed_is_located = refl

client_ip-proxies_example : client_ip net direct spoofed ≡ client_ip net direct plain
unfolding locating
client_ip-proxies_example =
    client_ip-proxies net direct spoofed plain (codes "evil" ∷ []) (codes "abcd, prxy" ∷ [])
      (codes "abcd") refl refl refl refl (omega arith) refl

client_ip-depth_example : client_ip net by_depth spoofed ≡ client_ip net by_depth plain
unfolding locating
client_ip-depth_example =
    client_ip-depth net by_depth spoofed plain (codes "evil" ∷ []) (codes "abcd, prxy" ∷ []) 2 refl
      refl refl refl (omega arith) (omega arith)
