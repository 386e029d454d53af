-- ===== src/ClientIp.antt =====
-- clientip.go: which address a request is located by.
pub mod Values
pub mod Spoofing
use traefik_plugin_ipgeoloca.Base.{
  ℕ, suc, ◌+◌, ◌-◌, ◌/◌, bit_and, List, [], ◌∷◌, ◌++◌, Option, none, some, Bool, true, false, not,
  ◌&&◌, ◌||◌, ltb, leb, ◌==◌, if◌then◌else◌, length, take, drop, get_or, any, Result, ok, err,
  ◌>>=◌,
}
use mathlib.Core.List.{reverse}
use traefik_plugin_ipgeoloca.Base.Text.{
  Str, codes, trim_space, has_prefix, split, index_byte, last_index_byte, decimal,
}
use traefik_plugin_ipgeoloca.Base.Int.{ℤ, is_positive, pos_part}
use traefik_plugin_ipgeoloca.Reader.Tree.{Ip, to4}
use traefik_plugin_ipgeoloca.Net.{NetOps, Request, header_values}

-- `[…]` off the value, where the closing bracket does not stand first.
unfoldable pub strip_brackets : Str → Str
strip_brackets value =
    if has_prefix value (codes "[")
    then elim (last_index_byte b']' value) [
      | none ↦ value
      | some i ↦ if ltb 0 i then take (i - 1) (drop 1 value) else value
    ]
    else value

-- The zone off the value, where `%` does not stand first.
unfoldable pub strip_zone : Str → Str
strip_zone value = elim (index_byte b'%' value) [
  | none ↦ value
  | some i ↦ if ltb 0 i then take i value else value
]

-- The non-empty trimmed parts.
unfoldable pub trimmed_parts : List Str → List Str
trimmed_parts [] = []
trimmed_parts (part ∷ parts) =
    let rest = trimmed_parts parts in
    let t = trim_space part in if length t == 0 then rest else t ∷ rest

unfoldable pub split_values : List Str → List Str
split_values [] = []
split_values (value ∷ raw) = trimmed_parts (split b',' value) ++ split_values raw

module _ (net : NetOps) where
  open net use {Network}

  unfoldable pub parse_ip : Str → Option Ip
  parse_ip value =
      let v = trim_space value in
      let bare = strip_zone (strip_brackets v) in
      if length v == 0 then none else elim (net.parse_address bare) [
        | some ip ↦ some ip
        | none ↦ elim (net.split_host bare) [
          | none ↦ none
          | some host ↦ net.parse_address (trim_space host)
        ]
      ]

  unfoldable pub peer_ip : Request → Option Ip
  peer_ip req = elim (net.split_host req.remote_addr) [
    | none ↦ parse_ip req.remote_addr
    | some host ↦ parse_ip host
  ]

  unfoldable pub ip_in_nets : Option Ip → List Network → Bool
  ip_in_nets none nets = false
  ip_in_nets (some ip) nets = any (λ n. net.network_contains n ip) nets

  unfoldable pub forwarded_values : Request → Str → List Str
  forwarded_values req header_name = split_values (header_values net req header_name)

  -- The first value that parses, else the peer.
  unfoldable pub first_valid : List Str → Option Ip → Option Ip
  first_valid [] peer = peer
  first_valid (value ∷ values) peer = elim (parse_ip value) [
    | some ip ↦ some ip
    | none ↦ first_valid values peer
  ]

  -- The first value that parses and is no trusted proxy, else the peer.
  unfoldable pub first_untrusted : List Network → List Str → Option Ip → Option Ip
  first_untrusted proxies [] peer = peer
  first_untrusted proxies (value ∷ values) peer =
      let rest = first_untrusted proxies values peer in
      elim (parse_ip value) [
        | none ↦ rest
        | some ip ↦ if not (ip_in_nets (some ip) proxies) then some ip else rest
      ]

  -- The value at a depth counted from the right, 1 being the last.
  unfoldable pub at_depth : List Str → ℕ → Option Ip → Option Ip
  at_depth values depth peer =
      if leb depth (length values)
      then elim (parse_ip (get_or values (length values - depth) [])) [
        | some ip ↦ some ip
        | none ↦ peer
      ]
      else peer

  pub record IpResolver : Type 0 where
    pub trust_forwarded : Bool
    pub header_name : Str
    pub depth : ℤ
    pub trusted_proxies : List Network

  -- The part of `clientIP` behind the check that there are values.
  unfoldable pub choose : IpResolver → List Str → Option Ip → Option Ip
  choose r values peer =
      if is_positive r.depth
      then at_depth values (pos_part r.depth) peer
      else if ltb 0 (length r.trusted_proxies)
      then first_untrusted r.trusted_proxies (reverse values) peer
      else first_valid values peer

  unfoldable pub client_ip : IpResolver → Request → Option Ip
  client_ip r req =
      let peer = peer_ip req in
      let values = forwarded_values req r.header_name in
      if not r.trust_forwarded
      then peer
      else if ltb 0 (length r.trusted_proxies) && not (ip_in_nets peer r.trusted_proxies)
      then peer
      else if length values == 0
      then peer
      else choose r values peer

  -- The text that `parseCIDRs` hands to net.ParseCIDR.
  unfoldable pub cidr_text : Str → Option Str
  cidr_text value = elim (index_byte b'/' value) [
    | some i ↦ some value
    | none ↦ elim (net.parse_address value) [
      | none ↦ none
      | some ip ↦
          let bits : ℕ = elim (to4 ip) [ none ↦ 128 | some v4 ↦ 32 ] in
          some (net.address_text ip ++ codes "/" ++ decimal bits)
    ]
  ]

  unfoldable pub parse_cidr : Str → Option Network
  parse_cidr value = elim (cidr_text value) [ none ↦ none | some text ↦ net.parse_network text ]

  -- `parseCIDRs`; none is an error.
  unfoldable pub parse_cidrs : List Str → Option (List Network)
  parse_cidrs [] = some []
  parse_cidrs (value ∷ values) =
      let rest = parse_cidrs values in
      let v = trim_space value in
      if length v == 0 then rest else elim (parse_cidr v) [
        | none ↦ none
        | some n ↦ elim rest [ none ↦ none | some ns ↦ some (n ∷ ns) ]
      ]

  -- The ranges of carrier grade NAT, and of unique local IPv6 addresses.
  unfoldable pub is_shared_range : Ip → Bool
  is_shared_range ip = elim (to4 ip) [
    | some v4 ↦ get_or v4 0 0 == 100 && bit_and (get_or v4 1 0) 0xc0 == 64
    | none ↦ length ip == 16 && bit_and (get_or ip 0 0) 0xfe == 0xfc
  ]

  unfoldable pub is_local_ip : Option Ip → Bool
  is_local_ip none = true
  is_local_ip (some ip) =
      net.is_loopback ip
      || net.is_link_local_unicast ip
      || net.is_link_local_multicast ip
      || net.is_unspecified ip
      || net.is_private ip
      || is_shared_range ip
