-- ===== src/Reader/Tree.antt =====
-- mmdb.go: the search tree. `readNode`, `findIPv4Start` and `LookupOffset`.
use traefik_plugin_ipgeoloca.Base.{
  ℕ, zero, suc, ◌+◌, ◌-◌, ◌*◌, ◌/◌, ◌%◌, ◌^◌, bit_and, bit_or, List, [], ◌∷◌, Option, none, some,
  not, ltb, leb, ◌==◌, ◌&&◌, if◌then◌else◌, length, drop, replicate, get_or, Result, ok, err, ◌>>=◌,
  ◌++◌,
}
use traefik_plugin_ipgeoloca.Base.Bits.{shl}
use traefik_plugin_ipgeoloca.Base.Text.{has_prefix}
use traefik_plugin_ipgeoloca.Base.Int.{pos, eq_ℤ}
use traefik_plugin_ipgeoloca.Source.{
  Error, nil_address, unusable_address, ipv4_start_unknown, corrupt_tree,
}
use traefik_plugin_ipgeoloca.Reader.{Reader}

-- `net.IP` of package net: 4 or 16 bytes; a nil address is `none` where one may stand.
abbrev pub Ip : Type 0
Ip = List ℕ

abbrev pub v4_in_v6_prefix : List ℕ
v4_in_v6_prefix = replicate 10 0 ++ 0xff ∷ 0xff ∷ []

-- `IP.To4`
unfoldable pub to4 : Ip → Option Ip
to4 ip =
    if length ip == 4
    then some ip
    else if length ip == 16 && has_prefix ip v4_in_v6_prefix
    then some (drop 12 ip)
    else none

-- `IP.To16`
unfoldable pub to16 : Ip → Option Ip
to16 ip =
    if length ip == 4
    then some (v4_in_v6_prefix ++ ip)
    else if length ip == 16
    then some ip
    else none

-- The `switch` of `readNode`: the two records in the bytes of a node.
unfoldable pub node_records : ℕ → List ℕ → ℕ × ℕ
node_records record_size b =
    if record_size == 24
    then (
      bit_or (bit_or (shl (get_or b 0 0) 16) (shl (get_or b 1 0) 8)) (get_or b 2 0),
      bit_or (bit_or (shl (get_or b 3 0) 16) (shl (get_or b 4 0) 8)) (get_or b 5 0),
    )
    else if record_size == 28
    then (
      bit_or
          (bit_or (bit_or (shl (bit_and (get_or b 3 0) 0xf0) 20) (shl (get_or b 0 0) 16))
            (shl (get_or b 1 0) 8))
          (get_or b 2 0),
      bit_or
          (bit_or (bit_or (shl (bit_and (get_or b 3 0) 0x0f) 24) (shl (get_or b 4 0) 16))
            (shl (get_or b 5 0) 8))
          (get_or b 6 0),
    )
    else (
      bit_or
          (bit_or (bit_or (shl (get_or b 0 0) 24) (shl (get_or b 1 0) 16)) (shl (get_or b 2 0) 8))
          (get_or b 3 0),
      bit_or
          (bit_or (bit_or (shl (get_or b 4 0) 24) (shl (get_or b 5 0) 16)) (shl (get_or b 6 0) 8))
          (get_or b 7 0),
    )

-- Bit i of an address, the most significant of the first byte being bit 0.
unfoldable pub address_bit : List ℕ → ℕ → ℕ
address_bit addr i = bit_and (get_or addr (i / 8) 0 / 2 ^ (7 - i % 8)) 1

module _ (r : Reader) where
  unfoldable pub read_node : ℕ → Result Error (ℕ × ℕ)
  read_node node = do
    b ← r.src.at (node * r.node_size) r.node_size
    ok (node_records r.meta.record_size b)

  -- `for i < 96 && node < NodeCount`, with the rounds left.
  unfoldable pub left_loop : ℕ → ℕ → Result Error ℕ
  left_loop zero node = ok node
  left_loop (suc n) node =
      let rest = (do (left, _) ← read_node node; left_loop n left) in
      if ltb node r.meta.node_count then rest else ok node

  unfoldable pub find_ipv4_start : Result Error ℕ
  find_ipv4_start = left_loop 96 0

  -- The loop of `LookupOffset` from bit i on, with the rounds left.
  unfoldable pub tree_loop : List ℕ → ℕ → ℕ → ℕ → Result Error ℕ
  tree_loop addr zero i node = ok node
  tree_loop addr (suc n) i node =
      let rest = (do
        (left, right) ← read_node node
        tree_loop addr n (i + 1) (if address_bit addr i == 0 then left else right)) in
      if leb r.meta.node_count node then ok node else rest

  -- The `switch` behind the loop: none is the reserved "no data" record.
  unfoldable pub resolve_node : ℕ → Result Error (Option ℕ)
  resolve_node node =
      if node == r.meta.node_count
      then ok none
      else if ltb r.meta.node_count node
      then ok (some (r.data_base + node - r.meta.node_count - 16))
      else err (corrupt_tree node)

  -- The bytes to walk by and the node to start at; none is an IPv6 address in an IPv4 database.
  unfoldable pub start_of : Ip → Result Error (Option (List ℕ × ℕ))
  start_of ip = elim (to4 ip) [
    | some v4 ↦
        if eq_ℤ r.meta.ip_version (pos 6)
        then (if not r.ipv4_start_set then err ipv4_start_unknown else ok (some (v4, r.ipv4_start)))
        else ok (some (v4, 0))
    | none ↦
        if eq_ℤ r.meta.ip_version (pos 4)
        then ok none
        else elim (to16 ip) [ none ↦ err unusable_address | some addr ↦ ok (some (addr, 0)) ]
  ]

  unfoldable pub walk_from : Option (List ℕ × ℕ) → Result Error (Option ℕ)
  walk_from none = ok none
  walk_from (some (addr, node)) = do
    node' ← tree_loop addr (length addr * 8) 0 node
    resolve_node node'

  unfoldable pub lookup_offset : Option Ip → Result Error (Option ℕ)
  lookup_offset none = err nil_address
  lookup_offset (some ip) = do start ← start_of ip; walk_from start
