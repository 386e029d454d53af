-- ===== src/Reader/Outcomes.antt =====
-- mmdb.go: what a lookup in a ready reader can answer.
use traefik_plugin_ipgeoloca.Base.{
  ℕ, ◌+◌, ◌*◌, ◌≤◌, ◌<◌, ◌≡◌, refl, List, [], ◌∷◌, ◌++◌, Option, none, some, Bool, false, ltb, leb,
  ◌==◌, if◌then◌else◌, length, replicate, Result, ok, err, arith, Bool-cases, ltb→lt, Option-cases,
  ◌⊎◌, inl, inr, All,
}
use traefik_plugin_ipgeoloca.Base.Int.{pos, eq_ℤ}
use traefik_plugin_ipgeoloca.Source.{Error, corrupt_tree, slice}
use traefik_plugin_ipgeoloca.Source.Serves.{mem_at_within}
use traefik_plugin_ipgeoloca.Reader.{Reader}
use traefik_plugin_ipgeoloca.Reader.Tree.{
  Ip, to4, to16, v4_in_v6_prefix, node_records, read_node, resolve_node, lookup_offset,
}
use traefik_plugin_ipgeoloca.Reader.Paths.{IsByte, bits_of, walk, trie_lookup}
use traefik_plugin_ipgeoloca.Reader.Lookups.{trie_offset, lookup_offset-trie}
use traefik_plugin_ipgeoloca.Reader.Valid.{IsReady}

node_fits : (node count size : ℕ) → node < count → node * size + size ≤ count * size
node_fits node count size h = grind arith

to16_total : (ip : Ip) → (length ip ≡ 4) ⊎ (length ip ≡ 16) → (addr : Ip) × (to16 ip ≡ some addr)
unfolding to16
to16_total ip (inl e) = (v4_in_v6_prefix ++ ip, rw e)
to16_total ip (inr e) = (ip, rw e)

-- The answers: not found, an offset behind the search tree, or an address whose bits end inside the
-- tree. No read fails.
unfoldable pub Answer : Reader → Result Error (Option ℕ) → Type 0
Answer r (ok none) = Unit
Answer r (ok (some off)) = r.tree_size < off
Answer r (err e) = (node : ℕ) × (e ≡ corrupt_tree node) × (node < r.meta.node_count)

module _ (r : Reader) (content : List ℕ) (ready : IsReady r content) where
  read_node_total :
      (node : ℕ) → node < r.meta.node_count → (records : ℕ × ℕ) × (read_node r node ≡ ok records)
  unfolding read_node
  read_node_total node h =
      let s = ready.sized in
      let fits : node * r.node_size + r.node_size ≤ length content =
        omega (
          arith,
          s.tree_size,
          s.data_base,
          s.fits,
          node_fits node r.meta.node_count r.node_size h,
        ) in
      (
        node_records r.meta.record_size (slice content (node * r.node_size) r.node_size),
        rw (ready.serves.1 (node * r.node_size) r.node_size, mem_at_within content _ _ fits),
      )

  walk_total : (bits : List Bool) (node : ℕ) → (node' : ℕ) × (walk r bits node ≡ ok node')
  unfolding walk
  walk_total [] node = (node, refl)
  walk_total (b ∷ bits) node = elim (Bool-cases (leb r.meta.node_count node)) [
    | inl out ↦ (node, rw out)
    | inr inside ↦
        let (records, e) = read_node_total node (ground arith) in
        let (node', e') = walk_total bits (if b then records.1 else records.0) in
        (node', rw (inside, e) e')
  ]

  resolve_node-Answer : (node : ℕ) → Answer r (resolve_node r node)
  unfolding resolve_node Answer
  resolve_node-Answer node =
      let s = ready.sized in
      elim (Bool-cases (node == r.meta.node_count)) [
        | inl same ↦ rw (same, Answer) tt
        | inr other ↦ elim (Bool-cases (ltb r.meta.node_count node)) [
          | inl out ↦ rw (other, out) (omega (arith, s.data_base, ltb→lt _ _ out))
          | inr inside ↦ rw (other, inside) (node, refl, ground arith)
        ]
      ]

  trie_lookup-Answer : (bits : List Bool) → Answer r (trie_lookup r bits)
  unfolding trie_lookup
  trie_lookup-Answer bits = let (node, e) = walk_total bits 0 in rw e (resolve_node-Answer node)

  trie_offset-Answer : (ip : Ip) → (length ip ≡ 4) ⊎ (length ip ≡ 16) → Answer r (trie_offset r ip)
  unfolding trie_offset Answer
  trie_offset-Answer ip size = elim (Option-cases (to4 ip)) [
    | inr (v4, e) ↦ elim (Bool-cases (eq_ℤ r.meta.ip_version (pos 6))) [
      | inl six ↦ rw (e, trie_offset, six) (trie_lookup-Answer (replicate 96 false ++ bits_of v4))
      | inr four ↦ rw (e, trie_offset, four) (trie_lookup-Answer (bits_of v4))
    ]
    | inl e ↦ elim (Bool-cases (eq_ℤ r.meta.ip_version (pos 4))) [
      | inl four ↦ rw (e, trie_offset, four, Answer) tt
      | inr six ↦
          let (addr, e') = to16_total ip size in
          rw (e, trie_offset, six, e') (trie_lookup-Answer (bits_of addr))
    ]
  ]

  -- In a ready reader, as `OpenReader` returns it, the lookup of an address of 4 or 16 bytes reads every
  -- node it needs: it answers that the address is not found or an offset behind the search tree,
  -- and its one error is a path that ends inside the tree.
  pub lookup_offset-Answer :
      (ip : Ip)
      → (length ip ≡ 4) ⊎ (length ip ≡ 16)
      → All IsByte ip
      → Answer r (lookup_offset r (some ip))
  lookup_offset-Answer ip size bytes =
      rw (lookup_offset-trie r ip ready.located bytes) (trie_offset-Answer ip size)
