-- ===== src/Reader/Lookups.antt =====
-- mmdb.go: `LookupOffset` beside the trie.
use traefik_plugin_ipgeoloca.Base.{
  ℕ, ◌≡◌, refl, ◌++◌, Option, none, some, false, if◌then◌else◌, drop, replicate, Result, ok, err,
  arith, Option-cases, inl, inr, ◌⊎◌, All, All-append, All-drop,
}
use mathlib.Core.Path.{subst}
use traefik_plugin_ipgeoloca.Base.Int.{pos, eq_ℤ}
use traefik_plugin_ipgeoloca.Source.{Error, unusable_address}
use traefik_plugin_ipgeoloca.Reader.{Reader}
use traefik_plugin_ipgeoloca.Reader.Tree.{
  Ip, to4, to16, v4_in_v6_prefix, start_of, walk_from, lookup_offset,
}
use traefik_plugin_ipgeoloca.Reader.Paths.{
  IsByte, bits_of, trie_lookup, IsLocated, walk_from-trie, walk_from_v4,
}

to4_cases : (ip : Ip) {v4 : Ip} → to4 ip ≡ some v4 → (ip ≡ v4) ⊎ (drop 12 ip ≡ v4)
unfolding to4
to4_cases ip h = ground arith

to16_cases : (ip : Ip) {v6 : Ip} → to16 ip ≡ some v6 → (v4_in_v6_prefix ++ ip ≡ v6) ⊎ (ip ≡ v6)
unfolding to16
to16_cases ip h = ground arith

-- `To4` and `To16` give bytes back.
to4-bytes : (ip : Ip) {v4 : Ip} → All IsByte ip → to4 ip ≡ some v4 → All IsByte v4
to4-bytes ip h e = elim (to4_cases ip e) [
  | inl same ↦ subst (All IsByte) same h
  | inr rest ↦ subst (All IsByte) rest (All-drop IsByte 12 ip h)
]

to16-bytes : (ip : Ip) {v6 : Ip} → All IsByte ip → to16 ip ≡ some v6 → All IsByte v6
to16-bytes ip h e = elim (to16_cases ip e) [
  | inl mapped ↦ subst (All IsByte) mapped (All-append IsByte v4_in_v6_prefix ip (omega arith) h)
  | inr same ↦ subst (All IsByte) same h
]

walk_from-none : (r : Reader) → walk_from r none ≡ ok none
unfolding walk_from
walk_from-none r = refl

-- What `LookupOffset` should answer, by the kinds of the address and of the database.
unfoldable pub trie_offset : Reader → Ip → Result Error (Option ℕ)
trie_offset r ip = elim (to4 ip) [
  | some v4 ↦
      if eq_ℤ r.meta.ip_version (pos 6)
      then trie_lookup r (replicate 96 false ++ bits_of v4)
      else trie_lookup r (bits_of v4)
  | none ↦
      if eq_ℤ r.meta.ip_version (pos 4)
      then ok none
      else elim (to16 ip) [ none ↦ err unusable_address | some addr ↦ trie_lookup r (bits_of addr) ]
]

-- For an address of bytes, in a reader whose IPv4 start is located, the loops of `LookupOffset` and
-- `findIPv4Start` compute the walk of the trie along the bits of the address: an IPv4 address in an
-- IPv6 database is looked up behind 96 zero bits, an IPv6 address in an IPv4 database is not found.
pub lookup_offset-trie :
    (r : Reader) (ip : Ip)
    → IsLocated r
    → All IsByte ip
    → lookup_offset r (some ip) ≡ trie_offset r ip
unfolding lookup_offset start_of trie_offset
lookup_offset-trie r ip located bytes = elim (Option-cases (to4 ip)) [
  | inl e ↦ elim (Option-cases (to16 ip)) [
    | inl e' ↦ ground (arith, e, e', walk_from-none r)
    | inr (v6, e') ↦
        ground (arith, e, e', walk_from-none r, walk_from-trie r v6 (to16-bytes ip bytes e'))
  ]
  | inr (v4, e) ↦ ground (
    arith,
    e,
    located.known,
    located.found,
    walk_from-trie r v4 (to4-bytes ip bytes e),
    walk_from_v4 r v4,
    to4-bytes ip bytes e,
  )
]
