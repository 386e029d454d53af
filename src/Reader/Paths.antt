-- ===== src/Reader/Paths.antt =====
-- mmdb.go: the search tree as a binary trie, and the IPv4 subtree.
use traefik_plugin_ipgeoloca.Base.{
  ℕ, zero, suc, ◌+◌, ◌-◌, ◌*◌, ◌/◌, ◌%◌, ◌^◌, ◌≤◌, ◌<◌, ◌≡◌, refl, sym, ap, ◌∙◌, List, [], ◌∷◌,
  ◌++◌, Option, some, Bool, true, false, not, leb, ◌==◌, if◌then◌else◌, length, replicate, Result,
  ok, ◌>>=◌, arith, Bool-cases, inl, inr, Result-cases, All, leb→le,
}
use traefik_plugin_ipgeoloca.Base.Bits.{bit_and_0x01}
use traefik_plugin_ipgeoloca.Base.Int.{pos, eq_ℤ}
use traefik_plugin_ipgeoloca.Source.{Error}
use traefik_plugin_ipgeoloca.Reader.{Reader}
use traefik_plugin_ipgeoloca.Reader.Tree.{
  address_bit, read_node, left_loop, find_ipv4_start, tree_loop, resolve_node, walk_from,
}

abbrev pub is_set : ℕ → ℕ → Bool
is_set byte k = byte / 2 ^ k % 2 == 1

-- The bits of an address, the most significant first.
unfoldable pub bits_of : List ℕ → List Bool
bits_of [] = []
bits_of (b ∷ bs) =
    is_set b 7
    ∷ is_set b 6
    ∷ is_set b 5
    ∷ is_set b 4
    ∷ is_set b 3
    ∷ is_set b 2
    ∷ is_set b 1
    ∷ is_set b 0
    ∷ bits_of bs

module _ (r : Reader) where
  -- The node that a sequence of bits leads to: a set bit takes the right record, and a node that is
  -- no node of the tree stays.
  unfoldable pub walk : List Bool → ℕ → Result Error ℕ
  walk [] node = ok node
  walk (b ∷ bs) node =
      let rest = (do (left, right) ← read_node r node; walk bs (if b then right else left)) in
      if leb r.meta.node_count node then ok node else rest

  walk_stop : (bs : List Bool) (node : ℕ) → r.meta.node_count ≤ node → walk bs node ≡ ok node
  unfolding walk
  walk_stop [] node h = refl
  walk_stop (b ∷ bs) node h = ground arith

  pub walk-append :
      (xs bs : List Bool) (node : ℕ) → walk (xs ++ bs) node ≡ (walk xs node >>= walk bs)
  unfolding walk
  walk-append [] bs node = refl
  walk-append (a ∷ xs) bs node = elim (Bool-cases (leb r.meta.node_count node)) [
    | inl out ↦ rw out (sym (walk_stop bs node (leb→le _ _ out)))
    | inr inside ↦ rw inside (elim (Result-cases (read_node r node)) [
      | inl ((left, right), e) ↦ rw e (walk-append xs bs (if a then right else left))
      | inr (x, e) ↦ rw e
    ])
  ]

  left_loop-walk : (n node : ℕ) → left_loop r n node ≡ walk (replicate n false) node
  unfolding left_loop walk
  left_loop-walk zero node = refl
  left_loop-walk (suc n) node = elim (Result-cases (read_node r node)) [
    | inl ((left, right), e) ↦ ground (arith, e, left_loop-walk n left)
    | inr (x, e) ↦ ground (arith, e)
  ]

-- The bits that the loop of `LookupOffset` reads, from bit i on.
abbrev bits_from : List ℕ → ℕ → ℕ → List Bool
bits_from addr zero i = []
bits_from addr (suc n) i = not (address_bit addr i == 0) ∷ bits_from addr n (i + 1)

tree_loop-walk :
    (r : Reader) (addr : List ℕ) (n i node : ℕ)
    → tree_loop r addr n i node ≡ walk r (bits_from addr n i) node
unfolding tree_loop walk
tree_loop-walk r addr zero i node = refl
tree_loop-walk r addr (suc n) i node = elim (Result-cases (read_node r node)) [
  | inl ((left, right), e) ↦
      ground (arith, e, tree_loop-walk r addr n (i + 1) left, tree_loop-walk r addr n (i + 1) right)
  | inr (x, e) ↦ ground (arith, e)
]

address_bit-head :
    (b : ℕ) (bs : List ℕ) (i : ℕ)
    → b < 256
    → i < 8
    → not (address_bit (b ∷ bs) i == 0) ≡ is_set b (7 - i)
unfolding address_bit
address_bit-head b bs i hb hi =
    let e₁ : i / 8 ≡ 0 = omega arith in
    let e₂ : i % 8 ≡ i = omega arith in
    let small : b / 2 ^ (7 - i) < 256 = omega arith in
    rw (e₁, e₂, bit_and_0x01 _ small) (ground arith)

bits_from-shift : (b : ℕ) (bs : List ℕ) (n i : ℕ) → bits_from (b ∷ bs) n (i + 8) ≡ bits_from bs n i
unfolding address_bit
bits_from-shift b bs zero i = refl
bits_from-shift b bs (suc n) i =
    let e₁ : (i + 8) / 8 ≡ suc (i / 8) = omega arith in
    let e₂ : (i + 8) % 8 ≡ i % 8 = omega arith in
    let e₃ : i + 8 + 1 ≡ i + 1 + 8 = omega arith in rw (e₁, e₂, e₃, bits_from-shift b bs n (i + 1))

abbrev pub IsByte : ℕ → Type 0
IsByte b = b < 256

bits_from-bits_of :
    (addr : List ℕ) → All IsByte addr → bits_from addr (length addr * 8) 0 ≡ bits_of addr
unfolding bits_of
bits_from-bits_of [] h = refl
bits_from-bits_of (b ∷ bs) (hb, hbs) =
    let n = length bs * 8 in
    let e : suc (length bs) * 8 ≡ suc (suc (suc (suc (suc (suc (suc (suc n))))))) = omega arith in
    let bit = λ (i : ℕ) (h : i < 8). address_bit-head b bs i hb h in
    rw
      (
        e,
        bit 0 (omega arith),
        bit 1 (omega arith),
        bit 2 (omega arith),
        bit 3 (omega arith),
        bit 4 (omega arith),
        bit 5 (omega arith),
        bit 6 (omega arith),
        bit 7 (omega arith),
      )
      (ap
        (λ (t : List Bool).
          is_set b 7
          ∷ is_set b 6
          ∷ is_set b 5
          ∷ is_set b 4
          ∷ is_set b 3
          ∷ is_set b 2
          ∷ is_set b 1
          ∷ is_set b 0
          ∷ t)
        (bits_from-shift b bs n 0 ∙ bits_from-bits_of bs hbs))

-- The reader knows where the IPv4 subtree of an IPv6 database begins.
pub record IsLocated (r : Reader) : Type 0 where
  pub known : eq_ℤ r.meta.ip_version (pos 6) ≡ true → r.ipv4_start_set ≡ true
  pub found : eq_ℤ r.meta.ip_version (pos 6) ≡ true → find_ipv4_start r ≡ ok r.ipv4_start

module _ (r : Reader) where
  -- What a lookup means: the walk along the bits of the address, an IPv4 address in an IPv6
  -- database behind 96 zero bits, and what the node reached stands for.
  unfoldable pub trie_lookup : List Bool → Result Error (Option ℕ)
  trie_lookup bits = walk r bits 0 >>= resolve_node r

  tree_loop-bits_of :
      (addr : List ℕ) (node : ℕ)
      → All IsByte addr
      → tree_loop r addr (length addr * 8) 0 node ≡ walk r (bits_of addr) node
  tree_loop-bits_of addr node h =
      tree_loop-walk r addr (length addr * 8) 0 node
      ∙ ap (λ (bs : List Bool). walk r bs node) (bits_from-bits_of addr h)

  pub walk_from-trie :
      (addr : List ℕ) → All IsByte addr → walk_from r (some (addr, 0)) ≡ trie_lookup (bits_of addr)
  unfolding walk_from trie_lookup
  walk_from-trie addr h = rw (tree_loop-bits_of addr 0 h)

  pub walk_from_v4 :
      (addr : List ℕ)
      → find_ipv4_start r ≡ ok r.ipv4_start
      → All IsByte addr
      → walk_from r (some (addr, r.ipv4_start)) ≡ trie_lookup (replicate 96 false ++ bits_of addr)
  unfolding walk_from trie_lookup find_ipv4_start
  walk_from_v4 addr start h = rw (
    tree_loop-bits_of addr r.ipv4_start h,
    walk-append r (replicate 96 false) (bits_of addr) 0,
    ← left_loop-walk r 96 0,
    start,
  )
