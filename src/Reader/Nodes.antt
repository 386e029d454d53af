-- ===== src/Reader/Nodes.antt =====
-- mmdb.go: the three layouts of a tree node, written.
use traefik_plugin_ipgeoloca.Base.{
  ℕ, ◌+◌, ◌*◌, ◌/◌, ◌%◌, ◌^◌, ◌<◌, ◌≡◌, refl, ◌∙◌, bit_or, List, [], ◌∷◌, ◌++◌, ◌==◌, if◌then◌else◌,
  length, arith, ◌⊎◌, inl, inr,
}
use mathlib.Core.Path.{ap₂}
use traefik_plugin_ipgeoloca.Base.Bits.{shl, or_bytes3, or_bytes4, bit_and_0x0f, bit_and_0xf0}
use traefik_plugin_ipgeoloca.Reader.Tree.{node_records}

-- The three low bytes of a record, most significant first.
abbrev low_bytes : ℕ → List ℕ
low_bytes n = (n / 2 ^ 16 % 256) ∷ (n / 2 ^ 8 % 256) ∷ (n % 256) ∷ []

-- A node as the MMDB specification lays it out: for 28 bits the middle byte holds the high nibbles.
unfoldable pub encode_node : ℕ → ℕ → ℕ → List ℕ
encode_node record_size left right =
    if record_size == 24
    then low_bytes left ++ low_bytes right
    else if record_size == 28
    then low_bytes left ++ (left / 2 ^ 24 * 16 + right / 2 ^ 24) ∷ low_bytes right
    else (left / 2 ^ 24) ∷ (low_bytes left ++ (right / 2 ^ 24) ∷ low_bytes right)

-- The record sizes that `readMetadata` accepts.
abbrev pub IsRecordSize : ℕ → Type 0
IsRecordSize n = (n ≡ 24) ⊎ ((n ≡ 28) ⊎ (n ≡ 32))

pub length-encode_node :
    (n left right : ℕ) → IsRecordSize n → length (encode_node n left right) ≡ n * 2 / 8
unfolding encode_node
length-encode_node n left right h = ground arith

assemble3 :
    (n : ℕ)
    → n < 2 ^ 24
    → bit_or (bit_or (shl (n / 2 ^ 16 % 256) 16) (shl (n / 2 ^ 8 % 256) 8)) (n % 256) ≡ n
assemble3 n h =
    or_bytes3 (n / 2 ^ 16 % 256) (n / 2 ^ 8 % 256) (n % 256) (omega arith) (omega arith)
    ∙ omega arith

assemble4 :
    (n t : ℕ)
    → t ≡ n / 2 ^ 24 * 2 ^ 24
    → bit_or (bit_or (bit_or t (shl (n / 2 ^ 16 % 256) 16)) (shl (n / 2 ^ 8 % 256) 8)) (n % 256) ≡ n
assemble4 n t e =
    or_bytes4 (n / 2 ^ 24) t (n / 2 ^ 16 % 256) (n / 2 ^ 8 % 256) (n % 256) e (omega arith)
      (omega arith) (omega arith)
    ∙ omega arith

module _ (left right : ℕ) where
  records24 :
      left < 2 ^ 24 → right < 2 ^ 24 → node_records 24 (encode_node 24 left right) ≡ (left, right)
  unfolding node_records encode_node
  records24 hl hr = ap₂ (λ l r. (l, r)) (assemble3 left hl) (assemble3 right hr)

  records28 :
      left < 2 ^ 28 → right < 2 ^ 28 → node_records 28 (encode_node 28 left right) ≡ (left, right)
  unfolding node_records encode_node
  records28 hl hr =
      let m = left / 2 ^ 24 * 16 + right / 2 ^ 24 in
      let byte : m < 256 = omega arith in
      ap₂ (λ l r. (l, r)) (assemble4 left _ (rw (bit_and_0xf0 m byte) (omega arith)))
        (assemble4 right _ (rw (bit_and_0x0f m byte) (omega arith)))

  records32 :
      left < 2 ^ 32 → right < 2 ^ 32 → node_records 32 (encode_node 32 left right) ≡ (left, right)
  unfolding node_records encode_node
  records32 hl hr = ap₂ (λ l r. (l, r)) (assemble4 left _ refl) (assemble4 right _ refl)

-- `readNode` reads back both records of a node, for every record size that the code accepts and all
-- records that fit it.
pub node_records-encode_node :
    (record_size left right : ℕ)
    → IsRecordSize record_size
    → left < 2 ^ record_size
    → right < 2 ^ record_size
    → node_records record_size (encode_node record_size left right) ≡ (left, right)
node_records-encode_node n left right (inl e) hl hr =
    rw e (records24 left right (rw e at hl) (rw e at hr))
node_records-encode_node n left right (inr (inl e)) hl hr =
    rw e (records28 left right (rw e at hl) (rw e at hr))
node_records-encode_node n left right (inr (inr e)) hl hr =
    rw e (records32 left right (rw e at hl) (rw e at hr))
