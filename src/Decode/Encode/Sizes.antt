-- ===== src/Decode/Encode/Sizes.antt =====
-- decode.go: the sizes that an encoder writes.
use traefik_plugin_ipgeoloca.Base.{
  ℕ, ◌+◌, ◌-◌, ◌^◌, ◌<◌, ◌≡◌, inl, inr, refl, sym, ap, ◌∙◌, bit_or, List, [], ◌∷◌, true, ltb,
  get_or, length, ok, arith, Bool-cases, All,
}
use mathlib.Core.Path.{subst}
use traefik_plugin_ipgeoloca.Base.Bits.{shl, or_bytes3}
use traefik_plugin_ipgeoloca.Source.{Source}
use traefik_plugin_ipgeoloca.Decode.{big_endian_from, big_endian, byte_at, decode_size}
use traefik_plugin_ipgeoloca.Decode.Numbers.{IsOctet}
use traefik_plugin_ipgeoloca.Decode.Encode.{size_code, size_bytes}
use traefik_plugin_ipgeoloca.Decode.Encode.Bytes.{
  to_bytes, length-to_bytes, to_bytes-IsOctet, big_endian-to_bytes,
}
use traefik_plugin_ipgeoloca.Decode.Encode.Spells.{Spells, Spells-all}

-- The sizes that the format can write.
abbrev pub IsSize : ℕ → Type 0
IsSize size = size < 65821 + 256 ^ 3

pub size_code-lt : (size : ℕ) → size_code size < 32
unfolding size_code
size_code-lt size = ground arith

-- The three bytes of the largest sizes, put together as the code does.
three_bytes :
    (bs : List ℕ)
    → length bs ≡ 3
    → All IsOctet bs
    → bit_or (bit_or (shl (get_or bs 0 0) 16) (shl (get_or bs 1 0) 8)) (get_or bs 2 0)
      ≡ big_endian bs
unfolding big_endian_from
three_bytes [] e h = absurd (omega (arith, e))
three_bytes (a ∷ []) e h = absurd (omega (arith, e))
three_bytes (a ∷ b ∷ []) e h = absurd (omega (arith, e))
three_bytes (a ∷ b ∷ c ∷ []) e (ha, (hb, (hc, _))) = omega (arith, or_bytes3 a b c hb hc)
three_bytes (a ∷ b ∷ c ∷ d ∷ bs) e h = absurd (omega (arith, e))

module _ (src : Source) where
  decode_size_one :
      (off : ℕ) (bs : List ℕ)
      → src.at off 1 ≡ ok bs
      → length bs ≡ 1
      → decode_size src 29 off ≡ ok (29 + big_endian bs, off + 1)
  unfolding decode_size byte_at big_endian_from
  decode_size_one off [] h e = absurd (omega (arith, e))
  decode_size_one off (b ∷ []) h e =
      rw (decode_size, byte_at, h) (ap (λ n. ok (29 + n, off + 1)) (omega arith))
  decode_size_one off (b ∷ c ∷ bs) h e = absurd (omega (arith, e))

  decode_size_two :
      (off : ℕ) (bs : List ℕ)
      → src.at off 2 ≡ ok bs
      → decode_size src 30 off ≡ ok (285 + big_endian bs, off + 2)
  unfolding decode_size
  decode_size_two off bs h = rw (decode_size, h) refl

  decode_size_three :
      (off : ℕ) (bs : List ℕ)
      → src.at off 3 ≡ ok bs
      → length bs ≡ 3
      → All IsOctet bs
      → decode_size src 31 off ≡ ok (65821 + big_endian bs, off + 3)
  unfolding decode_size
  decode_size_three off bs h e octets =
      rw (decode_size, h) (ap (λ n. ok (65821 + n, off + 3)) (three_bytes bs e octets))

  decode_size_small :
      (size off : ℕ) → ltb size 29 ≡ true → decode_size src size off ≡ ok (size, off)
  unfolding decode_size
  decode_size_small size off small = rw (decode_size, small) refl

  -- From a code and bytes to the size.
  by_code :
      (size off code size' width : ℕ) (bs : List ℕ)
      → size_code size ≡ code
      → size_bytes size ≡ bs
      → length bs ≡ width
      → decode_size src code off ≡ ok (size', off + width)
      → size' ≡ size
      → decode_size src (size_code size) off ≡ ok (size, off + length (size_bytes size))
  by_code size off code size' width bs coded spelled wide read same =
      ap (λ c. decode_size src c off) coded
      ∙ read
      ∙ ap (λ n. ok (n, off + width)) same
      ∙ ap (λ n. ok (size, off + n)) (sym wide)
      ∙ ap (λ l. ok (size, off + length l)) (sym spelled)

  pub decode_size-size_bytes :
      (size off : ℕ)
      → IsSize size
      → Spells src off (size_bytes size)
      → decode_size src (size_code size) off ≡ ok (size, off + length (size_bytes size))
  unfolding size_code size_bytes
  decode_size-size_bytes size off fits h = elim (Bool-cases (ltb size 29)) [
    | inl small ↦
        by_code size off size size 0 [] (ground arith) (ground arith) refl
          (decode_size_small size off small ∙ ap (λ n. ok (size, n)) (omega arith)) refl
    | inr a ↦ elim (Bool-cases (ltb size 285)) [
      | inl one ↦
          let bs = to_bytes 1 (size - 29) in
          let e : size_bytes size ≡ bs = ground arith in
          let read =
            Spells-all src off 1 bs (subst (Spells src off) e h) (length-to_bytes 1 (size - 29)) in
          by_code size off 29 (29 + big_endian bs) 1 bs (ground arith) e
            (length-to_bytes 1 (size - 29))
            (decode_size_one off bs read (length-to_bytes 1 (size - 29)))
            (ground (arith, one, a, big_endian-to_bytes 1 (size - 29)))
      | inr b ↦ elim (Bool-cases (ltb size 65821)) [
        | inl two ↦
            let bs = to_bytes 2 (size - 285) in
            let e : size_bytes size ≡ bs = ground arith in
            let read =
              Spells-all src off 2 bs (subst (Spells src off) e h)
                (length-to_bytes 2 (size - 285)) in
            by_code size off 30 (285 + big_endian bs) 2 bs (ground arith) e
              (length-to_bytes 2 (size - 285)) (decode_size_two off bs read)
              (ground (arith, two, b, big_endian-to_bytes 2 (size - 285)))
        | inr c ↦
            let bs = to_bytes 3 (size - 65821) in
            let e : size_bytes size ≡ bs = ground arith in
            let wide = length-to_bytes 3 (size - 65821) in
            let read = Spells-all src off 3 bs (subst (Spells src off) e h) wide in
            by_code size off 31 (65821 + big_endian bs) 3 bs (ground arith) e wide
              (decode_size_three off bs read wide (to_bytes-IsOctet 3 (size - 65821)))
              (ground (arith, fits, c, big_endian-to_bytes 3 (size - 65821)))
      ]
    ]
  ]
