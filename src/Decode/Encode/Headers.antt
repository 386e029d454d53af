-- ===== src/Decode/Encode/Headers.antt =====
-- decode.go: control byte, extended type and size, as an encoder writes them.
use traefik_plugin_ipgeoloca.Base.{
  ℕ, ◌+◌, ◌-◌, ◌*◌, ◌/◌, ◌≤◌, ◌<◌, ◌≡◌, inl, inr, refl, ap, ◌∙◌, bit_and, List, [], ◌∷◌, ◌++◌,
  false, ltb, ◌==◌, length, Result, ok, arith, Bool-cases,
}
use mathlib.Core.Path.{subst}
use traefik_plugin_ipgeoloca.Base.Bits.{bit_and_0x1f}
use traefik_plugin_ipgeoloca.Source.{Source, Error}
use traefik_plugin_ipgeoloca.Value.{Value}
use traefik_plugin_ipgeoloca.Decode.Values.{Store, decode_value, decode_payload}
use traefik_plugin_ipgeoloca.Decode.{type_pointer, extended_type, type_and_size}
use traefik_plugin_ipgeoloca.Decode.Encode.{size_code, size_bytes, encode_header}
use traefik_plugin_ipgeoloca.Decode.Encode.Spells.{Spells, Spells-left, Spells-right, Spells-byte}
use traefik_plugin_ipgeoloca.Decode.Encode.Sizes.{IsSize, size_code-lt, decode_size-size_bytes}

module _ (src : Source) where
  -- A control byte for the type and the code of a size.
  abbrev control : ℕ → ℕ → ℕ
  control value_type size = value_type * 32 + size_code size

  control-code :
      (value_type size : ℕ)
      → value_type < 8
      → bit_and (control value_type size) 0x1f ≡ size_code size
  control-code value_type size small =
      bit_and_0x1f (control value_type size) (omega (arith, small, size_code-lt size))
      ∙ omega (arith, size_code-lt size)

  control-type : (value_type size : ℕ) → control value_type size / 32 ≡ value_type
  control-type value_type size = omega (arith, size_code-lt size)

  -- What stands behind a control byte gives type, size and the offset of the payload.
  type_and_size-short :
      (value_type size off : ℕ)
      → 0 < value_type
      → value_type < 8
      → IsSize size
      → Spells src off (size_bytes size)
      → type_and_size src (control value_type size) off
        ≡ ok (value_type, size, off + length (size_bytes size))
  unfolding type_and_size extended_type
  type_and_size-short value_type size off some_type small fits h =
      let named : (value_type == 0) ≡ false = ground (arith, some_type) in
      rw
        (
          type_and_size,
          extended_type,
          control-type value_type size,
          named,
          control-code value_type size small,
          decode_size-size_bytes src size off fits h,
        )
        refl

  type_and_size-long :
      (value_type size off : ℕ)
      → 8 ≤ value_type
      → IsSize size
      → Spells src off ((value_type - 7) ∷ size_bytes size)
      → type_and_size src (size_code size) off
        ≡ ok (value_type, size, (off + 1) + length (size_bytes size))
  unfolding type_and_size extended_type
  type_and_size-long value_type size off big fits h =
      let extended : size_code size / 32 ≡ 0 = omega (arith, size_code-lt size) in
      let code : bit_and (size_code size) 0x1f ≡ size_code size =
        bit_and_0x1f (size_code size) (omega (arith, size_code-lt size))
        ∙ omega (arith, size_code-lt size) in
      let read = Spells-byte src off (value_type - 7) (size_bytes size) h in
      let back : value_type - 7 + 7 ≡ value_type = omega (arith, big) in
      let rest = Spells-right src off ((value_type - 7) ∷ []) (size_bytes size) h in
      rw
        (
          type_and_size,
          extended_type,
          extended,
          read,
          code,
          back,
          decode_size-size_bytes src size (off + 1) fits rest,
        )
        refl

  module _ (base : ℕ) (store : Store) (rec : ℕ → Result Error (Value × ℕ))
      (value_type size off : ℕ) where
    header_short :
        2 ≤ value_type
        → value_type < 8
        → IsSize size
        → Spells src off (control value_type size ∷ size_bytes size)
        → decode_value src base store rec off
          ≡ decode_payload src store rec value_type size
              (off + length (control value_type size ∷ size_bytes size))
    unfolding decode_value
    header_short no_pointer small fits h =
        let read = Spells-byte src off (control value_type size) (size_bytes size) h in
        let rest = Spells-right src off (control value_type size ∷ []) (size_bytes size) h in
        let apart : (control value_type size / 32 == type_pointer) ≡ false =
          ground (arith, control-type value_type size, no_pointer) in
        let sized =
          type_and_size-short value_type size (off + 1) (omega (arith, no_pointer)) small fits
            rest in
        rw (decode_value, read, apart, sized)
          (ap (decode_payload src store rec value_type size) (omega arith))

    header_long :
        8 ≤ value_type
        → IsSize size
        → Spells src off (size_code size ∷ (value_type - 7) ∷ size_bytes size)
        → decode_value src base store rec off
          ≡ decode_payload src store rec value_type size
              (off + length (size_code size ∷ (value_type - 7) ∷ size_bytes size))
    unfolding decode_value
    header_long big fits h =
        let read = Spells-byte src off (size_code size) ((value_type - 7) ∷ size_bytes size) h in
        let rest =
          Spells-right src off (size_code size ∷ []) ((value_type - 7) ∷ size_bytes size) h in
        let apart : (size_code size / 32 == type_pointer) ≡ false =
          ground (arith, size_code-lt size) in
        let sized = type_and_size-long value_type size (off + 1) big fits rest in
        rw (decode_value, read, apart, sized)
          (ap (decode_payload src store rec value_type size) (omega arith))

    -- The header that an encoder writes is read back.
    pub decode_value-encode_header :
        (payload : List ℕ)
        → 2 ≤ value_type
        → IsSize size
        → Spells src off (encode_header value_type size ++ payload)
        → decode_value src base store rec off
          ≡ decode_payload src store rec value_type size
              (off + length (encode_header value_type size))
    unfolding encode_header
    decode_value-encode_header payload no_pointer fits h =
        let header = Spells-left src off (encode_header value_type size) payload h in
        elim (Bool-cases (ltb value_type 8)) [
          | inl small ↦
              let e : encode_header value_type size ≡ control value_type size ∷ size_bytes size =
                rw (encode_header, small) refl in
              rw e (
                header_short no_pointer (ground (arith, small)) fits
                  (subst (Spells src off) e header))
          | inr big ↦
              let e : encode_header value_type size
                  ≡ size_code size ∷ (value_type - 7) ∷ size_bytes size =
                rw (encode_header, big) refl in
              rw e (header_long (ground (arith, big)) fits (subst (Spells src off) e header))
        ]
